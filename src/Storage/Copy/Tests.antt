-- ===== src/Storage/Copy/Tests.antt =====
-- A copy of three bytes to a writer that takes all of them, with a hasher behind it.
use projectbeskar_virtrigaud.Common.{ℕ, true, ◌≡◌, pos, none, some, List, [], ◌∷◌, length, refl}
use projectbeskar_virtrigaud.Controller.{State}
use projectbeskar_virtrigaud.Controller.Runs.{Ends}
use projectbeskar_virtrigaud.Storage.Types.{Reads, more, done, Writer, Call}
use projectbeskar_virtrigaud.Storage.Copy.{Sink, multi, copy}
use projectbeskar_virtrigaud.Storage.Copy.Laws.{
  IsFailure, IsCopied, Never, TakesAll, writer_of, reaches_end, copy_lem, copy-completes,
}

abbrev three_bytes : Reads
three_bytes = more (1 ∷ 2 ∷ []) (done (3 ∷ []))

abbrev start : State (List ℕ) Call Unit
start = record { object = []; world = tt; calls = [] }

abbrev take_all : Writer Unit
take_all chunk w = ((pos (length chunk), none), w)

abbrev sink : Sink Unit
sink = multi take_all

take_all-TakesAll : TakesAll (writer_of sink)
unfolding TakesAll writer_of
take_all-TakesAll chunk w = refl

ends : reaches_end three_bytes ≡ true
unfolding reaches_end
ends = refl

copy_lem_example :
    Ends IsFailure (IsCopied sink three_bytes [] 0) (copy sink (some (pos 3)) three_bytes 0 start)
copy_lem_example = copy_lem sink (some (pos 3)) three_bytes 0 start

copy-completes_example :
    Ends Never (IsCopied sink three_bytes [] 0) (copy sink (some (pos 3)) three_bytes 0 start)
copy-completes_example =
    copy-completes sink (some (pos 3)) three_bytes 0 start take_all-TakesAll ends
