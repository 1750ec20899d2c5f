-- ===== src/Storage/Copy.antt =====
-- internal/storage/pvc.go: the loops of `Upload` and `Download` that copy from a reader to a writer,
-- count the bytes and report the progress. The object in memory is what the hasher was given so far.
pub mod Laws
mod Tests
use projectbeskar_virtrigaud.Common.{
  ℕ, ◌+◌, ℤ, pos, negsuc, ltb, ◌==◌, ◌=z◌, Bool, true, false, if◌then◌else◌, Option, none, some,
  List, [], ◌∷◌, ◌++◌, length,
}
use projectbeskar_virtrigaud.Controller.{Fault, plain, ◌>>=◌, ◌>>◌, pure, ask, note, modify}
use projectbeskar_virtrigaud.Storage.Types.{
  Reads, more, done, broken, Writer, operation_failed, progress, Run, fail,
}

-- What a `Write` of `n` bytes came to.
pub data Written : Type 0 where
  full short : Written
  failed : Fault → Written

abbrev invalid_write : Fault
invalid_write = plain "invalid write result"

first_fault : Option Fault → Fault → Fault
first_fault none e = e
first_fault (some f) e = f

full_or_short : Bool → Option Fault → Written
full_or_short b (some e) = failed e
full_or_short true none = full
full_or_short false none = short

-- A count that is negative or above `n` is an error of its own where there is no other.
pub judge : ℕ → ℤ × Option Fault → Written
unfolding first_fault full_or_short
judge n (negsuc k, e) = failed (first_fault e invalid_write)
judge n (pos k, e) =
    if ltb n k then failed (first_fault e invalid_write) else full_or_short (k == n) e

-- Where the loop writes to: a writer alone, or `io.MultiWriter` of a writer and the hasher.
pub data Sink (W : Type 0) : Type 0 where
  single multi : Writer W → Sink W

-- `io.MultiWriter` goes on to the hasher, which takes every byte, only behind a full write.
forward : {W : Type 0} → List ℕ → ℤ × Option Fault → Run W (ℤ × Option Fault)
forward chunk (k, some e) = pure (k, some e)
forward chunk (k, none) =
    if k =z pos (length chunk)
    then (do modify (λ hashed. hashed ++ chunk); pure (pos (length chunk), none))
    else pure (k, some (plain "short write"))

pub write_to : {W : Type 0} → Sink W → List ℕ → Run W (ℤ × Option Fault)
unfolding forward
write_to (single writer) chunk = ask (writer chunk)
write_to (multi writer) chunk = do answer ← ask (writer chunk); forward chunk answer

-- `report` is the total to report the progress against, where it is reported.
report_progress : {W : Type 0} → Option ℤ → ℕ → Run W (Unit {0})
report_progress none n = pure tt
report_progress (some total) n = note (progress n total)

-- `n` is the count of the bytes transferred before.
wrote : {W : Type 0} → Option ℤ → List ℕ → ℕ → Written → Run W ℕ
unfolding report_progress
wrote report chunk n (failed e) = fail operation_failed "failed to write to destination" (some e)
wrote report chunk n short = fail operation_failed "short write" none
wrote report chunk n full = do report_progress report (n + length chunk); pure (n + length chunk)

-- Nothing is written of an empty answer.
write_chunk : {W : Type 0} → Sink W → Option ℤ → List ℕ → ℕ → Run W ℕ
unfolding wrote judge write_to
write_chunk sink report [] n = pure n
write_chunk sink report (b ∷ bs) n = do
  answer ← write_to sink (b ∷ bs)
  wrote report (b ∷ bs) n (judge (length (b ∷ bs)) answer)

unfoldable pub copy : {W : Type 0} → Sink W → Option ℤ → Reads → ℕ → Run W ℕ
unfolding write_chunk
copy sink report (more chunk rest) n = do
  n' ← write_chunk sink report chunk n
  copy sink report rest n'
copy sink report (done chunk) n = write_chunk sink report chunk n
copy sink report (broken chunk e) n = do
  n' ← write_chunk sink report chunk n
  fail operation_failed "failed to read source" (some e)
