-- ===== src/Storage/Copy/Laws.antt =====
-- internal/storage/pvc.go: what the copying loop has done when it ends, whatever the writer answers.
use projectbeskar_virtrigaud.Common.{
  ℕ, ◌+◌, ℤ, pos, negsuc, ltb, ◌=z◌, =z_refl, Bool, true, false, Option, none, some, List, [], ◌∷◌,
  ◌++◌, length, length-append, ◌≡◌, refl, ap, sym, ◌∙◌, subst, arith, if◌then◌else◌,
}
use mathlib.Core.List.{append_assoc, append-nil}
use projectbeskar_virtrigaud.Controller.{Fault, State}
use projectbeskar_virtrigaud.Controller.Runs.{
  Ends, Runs, Runs-pure, Runs-stop, Runs-modify, Runs-note, Runs-ask, Runs-bind, Runs-if,
  Runs-weaken, Runs-both,
}
use projectbeskar_virtrigaud.Storage.Types.{
  Reads, more, done, broken, Writer, StorageError, operation_failed, Call,
}
use projectbeskar_virtrigaud.Storage.Copy.{
  Sink, single, multi, Written, full, short, failed, judge, full_or_short, forward, write_to,
  report_progress, wrote, write_chunk, copy,
}

-- All bytes of a reader, in their order.
unfoldable pub bytes_of : Reads → List ℕ
bytes_of (more chunk rest) = chunk ++ bytes_of rest
bytes_of (done chunk) = chunk
bytes_of (broken chunk e) = chunk

-- Whether a reader comes to its end.
unfoldable pub reaches_end : Reads → Bool
reaches_end (more chunk rest) = reaches_end rest
reaches_end (done chunk) = true
reaches_end (broken chunk e) = false

-- What the hasher was given when the bytes are through: a writer alone does not hash.
unfoldable pub hashed_by : {W : Type 0} → Sink W → List ℕ → List ℕ → List ℕ
hashed_by (single writer) before bytes = before
hashed_by (multi writer) before bytes = before ++ bytes

abbrev pub IsFailure : StorageError → Type 0
IsFailure e = e.kind ≡ operation_failed

-- From the hasher `before` and the count `n` to the hasher `after` and the count `m`.
pub record IsCopied {W : Type 0} (sink : Sink W) (reads : Reads) (before : List ℕ) (n : ℕ)
    (after : List ℕ) (m : ℕ) : Type 0 where
  pub counted : m ≡ n + length (bytes_of reads)
  pub hashed : after ≡ hashed_by sink before (bytes_of reads)
  pub at_end : reaches_end reads ≡ true

-- The same of one chunk.
record IsWritten {W : Type 0} (sink : Sink W) (chunk before : List ℕ) (n : ℕ) (after : List ℕ)
    (m : ℕ) : Type 0 where
  counted : m ≡ n + length chunk
  hashed : after ≡ hashed_by sink before chunk

hashed_by-nil : {W : Type 0} (sink : Sink W) (before : List ℕ) → before ≡ hashed_by sink before []
unfolding hashed_by
hashed_by-nil (single writer) before = refl
hashed_by-nil (multi writer) before = sym (append-nil before)

hashed_by-append :
    {W : Type 0} (sink : Sink W) (before chunk rest : List ℕ)
    → hashed_by sink (hashed_by sink before chunk) rest ≡ hashed_by sink before (chunk ++ rest)
unfolding hashed_by
hashed_by-append (single writer) before chunk rest = refl
hashed_by-append (multi writer) before chunk rest = append_assoc before chunk rest

module _ {W : Type 0} {sink : Sink W} where
  IsCopied-done :
      {chunk before after : List ℕ} {n m : ℕ}
      → IsWritten sink chunk before n after m
      → IsCopied sink (done chunk) before n after m
  unfolding bytes_of reaches_end
  IsCopied-done h = record { counted = h.counted; hashed = h.hashed; at_end = refl }

  IsCopied-more :
      {chunk before between after : List ℕ} {rest : Reads} {n n' m : ℕ}
      → IsWritten sink chunk before n between n'
      → IsCopied sink rest between n' after m
      → IsCopied sink (more chunk rest) before n after m
  unfolding bytes_of reaches_end
  IsCopied-more {chunk = chunk} {before = before} {rest = rest} h k = record {
    counted = omega (arith, h.counted, k.counted, length-append chunk (bytes_of rest));
    hashed =
        k.hashed
        ∙ ap (λ x. hashed_by sink x (bytes_of rest)) h.hashed
        ∙ hashed_by-append sink before chunk (bytes_of rest);
    at_end = k.at_end;
  }

  IsWritten-nil : (before : List ℕ) (n : ℕ) → IsWritten sink [] before n before n
  IsWritten-nil before n = record { counted = omega arith; hashed = hashed_by-nil sink before }

judge_full : (n : ℕ) → judge n (pos n, none) ≡ full
unfolding judge full_or_short
judge_full n = ground arith

-- A full write, and nothing else, goes on to the hasher of `io.MultiWriter`.
abbrev IsForwarded : {W : Type 0} → Sink W → List ℕ → List ℕ → List ℕ → ℤ × Option Fault → Type 0
IsForwarded sink chunk before after answer =
    judge (length chunk) answer ≡ full → after ≡ hashed_by sink before chunk

is_full : Written → Bool
is_full full = true
is_full short = false
is_full (failed e) = false

if_failed : (b : Bool) (e f : Fault) → is_full (if b then failed e else failed f) ≡ false
unfolding is_full
if_failed true e f = refl
if_failed false e f = refl

is_full-judge : (n : ℕ) (k : ℤ) (e : Fault) → is_full (judge n (k, some e)) ≡ false
unfolding judge full_or_short is_full
is_full-judge n (negsuc k) e = refl
is_full-judge n (pos k) e = if_failed (ltb n k) _ _

judge_fault :
    {W : Type 0} (sink : Sink W) (chunk before after : List ℕ) (k : ℤ) (e : Fault)
    → IsForwarded sink chunk before after (k, some e)
unfolding is_full
judge_fault sink chunk before after k e h =
    ground (arith, sym (is_full-judge (length chunk) k e) ∙ ap is_full h)

-- The writer behind a sink.
unfoldable pub writer_of : {W : Type 0} → Sink W → Writer W
writer_of (single writer) = writer
writer_of (multi writer) = writer

-- A writer that takes every chunk as a whole.
unfoldable pub TakesAll : {W : Type 0} → Writer W → Type 0
TakesAll {W} writer = (chunk : List ℕ) (w : W) → (writer chunk w).0 ≡ (pos (length chunk), none)

module _ {W : Type 0} {R : StorageError → Type 0} where
  Runs-forward :
      (writer : Writer W) (chunk before : List ℕ) (answer : ℤ × Option Fault)
      → Runs R before
          (λ o' a. IsForwarded (multi writer) chunk before o' a)
          (forward {W = W} chunk answer)
  unfolding forward hashed_by
  Runs-forward writer chunk before (k, some e) =
      Runs-pure _ (judge_fault (multi writer) chunk before before k e)
  Runs-forward writer chunk before (k, none) =
      Runs-if (k =z pos (length chunk)) _ _
        (λ _. Runs-bind (Runs-modify (λ hashed. hashed ++ chunk)) λ o' u e. Runs-pure _ (λ _. e))
        (λ _. Runs-pure _ (judge_fault (multi writer) chunk before before k _))

  Runs-write_to :
      (sink : Sink W) (chunk before : List ℕ)
      → Runs R before (λ o' a. IsForwarded sink chunk before o' a) (write_to sink chunk)
  unfolding write_to hashed_by
  Runs-write_to (single writer) chunk before =
      Runs-weaken (Runs-ask {P = λ _. Unit} _ (λ w. tt)) λ o' a h f. h.0
  Runs-write_to (multi writer) chunk before =
      Runs-bind (Runs-ask {P = λ _. Unit} _ (λ w. tt)) λ o' answer h.
        subst
          (λ x.
            Runs {W = W} R x (λ o' a. IsForwarded (multi writer) chunk before o' a)
              (forward chunk answer))
          (sym h.0) (Runs-forward writer chunk before answer)

  Runs-report_progress :
      (report : Option ℤ) (n : ℕ) (o : List ℕ)
      → Runs R o (λ o' _. o' ≡ o) (report_progress {W = W} report n)
  unfolding report_progress
  Runs-report_progress none n o = Runs-pure _ refl
  Runs-report_progress (some total) n o = Runs-note _

  Runs-wrote_full :
      (sink : Sink W) (report : Option ℤ) (chunk before after : List ℕ) (n : ℕ)
      → after ≡ hashed_by sink before chunk
      → Runs R after
          (λ o' m. IsWritten sink chunk before n o' m)
          (wrote {W = W} report chunk n full)
  unfolding wrote
  Runs-wrote_full sink report chunk before after n h =
      Runs-bind (Runs-report_progress report (n + length chunk) after)
        λ o' u e. Runs-pure _ (record { counted = refl; hashed = e ∙ h })

Runs-wrote :
    {W : Type 0} (sink : Sink W) (report : Option ℤ) (chunk before after : List ℕ) (n : ℕ)
    (w : Written)
    → (w ≡ full → after ≡ hashed_by sink before chunk)
    → Runs IsFailure after
        (λ o' m. IsWritten sink chunk before n o' m)
        (wrote {W = W} report chunk n w)
unfolding wrote
Runs-wrote sink report chunk before after n (failed e) h = Runs-stop _ refl
Runs-wrote sink report chunk before after n short h = Runs-stop _ refl
Runs-wrote sink report chunk before after n full h =
    Runs-wrote_full sink report chunk before after n (h refl)

module _ {W : Type 0} (sink : Sink W) (report : Option ℤ) where
  Runs-write_chunk :
      (chunk before : List ℕ) (n : ℕ)
      → Runs IsFailure before (IsWritten sink chunk before n) (write_chunk sink report chunk n)
  unfolding write_chunk
  Runs-write_chunk [] before n = Runs-pure _ (IsWritten-nil before n)
  Runs-write_chunk (b ∷ bs) before n =
      Runs-bind (Runs-write_to sink (b ∷ bs) before)
        λ after answer h. Runs-wrote sink report (b ∷ bs) before after n _ h

  pub Runs-copy :
      (reads : Reads) (before : List ℕ) (n : ℕ)
      → Runs IsFailure before (IsCopied sink reads before n) (copy sink report reads n)
  unfolding copy
  Runs-copy (more chunk rest) before n =
      Runs-bind (Runs-write_chunk chunk before n)
        λ between n' h. Runs-weaken (Runs-copy rest between n') λ after m k. IsCopied-more h k
  Runs-copy (done chunk) before n =
      Runs-weaken (Runs-write_chunk chunk before n) λ after m h. IsCopied-done h
  Runs-copy (broken chunk e) before n =
      Runs-bind (Runs-write_chunk chunk before n) λ between n' h. Runs-stop _ refl

  -- However the reader and the writer behave, the copying loop ends with the error OperationFailed, or the
  -- reader has come to its end, exactly its bytes are counted, and exactly these have reached the hasher
  -- where there is one behind `io.MultiWriter`; without it the hasher is left alone.
  pub copy_lem :
      (reads : Reads) (n : ℕ) (s : State (List ℕ) Call W)
      → Ends IsFailure (IsCopied sink reads s.object n) (copy sink report reads n s)
  copy_lem reads n s = (Runs-copy reads s.object n).at s refl

-- No early end.
abbrev pub Never : StorageError → Type 0
Never e = true ≡ false

is_fault : ℤ × Option Fault → Bool
is_fault (k, none) = false
is_fault (k, some e) = true

module _ {W : Type 0} where
  Runs-forward_all :
      (chunk before : List ℕ) (answer : ℤ × Option Fault)
      → answer ≡ (pos (length chunk), none)
      → Runs Never before (λ o' a. a ≡ (pos (length chunk), none)) (forward {W = W} chunk answer)
  unfolding forward is_fault
  Runs-forward_all chunk before (k, some e) h = ground (arith, ap is_fault h)
  Runs-forward_all chunk before (k, none) h =
      Runs-if (k =z pos (length chunk)) _ _
        (λ _. Runs-bind (Runs-modify (λ hashed. hashed ++ chunk)) λ o' u e. Runs-pure _ refl)
        (λ e.
          ground
            (arith, sym e ∙ ap (λ a. a.0 =z pos (length chunk)) h ∙ =z_refl (pos (length chunk))))

  Runs-write_to_all :
      (sink : Sink W) (chunk before : List ℕ)
      → TakesAll (writer_of sink)
      → Runs Never before (λ o' a. a ≡ (pos (length chunk), none)) (write_to sink chunk)
  unfolding write_to TakesAll writer_of
  Runs-write_to_all (single writer) chunk before h =
      Runs-weaken (Runs-ask {P = λ a. a ≡ (pos (length chunk), none)} _ (h chunk)) λ o' a k. k.1
  Runs-write_to_all (multi writer) chunk before h =
      Runs-bind (Runs-ask {P = λ a. a ≡ (pos (length chunk), none)} _ (h chunk))
        λ o' answer k. Runs-forward_all chunk o' answer k.1

  completes_wrote :
      (sink : Sink W) (report : Option ℤ) (chunk before after : List ℕ) (n : ℕ) (w : Written)
      → w ≡ full
      → after ≡ hashed_by sink before chunk
      → Runs Never after
          (λ o' m. IsWritten sink chunk before n o' m)
          (wrote {W = W} report chunk n w)
  completes_wrote sink report chunk before after n w e h =
      subst
        (λ x.
          Runs Never after (λ o' m. IsWritten sink chunk before n o' m)
            (wrote {W = W} report chunk n x))
        (sym e) (Runs-wrote_full sink report chunk before after n h)

module _ {W : Type 0} (sink : Sink W) (report : Option ℤ) (takes : TakesAll (writer_of sink)) where
  completes_write_chunk :
      (chunk before : List ℕ) (n : ℕ)
      → Runs Never before (IsWritten sink chunk before n) (write_chunk sink report chunk n)
  unfolding write_chunk
  completes_write_chunk [] before n = Runs-pure _ (IsWritten-nil before n)
  completes_write_chunk (b ∷ bs) before n =
      Runs-bind
        (Runs-both (Runs-write_to sink (b ∷ bs) before)
          (Runs-write_to_all sink (b ∷ bs) before takes))
        λ after answer h.
          let e = ap (judge (length (b ∷ bs))) h.1 ∙ judge_full (length (b ∷ bs)) in
          completes_wrote sink report (b ∷ bs) before after n _ e (h.0 e)

  completes_copy :
      (reads : Reads) (before : List ℕ) (n : ℕ)
      → reaches_end reads ≡ true
      → Runs Never before (IsCopied sink reads before n) (copy sink report reads n)
  unfolding copy reaches_end
  completes_copy (more chunk rest) before n e =
      Runs-bind (completes_write_chunk chunk before n) λ between n' h.
        Runs-weaken (completes_copy rest between n' e) λ after m k. IsCopied-more h k
  completes_copy (done chunk) before n e =
      Runs-weaken (completes_write_chunk chunk before n) λ after m h. IsCopied-done h
  completes_copy (broken chunk f) before n e = ground (arith, e)

-- With a writer that takes every chunk as a whole, a reader that comes to its end is copied: the loop does
-- not end early, exactly the bytes of the reader are counted, and exactly these have reached the hasher
-- where there is one behind `io.MultiWriter`; without it the hasher is left alone.
pub copy-completes :
    {W : Type 0} (sink : Sink W) (report : Option ℤ) (reads : Reads) (n : ℕ)
    (s : State (List ℕ) Call W)
    → TakesAll (writer_of sink)
    → reaches_end reads ≡ true
    → Ends Never (IsCopied sink reads s.object n) (copy sink report reads n s)
copy-completes sink report reads n s takes e =
    (completes_copy sink report takes reads s.object n e).at s refl
