-- ===== src/Migration/Store/Rounds.antt =====
-- internal/controller/vmmigration_controller.go: how often `updateStatus` writes, and what.
use projectbeskar_virtrigaud.Common.{
  ℕ, zero, suc, ◌+◌, ◌*◌, ◌^◌, ◌≤◌, ◌≡◌, refl, arith, Bool, true, false, List, [], ◌∷◌, ◌++◌,
  if◌then◌else◌,
}
use projectbeskar_virtrigaud.Controller.{
  Fault, Reply, ok, fault, State, ◌>>=◌, ◌>>◌, query, modify, settle, perform_object,
}
use projectbeskar_virtrigaud.Migration.Types.{Migration}
use projectbeskar_virtrigaud.Migration.Cluster.{Api, Call, status_written}
use projectbeskar_virtrigaud.Migration.Store.{
  Run, max_status_retries, next_round, round_answer, update_rounds, update_status,
}

is_write : Call → Bool
is_write (status_written m) = true
is_write _ = false

-- The number of writes of a status.
pub writes : List Call → ℕ
writes [] = 0
writes (c ∷ cs) = (if is_write c then 1 else 0) + writes cs

writes-append :
    (cs : List Call) (m : Migration) → writes (cs ++ status_written m ∷ []) ≡ suc (writes cs)
unfolding writes is_write
writes-append [] m = omega arith
writes-append (c ∷ cs) m = omega (arith, writes-append cs m)

module _ {W : Type 0} (api : Api W) where
  -- At most `left` more writes, and the status as it was.
  abbrev Bounded : ℕ → Run W Fault (Unit {0}) → State Migration Call W → Type 0
  Bounded left m s =
      (writes (m s).1.calls ≤ writes s.calls + left) × ((m s).1.object.status ≡ s.object.status)

  -- The rest of a round behind the answer to the fetch.
  refreshed-Bounded :
      (left : ℕ) (again : Run W Fault (Unit {0})) (r : Reply Migration) (w : W)
      (s : State Migration Call W)
      → ((t : State Migration Call W) → Bounded left again t)
      → Bounded left
          (query (λ v. (r, w)) >>= λ fresh.
            modify (λ o. record fresh { status = o.status }) >> again)
          s
  unfolding ◌>>=◌
  refreshed-Bounded left again (fault e) w s k = (omega arith, refl)
  refreshed-Bounded left again (ok fresh) w s k =
      k (record s { object = record fresh { status = s.object.status }; world = w })

  next_round-Bounded :
      (m : Migration) (attempt left : ℕ) (again : Run W Fault (Unit {0})) (e : Fault) (b : Bool)
      (s : State Migration Call W)
      → ((t : State Migration Call W) → Bounded left again t)
      → Bounded left (next_round api m attempt again e b) s
  unfolding next_round ◌>>=◌
  next_round-Bounded m attempt left again e false s k = (omega arith, refl)
  next_round-Bounded m attempt left again e true s k =
      let slept = api.sleep (100000000 * 2 ^ attempt) s.world in
      let (r, w) = api.get_migration m.namespace m.name slept in
      refreshed-Bounded left again r w (record s { world = slept }) k

  round_answer-Bounded :
      (m : Migration) (attempt left : ℕ) (again : Run W Fault (Unit {0})) (r : Reply ℕ)
      (s : State Migration Call W)
      → ((t : State Migration Call W) → Bounded left again t)
      → Bounded left (round_answer api m attempt again r) s
  unfolding round_answer ◌>>=◌
  round_answer-Bounded m attempt left again (ok v) s k = ground arith
  round_answer-Bounded m attempt left again (fault e) s k =
      next_round-Bounded m attempt left again e _ s k

  -- A round behind the answer to the write.
  written-Bounded :
      (left attempt : ℕ) (again : Run W Fault (Unit {0})) (r : Reply ℕ) (w : W)
      (s : State Migration Call W)
      → ((t : State Migration Call W) → Bounded left again t)
      → Bounded
          (suc left)
          (settle (perform_object status_written (λ o v. (r, w))) >>= λ a.
            round_answer api s.object attempt again a)
          s
  unfolding ◌>>=◌
  written-Bounded left attempt again (ok v) w s k =
      let s' = record s { world = w; calls = s.calls ++ status_written s.object ∷ [] } in
      let (le, same) = round_answer-Bounded s.object attempt left again (ok v) s' k in
      (omega (arith, le, writes-append s.calls s.object), same)
  written-Bounded left attempt again (fault e) w s k =
      let s' = record s { world = w; calls = s.calls ++ status_written s.object ∷ [] } in
      let (le, same) = round_answer-Bounded s.object attempt left again (fault e) s' k in
      (omega (arith, le, writes-append s.calls s.object), same)

  update_rounds-Bounded :
      (left attempt : ℕ) (s : State Migration Call W)
      → Bounded left (update_rounds api left attempt) s
  unfolding update_rounds ◌>>=◌
  update_rounds-Bounded zero attempt s = (omega arith, refl)
  update_rounds-Bounded (suc left) attempt s =
      let (r, w) = api.update_status s.object s.world in
      written-Bounded left attempt (update_rounds api left (suc attempt)) r w s
        (update_rounds-Bounded left (suc attempt))

  -- `updateStatus` writes the status at most three times, whatever the API server answers, and the
  -- object that it leaves has the status that was to be written, even where it was fetched anew.
  pub update_status_lem :
      (s : State Migration Call W)
      → (writes (update_status api s).1.calls ≤ writes s.calls + 3)
        × ((update_status api s).1.object.status ≡ s.object.status)
  unfolding update_status
  update_status_lem s = update_rounds-Bounded max_status_retries 0 s
