-- ===== src/Migration/Retry/Limit.antt =====
-- internal/controller/vmmigration_controller.go: how often a failed migration is tried again.
use projectbeskar_virtrigaud.Common.{
  ℕ, suc, ◌≤◌, ◌<◌, ◌≡◌, refl, if◌then◌else◌, true, false, Bool, arith, sym, subst, Option, none,
  some, [], All,
}
use projectbeskar_virtrigaud.Controller.{State, stop, ◌>>=◌}
use projectbeskar_virtrigaud.Controller.Keeps.{Keeps, Keeps-stop, Keeps-the_object, ◌and_then◌}
use projectbeskar_virtrigaud.Migration.Types.{Migration, MigrationStatus, MigrationRetryPolicy}
use projectbeskar_virtrigaud.Migration.Cluster.{Api, Call}
use projectbeskar_virtrigaud.Migration.Store.{Handler, put_status, set_status}
use projectbeskar_virtrigaud.Migration.Store.Rules.{
  Over, IsStable, Keeps-record_condition, Keeps-save,
}
use projectbeskar_virtrigaud.Migration.Store.Saved.{
  Saved, Written, Saved-IsStable, Keeps-put_status, Keeps-event,
}
use projectbeskar_virtrigaud.Migration.Retry.{
  give_up, start_over, retry_now, wait_or_retry, try_again, with_policy, handle_failed_phase,
  max_retries, policy_of,
}

-- At most `limit` retries are counted.
abbrev pub IsLimited : ℕ → MigrationStatus → Type 0
IsLimited limit st = st.retry_count ≤ limit

module _ {W : Type 0} (api : Api W) (limit : ℕ) where
  abbrev Limited : MigrationStatus → Type 0
  Limited = IsLimited limit

  -- What a handler leaves.
  abbrev Leaves : Handler W → State Migration Call W → Type 0
  Leaves h s = Over (Saved Limited) (h s).1.object (h s).1.calls

  stable : IsStable (Saved Limited)
  stable = Saved-IsStable Limited (λ l st h. h)

  Keeps-give_up : Keeps (Over (Saved Limited)) (give_up api)
  unfolding give_up
  Keeps-give_up = Keeps-put_status Limited _ (λ st h. h) and_then λ u.
      Keeps-save api stable and_then λ v. Keeps-stop _

  Keeps-start_over : Keeps (Over (Saved Limited)) (start_over api limit)
  unfolding start_over
  Keeps-start_over = Keeps-the_object and_then λ m.
      Keeps-put_status Limited _ (λ st h. h) and_then λ v.
      Keeps-put_status Limited _ (λ st h. h) and_then λ w.
      Keeps-record_condition api stable _ _ _ _ and_then λ x.
      Keeps-event Limited _ _ _ and_then λ y. Keeps-save api stable and_then λ z. Keeps-stop _

  -- The retry is counted where there is room for it.
  retry_now-Limited :
      (now : ℕ) (s : State Migration Call W)
      → s.object.status.retry_count < limit
      → All (Written Limited) s.calls
      → Leaves (retry_now api limit now) s
  unfolding retry_now put_status ◌>>=◌
  retry_now-Limited now s h e =
      Keeps-start_over.at
        (record s {
          object =
              set_status
                (λ st. record st { retry_count = suc st.retry_count; last_retry_time = some now })
                s.object;
        })
        (h, e)

  wait_or_retry-Limited :
      (now : ℕ) (r : Option ℕ) (s : State Migration Call W)
      → s.object.status.retry_count < limit
      → All (Written Limited) s.calls
      → Leaves (wait_or_retry api limit now r) s
  unfolding wait_or_retry stop
  wait_or_retry-Limited now (some remaining) s h e = (omega (arith, h), e)
  wait_or_retry-Limited now none s h e = retry_now-Limited now s h e

module _ {W : Type 0} (api : Api W) (p : MigrationRetryPolicy) (m : Migration) (w : W)
    (h : m.status.retry_count ≤ max_retries p) where
  abbrev start : State Migration Call W
  start = record { object = m; world = w; calls = [] }

  tested-Limited :
      (b : Bool)
      → (b ≡ false → m.status.retry_count < max_retries p)
      → Leaves api (max_retries p) (if b then give_up api else try_again api m p) start
  unfolding try_again ◌>>=◌
  tested-Limited true room = (Keeps-give_up api (max_retries p)).at start (h, tt)
  tested-Limited false room =
      let (now, w') = api.now w in
      wait_or_retry-Limited api (max_retries p) now _ (record start { world = w' }) (room refl) tt

  with_policy-Limited : Leaves api (max_retries p) (with_policy api m (some p)) start
  unfolding with_policy
  with_policy-Limited = tested-Limited _ (λ f. ground arith)

-- A failed migration whose policy allows `MaxRetries` retries never counts more than those: if the
-- handler of the phase Failed finds at most as many, the status behind it and every status that it
-- wrote has at most as many.
pub handle_failed_phase-IsLimited :
    {W : Type 0} (api : Api W) (p : MigrationRetryPolicy) (m : Migration) (w : W)
    → policy_of m.spec.options ≡ some p
    → m.status.retry_count ≤ max_retries p
    → Saved
        (IsLimited (max_retries p))
        (handle_failed_phase api (record { object = m; world = w; calls = [] })).1.object.status
        (handle_failed_phase api (record { object = m; world = w; calls = [] })).1.calls
unfolding handle_failed_phase ◌>>=◌
handle_failed_phase-IsLimited api p m w e h =
    subst
      (λ o.
        Leaves api (max_retries p) (with_policy api m o)
          (record { object = m; world = w; calls = [] }))
      (sym e) (with_policy-Limited api p m w h)
