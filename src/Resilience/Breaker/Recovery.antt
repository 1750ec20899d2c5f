-- ===== src/Resilience/Breaker/Recovery.antt =====
-- internal/resilience/circuitbreaker.go: consecutive calls by one goroutine, all of which fail or
-- all of which succeed.
use projectbeskar_virtrigaud.Common.{
  leb, ◌==◌, ℕ, zero, suc, ◌+◌, ◌<◌, ◌≡◌, refl, true, false, arith, if◌then◌else◌,
}
use projectbeskar_virtrigaud.Errors.{ErrorValue, is_nil}
use projectbeskar_virtrigaud.Resilience.Breaker.{
  Breaker, closed, half_open, opened, allow_call, record_result, call,
}

module _ {W : Type 0} (clock : W → ℕ) (fn : W → ErrorValue × W) where
  -- The breaker after `n` calls in a row.
  pub calls : ℕ → Breaker → W → Breaker × W
  calls zero cb w = (cb, w)
  calls (suc n) cb w = let (err, cb', w') = call clock fn cb w in calls n cb' w'

  failing_call :
      (fails : (w : W) → is_nil (fn w).0 ≡ false) (cb : Breaker) (w : W)
      → cb.state ≡ closed
      → ((call clock fn cb w).1.failures ≡ suc cb.failures)
        × ((call clock fn cb w).1.config ≡ cb.config)
        × ((call clock fn cb w).1.state
            ≡ (if leb cb.config.failure_threshold (suc cb.failures) then opened else closed))
  unfolding call allow_call record_result
  failing_call fails cb w s = ground (arith, fails w)

  -- Fewer consecutive failures than are left to the threshold keep a closed breaker closed, and
  -- it counts each of them.
  pub calls-failing :
      (fails : (w : W) → is_nil (fn w).0 ≡ false) (n : ℕ) (cb : Breaker) (w : W)
      → cb.state ≡ closed
      → cb.failures + n < cb.config.failure_threshold
      → ((calls n cb w).0.state ≡ closed) × ((calls n cb w).0.failures ≡ cb.failures + n)
  unfolding calls
  calls-failing fails zero cb w s h = ground arith
  calls-failing fails (suc n) cb w s h = ground (
    arith,
    failing_call fails cb w s,
    calls-failing fails n (call clock fn cb w).1 (call clock fn cb w).2,
  )

  -- The consecutive failure that brings a closed breaker to its threshold opens it.
  pub calls-failing_opens :
      (fails : (w : W) → is_nil (fn w).0 ≡ false) (n : ℕ) (cb : Breaker) (w : W)
      → cb.state ≡ closed
      → cb.failures + suc n ≡ cb.config.failure_threshold
      → (calls (suc n) cb w).0.state ≡ opened
  unfolding calls
  calls-failing_opens fails zero cb w s h = ground (arith, failing_call fails cb w s)
  calls-failing_opens fails (suc n) cb w s h = ground (
    arith,
    failing_call fails cb w s,
    calls-failing_opens fails n (call clock fn cb w).1 (call clock fn cb w).2,
  )

  probing_call :
      (succeeds : (w : W) → is_nil (fn w).0 ≡ true) (cb : Breaker) (w : W)
      → cb.state ≡ half_open
      → cb.half_open_calls < cb.config.half_open_max_calls
      → ((call clock fn cb w).1.config ≡ cb.config)
        × (if leb cb.config.half_open_max_calls (suc cb.half_open_calls)
            then ((call clock fn cb w).1.state ≡ closed) × ((call clock fn cb w).1.failures ≡ 0)
            else ((call clock fn cb w).1.state ≡ half_open)
              × ((call clock fn cb w).1.half_open_calls ≡ suc cb.half_open_calls))
  unfolding call allow_call record_result
  probing_call succeeds cb w s h = ground (arith, succeeds w)

  calls-probing :
      (succeeds : (w : W) → is_nil (fn w).0 ≡ true) (n : ℕ) (cb : Breaker) (w : W)
      → cb.state ≡ half_open
      → cb.half_open_calls + suc n ≡ cb.config.half_open_max_calls
      → ((calls (suc n) cb w).0.state ≡ closed) × ((calls (suc n) cb w).0.failures ≡ 0)
  unfolding calls
  calls-probing succeeds zero cb w s h = ground (arith, probing_call succeeds cb w s)
  calls-probing succeeds (suc n) cb w s h = ground (
    arith,
    probing_call succeeds cb w s,
    calls-probing succeeds n (call clock fn cb w).1 (call clock fn cb w).2,
  )

  first_probe :
      (succeeds : (w : W) → is_nil (fn w).0 ≡ true) (cb : Breaker) (w : W)
      → cb.state ≡ opened
      → cb.last_failure_time + cb.config.reset_timeout < clock w
      → ((call clock fn cb w).1.config ≡ cb.config)
        × (if cb.config.half_open_max_calls == 0
            then ((call clock fn cb w).1.state ≡ closed) × ((call clock fn cb w).1.failures ≡ 0)
            else ((call clock fn cb w).1.state ≡ half_open)
              × ((call clock fn cb w).1.half_open_calls ≡ 0))
  unfolding call allow_call record_result
  first_probe succeeds cb w s h = ground (arith, succeeds w)

  reopened :
      (succeeds : (w : W) → is_nil (fn w).0 ≡ true) (quota : ℕ) (cb : Breaker) (w : W)
      → cb.state ≡ opened
      → cb.last_failure_time + cb.config.reset_timeout < clock w
      → cb.config.half_open_max_calls ≡ quota
      → ((calls (suc quota) cb w).0.state ≡ closed) × ((calls (suc quota) cb w).0.failures ≡ 0)
  unfolding calls
  reopened succeeds zero cb w s h q = ground (arith, first_probe succeeds cb w s h)
  reopened succeeds (suc k) cb w s h q =
      let cb' = (call clock fn cb w).1 in
      let w' = (call clock fn cb w).2 in
      ground (arith, first_probe succeeds cb w s h, calls-probing succeeds k cb' w')

  -- A breaker that is open past its reset timeout is closed again, with no failures counted, after
  -- `HalfOpenMaxCalls + 1` consecutive successful calls.
  pub calls-succeeding :
      (succeeds : (w : W) → is_nil (fn w).0 ≡ true) (cb : Breaker) (w : W)
      → cb.state ≡ opened
      → cb.last_failure_time + cb.config.reset_timeout < clock w
      → ((calls (suc cb.config.half_open_max_calls) cb w).0.state ≡ closed)
        × ((calls (suc cb.config.half_open_max_calls) cb w).0.failures ≡ 0)
  calls-succeeding succeeds cb w s h = reopened succeeds cb.config.half_open_max_calls cb w s h refl
