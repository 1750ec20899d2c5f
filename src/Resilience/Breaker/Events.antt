-- ===== src/Resilience/Breaker/Events.antt =====
-- internal/resilience/circuitbreaker.go under concurrent use: each of `allowCall`, `recordResult`
-- and `Reset` runs under the breaker's mutex, so any use of a breaker by any number of goroutines
-- is a sequence of these three events.
use projectbeskar_virtrigaud.Common.{
  ℕ, ◌+◌, ◌≤◌, ◌<◌, ◌≡◌, ◌≢◌, ◌⊎◌, List, [], ◌∷◌, String, Option, length, arith,
}
use projectbeskar_virtrigaud.Errors.{ErrorValue}
use projectbeskar_virtrigaud.Resilience.Breaker.{
  Breaker, Config, closed, half_open, new_circuit_breaker, allow_call, record_result, reset,
}

pub data Event : Type 0 where
  admit : ℕ → Event
  report : ℕ → ErrorValue → Event
  clear : Event

pub step : Event → Breaker → Breaker
step (admit now) cb = (allow_call now cb).0
step (report now err) cb = record_result now err cb
step clear cb = reset cb

pub run : List Event → Breaker → Breaker
unfolding step
run [] cb = cb
run (e ∷ es) cb = run es (step e cb)

pub record IsConsistent (cb : Breaker) : Type 0 where
  pub gauge_current : cb.gauge ≡ cb.state
  pub probes_bounded : cb.half_open_calls ≤ cb.config.half_open_max_calls
  pub probes_idle : cb.state ≢ half_open → cb.half_open_calls ≡ 0
  pub below_threshold :
      cb.state ≡ closed → (cb.failures ≡ 0) ⊎ (cb.failures < cb.config.failure_threshold)
  pub counted : cb.failures ≤ cb.failure_count

new-IsConsistent :
    (name : String) (config : Option Config) → IsConsistent (new_circuit_breaker name config)
unfolding new_circuit_breaker
new-IsConsistent name config = ground arith

step-IsConsistent : (e : Event) (cb : Breaker) → IsConsistent cb → IsConsistent (step e cb)
unfolding step allow_call record_result reset
step-IsConsistent (admit now) cb h = ground arith
step-IsConsistent (report now err) cb h = ground arith
step-IsConsistent clear cb h = ground arith

run-IsConsistent_from :
    (es : List Event) (cb : Breaker) → IsConsistent cb → IsConsistent (run es cb)
unfolding run
run-IsConsistent_from [] cb h = h
run-IsConsistent_from (e ∷ es) cb h =
    run-IsConsistent_from es (step e cb) (step-IsConsistent e cb h)

-- Whatever calls, results and resets reach a new breaker, in whatever order, its gauge shows its
-- state, at most `HalfOpenMaxCalls` probes are counted and none outside the half-open state, a
-- closed breaker has no failure or fewer than the threshold, and the failures that it holds were
-- all counted in its metric.
pub run-IsConsistent :
    (name : String) (config : Option Config) (es : List Event)
    → IsConsistent (run es (new_circuit_breaker name config))
run-IsConsistent name config es =
    run-IsConsistent_from es (new_circuit_breaker name config) (new-IsConsistent name config)

failures-step : (e : Event) (cb : Breaker) → (step e cb).failures ≤ cb.failures + 1
unfolding step allow_call record_result reset
failures-step (admit now) cb = ground arith
failures-step (report now err) cb = ground arith
failures-step clear cb = ground arith

-- The failure counter of a breaker grows by at most one for each event of a history.
failures-run : (es : List Event) (cb : Breaker) → (run es cb).failures ≤ cb.failures + length es
unfolding run
failures-run [] cb = omega arith
failures-run (e ∷ es) cb = omega (arith, failures-run es (step e cb), failures-step e cb)
