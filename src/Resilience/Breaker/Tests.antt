-- ===== src/Resilience/Breaker/Tests.antt =====
-- internal/resilience/circuitbreaker.go: a sample breaker.

use projectbeskar_virtrigaud.Common.{ℕ, suc, ◌+◌, ◌≡◌, refl, none, List, [], ◌∷◌, arith}
use projectbeskar_virtrigaud.Errors.{ErrorValue, nil, other}
use projectbeskar_virtrigaud.Resilience.Breaker.{
  Breaker, closed, half_open, opened, new_circuit_breaker,
}
use projectbeskar_virtrigaud.Resilience.Breaker.Events.{
  Event, admit, report, clear, run, IsConsistent, run-IsConsistent,
}
use projectbeskar_virtrigaud.Resilience.Breaker.Probing.{
  admissions, admissions-opened, admissions-half_open, admissions-after_timeout,
}
use projectbeskar_virtrigaud.Resilience.Breaker.Recovery.{
  calls, calls-failing, calls-failing_opens, calls-succeeding,
}

-- Open since the time 100, for 10 nanoseconds; then one probe.
abbrev tripped : Breaker
tripped = record {
  name = "vsphere";
  config = record { failure_threshold = 2; reset_timeout = 10; half_open_max_calls = 1 };
  state = opened;
  failures = 2;
  last_failure_time = 100;
  half_open_calls = 0;
  gauge = opened;
  failure_count = 2;
}

abbrev probing : Breaker
probing = record tripped { state = half_open; gauge = half_open }

abbrev fresh : Breaker
fresh = record tripped { state = closed; gauge = closed; failures = 0 }

abbrev history : List Event
history = admit 1 ∷ report 2 (other "refused") ∷ admit 3 ∷ report 4 nil ∷ clear ∷ []

abbrev working : ℕ → ErrorValue × ℕ
working w = (nil, suc w)

abbrev broken : ℕ → ErrorValue × ℕ
broken w = (other "refused", suc w)

abbrev time : ℕ → ℕ
time w = w

run-IsConsistent_example : IsConsistent (run history (new_circuit_breaker "vsphere" none))
run-IsConsistent_example = run-IsConsistent "vsphere" none history

admissions-opened_example : admissions (101 ∷ 110 ∷ []) tripped ≡ (tripped, 0)
admissions-opened_example =
    admissions-opened (101 ∷ 110 ∷ []) tripped refl (omega arith, (omega arith, tt))

admissions-half_open_example :
    ((admissions (200 ∷ 300 ∷ []) probing).1 ≡ 1)
    × ((admissions (200 ∷ 300 ∷ []) probing).0
        ≡ record probing { half_open_calls = 0 + (admissions (200 ∷ 300 ∷ []) probing).1 })
admissions-half_open_example = admissions-half_open (200 ∷ 300 ∷ []) probing refl (omega arith)

-- Two are admitted, where the configuration allows one probe.
admissions-after_timeout_example : (admissions (111 ∷ 112 ∷ 113 ∷ []) tripped).1 ≡ 2
admissions-after_timeout_example =
    admissions-after_timeout 111 (112 ∷ 113 ∷ []) tripped refl (omega arith)

calls-failing_example :
    ((calls time broken 1 fresh 200).0.state ≡ closed)
    × ((calls time broken 1 fresh 200).0.failures ≡ 1)
calls-failing_example = calls-failing time broken (λ w. refl) 1 fresh 200 refl (omega arith)

calls-failing_opens_example : (calls time broken 2 fresh 200).0.state ≡ opened
calls-failing_opens_example =
    calls-failing_opens time broken (λ w. refl) 1 fresh 200 refl (omega arith)

calls-succeeding_example :
    ((calls time working 2 tripped 200).0.state ≡ closed)
    × ((calls time working 2 tripped 200).0.failures ≡ 0)
calls-succeeding_example = calls-succeeding time working (λ w. refl) tripped 200 refl (omega arith)
