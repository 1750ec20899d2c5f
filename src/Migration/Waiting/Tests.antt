-- ===== src/Migration/Waiting/Tests.antt =====
-- internal/controller/vmmigration_controller.go: a wait that ends at once, and one that times out.
use projectbeskar_virtrigaud.Common.{ℕ, ◌+◌, ◌≡◌, refl, true, false, [], ◌∷◌, ◌≤◌, arith}
use projectbeskar_virtrigaud.Controller.{Fault, State, ok, pure}
use projectbeskar_virtrigaud.Migration.Sample.{calm, begin, pending, pod}
use projectbeskar_virtrigaud.Migration.Types.{Migration}
use projectbeskar_virtrigaud.Migration.Cluster.{Call}
use projectbeskar_virtrigaud.Migration.Waiting.{judge_pods, poll_loop, wait_fuel, wait_timeout}
use projectbeskar_virtrigaud.Migration.Waiting.Pods.{judge_pods_lem, healthy}
use projectbeskar_virtrigaud.Migration.Waiting.Deadline.{Ticks, poll_loop_fuel}

judge_pods_lem_example :
    judge_pods calm "claim" (ok (record pod { terminating = true } ∷ pod ∷ []))
    ≡ healthy "claim" (ok (record pod { terminating = true } ∷ pod ∷ []))
judge_pods_lem_example =
    judge_pods_lem calm "claim" (ok (record pod { terminating = true } ∷ pod ∷ []))

calm-Ticks : Ticks calm (λ w. w)
calm-Ticks = record {
  reads = λ w. refl;
  after_now = λ w. omega arith;
  after_ctx_err = λ w. omega arith;
  after_sleep = λ d w. omega arith;
}

pure_forward : (s : State Migration Call ℕ) → s.world ≤ (pure {E = Fault} false s).1.world
unfolding pure
pure_forward s = omega arith

-- A provider that never gets ready.
poll_loop_fuel_example :
    poll_loop calm wait_fuel (1000 + wait_timeout) "timeout" (pure tt) (pure false) (begin pending)
    ≡ poll_loop calm 1000 (1000 + wait_timeout) "timeout" (pure tt) (pure false) (begin pending)
poll_loop_fuel_example =
    poll_loop_fuel calm (λ w. w) calm-Ticks "timeout" (pure tt) (pure false) pure_forward 999
      (begin pending) (omega arith)
