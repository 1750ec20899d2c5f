-- ===== src/Migration/Waiting.antt =====
-- internal/controller/vmmigration_controller.go: the loops that wait for the providers to restart
-- with the storage mounted (`waitForProviderReady`, `waitForProviderBasicReady`). A `for` loop runs
-- on fuel; a round that does not return sleeps for the poll interval, so that the deadline ends the
-- loop after at most `timeout / pollInterval + 2` rounds.
pub mod Deadline
pub mod Pods
pub mod Rules
mod Tests
use projectbeskar_virtrigaud.Common.{
  ℕ, zero, suc, ◌+◌, String, ◌<>◌, ◌=t◌, Bool, true, false, ltb, ◌==◌, if◌then◌else◌, Option, none,
  some, List, [], ◌∷◌, ◌&&◌,
}
use projectbeskar_virtrigaud.Controller.{
  Fault, plain, wrap, Reply, ok, fault, ◌>>=◌, ◌>>◌, pure, stop, ask, query, ◌on_error◌, settle,
  seconds,
}
use projectbeskar_virtrigaud.Migration.Cluster.{Api, Provider, Deployment, Pod}
use projectbeskar_virtrigaud.Migration.Store.{
  Run, is_provider_ready, get_source_provider, get_target_provider,
}

pub mounts : String → List String → Bool
mounts pvc [] = false
mounts pvc (v ∷ vs) = let rest = mounts pvc vs in if v =t pvc then true else rest

-- Why a deployment is not yet good enough, if it is not: the claim, then the two replica counts.
pub deployment_ready : String → Deployment → Bool
deployment_ready pvc d =
    if mounts pvc d.volumes
    then if ltb d.updated_replicas d.replicas
      then false
      else if ltb d.ready_replicas d.replicas
      then false
      else true
    else false

pub all_true : List Bool → Bool
all_true [] = true
all_true (b ∷ bs) = b && all_true bs

-- What the loop over the pods has found: `allPodsReady` and `podsWithPVC`.
pub record Tally : Type 0 where
  pub all_ready : Bool
  pub with_pvc : ℕ

pub count_pod : String → Pod → Tally → Tally
unfolding mounts all_true
count_pod pvc p t =
    if p.terminating
    then t
    else if mounts pvc p.volumes
    then (let t' = record t { with_pvc = suc t.with_pvc } in
        if p.running
        then if p.ready
          then if all_true p.containers then t' else record t' { all_ready = false }
          else record t' { all_ready = false }
        else record t' { all_ready = false })
    else record t { all_ready = false }

pub count_pods : String → List Pod → Tally → Tally
unfolding count_pod
count_pods pvc [] t = t
count_pods pvc (p ∷ ps) t = count_pods pvc ps (count_pod pvc p t)

pods_ready : Tally → Bool
pods_ready t = if t.with_pvc == 0 then false else t.all_ready

abbrev poll_interval : ℕ
poll_interval = seconds 5

abbrev pub wait_timeout : ℕ
wait_timeout = seconds 300

-- `timeout / pollInterval + 2`, for the timeout of 5 minutes and the poll interval of 5 seconds.
abbrev pub wait_fuel : ℕ
wait_fuel = 62

module _ {W : Type 0} (api : Api W) where
  sleep : ℕ → Run W Fault (Unit {0})
  sleep d = ask (λ w. (tt, api.sleep d w))

  give_up_if : Option Fault → Run W Fault (Unit {0})
  give_up_if none = pure tt
  give_up_if (some e) = stop e

  -- The two tests at the head of either loop: the context and the deadline.
  check_time : ℕ → String → Run W Fault (Unit {0})
  unfolding give_up_if
  check_time deadline message = do
    e ← ask api.ctx_err
    give_up_if e
    now ← ask api.now
    if ltb deadline now then stop (plain message) else pure tt

  pub judge_pods : String → Reply (List Pod) → Bool
  unfolding pods_ready count_pods
  judge_pods pvc (fault e) = false
  judge_pods pvc (ok []) = false
  judge_pods pvc (ok pods) =
      pods_ready (count_pods pvc pods (record { all_ready = true; with_pvc = 0 }))

  look_at_pods : Provider → String → Bool → Run W Fault Bool
  unfolding judge_pods
  look_at_pods p pvc false = pure false
  look_at_pods p pvc true = do pods ← settle (query (api.list_pods p)); pure (judge_pods pvc pods)

  judge_deployment : String → Reply Deployment → Bool
  unfolding deployment_ready
  judge_deployment pvc (fault e) = false
  judge_deployment pvc (ok d) = deployment_ready pvc d

  -- One look at the deployment and its pods: whether all checks pass.
  pub poll_pods : Provider → String → Run W Fault Bool
  unfolding look_at_pods judge_deployment
  poll_pods p pvc = do
    d ← settle (
        query (
          api.get_deployment ("virtrigaud-provider-" <> (p.namespace <> ("-" <> p.name)))
            p.namespace))
    look_at_pods p pvc (judge_deployment pvc d)

  -- A loop that polls until it is ready, with a grace period behind the last poll.
  pub poll_loop :
      ℕ → ℕ → String → Run W Fault (Unit {0}) → Run W Fault Bool → Run W Fault (Unit {0})
  unfolding sleep check_time
  poll_loop zero deadline message grace poll = stop (plain message)
  poll_loop (suc fuel) deadline message grace poll = do
    check_time deadline message
    ready ← poll
    if ready then grace else (do sleep poll_interval; poll_loop fuel deadline message grace poll)

  basic_answer : Reply Provider → Bool
  basic_answer (fault e) = false
  basic_answer (ok p) = is_provider_ready p.conditions

  poll_basic : Provider → Run W Fault Bool
  unfolding basic_answer
  poll_basic p = do
    current ← settle (query (api.get_provider p.namespace p.name))
    pure (basic_answer current)

  wait_for_provider_basic_ready : Provider → Run W Fault (Unit {0})
  unfolding poll_loop poll_basic
  wait_for_provider_basic_ready p = do
    start ← ask api.now
    poll_loop wait_fuel (start + wait_timeout)
        ("timeout waiting for provider " <> (p.name <> " to be ready")) (pure tt) (poll_basic p)

  -- Without a claim only the provider's own condition is waited for.
  wait_for_provider_ready : Provider → String → Run W Fault (Unit {0})
  unfolding wait_for_provider_basic_ready poll_pods
  wait_for_provider_ready p pvc = do
    start ← ask api.now
    if pvc =t ""
        then wait_for_provider_basic_ready p
        else poll_loop wait_fuel (start + wait_timeout)
            ("timeout waiting for provider "
              <> (p.name <> (" pods with PVC " <> (pvc <> " to be ready"))))
            (sleep (seconds 10)) (poll_pods p pvc)

  pub wait_for_providers_ready : String → Run W Fault (Unit {0})
  unfolding wait_for_provider_ready
  wait_for_providers_ready pvc = do
    source ← get_source_provider api on_error λ e. stop (wrap "failed to get source provider: " e)
    wait_for_provider_ready source pvc on_error λ e. stop (wrap "source provider not ready: " e)
    target ← get_target_provider api on_error λ e. stop (wrap "failed to get target provider: " e)
    wait_for_provider_ready target pvc on_error λ e. stop (wrap "target provider not ready: " e)
