-- ===== src/Migration/Waiting/Rules.antt =====
-- internal/controller/vmmigration_controller.go: the waiting loops keep every invariant, since they
-- only look.
use projectbeskar_virtrigaud.Common.{
  ℕ, zero, suc, String, Option, none, some, List, Bool, true, false,
}
use projectbeskar_virtrigaud.Controller.{Fault}
use projectbeskar_virtrigaud.Controller.Keeps.{Keeps, keeps_rules, Keeps-bind, Keeps-if}
use projectbeskar_virtrigaud.Migration.Types.{Migration}
use projectbeskar_virtrigaud.Migration.Cluster.{Api, Call, Provider}
use projectbeskar_virtrigaud.Migration.Store.{Run}
use projectbeskar_virtrigaud.Migration.Store.Rules.{lookup_rules}
use projectbeskar_virtrigaud.Migration.Waiting.{
  sleep, give_up_if, check_time, look_at_pods, poll_pods, poll_loop, poll_basic,
  wait_for_provider_basic_ready, wait_for_provider_ready, wait_for_providers_ready,
}

module _ {W : Type 0} (api : Api W) (J : Migration → List Call → Type 0) where
  Keeps-sleep : (d : ℕ) → Keeps J (sleep api d)
  unfolding sleep
  Keeps-sleep d = search keeps_rules

  Keeps-give_up_if : (e : Option Fault) → Keeps J (give_up_if api e)
  unfolding give_up_if
  Keeps-give_up_if none = search keeps_rules
  Keeps-give_up_if (some e) = search keeps_rules

  Keeps-check_time : (deadline : ℕ) (message : String) → Keeps J (check_time api deadline message)
  unfolding check_time
  Keeps-check_time deadline message = search (keeps_rules, Keeps-give_up_if) depth 8

  Keeps-look_at_pods : (p : Provider) (pvc : String) (b : Bool) → Keeps J (look_at_pods api p pvc b)
  unfolding look_at_pods
  Keeps-look_at_pods p pvc false = search keeps_rules
  Keeps-look_at_pods p pvc true = search keeps_rules depth 8

  Keeps-poll_pods : (p : Provider) (pvc : String) → Keeps J (poll_pods api p pvc)
  unfolding poll_pods
  Keeps-poll_pods p pvc = search (keeps_rules, Keeps-look_at_pods) depth 8

  Keeps-poll_loop :
      (fuel deadline : ℕ) (message : String) (grace : Run W Fault (Unit {0}))
      (poll : Run W Fault Bool)
      → Keeps J grace
      → Keeps J poll
      → Keeps J (poll_loop api fuel deadline message grace poll)
  unfolding poll_loop
  Keeps-poll_loop zero deadline message grace poll g p = search keeps_rules
  Keeps-poll_loop (suc fuel) deadline message grace poll g p =
      let again = Keeps-poll_loop fuel deadline message grace poll g p in
      Keeps-bind _ _ (Keeps-check_time deadline message) λ u.
        Keeps-bind _ _ p λ ready. Keeps-if ready _ _ g (Keeps-bind _ _ (Keeps-sleep _) λ v. again)

  Keeps-poll_basic : (p : Provider) → Keeps J (poll_basic api p)
  unfolding poll_basic
  Keeps-poll_basic p = search keeps_rules depth 8

  Keeps-basic : (p : Provider) → Keeps J (wait_for_provider_basic_ready api p)
  unfolding wait_for_provider_basic_ready
  Keeps-basic p = search (keeps_rules, Keeps-poll_loop, Keeps-poll_basic) depth 8

  Keeps-wait_for_provider_ready :
      (p : Provider) (pvc : String) → Keeps J (wait_for_provider_ready api p pvc)
  unfolding wait_for_provider_ready
  Keeps-wait_for_provider_ready p pvc =
      search (keeps_rules, Keeps-basic, Keeps-poll_loop, Keeps-poll_pods, Keeps-sleep) depth 8

  pub Keeps-wait_for_providers_ready : (pvc : String) → Keeps J (wait_for_providers_ready api pvc)
  unfolding wait_for_providers_ready
  Keeps-wait_for_providers_ready pvc =
      search (keeps_rules, lookup_rules, Keeps-wait_for_provider_ready) depth 16
