-- ===== src/Adoption/Reconcile.antt =====
-- internal/controller/vmadoption_controller.go (`Reconcile`, `isProviderReady`, the event filter of
-- `SetupWithManager`): a pass over a provider.
pub mod Rules
mod Tests
use projectbeskar_virtrigaud.Common.{
  ℕ, zero, suc, ◌-◌, pos, to_int32, decimal, ltb, ◌==◌, length, String, ◌<>◌, ◌=t◌, Bool, true,
  false, not, ◌&&◌, ◌||◌, if◌then◌else◌, Option, none, some, List, [], ◌∷◌, is_some,
}
use projectbeskar_virtrigaud.Conditions.Condition.{met, has_status}
use projectbeskar_virtrigaud.Conditions.Api.{get_condition}
use projectbeskar_virtrigaud.Controller.{
  Fault, Reply, ok, fault, Outcome, finished, requeue_after, failed, seconds, pass, ◌>>=◌, ◌>>◌,
  pure, stop, the_object, modify, ask, perform_object, ◌on_error◌, settle,
}
use projectbeskar_virtrigaud.Adoption.Types.{
  VmInfo, VmAdoptionFilter, ProviderAdoptionStatus, Provider, entry, Call, provider_status_written,
  Api, Run, Handler,
}
use projectbeskar_virtrigaud.Adoption.Filter.{parse_filter_annotation}
use projectbeskar_virtrigaud.Adoption.Discovery.{discover_unmanaged_vms}
use projectbeskar_virtrigaud.Adoption.Adopting.{adopt_vm}

pub adoption_annotation : Provider → String
adoption_annotation p = entry p.annotations "virtrigaud.io/adopt-vms"

filter_annotation : Provider → String
filter_annotation p = entry p.annotations "virtrigaud.io/adopt-filter"

pub is_provider_ready : Provider → Bool
is_provider_ready p = has_status met (get_condition p.conditions "ProviderAvailable")

-- Which updates of a provider lead to a pass.
pub is_due : Provider → Provider → Bool
unfolding adoption_annotation filter_annotation is_provider_ready
is_due old new =
    adoption_annotation new =t "true"
    && (not (adoption_annotation old =t adoption_annotation new)
        || not (filter_annotation old =t filter_annotation new)
        || not (is_provider_ready old) && is_provider_ready new
        || not (is_some old.adoption) && is_some new.adoption
        || not (old.generation == new.generation))

-- How many machines were adopted and how many failed.
pub record Counts : Type 0 where
  pub adopted : ℕ
  pub failed : ℕ

pub count_one : Reply Unit → Counts → Counts
count_one (ok u) c = record c { adopted = suc c.adopted }
count_one (fault e) c = record c { failed = suc c.failed }

count_text : ℕ → String
count_text n = decimal (to_int32 (pos n))

summary : Counts → String
unfolding count_text
summary c =
    if ltb 0 c.failed
    then "Adopted " <> (count_text c.adopted <> (" VMs, " <> (count_text c.failed <> " failed")))
    else "Successfully adopted " <> (count_text c.adopted <> " VMs")

abbrev no_adoption : ProviderAdoptionStatus
no_adoption = record {
  last_discovery_time = none;
  discovered_vms = pos 0;
  adopted_vms = pos 0;
  failed_adoptions = pos 0;
  message = "";
}

pub adoption_of : Provider → ProviderAdoptionStatus
adoption_of p = elim p.adoption [ none ↦ no_adoption | some a ↦ a ]

pub set_adoption : (ProviderAdoptionStatus → ProviderAdoptionStatus) → Provider → Provider
unfolding adoption_of
set_adoption f p = record p { adoption = some (f (adoption_of p)) }

pub with_counts : Counts → ProviderAdoptionStatus → ProviderAdoptionStatus
unfolding summary
with_counts c a = record a {
  adopted_vms = to_int32 (pos c.adopted);
  failed_adoptions = to_int32 (pos c.failed);
  message = summary c;
}

module _ {W : Type 0} (api : Api W) where
  update_status : Run W Fault Unit
  update_status = perform_object provider_status_written api.update_status

  -- An error of the write is only logged.
  try_update_status : {E : Type 0} → Run W E (Unit {0})
  unfolding update_status
  try_update_status = do r ← settle update_status; pure tt

  put_adoption :
      {E : Type 0} → (ProviderAdoptionStatus → ProviderAdoptionStatus) → Run W E (Unit {0})
  unfolding set_adoption
  put_adoption f = modify (set_adoption f)

  -- A message, the write of the status, and the next pass.
  report : {A : Type 0} → String → ℕ → Run W Outcome A
  unfolding put_adoption try_update_status
  report message delay = do
    put_adoption (λ a. record a { message = message })
    try_update_status
    stop (requeue_after delay)

  cleared : Bool → Handler W
  unfolding try_update_status
  cleared false = stop finished
  cleared true = do modify (λ p. record p { adoption = none }); try_update_status; stop finished

  parsed_filter : Reply VmAdoptionFilter → Run W Outcome (Option VmAdoptionFilter)
  unfolding report
  parsed_filter (ok f) = pure (some f)
  parsed_filter (fault e) = report ("Invalid filter: " <> e.text) (seconds 300)

  filter_of : String → Run W Outcome (Option VmAdoptionFilter)
  unfolding parsed_filter
  filter_of text =
      if text =t "" then pure none else parsed_filter (parse_filter_annotation api text)

  -- A discovery within the last five minutes ends the pass.
  wait_since : Option ℕ → Handler W
  wait_since none = pure tt
  wait_since (some t) = do
    now ← ask api.now
    if ltb (now - t) (seconds 300) then stop (requeue_after (seconds 300)) else pure tt

  -- An error of one machine does not keep the others from being adopted.
  pub adopt_all : {E : Type 0} → Provider → List VmInfo → Counts → Run W E Counts
  unfolding count_one
  adopt_all p [] c = pure c
  adopt_all p (info ∷ rest) c = do
    r ← settle (adopt_vm api p info)
    adopt_all p rest (count_one r c)

  pub adopt_discovered : List VmInfo → Handler W
  unfolding wait_since put_adoption update_status with_counts adoption_of
  adopt_discovered vms = do
    now ← ask api.now
    p ← the_object
    wait_since (adoption_of p).last_discovery_time
    put_adoption (λ a. record a {
      last_discovery_time = some now;
      discovered_vms = to_int32 (pos (length vms));
    })
    c ← adopt_all p vms (record { adopted = 0; failed = 0 })
    put_adoption (with_counts c)
    written ← update_status on_error λ e. stop (failed e)
    stop (requeue_after (seconds 3600))

  adopt : Handler W
  unfolding put_adoption report filter_of adopt_discovered is_provider_ready filter_annotation
  adopt = do
    put_adoption (λ a. a)
    p ← the_object
    if is_provider_ready p then pure tt else report "Provider not ready" (seconds 30)
    f ← filter_of (filter_annotation p)
    vms ← discover_unmanaged_vms api p f on_error λ e.
        report ("Discovery failed: " <> e.text) (seconds 300)
    adopt_discovered vms

  pub reconcile_object : Handler W
  unfolding cleared adopt adoption_annotation
  reconcile_object = do
    p ← the_object
    if adoption_annotation p =t "true" then adopt else cleared (is_some p.adoption)

  pub reconcile : Reply Provider × W → Outcome × W × List Call
  unfolding reconcile_object
  reconcile fetched = pass reconcile_object fetched
