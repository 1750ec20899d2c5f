-- ===== src/Migration/Store/Rules.antt =====
-- internal/controller/vmmigration_controller.go: what `updateStatus`, `transitionToFailed` and the
-- lookups keep, for invariants over the status and the calls made.
use projectbeskar_virtrigaud.Common.{
  Bool, true, false, ℕ, zero, suc, String, Option, none, some, List, [], ◌∷◌, ◌++◌,
}
use projectbeskar_virtrigaud.Conditions.Condition.{Condition, Status}
use projectbeskar_virtrigaud.Controller.{Fault, Reply, ok, fault}
use projectbeskar_virtrigaud.Controller.Keeps.{
  Keeps, keeps_rules, Keeps-ask, Keeps-query, Keeps-settle, Keeps-bind, Keeps-modify, Keeps-note,
  Keeps-perform_object, Keeps-stop,
}
use projectbeskar_virtrigaud.Migration.Types.{Migration, MigrationStatus, MigrationPhase, ObjectRef}
use projectbeskar_virtrigaud.Migration.Cluster.{
  Api, Call, status_written, event, VirtualMachine, Provider,
}
use projectbeskar_virtrigaud.Migration.Store.{
  Run, put_status, max_status_retries, record_condition, next_round, round_answer, update_rounds,
  update_status, save, transition_to_failed, ◌or_fail◌, get_source_vm, get_provider,
  provider_of_source, source_ref, get_source_provider, get_target_provider, get_provider_instance,
}

-- An invariant of the status and the calls, as one of the whole object.
abbrev pub Over : (MigrationStatus → List Call → Type 0) → Migration → List Call → Type 0
Over J m cs = J m.status cs

-- `J` does not mind that the status is written, that an event is recorded or that the conditions
-- change.
pub record IsStable (J : MigrationStatus → List Call → Type 0) : Type 0 where
  pub on_write :
      (m : Migration) (cs : List Call) → J m.status cs → J m.status (cs ++ status_written m ∷ [])
  pub on_event :
      (a b c : String) (st : MigrationStatus) (cs : List Call)
      → J st cs
      → J st (cs ++ event a b c ∷ [])
  pub on_conditions :
      (l : List Condition) (st : MigrationStatus) (cs : List Call)
      → J st cs
      → J (record st { conditions = l }) cs

-- Nor that the migration fails.
pub record IsFailStable (J : MigrationStatus → List Call → Type 0) : Type 0 where
  pub on_failed :
      (message : String) (st : MigrationStatus) (cs : List Call)
      → J st cs
      → J (record st { phase = MigrationPhase.failed; message = message }) cs
  pub on_completion :
      (t : Option ℕ) (st : MigrationStatus) (cs : List Call)
      → J st cs
      → J (record st { completion_time = t }) cs

module _ {W : Type 0} (api : Api W) {J : MigrationStatus → List Call → Type 0}
    (stable : IsStable J) where
  pub Keeps-record_condition :
      {E : Type 0} (kind : String) (status : Status) (reason message : String)
      → Keeps {E = E} (Over J) (record_condition api kind status reason message)
  unfolding record_condition put_status
  Keeps-record_condition kind status reason message =
      Keeps-bind _ _ (search keeps_rules)
        λ now. Keeps-modify _ (λ o cs h. stable.on_conditions _ o.status cs h)

  Keeps-next_round :
      (m : Migration) (attempt : ℕ) (again : Run W Fault (Unit {0})) (e : Fault) (b : Bool)
      → Keeps (Over J) again
      → Keeps (Over J) (next_round api m attempt again e b)
  unfolding next_round
  Keeps-next_round m attempt again e false k = Keeps-stop _
  Keeps-next_round m attempt again e true k = Keeps-bind _ _ (Keeps-ask _) λ u.
      Keeps-bind _ _ (Keeps-query _) λ fresh. Keeps-bind _ _ (Keeps-modify _ (λ o cs h. h)) λ v. k

  Keeps-round_answer :
      (m : Migration) (attempt : ℕ) (again : Run W Fault (Unit {0})) (r : Reply ℕ)
      → Keeps (Over J) again
      → Keeps (Over J) (round_answer api m attempt again r)
  unfolding round_answer
  Keeps-round_answer m attempt again (ok v) k = Keeps-modify _ (λ o cs h. h)
  Keeps-round_answer m attempt again (fault e) k = Keeps-next_round m attempt again e _ k

  Keeps-update_rounds : (left attempt : ℕ) → Keeps (Over J) (update_rounds api left attempt)
  unfolding update_rounds
  Keeps-update_rounds zero attempt = Keeps-stop _
  Keeps-update_rounds (suc left) attempt =
      let again = Keeps-update_rounds left (suc attempt) in
      Keeps-bind _ _ (search keeps_rules) λ m.
        Keeps-bind _ _ (Keeps-settle _ (Keeps-perform_object _ _ stable.on_write))
          λ r. Keeps-round_answer m attempt _ r again

  pub Keeps-update_status : Keeps (Over J) (update_status api)
  unfolding update_status
  Keeps-update_status = Keeps-update_rounds max_status_retries 0

  pub Keeps-save : Keeps (Over J) (save api)
  unfolding save
  Keeps-save = search (keeps_rules, Keeps-update_status)

module _ {W : Type 0} (api : Api W) {J : MigrationStatus → List Call → Type 0} (stable : IsStable J)
    (fails : IsFailStable J) where
  pub Keeps-transition_to_failed :
      {A : Type 0} (message : String) → Keeps {A = A} (Over J) (transition_to_failed api message)
  unfolding transition_to_failed put_status
  Keeps-transition_to_failed message =
      search
        (
          keeps_rules,
          Keeps-modify,
          Keeps-note,
          Keeps-record_condition,
          Keeps-save,
          λ (o : Migration) (cs : List Call) (h : Over J o cs).
              fails.on_failed message o.status cs h,
          λ (t : ℕ) (o : Migration) (cs : List Call) (h : Over J o cs).
              fails.on_completion (some t) o.status cs h,
          λ (a b c : String) (o : Migration) (cs : List Call) (h : Over J o cs).
              stable.on_event a b c o.status cs h,
        )
        depth 20

  pub Keeps-or_fail :
      {A : Type 0} (m : Run W Fault A) (prefix : String)
      → Keeps (Over J) m
      → Keeps (Over J) (◌or_fail◌ api m prefix)
  unfolding ◌or_fail◌
  Keeps-or_fail m prefix k = search (keeps_rules, Keeps-transition_to_failed, k) depth 6

-- The lookups keep every invariant.
module _ {W : Type 0} (api : Api W) {J : Migration → List Call → Type 0} where
  pub Keeps-get_source_vm : Keeps J (get_source_vm api)
  unfolding get_source_vm
  Keeps-get_source_vm = search keeps_rules

  pub Keeps-get_provider :
      (ref : ObjectRef) (namespace : String) → Keeps J (get_provider api ref namespace)
  unfolding get_provider
  Keeps-get_provider ref namespace = search keeps_rules

  pub Keeps-provider_of_source : (vm : VirtualMachine) → Keeps J (provider_of_source api vm)
  unfolding provider_of_source
  Keeps-provider_of_source vm = search (keeps_rules, Keeps-get_provider)

  Keeps-source_ref : (r : Option ObjectRef) → Keeps J (source_ref api r)
  unfolding source_ref
  Keeps-source_ref (some r) = search keeps_rules
  Keeps-source_ref none = search (keeps_rules, Keeps-get_source_vm) depth 8

  pub Keeps-get_source_provider : Keeps J (get_source_provider api)
  unfolding get_source_provider
  Keeps-get_source_provider = search (keeps_rules, Keeps-source_ref, Keeps-get_provider) depth 8

  pub Keeps-get_target_provider : Keeps J (get_target_provider api)
  unfolding get_target_provider
  Keeps-get_target_provider = search (keeps_rules, Keeps-get_provider) depth 8

  pub Keeps-get_provider_instance : (p : Provider) → Keeps J (get_provider_instance api p)
  unfolding get_provider_instance
  Keeps-get_provider_instance p = search keeps_rules depth 8

pub ruleset lookup_rules = (
  Keeps-get_source_vm, Keeps-get_provider, Keeps-provider_of_source, Keeps-get_source_provider,
  Keeps-get_target_provider, Keeps-get_provider_instance,
)
