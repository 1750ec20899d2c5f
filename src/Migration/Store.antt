-- ===== src/Migration/Store.antt =====
-- internal/controller/vmmigration_controller.go: how the controller writes its migration back
-- (`updateStatus`, `transitionToFailed`) and looks other objects up.
pub mod Rules
pub mod Saved
pub mod Rounds
mod Tests
use projectbeskar_virtrigaud.Common.{
  ℕ, zero, suc, ◌*◌, ◌^◌, String, ◌<>◌, ◌=t◌, Bool, true, false, ltb, if◌then◌else◌, Option, none,
  some, List, [], ◌∷◌, ◌&&◌,
}
use projectbeskar_virtrigaud.Conditions.Condition.{Condition, Status, met, unmet, same_status}
use projectbeskar_virtrigaud.Conditions.Util.{set_condition}
use projectbeskar_virtrigaud.Controller.{
  Fault, plain, wrap, Reply, ok, fault, Outcome, requeue, failed, Proc, ◌>>=◌, ◌>>◌, pure, stop,
  the_object, modify, ask, note, query, perform_object, ◌on_error◌, settle,
}
use projectbeskar_virtrigaud.Migration.Types.{Migration, MigrationStatus, MigrationPhase, ObjectRef}
use projectbeskar_virtrigaud.Migration.Cluster.{
  Api, Call, status_written, event, VirtualMachine, Provider,
}

-- Code of the migration controller that ends early with an `E`, and a handler of it.
abbrev pub Run : Type 0 → Type 0 → Type 0 → Type 0
Run W E A = Proc Migration Call W E A

abbrev pub Handler : Type 0 → Type 0
Handler W = Run W Outcome (Unit {0})

abbrev pub set_status : (MigrationStatus → MigrationStatus) → Migration → Migration
set_status f m = record m { status = f m.status }

unfoldable pub put_status :
    {W E : Type 0} → (MigrationStatus → MigrationStatus) → Run W E (Unit {0})
put_status f = modify (set_status f)

-- `migration.Status.Phase = …` and `migration.Status.Message = …`.
abbrev pub enter : {W E : Type 0} → MigrationPhase → String → Run W E (Unit {0})
enter p message = put_status (λ st. record st { phase = p; message = message })

abbrev pub max_status_retries : ℕ
max_status_retries = 3

ref_or : Option ObjectRef → ObjectRef → ObjectRef
ref_or (some r) other = r
ref_or none other = other

-- `providerRef` of the specification, or the one of the source VM.
pub source_provider_ref : Migration → VirtualMachine → ObjectRef
unfolding ref_or
source_provider_ref m vm = ref_or m.spec.source.provider_ref vm.provider_ref

abbrev pub non_empty_or : String → String → String
non_empty_or s default = if s =t "" then default else s

pub target_vm_name : Migration → String
target_vm_name m = non_empty_or m.spec.target.name (m.spec.source.vm_name <> "-migrated")

pub target_namespace : Migration → String
target_namespace m = non_empty_or m.spec.target.namespace m.namespace

-- Whether the provider has the condition ProviderAvailable with status True.
pub is_provider_ready : List Condition → Bool
is_provider_ready [] = false
is_provider_ready (c ∷ cs) =
    let rest = is_provider_ready cs in
    if c.kind =t "ProviderAvailable" && same_status c.status met then true else rest

module _ {W : Type 0} (api : Api W) where
  pub record_condition : {E : Type 0} → String → Status → String → String → Run W E (Unit {0})
  record_condition kind status reason message = do
    now ← ask api.now
    put_status (λ st. record st {
      conditions = set_condition now kind status reason message st.conditions;
    })

  -- After a failed write: wait, fetch the object anew and carry the status over to the next round.
  next_round : Migration → ℕ → Run W Fault (Unit {0}) → Fault → Bool → Run W Fault (Unit {0})
  next_round m attempt again e false = stop e
  next_round m attempt again e true = do
    ask (λ w. (tt, api.sleep (100000000 * 2 ^ attempt) w))
    fresh ← query (api.get_migration m.namespace m.name)
    modify (λ o. record fresh { status = o.status })
    again

  -- What a round of `updateStatus` does with the answer. There is a next round after a conflict that
  -- is not on the last round.
  round_answer : Migration → ℕ → Run W Fault (Unit {0}) → Reply ℕ → Run W Fault (Unit {0})
  unfolding next_round
  round_answer m attempt again (ok version) = modify (λ o. record o { resource_version = version })
  round_answer m attempt again (fault e) =
      next_round m attempt again e (e.conflict && ltb (suc attempt) max_status_retries)

  -- The `attempt`-th round and the `left - 1` after it.
  update_rounds : ℕ → ℕ → Run W Fault (Unit {0})
  unfolding round_answer
  update_rounds zero attempt = stop (plain "failed to update status after 3 attempts")
  update_rounds (suc left) attempt = do
    m ← the_object
    r ← settle (perform_object status_written api.update_status)
    round_answer m attempt (update_rounds left (suc attempt)) r

  pub update_status : Run W Fault (Unit {0})
  unfolding update_rounds
  update_status = update_rounds max_status_retries 0

  -- `if err := r.updateStatus(ctx, migration); err != nil { return ctrl.Result{}, err }`.
  pub save : Handler W
  save = update_status on_error λ e. stop (failed e)

  pub transition_to_failed : {A : Type 0} → String → Run W Outcome A
  transition_to_failed message = do
    put_status (λ st. record st { phase = MigrationPhase.failed; message = message })
    completed ← ask api.now
    put_status (λ st. record st { completion_time = some completed })
    record_condition "Failed" met "MigrationFailed" message
    record_condition "Ready" unmet "MigrationFailed" message
    note (event "Warning" "MigrationFailed" message)
    save
    stop requeue

  -- `if err != nil { return r.transitionToFailed(ctx, migration, prefix + err) }`.
  infixl 6 ◌or_fail◌
  pub ◌or_fail◌ : {A : Type 0} → Run W Fault A → String → Run W Outcome A
  m or_fail prefix = m on_error λ e. transition_to_failed (prefix <> e.text)

  pub get_source_vm : Run W Fault VirtualMachine
  get_source_vm = do m ← the_object; query (api.get_vm m.namespace m.spec.source.vm_name)

  pub get_provider : ObjectRef → String → Run W Fault Provider
  get_provider ref default_namespace =
      query (api.get_provider (non_empty_or ref.namespace default_namespace) ref.name)

  -- `getProvider` of what `source_provider_ref` says.
  pub provider_of_source : VirtualMachine → Run W Fault Provider
  provider_of_source vm = do m ← the_object; get_provider (source_provider_ref m vm) m.namespace

  source_ref : Option ObjectRef → Run W Fault ObjectRef
  source_ref (some r) = pure r
  source_ref none = do
    vm ← get_source_vm on_error λ e. stop (wrap "failed to get source VM: " e)
    pure vm.provider_ref

  pub get_source_provider : Run W Fault Provider
  get_source_provider = do
    m ← the_object
    r ← source_ref m.spec.source.provider_ref
    get_provider r m.namespace

  pub get_target_provider : Run W Fault Provider
  get_target_provider = do m ← the_object; get_provider m.spec.target.provider_ref m.namespace

  pub get_provider_instance : Provider → Run W Fault (Unit {0})
  get_provider_instance p =
      query (api.resolve p) on_error λ e. stop (wrap "failed to resolve provider: " e)
