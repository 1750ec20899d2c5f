-- ===== src/Vm/Reconcile/Allowed.antt =====
-- internal/controller/virtualmachine_controller.go (`Reconcile`): everything that a pass asks of a
-- provider is allowed.
use projectbeskar_virtrigaud.Common.{
  String, Bool, false, true, ◌=t◌, some, subst, ◌∙◌, arith, [], ◌≡◌, refl, ap, sym, if◌then◌else◌,
}
use projectbeskar_virtrigaud.Controller.{Fault, requeue, failed, ◌>>=◌, ◌>>◌, stop, ◌on_error◌}
use projectbeskar_virtrigaud.Controller.Keeps.{
  Keeps, Keeps-pure, Keeps-stop, Keeps-query, Keeps-the_object, Keeps-on_error, Keeps-if,
  ◌and_then◌,
}
use projectbeskar_virtrigaud.Controller.Yields.{
  Yields, Yields-any, Yields-if, Yields-bind, Yields-on_error, Yields-the_object, ◌and_knowing◌,
}
use projectbeskar_virtrigaud.Controller.Leads.{
  Leads, Leads-before, Leads-after, Leads-bind, Leads-if,
}
use projectbeskar_virtrigaud.Migration.Cluster.{Provider}
use projectbeskar_virtrigaud.Vm.Types.{VirtualMachine, VirtualMachineSpec, VirtualMachineStatus}
use projectbeskar_virtrigaud.Vm.Contracts.{PowerOp, DescribeResponse}
use projectbeskar_virtrigaud.Vm.Create.{power_op}
use projectbeskar_virtrigaud.Vm.Resources.Laws.{update_current_resources-id}
use projectbeskar_virtrigaud.Vm.Dependencies.{Dependencies}
use projectbeskar_virtrigaud.Vm.Cluster.{Api, Kind}
use projectbeskar_virtrigaud.Vm.Cluster.Rules.{Keeps-get_provider_instance}
use projectbeskar_virtrigaud.Vm.Request.{Parts}
use projectbeskar_virtrigaud.Vm.Dependencies.Rules.{AreDependenciesOf, Yields-get_dependencies}
use projectbeskar_virtrigaud.Vm.Create.Rules.{
  Keeps-create_vm, Keeps-adjust_power_state, Keeps-reconfigure_vm, power_op_on, power_op-IsPowerFor,
}
use projectbeskar_virtrigaud.Vm.Deletion.{has_finalizer, add_finalizer, handle_deletion}
use projectbeskar_virtrigaud.Vm.Deletion.Rules.{Keeps-add_finalizer, handle_deletion-IsAllowed}
use projectbeskar_virtrigaud.Vm.Reconcile.{
  desired_power_state, describe_in, finish_reconfigure, without_dependencies, await_task,
  check_last_task, check_reconfigure_task, adjust, ensure_exists, reconcile_with, reconcile_vm,
  reconcile_object,
}
use projectbeskar_virtrigaud.Vm.Allowed.{
  ArePartsOf, IsProviderOf, IsPowerFor, on_by_default, IsAllowedUnder, forget_id, Yields-report,
  Yields-save_and_wait, IsSameSpec, IsAllowedSoFar, Keeps-put_status, Keeps-set_condition,
  Keeps-save_and_wait, Keeps-report,
}

finish_reconfigure-id :
    (vm : VirtualMachine) (parts : Parts) (st : VirtualMachineStatus)
    → (finish_reconfigure vm parts st).id ≡ st.id
unfolding finish_reconfigure
finish_reconfigure-id vm parts st = update_current_resources-id vm.spec parts.class st

describe_in-id : (d : DescribeResponse) (st : VirtualMachineStatus) → (describe_in d st).id ≡ st.id
unfolding describe_in
describe_in-id d st = refl

desired_lem :
    (s : String) (b : Bool) (op : PowerOp)
    → (s =t "") ≡ b
    → power_op (if b then "On" else s) ≡ some op
    → IsPowerFor s op
desired_lem s true op e h = subst (IsPowerFor s) (power_op_on op h) (on_by_default e)
desired_lem s false op e h = power_op-IsPowerFor s op h

desired_power_state-IsPowerFor :
    (s : String) (op : PowerOp) → power_op (desired_power_state s) ≡ some op → IsPowerFor s op
unfolding desired_power_state
desired_power_state-IsPowerFor s op h = desired_lem s _ op refl h

found_at :
    {W : Type 0} (api : Api W) (v vm : VirtualMachine) (d : Dependencies)
    → IsSameSpec v vm
    → AreDependenciesOf api vm d
    → IsProviderOf api v.namespace v.spec d.provider × ArePartsOf api v.namespace v.spec d.parts
unfolding IsSameSpec
found_at api v vm d same h =
    subst {A = String × VirtualMachineSpec}
      (λ x. IsProviderOf api x.0 x.1 d.provider × ArePartsOf api x.0 x.1 d.parts)
      (λ i. (same.2 i, same.1 i)) (h.provider_found, h.parts_found)

module _ {v : VirtualMachine} {W : Type 0} (api : Api W) where
  module _ {known : Bool} where
    Keeps-await_task :
        (p : Provider) (kind : Kind) (what progress task : String)
        → Keeps (IsAllowedUnder api true v known) (await_task api p kind what progress task)
    unfolding await_task
    Keeps-await_task p kind what progress task =
        Keeps-on_error _ _ (Keeps-query _) (λ e. Keeps-report api _ _ _ _) and_then λ complete.
        Keeps-if _ _ _ (Keeps-pure _) (Keeps-report api _ _ _ _)

    Keeps-check_last_task :
        (p : Provider) (task : String)
        → Keeps (IsAllowedUnder api true v known) (check_last_task api p task)
    unfolding check_last_task
    Keeps-check_last_task p task =
        Keeps-if _ _ _ (Keeps-pure _)
          (Keeps-await_task p _ _ _ _ and_then λ t. Keeps-put_status _ (λ k st. refl))

    Keeps-check_reconfigure_task :
        (p : Provider) (parts : Parts) (vm : VirtualMachine)
        → Keeps (IsAllowedUnder api true v known) (check_reconfigure_task api p parts vm)
    unfolding check_reconfigure_task
    Keeps-check_reconfigure_task p parts vm = Keeps-if _ _ _ (Keeps-pure _) (
        Keeps-await_task p _ _ _ _ and_then λ t.
        Keeps-put_status (finish_reconfigure vm parts) (λ k. finish_reconfigure-id vm parts)
        and_then λ t. Keeps-set_condition api _ _ _ _)

  Yields-without_dependencies :
      {known : Bool} {A : Type 0} {P : A → Type 0} (vm : VirtualMachine) (e : Fault)
      → Yields (IsAllowedUnder api true v known) P (without_dependencies api vm e)
  unfolding without_dependencies
  Yields-without_dependencies vm e =
      Yields-if _ _ _
        (Yields-bind (Yields-any (Keeps-set_condition api _ _ _ _))
          λ t u. Yields-save_and_wait api _)
        (Yields-report api _ _ _ _)

  module _ (live : v.deleting ≡ false) where
    module _ (p : Provider) (at : IsProviderOf api v.namespace v.spec p) (parts : Parts)
        (found : ArePartsOf api v.namespace v.spec parts) where
      Keeps-adjust :
          (d : DescribeResponse) → Keeps (IsAllowedUnder api true v true) (adjust api p parts d)
      unfolding adjust IsSameSpec
      Keeps-adjust d = Keeps-put_status (describe_in d) (λ k. describe_in-id d) and_then λ t.
          Yields-the_object and_knowing λ vm h.
          Keeps-if _ _ _
            (Keeps-if _ _ _ (Keeps-reconfigure_vm api live p at parts found) (
              Keeps-set_condition api _ _ _ _ and_then λ t.
              Keeps-set_condition api _ _ _ _ and_then λ t. Keeps-save_and_wait api _))
            (Keeps-adjust_power_state api live p at _ (λ op e.
              desired_power_state-IsPowerFor v.spec.power_state op (
                ap (λ spec. power_op (desired_power_state spec.power_state)) (sym (h.1.same_spec.1))
                ∙ e)))

      -- A machine that is not there is created, and only then the identifier changes.
      Leads-ensure_exists :
          (id : String)
          → Leads
              (IsAllowedUnder api true v true)
              (IsAllowedSoFar api true v)
              (ensure_exists api p parts id)
      unfolding ensure_exists
      Leads-ensure_exists id =
          let forget = forget_id api true v in
          Leads-if _ _ _ (Leads-after forget (Keeps-create_vm api live p at parts found)) (
            Leads-bind forget
              (Yields-any (Keeps-on_error _ _ (Keeps-query _) (λ e. Keeps-report api _ _ _ _)))
              λ d u. Leads-if _ _ _ (Leads-before forget (Keeps-adjust d)) (
                Leads-after forget (
                  Keeps-put_status _ (λ k st. ground (arith, k)) and_then λ t.
                  Keeps-create_vm api live p at parts found)))

      Leads-reconcile_with :
          Leads
            (IsAllowedUnder api true v true)
            (IsAllowedSoFar api true v)
            (reconcile_with api p parts)
      unfolding reconcile_with
      Leads-reconcile_with =
          let forget = forget_id api true v in
          Leads-bind forget
            (Yields-any (
              Keeps-on_error _ _ (Keeps-get_provider_instance api p)
                (λ e. Keeps-report api _ _ _ _)))
            λ resolved u.
              Leads-bind forget
                (Yields-any (Keeps-on_error _ _ (Keeps-query _) (λ e. Keeps-report api _ _ _ _)))
                λ valid u. Leads-bind forget (Yields-any Keeps-the_object) λ vm u.
                  Leads-bind forget (Yields-any (Keeps-check_last_task p _)) λ t u.
                    Leads-bind forget (Yields-any Keeps-the_object) λ vm u.
                      Leads-bind forget (Yields-any (Keeps-check_reconfigure_task p parts vm))
                        λ t u.
                          Leads-bind forget (Yields-any Keeps-the_object)
                            λ vm u. Leads-ensure_exists vm.status.id

    Leads-reconcile_vm :
        Leads (IsAllowedUnder api true v true) (IsAllowedSoFar api true v) (reconcile_vm api)
    unfolding reconcile_vm
    Leads-reconcile_vm =
        let forget = forget_id api true v in
        Leads-bind forget Yields-the_object λ vm h.
          Leads-bind forget (Yields-any (Keeps-put_status _ (λ k st. refl))) λ t u.
            Leads-bind forget
              (Yields-on_error (Yields-get_dependencies api vm) (Yields-without_dependencies vm))
              λ d k.
                let (at, found) = found_at api v vm d h.1.same_spec k in
                Leads-reconcile_with d.provider at d.parts found

    Leads-live :
        (held : Bool)
        → Leads (IsAllowedUnder api held v true) (IsAllowedSoFar api held v) (
            if held
            then reconcile_vm api
            else (do add_finalizer api on_error λ e. stop (failed e); stop requeue))
    Leads-live true = Leads-reconcile_vm
    Leads-live false = Leads-before (forget_id api false v) (
        Keeps-on_error _ _ (Keeps-add_finalizer api) (λ e. Keeps-stop _) and_then λ t. Keeps-stop _)

  split :
      (deleting : Bool) (w : W)
      → v.deleting ≡ deleting
      → IsAllowedUnder api (has_finalizer api v) v true v []
      → let s =
          ((if deleting
              then handle_deletion api
              else if has_finalizer api v
              then reconcile_vm api
              else (do add_finalizer api on_error λ e. stop (failed e); stop requeue))
            (record { object = v; world = w; calls = [] })).1 in
        IsAllowedSoFar api (has_finalizer api v) v s.object s.calls
  split true w e h = handle_deletion-IsAllowed api e w (forget_id api _ v v [] h)
  split false w e h = (Leads-live e _).at _ h

-- Whatever the API server, the resolver, the provider and the clock answer, a pass over a virtual
-- machine keeps its name, its namespace and its specification, in memory and in every write. It asks
-- something of no provider but the one that the API server answered for the reference of the
-- specification, and only where the virtual machine had the finalizer when the pass began. It asks to create
-- or to reconfigure, where the virtual machine is not being deleted, only with a request for its name, with
-- the disks, the placement and the tags of the specification, with the class, the image and the networks that
-- the API server answered for its references, and with the user data and the metadata of the specification
-- and of the secrets that it answered for; it creates only where the specification has exactly one
-- source of the disk. It changes the power only by the operation for the desired power state ("On" where
-- none is given). It deletes only a virtual machine that is being deleted and has an identifier. What it
-- changes or deletes at the provider is the machine with the identifier that the status had.
pub reconcile_object-IsAllowed :
    {W : Type 0} (api : Api W) (v : VirtualMachine) (w : W)
    → let s = (reconcile_object api (record { object = v; world = w; calls = [] })).1 in
      IsAllowedSoFar api (has_finalizer api v) v s.object s.calls
unfolding reconcile_object ◌>>=◌ IsSameSpec
reconcile_object-IsAllowed api v w =
    split api v.deleting w refl
      (record { same_spec = (refl, refl, refl); same_id = λ k. refl; calls_allowed = tt })
