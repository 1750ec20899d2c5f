-- ===== src/Vm/Create/Rules.antt =====
-- internal/controller/virtualmachine_controller.go (`createVM`, `adjustPowerState`, `reconfigureVM`):
-- what they ask of a provider is allowed by the specification.
use projectbeskar_virtrigaud.Common.{
  String, ◌=t◌, Bool, is_some, if◌then◌else◌, subst, arith, false, true, Option, none, some, ◌≡◌,
  refl, ap, ◌∙◌, sym,
}
use projectbeskar_virtrigaud.Controller.{Fault}
use projectbeskar_virtrigaud.Controller.Keeps.{
  Keeps, Keeps-stop, Keeps-ask, Keeps-on_error, Keeps-if, ◌and_then◌,
}
use projectbeskar_virtrigaud.Controller.Yields.{
  Yields, Yields-pure, Yields-stop, Yields-the_object, Yields-any, Yields-bind, Yields-on_error,
  ◌and_knowing◌,
}
use projectbeskar_virtrigaud.Migration.Cluster.{Provider}
use projectbeskar_virtrigaud.Vm.Types.{VirtualMachine, VirtualMachineSpec}
use projectbeskar_virtrigaud.Vm.Cluster.{Api}
use projectbeskar_virtrigaud.Vm.Request.{Parts}
use projectbeskar_virtrigaud.Vm.Request.Rules.{Yields-build_create_request}
use projectbeskar_virtrigaud.Vm.Create.{
  refuse, create_vm, set_power, adjust_power_state, reconfigure_vm, source_error, power_op,
}
use projectbeskar_virtrigaud.Vm.Resources.Laws.{update_current_resources-id}
use projectbeskar_virtrigaud.Vm.Contracts.{PowerOp}
use projectbeskar_virtrigaud.Vm.Allowed.{
  ArePartsOf, IsProviderOf, HasOneSource, IsPowerFor, IsAllowedUnder, IsSameSpec, IsAllowed,
  IsAllowedSoFar, Keeps-call, Keeps-put_status, Keeps-set_condition, Keeps-update_status,
  Keeps-save_and_wait, Keeps-report, Yields-report,
}

source_error-HasOneSource :
    (spec : VirtualMachineSpec) → source_error spec ≡ none → HasOneSource spec
unfolding source_error
source_error-HasOneSource spec h = ground (arith, h)

op_or : PowerOp → Option PowerOp → PowerOp
op_or default none = default
op_or default (some op) = op

pub power_op_on : (op : PowerOp) → power_op "On" ≡ some op → PowerOp.on ≡ op
unfolding power_op op_or
power_op_on op h = ap (op_or PowerOp.on) h

power_of :
    (s : String) (op : PowerOp) (b c d : Bool)
    → (s =t "On") ≡ b
    → (s =t "Off") ≡ c
    → (s =t "OffGraceful") ≡ d
    → (if b
        then some PowerOp.on
        else if c
        then some PowerOp.off
        else if d
        then some PowerOp.shutdown_graceful
        else none)
      ≡ some op
    → IsPowerFor s op
unfolding op_or
power_of s op true c d eb ec ed h =
    subst (IsPowerFor s) (ap (op_or PowerOp.on) h) (IsPowerFor.on eb)
power_of s op false true d eb ec ed h =
    subst (IsPowerFor s) (ap (op_or PowerOp.on) h) (IsPowerFor.off ec)
power_of s op false false true eb ec ed h =
    subst (IsPowerFor s) (ap (op_or PowerOp.on) h) (IsPowerFor.graceful ed)
power_of s op false false false eb ec ed h = ground (arith, ap {B = Bool} is_some h)

pub power_op-IsPowerFor : (s : String) (op : PowerOp) → power_op s ≡ some op → IsPowerFor s op
unfolding power_op
power_op-IsPowerFor s op h = power_of s op _ _ _ refl refl refl h

module _ {v : VirtualMachine} {W : Type 0} (api : Api W) (live : v.deleting ≡ false) (p : Provider)
    (at : IsProviderOf api v.namespace v.spec p) where
  -- Past the refusal there is nothing to refuse.
  Yields-refuse :
      (o : Option Fault) → Yields (IsAllowedSoFar api true v) (λ _. o ≡ none) (refuse api o)
  unfolding refuse
  Yields-refuse none = Yields-pure _ refl
  Yields-refuse (some e) =
      Yields-bind (Yields-any (Keeps-set_condition api _ _ _ _))
        λ t u. Yields-bind (Yields-any (Keeps-update_status api)) λ t u. Yields-stop _

  pub Keeps-create_vm :
      (parts : Parts)
      → ArePartsOf api v.namespace v.spec parts
      → Keeps (IsAllowedSoFar api true v) (create_vm api p parts)
  unfolding create_vm IsAllowed IsSameSpec
  Keeps-create_vm parts found = Yields-the_object and_knowing λ vm h.
      Yields-refuse _ and_knowing λ t one.
      Yields-on_error (Yields-build_create_request api parts found) (λ e. Yields-report api _ _ _ _)
      and_knowing λ req r.
          Keeps-on_error _ _
            (Keeps-call _ _ (
              (live, refl, at),
              source_error-HasOneSource v.spec (ap source_error (sym (h.1.same_spec.1)) ∙ one),
              r,
            ))
            (λ e. Keeps-report api _ _ _ _)
          and_then λ resp. Keeps-put_status _ (λ k st. ground (arith, k)) and_then λ t.
              Keeps-if _ _ _ (Keeps-report api _ _ _ _)
                (Keeps-put_status _ (λ k st. refl) and_then λ t. Keeps-report api _ _ _ _)

  Keeps-set_power :
      (o : Option PowerOp)
      → ((op : PowerOp) → o ≡ some op → IsPowerFor v.spec.power_state op)
      → Keeps (IsAllowedUnder api true v true) (set_power api p o)
  unfolding set_power IsAllowed
  Keeps-set_power none e = Keeps-stop _
  Keeps-set_power (some op) e = Yields-the_object and_knowing λ vm h.
      Keeps-on_error _ _ (Keeps-call _ _ ((live, refl, at), h.1.same_id refl, e op refl))
        (λ e. Keeps-report api _ _ _ _)
      and_then λ task.
          Keeps-if _ _ _ (Keeps-save_and_wait api _)
            (Keeps-put_status _ (λ k st. refl) and_then λ t. Keeps-report api _ _ _ _)

  pub Keeps-adjust_power_state :
      (s : String)
      → ((op : PowerOp) → power_op s ≡ some op → IsPowerFor v.spec.power_state op)
      → Keeps (IsAllowedUnder api true v true) (adjust_power_state api p s)
  unfolding adjust_power_state
  Keeps-adjust_power_state s e = Keeps-set_power _ e

  pub Keeps-reconfigure_vm :
      (parts : Parts)
      → ArePartsOf api v.namespace v.spec parts
      → Keeps (IsAllowedUnder api true v true) (reconfigure_vm api p parts)
  unfolding reconfigure_vm IsAllowed
  Keeps-reconfigure_vm parts found =
      Yields-on_error (Yields-build_create_request api parts found) (λ e. Yields-stop _)
      and_knowing λ req r. Yields-the_object and_knowing λ vm h.
          Keeps-on_error _ _ (Keeps-call _ _ ((live, refl, at), h.1.same_id refl, r))
            (λ e. Keeps-report api _ _ _ _)
          and_then λ task. Keeps-ask _ and_then λ now.
              Keeps-put_status _ (λ k st. refl) and_then λ t.
              Keeps-if _ _ _
                (Keeps-put_status _ (λ k. update_current_resources-id vm.spec parts.class)
                  and_then λ t.
                      Keeps-set_condition api _ _ _ _ and_then λ t. Keeps-report api _ _ _ _)
                (Keeps-put_status _ (λ k st. refl) and_then λ t. Keeps-report api _ _ _ _)
