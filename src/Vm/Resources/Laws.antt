-- ===== src/Vm/Resources/Laws.antt =====
-- internal/controller/virtualmachine_controller.go: when a virtual machine is reconfigured
-- (`needsReconfigure` behind `updateCurrentResources`).
use projectbeskar_virtrigaud.Common.{
  ℤ, pos, ◌=z◌, =z_refl, =z→≡, Bool, true, false, not, ◌&&◌, ◌||◌, if◌then◌else◌, ◌≡◌, ◌≢◌, ◌↔◌,
  inl, inr, refl, subst, arith, Bool-cases,
}
use projectbeskar_virtrigaud.Vm.Types.{VirtualMachineSpec, VirtualMachineStatus, VmClassSpec}
use projectbeskar_virtrigaud.Vm.Resources.{
  desired_cpu, desired_memory_mib, current_cpu, current_memory_mib, needs_reconfigure,
  update_current_resources, override,
}

-- The CPUs and the memory in MiB.
abbrev pub Allocation : Type 0
Allocation = ℤ × ℤ

abbrev pub desired : VirtualMachineSpec → VmClassSpec → Allocation
desired spec class = (desired_cpu spec class, desired_memory_mib spec class)

abbrev pub nothing_recorded : Allocation
nothing_recorded = (pos 0, pos 0)

same : Allocation → Allocation → Bool
same a b = (a.0 =z b.0) && (a.1 =z b.1)

same→≡ : (a b : Allocation) → same a b ≡ true → a ≡ b
unfolding same
same→≡ a b h = λ i. (=z→≡ a.0 b.0 (ground (arith, h)) i, =z→≡ a.1 b.1 (ground (arith, h)) i)

same_refl : (a : Allocation) → same a a ≡ true
unfolding same
same_refl a = ground (arith, =z_refl a.0, =z_refl a.1)

same_iff : (a b : Allocation) → (same a b ≡ true) ↔ (a ≡ b)
same_iff a b = (same→≡ a b, λ e. subst (λ c. same a c ≡ true) e (same_refl a))

different : (a b : Allocation) → a ≢ b → same a b ≡ false
different a b n = elim (Bool-cases (same a b)) [
  | inl h ↦ absurd (n ((same_iff a b).0 h))
  | inr h ↦ h
]

decided :
    (recorded wanted none_yet : Allocation)
    → ((if same recorded none_yet
          then false
          else not (recorded.0 =z wanted.0) || not (recorded.1 =z wanted.1))
        ≡ true)
      ↔ ((recorded ≢ none_yet) × (recorded ≢ wanted))
unfolding same
decided r d n = (
  λ h. (λ e. ground (arith, h, (same_iff r n).1 e), λ e. ground (arith, h, (same_iff r d).1 e)),
  λ p. ground (arith, different r n p.0, different r d p.1),
)

-- `needsReconfigure` behind a recording of the resources is true exactly where something was
-- recorded and the desired CPUs or the desired memory are no longer the recorded ones, overrides of
-- the specification included. A recording of no CPU and no memory counts as none.
pub needs_reconfigure-update_current_resources :
    (before now : VirtualMachineSpec) (old_class new_class : VmClassSpec)
    (st : VirtualMachineStatus)
    → (needs_reconfigure now new_class (update_current_resources before old_class st) ≡ true) ↔ (
        (desired before old_class ≢ nothing_recorded)
        × (desired before old_class ≢ desired now new_class))
unfolding needs_reconfigure update_current_resources current_cpu current_memory_mib override same
needs_reconfigure-update_current_resources before now old_class new_class st =
    decided (desired before old_class) (desired now new_class) nothing_recorded

-- A recording leaves the identifier alone.
pub update_current_resources-id :
    (spec : VirtualMachineSpec) (class : VmClassSpec) (st : VirtualMachineStatus)
    → (update_current_resources spec class st).id ≡ st.id
unfolding update_current_resources
update_current_resources-id spec class st = refl
