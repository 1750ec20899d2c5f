-- ===== src/Adoption/Filter/Laws.antt =====
-- internal/controller/vmadoption_controller.go (`matchesFilter`): what a filter asks of a machine.
use projectbeskar_virtrigaud.Common.{
  ℤ, exceeds, ◌=t◌, Bool, true, false, if◌then◌else◌, ◌≡◌, ◌↔◌, ◌⊎◌, inl, inr, refl, ap, arith,
}
use projectbeskar_virtrigaud.Controller.{Reply, ok, fault}
use projectbeskar_virtrigaud.Adoption.Types.{VmInfo, VmAdoptionFilter, Api}
use projectbeskar_virtrigaud.Adoption.Filter.{
  below, is_yes, matches_name, matches_power_state, normalized, within, matches_filter,
}

-- Not below a positive lower limit, and not above a positive upper limit.
abbrev pub IsWithinLimits : ℤ → ℤ → ℤ → Type 0
IsWithinLimits low high n =
    ((exceeds low 0 ≡ false) ⊎ (below n low ≡ false))
    × ((exceeds high 0 ≡ false) ⊎ (below high n ≡ false))

module _ {W : Type 0} (api : Api W) where
  -- The name matches the pattern, the power state is the one asked for but for its case and for blanks
  -- around it, and the CPUs and the memory are within the limits.
  pub record IsMatch (vm : VmInfo) (f : VmAdoptionFilter) : Type 0 where
    pub name : ((f.name_pattern =t "") ≡ true) ⊎ (api.match_string f.name_pattern vm.name ≡ ok true)
    pub power_state :
        ((f.power_state =t "") ≡ true)
        ⊎ ((api.to_lower (api.trim_space vm.power_state)
              =t api.to_lower (api.trim_space f.power_state))
            ≡ true)
    pub cpu : IsWithinLimits f.min_cpu f.max_cpu vm.cpu
    pub memory : IsWithinLimits f.min_memory_mib f.max_memory_mib vm.memory_mib

  reply_of : Reply Bool → Bool
  reply_of (ok b) = b
  reply_of (fault e) = false

  is_yes_lem : (r : Reply Bool) → (is_yes r ≡ true) ↔ (r ≡ ok true)
  unfolding is_yes reply_of
  is_yes_lem (ok b) = (λ h. ap ok h, λ h. ap reply_of h)
  is_yes_lem (fault e) = (λ h. ground (arith, h), λ h. ap reply_of h)

  matches_name_lem :
      (vm : VmInfo) (f : VmAdoptionFilter)
      → (matches_name api vm f ≡ true)
        ↔ (((f.name_pattern =t "") ≡ true) ⊎ (api.match_string f.name_pattern vm.name ≡ ok true))
  unfolding matches_name
  matches_name_lem vm f =
      by_pattern (f.name_pattern =t "") (api.match_string f.name_pattern vm.name)
    where
      by_pattern :
          (b : Bool) (r : Reply Bool)
          → ((if b then true else is_yes r) ≡ true) ↔ ((b ≡ true) ⊎ (r ≡ ok true))
      by_pattern true r = (λ h. inl refl, λ h. refl)
      by_pattern false r = (
        λ h. inr ((is_yes_lem r).0 h),
        λ h. elim h [ inl e ↦ ground (arith, e) | inr e ↦ (is_yes_lem r).1 e ],
      )

  matches_power_state_lem :
      (vm : VmInfo) (f : VmAdoptionFilter)
      → (matches_power_state api vm f ≡ true) ↔ (
          ((f.power_state =t "") ≡ true)
          ⊎ ((api.to_lower (api.trim_space vm.power_state)
                =t api.to_lower (api.trim_space f.power_state))
              ≡ true))
  unfolding matches_power_state normalized
  matches_power_state_lem vm f = ground arith

  within_lem : (low high n : ℤ) → (within api low high n ≡ true) ↔ IsWithinLimits low high n
  unfolding within
  within_lem low high n = ground arith

  -- The filter is what is asked of a machine.
  pub matches_filter_lem :
      (vm : VmInfo) (f : VmAdoptionFilter) → (matches_filter api vm f ≡ true) ↔ IsMatch vm f
  unfolding matches_filter
  matches_filter_lem vm f = (
    (λ h. record {
      name = (matches_name_lem vm f).0 (ground (arith, h));
      power_state = (matches_power_state_lem vm f).0 (ground (arith, h));
      cpu = (within_lem f.min_cpu f.max_cpu vm.cpu).0 (ground (arith, h));
      memory = (within_lem f.min_memory_mib f.max_memory_mib vm.memory_mib).0 (ground (arith, h));
    }),
    (λ m. ground (
      arith,
      (matches_name_lem vm f).1 m.name,
      (matches_power_state_lem vm f).1 m.power_state,
      (within_lem f.min_cpu f.max_cpu vm.cpu).1 m.cpu,
      (within_lem f.min_memory_mib f.max_memory_mib vm.memory_mib).1 m.memory,
    )),
  )
