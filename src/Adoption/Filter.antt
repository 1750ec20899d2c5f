-- ===== src/Adoption/Filter.antt =====
-- internal/controller/vmadoption_controller.go (`parseFilterAnnotation`, `matchesFilter`): which
-- machines an annotation of the provider selects.
pub mod Laws
use projectbeskar_virtrigaud.Common.{
  ℤ, pos, negsuc, exceeds, ltb, String, ◌=t◌, Bool, true, false, not, ◌&&◌, if◌then◌else◌, Option,
  none, some,
}
use projectbeskar_virtrigaud.Controller.{Fault, wrap, Reply, ok, fault}
use projectbeskar_virtrigaud.Adoption.Types.{VmInfo, VmAdoptionFilter, Api}

-- `a < b`.
abbrev pub below : ℤ → ℤ → Bool
below (pos m) (pos n) = ltb m n
below (pos m) (negsuc n) = false
below (negsuc m) (pos n) = true
below (negsuc m) (negsuc n) = ltb n m

is_yes : Reply Bool → Bool
is_yes (ok b) = b
is_yes (fault e) = false

module _ {W : Type 0} (api : Api W) where
  checked : VmAdoptionFilter → Option Fault → Reply VmAdoptionFilter
  checked filter none = ok filter
  checked filter (some e) = fault (wrap "invalid namePattern regex: " e)

  validated : Reply VmAdoptionFilter → Reply VmAdoptionFilter
  unfolding checked
  validated (fault e) = fault (wrap "failed to parse filter JSON: " e)
  validated (ok filter) =
      if filter.name_pattern =t ""
      then ok filter
      else checked filter (api.compile_error filter.name_pattern)

  pub parse_filter_annotation : String → Reply VmAdoptionFilter
  unfolding validated
  parse_filter_annotation text = validated (api.parse_filter text)

  normalized : String → String
  normalized s = api.to_lower (api.trim_space s)

  matches_name : VmInfo → VmAdoptionFilter → Bool
  unfolding is_yes
  matches_name vm f =
      if f.name_pattern =t "" then true else is_yes (api.match_string f.name_pattern vm.name)

  matches_power_state : VmInfo → VmAdoptionFilter → Bool
  unfolding normalized
  matches_power_state vm f =
      if f.power_state =t "" then true else normalized vm.power_state =t normalized f.power_state

  -- A limit that is not positive is none.
  within : ℤ → ℤ → ℤ → Bool
  within low high n = not (exceeds low 0 && below n low) && not (exceeds high 0 && below high n)

  pub matches_filter : VmInfo → VmAdoptionFilter → Bool
  unfolding matches_name matches_power_state within
  matches_filter vm f =
      matches_name vm f
      && matches_power_state vm f
      && within f.min_cpu f.max_cpu vm.cpu
      && within f.min_memory_mib f.max_memory_mib vm.memory_mib
