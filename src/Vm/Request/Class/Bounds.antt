-- ===== src/Vm/Request/Class/Bounds.antt =====
-- internal/controller/virtualmachine_controller.go (`buildCreateRequest`): sizes in MiB as 32-bit
-- integers.
use projectbeskar_virtrigaud.Common.{
  ℕ, ◌/◌, ◌^◌, ◌<◌, pos, to_int32, leb, ltb, ◌≡◌, ap, ◌∙◌, arith, if◌then◌else◌, Bool, true, false,
  refl,
}
use native.Mathlib.Nat.{mod-eq_of_lt}
use projectbeskar_virtrigaud.Vm.Request.Class.{memory_mib, clamped_mib, max_int32}

pub minimum : ℕ → ℕ → ℕ
minimum a b = if leb a b then a else b

int32_small : (n : ℕ) → n < 2 ^ 31 → to_int32 (pos n) ≡ pos n
int32_small n h = ground (arith, mod-eq_of_lt {n = n} {m = 2 ^ 32} (omega (arith, h)))

clamped :
    (mib : ℕ) (above : Bool)
    → ltb max_int32 mib ≡ above
    → to_int32 (if above then pos max_int32 else pos mib) ≡ pos (minimum mib max_int32)
unfolding minimum
clamped mib true h = ap pos (ground (arith, h))
clamped mib false h = int32_small mib (ground (arith, h)) ∙ ap pos (ground (arith, h))

-- A memory limit or reservation that is not negative reaches the provider as the smaller of its
-- whole MiB and the largest 32-bit integer; the memory of the class, which is not clamped, reaches
-- the provider as its whole MiB where these are below 2^31.
pub clamped_mib_lem :
    (bytes : ℕ)
    → (clamped_mib (pos bytes) ≡ pos (minimum (bytes / 2 ^ 20) max_int32))
      × (bytes / 2 ^ 20 < 2 ^ 31 → memory_mib (pos bytes) ≡ pos (bytes / 2 ^ 20))
unfolding clamped_mib memory_mib minimum
clamped_mib_lem bytes = (clamped (bytes / 2 ^ 20) _ refl, λ h. int32_small _ h)
