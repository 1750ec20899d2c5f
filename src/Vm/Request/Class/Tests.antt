-- ===== src/Vm/Request/Class/Tests.antt =====
-- Sizes in MiB at and behind the limits of 32 bits.
use projectbeskar_virtrigaud.Common.{pos, negsuc, ◌^◌, ◌≡◌, refl, ◌-◌, ◌/◌, ◌<◌}
use projectbeskar_virtrigaud.Vm.Request.Class.{memory_mib, clamped_mib, max_int32}
use projectbeskar_virtrigaud.Vm.Request.Class.Bounds.{minimum, clamped_mib_lem}

wrapped : memory_mib (pos (2 ^ 51)) ≡ negsuc (2 ^ 31 - 1)
unfolding memory_mib
wrapped = refl

clamped_mib_lem_example :
    (clamped_mib (pos (2 ^ 60)) ≡ pos (minimum (2 ^ 60 / 2 ^ 20) max_int32))
    × (2 ^ 60 / 2 ^ 20 < 2 ^ 31 → memory_mib (pos (2 ^ 60)) ≡ pos (2 ^ 60 / 2 ^ 20))
clamped_mib_lem_example = clamped_mib_lem (2 ^ 60)
