-- ===== src/Vm/Request/Class.antt =====
-- internal/controller/virtualmachine_controller.go (`buildCreateRequest`): the class of a request.
pub mod Bounds
mod Tests
use projectbeskar_virtrigaud.Common.{
  ℕ, ◌-◌, ◌^◌, ℤ, pos, quot, exceeds, to_int32, String, Bool, false, if◌then◌else◌, Option, none,
  some,
}
use projectbeskar_virtrigaud.Vm.Types.{VmClassSpec, VmResourceLimits, EncryptionPolicy}
use projectbeskar_virtrigaud.Vm.Types as Spec
use projectbeskar_virtrigaud.Vm.Contracts.{VmClass, DiskDefaults, SecurityProfile, ResourceLimits}

abbrev pub mebibyte : ℕ
mebibyte = 2 ^ 20

abbrev pub gibibyte : ℕ
gibibyte = 2 ^ 30

abbrev pub max_int32 : ℕ
max_int32 = 2 ^ 31 - 1

abbrev pub convert {ℓ κ} : {A : Type ℓ} {B : Type κ} → (A → B) → Option A → Option B
convert f none = none
convert f (some a) = some (f a)

-- The memory of a class in MiB, which is converted without a test.
pub memory_mib : ℤ → ℤ
memory_mib bytes = to_int32 (quot bytes mebibyte)

-- A limit or a reservation in MiB, which is clamped to the largest `int32` first.
pub clamped_mib : ℤ → ℤ
clamped_mib bytes =
    let mib = quot bytes mebibyte in to_int32 (if exceeds mib max_int32 then pos max_int32 else mib)

convert_disk_defaults : Spec.DiskDefaults → DiskDefaults
convert_disk_defaults d = record { kind = d.kind; size_gib = to_int32 (quot d.size gibibyte) }

enabled : Option EncryptionPolicy → Bool
enabled none = false
enabled (some e) = e.enabled

required : Option EncryptionPolicy → Bool
required none = false
required (some e) = e.require_encryption

key_provider : Option EncryptionPolicy → String
key_provider none = ""
key_provider (some e) = e.key_provider

convert_security : Spec.SecurityProfile → SecurityProfile
unfolding enabled required key_provider
convert_security s = record {
  secure_boot = s.secure_boot;
  tpm_enabled = s.tpm_enabled;
  tpm_version = s.tpm_version;
  vtd_enabled = s.vtd_enabled;
  encryption_enabled = enabled s.encryption_policy;
  key_provider = key_provider s.encryption_policy;
  require_encryption = required s.encryption_policy;
}

convert_limits : VmResourceLimits → ResourceLimits
unfolding clamped_mib
convert_limits l = record {
  cpu_limit = l.cpu_limit;
  cpu_reservation = l.cpu_reservation;
  memory_limit_mib = convert clamped_mib l.memory_limit;
  memory_reservation_mib = convert clamped_mib l.memory_reservation;
  cpu_shares = l.cpu_shares;
}

pub convert_class : VmClassSpec → VmClass
unfolding memory_mib convert_disk_defaults convert_security convert_limits
convert_class c = record {
  cpu = c.cpu;
  memory_mib = memory_mib c.memory;
  firmware = c.firmware;
  disk_defaults = convert convert_disk_defaults c.disk_defaults;
  guest_tools_policy = c.guest_tools_policy;
  extra_config = c.extra_config;
  performance_profile = c.performance_profile;
  security_profile = convert convert_security c.security_profile;
  resource_limits = convert convert_limits c.resource_limits;
}
