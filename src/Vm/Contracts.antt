-- ===== src/Vm/Contracts.antt =====
-- internal/providers/contracts/{provider,types}.go: what the VirtualMachine controller asks of a
-- provider. Fields that the controller never sets are left out.
use projectbeskar_virtrigaud.Common.{ℕ, ℤ, String, Bool, Option, List}
use projectbeskar_virtrigaud.Vm.Types.{DiskSpec, Placement, PerformanceProfile}

pub data PowerOp : Type 0 where
  on off shutdown_graceful : PowerOp

-- Sizes are in GiB here, and in MiB below.
pub record DiskDefaults : Type 0 where
  pub kind : String
  pub size_gib : ℤ

pub record SecurityProfile : Type 0 where
  pub secure_boot : Bool
  pub tpm_enabled : Bool
  pub tpm_version : String
  pub vtd_enabled : Bool
  pub encryption_enabled : Bool
  pub key_provider : String
  pub require_encryption : Bool

pub record ResourceLimits : Type 0 where
  pub cpu_limit : Option ℤ
  pub cpu_reservation : Option ℤ
  pub memory_limit_mib : Option ℤ
  pub memory_reservation_mib : Option ℤ
  pub cpu_shares : Option ℤ

-- The profile of the performance has the fields of the API type.
pub record VmClass : Type 0 where
  pub cpu : ℤ
  pub memory_mib : ℤ
  pub firmware : String
  pub disk_defaults : Option DiskDefaults
  pub guest_tools_policy : String
  pub extra_config : List (String × String)
  pub performance_profile : Option PerformanceProfile
  pub security_profile : Option SecurityProfile
  pub resource_limits : Option ResourceLimits

pub record VmImage : Type 0 where
  pub template_name : String
  pub path : String
  pub url : String
  pub format : String
  pub checksum : String
  pub checksum_type : String

pub record NetworkAttachment : Type 0 where
  pub name : String
  pub network_name : String
  pub bridge : String
  pub vlan : ℤ
  pub model : String
  pub static_ip : String
  pub prefix : ℕ
  pub gateway : String
  pub dns : String
  pub pci_slot_number : Option ℤ

-- `kind` is the field `Type`.
pub record UserData : Type 0 where
  pub kind : String
  pub cloud_init_data : String

-- `meta_data` is `MetaData.MetaDataYAML`; a disk and the placement have the fields of the API types.
pub record CreateRequest : Type 0 where
  pub name : String
  pub class : VmClass
  pub image : VmImage
  pub networks : List NetworkAttachment
  pub disks : List DiskSpec
  pub user_data : Option UserData
  pub meta_data : Option String
  pub placement : Option Placement
  pub tags : List String

pub record CreateResponse : Type 0 where
  pub id : String
  pub task_ref : String

pub record DescribeResponse : Type 0 where
  pub exists : Bool
  pub power_state : String
  pub ips : List String
  pub console_url : String
  pub provider_raw : List (String × String)
