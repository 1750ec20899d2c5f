-- ===== src/Vm/Types.antt =====
-- api/infra.virtrigaud.io/v1beta1/{virtualmachine,vmclass,vmimage,vmnetworkattachment}_types.go: the
-- fields that the VirtualMachine controller reads or writes. A pointer that may be nil is an
-- `Option`, an `int32` or `int64` a `ℤ`, a quantity what its `Value()` returns.
use projectbeskar_virtrigaud.Common.{ℕ, ℤ, String, Bool, Option, List}
use projectbeskar_virtrigaud.Conditions.Condition.{Condition}
use projectbeskar_virtrigaud.Migration.Types.{ObjectRef, VmNetworkRef}

pub record DiskSpec : Type 0 where
  pub name : String
  pub size_gib : ℤ
  pub kind : String

pub record ImportedDiskRef : Type 0 where
  pub disk_id : String
  pub path : String
  pub format : String
  pub source : String

-- `CloudInit` and `CloudInitMetaData`, which have the same fields: the text, and the name of a
-- secret.
pub record CloudInit : Type 0 where
  pub inline : String
  pub secret_ref : Option String

pub record Placement : Type 0 where
  pub cluster : String
  pub datastore : String
  pub storage_pod : String
  pub folder : String

pub record VirtualMachineResources : Type 0 where
  pub cpu : Option ℤ
  pub memory_mib : Option ℤ

-- `user_data` is `UserData.CloudInit`, and `meta_data` is `MetaData.CloudInit`.
pub record VirtualMachineSpec : Type 0 where
  pub provider_ref : ObjectRef
  pub class_ref : ObjectRef
  pub image_ref : Option ObjectRef
  pub imported_disk : Option ImportedDiskRef
  pub networks : List VmNetworkRef
  pub disks : List DiskSpec
  pub user_data : Option CloudInit
  pub meta_data : Option CloudInit
  pub placement : Option Placement
  pub power_state : String
  pub tags : List String
  pub resources : Option VirtualMachineResources

pub record VirtualMachineStatus : Type 0 where
  pub id : String
  pub power_state : String
  pub ips : List String
  pub console_url : String
  pub conditions : List Condition
  pub observed_generation : ℕ
  pub last_task_ref : String
  pub provider : List (String × String)
  pub reconfigure_task_ref : String
  pub last_reconfigure_time : Option ℕ
  pub current_resources : Option VirtualMachineResources
  pub phase : String

-- `deleting` is whether there is a deletion timestamp.
pub record VirtualMachine : Type 0 where
  pub namespace : String
  pub name : String
  pub labels : List (String × String)
  pub generation : ℕ
  pub deleting : Bool
  pub finalizers : List String
  pub spec : VirtualMachineSpec
  pub status : VirtualMachineStatus

pub record VmResourceLimits : Type 0 where
  pub cpu_limit : Option ℤ
  pub cpu_reservation : Option ℤ
  pub memory_limit : Option ℤ
  pub memory_reservation : Option ℤ
  pub cpu_shares : Option ℤ

pub record PerformanceProfile : Type 0 where
  pub latency_sensitivity : String
  pub cpu_hot_add_enabled : Bool
  pub memory_hot_add_enabled : Bool
  pub virtualization_based_security : Bool
  pub nested_virtualization : Bool
  pub hyper_threading_policy : String

pub record EncryptionPolicy : Type 0 where
  pub enabled : Bool
  pub key_provider : String
  pub require_encryption : Bool

pub record SecurityProfile : Type 0 where
  pub secure_boot : Bool
  pub tpm_enabled : Bool
  pub tpm_version : String
  pub vtd_enabled : Bool
  pub encryption_policy : Option EncryptionPolicy

pub record DiskDefaults : Type 0 where
  pub kind : String
  pub size : ℤ

pub record VmClassSpec : Type 0 where
  pub cpu : ℤ
  pub memory : ℤ
  pub firmware : String
  pub disk_defaults : Option DiskDefaults
  pub guest_tools_policy : String
  pub extra_config : List (String × String)
  pub resource_limits : Option VmResourceLimits
  pub performance_profile : Option PerformanceProfile
  pub security_profile : Option SecurityProfile

pub record VSphereImageSource : Type 0 where
  pub template_name : String
  pub ova_url : String
  pub checksum : String
  pub checksum_type : String

pub record LibvirtImageSource : Type 0 where
  pub path : String
  pub url : String
  pub format : String
  pub checksum : String
  pub checksum_type : String

pub record ProxmoxImageSource : Type 0 where
  pub template_id : Option ℤ
  pub template_name : String

pub record ImageSource : Type 0 where
  pub vsphere : Option VSphereImageSource
  pub libvirt : Option LibvirtImageSource
  pub proxmox : Option ProxmoxImageSource

-- `vlan` is `VLAN.VlanID`, none where either pointer is nil.
pub record VSphereNetworkConfig : Type 0 where
  pub portgroup : String
  pub vlan : Option ℤ
  pub pci_slot_number : Option ℤ

-- `bridge` is `Bridge.Name`.
pub record LibvirtNetworkConfig : Type 0 where
  pub network_name : String
  pub bridge : Option String
  pub model : String

pub record ProxmoxNetworkConfig : Type 0 where
  pub bridge : String
  pub model : String
  pub vlan_tag : Option ℤ

pub record NetworkConfig : Type 0 where
  pub vsphere : Option VSphereNetworkConfig
  pub libvirt : Option LibvirtNetworkConfig
  pub proxmox : Option ProxmoxNetworkConfig
