-- ===== src/Vm/Request/Networks.antt =====
-- internal/controller/virtualmachine_controller.go (`buildCreateRequest`): the network attachments of
-- a request. `networks` holds the configuration of each network reference of the specification, at
-- the same index, where there is one.
use projectbeskar_virtrigaud.Common.{pos, Option, none, some, List, [], ◌∷◌}
use projectbeskar_virtrigaud.Migration.Types.{VmNetworkRef, ObjectRef}
use projectbeskar_virtrigaud.Vm.Types.{
  NetworkConfig, VSphereNetworkConfig, LibvirtNetworkConfig, ProxmoxNetworkConfig,
}
use projectbeskar_virtrigaud.Vm.Contracts.{NetworkAttachment}

abbrev get_or {ℓ} : {A : Type ℓ} → Option A → A → A
get_or none a = a
get_or (some b) a = b

abbrev or_keep {ℓ} : {A : Type ℓ} → Option A → Option A → Option A
or_keep none o = o
or_keep (some b) o = some b

pub plain_attachment : VmNetworkRef → NetworkAttachment
plain_attachment r = record {
  name = r.name;
  network_name = "";
  bridge = "";
  vlan = pos 0;
  model = "";
  static_ip = r.ip_address;
  prefix = r.prefix;
  gateway = r.gateway;
  dns = r.dns;
  pci_slot_number = none;
}

from_vsphere : Option VSphereNetworkConfig → NetworkAttachment → NetworkAttachment
from_vsphere none a = a
from_vsphere (some v) a = record a {
  network_name = v.portgroup;
  vlan = get_or v.vlan a.vlan;
  pci_slot_number = or_keep v.pci_slot_number a.pci_slot_number;
}

from_libvirt : Option LibvirtNetworkConfig → NetworkAttachment → NetworkAttachment
from_libvirt none a = a
from_libvirt (some l) a = record a {
  network_name = l.network_name;
  bridge = get_or l.bridge a.bridge;
  model = l.model;
}

from_proxmox : Option ProxmoxNetworkConfig → NetworkAttachment → NetworkAttachment
from_proxmox none a = a
from_proxmox (some p) a = record a {
  bridge = p.bridge;
  model = p.model;
  vlan = get_or p.vlan_tag a.vlan;
}

-- `networks[i]`, where the reference has a `NetworkRef` and `i` is in range.
pub attach : VmNetworkRef → Option ObjectRef → Option NetworkConfig → NetworkAttachment
unfolding plain_attachment from_vsphere from_libvirt from_proxmox
attach r (some ref) (some net) =
    from_proxmox net.proxmox
      (from_libvirt net.libvirt (from_vsphere net.vsphere (plain_attachment r)))
attach r _ _ = plain_attachment r

pub build_networks : List VmNetworkRef → List (Option NetworkConfig) → List NetworkAttachment
unfolding attach
build_networks [] networks = []
build_networks (r ∷ rs) [] = attach r r.network_ref none ∷ build_networks rs []
build_networks (r ∷ rs) (n ∷ ns) = attach r r.network_ref n ∷ build_networks rs ns
