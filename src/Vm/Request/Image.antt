-- ===== src/Vm/Request/Image.antt =====
-- internal/controller/virtualmachine_controller.go (`buildCreateRequest`): the image of a request,
-- from an imported disk or from the sources of a VMImage, the later sources over the earlier ones.
use projectbeskar_virtrigaud.Common.{String, ◌<>◌, ◌=t◌, decimal, if◌then◌else◌, Option, none, some}
use projectbeskar_virtrigaud.Vm.Types.{
  ImportedDiskRef, ImageSource, VSphereImageSource, LibvirtImageSource, ProxmoxImageSource,
}
use projectbeskar_virtrigaud.Vm.Contracts.{VmImage}

abbrev pub no_image : VmImage
no_image = record {
  template_name = "";
  path = "";
  url = "";
  format = "";
  checksum = "";
  checksum_type = "";
}

abbrev unless_empty : String → String → String
unless_empty s default = if s =t "" then default else s

pub default_format : String → String
default_format s = unless_empty s "qcow2"

pub imported_image : ImportedDiskRef → VmImage
unfolding default_format
imported_image d = record no_image {
  path =
      unless_empty d.path
        ("/var/lib/libvirt/images/" <> (d.disk_id <> ("." <> default_format d.format)));
  format = default_format d.format;
  checksum_type = "sha256";
}

from_vsphere : Option VSphereImageSource → VmImage → VmImage
from_vsphere none i = i
from_vsphere (some v) i = record i {
  template_name = v.template_name;
  url = v.ova_url;
  checksum = unless_empty v.checksum i.checksum;
  checksum_type = unless_empty v.checksum_type i.checksum_type;
}

from_libvirt : Option LibvirtImageSource → VmImage → VmImage
from_libvirt none i = i
from_libvirt (some l) i = record i {
  path = l.path;
  url = l.url;
  format = l.format;
  checksum = unless_empty l.checksum i.checksum;
  checksum_type = unless_empty l.checksum_type i.checksum_type;
}

-- The numeric identifier of a Proxmox template takes precedence over its name.
from_proxmox : Option ProxmoxImageSource → VmImage → VmImage
from_proxmox none i = i
from_proxmox (some p) i = elim p.template_id [
  | some id ↦ record i { template_name = decimal id }
  | none ↦ record i { template_name = unless_empty p.template_name i.template_name }
]

pub template_image : ImageSource → VmImage
unfolding from_vsphere from_libvirt from_proxmox
template_image source = from_proxmox source.proxmox (
    from_libvirt source.libvirt (
      from_vsphere source.vsphere
        (record no_image { format = "template"; checksum_type = "sha256" })))

pub build_image : Option ImportedDiskRef → Option ImageSource → VmImage
unfolding imported_image template_image
build_image (some d) o = imported_image d
build_image none (some source) = template_image source
build_image none none = no_image
