-- ===== src/Adoption/Names/Tests.antt =====
-- The name of a machine with blanks, dots and foreign characters.
use projectbeskar_virtrigaud.Common.{◌≡◌, refl}
use projectbeskar_virtrigaud.Adoption.Names.{sanitize_vm_name}
use projectbeskar_virtrigaud.Adoption.Names.Laws.{IsName, sanitize_vm_name-IsName}

sanitize_vm_name_test : sanitize_vm_name "-web_1.prod (é)-" ≡ "web-1-prod"
unfolding sanitize_vm_name
sanitize_vm_name_test = refl

sanitize_vm_name-IsName_example : IsName (sanitize_vm_name "-web_1.prod (é)-")
sanitize_vm_name-IsName_example = sanitize_vm_name-IsName "-web_1.prod (é)-"
