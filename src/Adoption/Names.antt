-- ===== src/Adoption/Names.antt =====
-- internal/controller/vmadoption_controller.go (`sanitizeVMName`): the name of a virtual machine as one
-- of Kubernetes. `lower` is the name after `strings.ToLower`.
pub mod Laws
mod Tests
use Prim.Native.Char.{Char, code}
use Prim.Native.String.{[], ◌∷◌, count}
use projectbeskar_virtrigaud.Common.{
  ℕ, zero, suc, ltb, leb, ◌==◌, String, Bool, true, false, ◌&&◌, ◌||◌, if◌then◌else◌,
}

abbrev pub is_hyphen : Char → Bool
is_hyphen c = code c == b'-'

-- `_`, `.` and blanks become hyphens.
abbrev replace : Char → Char
replace c = if code c == b'_' || code c == b'.' || code c == b' ' then "-" else c

abbrev pub is_valid : Char → Bool
is_valid c =
    leb b'a' (code c) && leb (code c) b'z' || leb b'0' (code c) && leb (code c) b'9' || is_hyphen c

pub replace_all : String → String
replace_all [] = []
replace_all (c ∷ s) = replace c ∷ replace_all s

pub keep_valid : String → String
keep_valid [] = []
keep_valid (c ∷ s) = let rest = keep_valid s in if is_valid c then c ∷ rest else rest

-- `strings.Trim(s, "-")`, from the left and then from the right.
pub trim_left : String → String
trim_left [] = []
trim_left (c ∷ s) = let rest = trim_left s in if is_hyphen c then rest else c ∷ s

prepend : Char → String → String
prepend c [] = if is_hyphen c then [] else c ∷ []
prepend c (d ∷ s) = c ∷ d ∷ s

pub trim_right : String → String
unfolding prepend
trim_right [] = []
trim_right (c ∷ s) = prepend c (trim_right s)

pub trim : String → String
unfolding trim_left trim_right
trim s = trim_right (trim_left s)

-- The first `n` characters, which are bytes here.
pub first : ℕ → String → String
first zero s = []
first (suc n) [] = []
first (suc n) (c ∷ s) = c ∷ first n s

pub limit : String → String
unfolding first trim
limit s = if ltb 63 (count s) then trim (first 63 s) else s

pub sanitize_vm_name : String → String
unfolding limit trim keep_valid replace_all
sanitize_vm_name lower = limit (trim (keep_valid (replace_all lower)))
