-- ===== src/Adoption/Names/Laws.antt =====
-- internal/controller/vmadoption_controller.go: the names that `sanitizeVMName` gives.
use Prim.Native.Char.{Char}
use Prim.Native.String.{[], ◌∷◌, count}
use Prim.Native.String.count as Count
use projectbeskar_virtrigaud.Common.{
  ℕ, zero, suc, ◌≤◌, ltb, String, Bool, true, false, if◌then◌else◌, ◌≡◌, refl, arith,
}
use projectbeskar_virtrigaud.Adoption.Names.{
  is_hyphen, is_valid, keep_valid, trim_left, trim_right, prepend, trim, first, limit,
  sanitize_vm_name, replace_all,
}

-- Every character is a small letter, a digit or a hyphen.
pub IsClean : String → Type 0
IsClean [] = Unit
IsClean (c ∷ s) = (is_valid c ≡ true) × IsClean s

-- No hyphen at the beginning.
pub StartsWell : String → Type 0
StartsWell [] = Unit
StartsWell (c ∷ s) = is_hyphen c ≡ false

-- No hyphen at the end.
pub EndsWell : String → Type 0
EndsWell [] = Unit
EndsWell (c ∷ []) = is_hyphen c ≡ false
EndsWell (c ∷ d ∷ s) = EndsWell (d ∷ s)

-- A name that Kubernetes takes, or the empty text.
pub record IsName (s : String) : Type 0 where
  pub clean : IsClean s
  pub short : count s ≤ 63
  pub starts_well : StartsWell s
  pub ends_well : EndsWell s

either :
    (P : String → Type 0) (b : Bool) (s t : String)
    → (b ≡ true → P s)
    → (b ≡ false → P t)
    → P (if b then s else t)
either P true s t h k = h refl
either P false s t h k = k refl

keep_valid-IsClean : (s : String) → IsClean (keep_valid s)
unfolding IsClean keep_valid
keep_valid-IsClean [] = tt
keep_valid-IsClean (c ∷ s) =
    either IsClean (is_valid c) (c ∷ keep_valid s) (keep_valid s) (λ e. (e, keep_valid-IsClean s))
      λ e. keep_valid-IsClean s

trim_left-IsClean : (s : String) → IsClean s → IsClean (trim_left s)
unfolding IsClean trim_left
trim_left-IsClean [] h = tt
trim_left-IsClean (c ∷ s) h =
    either IsClean (is_hyphen c) (trim_left s) (c ∷ s) (λ e. trim_left-IsClean s h.1) λ e. h

trim_left-StartsWell : (s : String) → StartsWell (trim_left s)
unfolding StartsWell trim_left
trim_left-StartsWell [] = tt
trim_left-StartsWell (c ∷ s) =
    either StartsWell (is_hyphen c) (trim_left s) (c ∷ s) (λ e. trim_left-StartsWell s) λ e. e

trim_left-count : (s : String) → count (trim_left s) ≤ count s
unfolding trim_left
trim_left-count [] = omega arith
trim_left-count (c ∷ s) =
    either (λ t. count t ≤ count (c ∷ s)) (is_hyphen c) (trim_left s) (c ∷ s)
      (λ e. omega (arith, trim_left-count s, Count.cons c s)) λ e. omega arith

prepend-IsClean : (c : Char) (s : String) → is_valid c ≡ true → IsClean s → IsClean (prepend c s)
unfolding IsClean prepend
prepend-IsClean c [] e h = either IsClean (is_hyphen c) [] (c ∷ []) (λ _. tt) λ _. (e, tt)
prepend-IsClean c (d ∷ s) e h = (e, h)

prepend-StartsWell : (c : Char) (s : String) → is_hyphen c ≡ false → StartsWell (prepend c s)
unfolding StartsWell prepend
prepend-StartsWell c [] e = either StartsWell (is_hyphen c) [] (c ∷ []) (λ _. tt) λ _. e
prepend-StartsWell c (d ∷ s) e = e

prepend-EndsWell : (c : Char) (s : String) → EndsWell s → EndsWell (prepend c s)
unfolding EndsWell prepend
prepend-EndsWell c [] h = either EndsWell (is_hyphen c) [] (c ∷ []) (λ _. tt) λ e. e
prepend-EndsWell c (d ∷ s) h = h

prepend-count : (c : Char) (s : String) → count (prepend c s) ≤ suc (count s)
unfolding prepend
prepend-count c [] =
    either (λ t. count t ≤ 1) (is_hyphen c) [] (c ∷ []) (λ _. omega arith)
      λ _. omega (arith, Count.cons c [])
prepend-count c (d ∷ s) = omega (arith, Count.cons c (d ∷ s))

trim_right-IsClean : (s : String) → IsClean s → IsClean (trim_right s)
unfolding IsClean trim_right
trim_right-IsClean [] h = tt
trim_right-IsClean (c ∷ s) h = prepend-IsClean c (trim_right s) h.0 (trim_right-IsClean s h.1)

trim_right-StartsWell : (s : String) → StartsWell s → StartsWell (trim_right s)
unfolding StartsWell trim_right
trim_right-StartsWell [] h = tt
trim_right-StartsWell (c ∷ s) h = prepend-StartsWell c (trim_right s) h

trim_right-EndsWell : (s : String) → EndsWell (trim_right s)
unfolding EndsWell trim_right
trim_right-EndsWell [] = tt
trim_right-EndsWell (c ∷ s) = prepend-EndsWell c (trim_right s) (trim_right-EndsWell s)

trim_right-count : (s : String) → count (trim_right s) ≤ count s
unfolding trim_right
trim_right-count [] = omega arith
trim_right-count (c ∷ s) =
    omega (arith, prepend-count c (trim_right s), trim_right-count s, Count.cons c s)

first-IsClean : (n : ℕ) (s : String) → IsClean s → IsClean (first n s)
unfolding IsClean first
first-IsClean zero s h = tt
first-IsClean (suc n) [] h = tt
first-IsClean (suc n) (c ∷ s) h = (h.0, first-IsClean n s h.1)

first-count : (n : ℕ) (s : String) → count (first n s) ≤ n
unfolding first
first-count zero s = omega arith
first-count (suc n) [] = omega arith
first-count (suc n) (c ∷ s) = omega (arith, first-count n s, Count.cons c (first n s))

trim-IsName : (s : String) → IsClean s → count (trim s) ≤ 63 → IsName (trim s)
unfolding trim
trim-IsName s h short = record {
  clean = trim_right-IsClean (trim_left s) (trim_left-IsClean s h);
  short = short;
  starts_well = trim_right-StartsWell (trim_left s) (trim_left-StartsWell s);
  ends_well = trim_right-EndsWell (trim_left s);
}

trim-count : (s : String) → count (trim s) ≤ count s
unfolding trim
trim-count s = omega (arith, trim_right-count (trim_left s), trim_left-count s)

trim-IsClean : (s : String) → IsClean s → IsClean (trim s)
unfolding trim
trim-IsClean s h = trim_right-IsClean (trim_left s) (trim_left-IsClean s h)

limit-IsName : (s : String) → IsClean s → IsName (limit (trim s))
unfolding limit
limit-IsName s h =
    either IsName (ltb 63 (count (trim s))) (trim (first 63 (trim s))) (trim s)
      (λ e.
        trim-IsName (first 63 (trim s)) (first-IsClean 63 (trim s) (trim-IsClean s h))
          (omega (arith, trim-count (first 63 (trim s)), first-count 63 (trim s))))
      λ e. trim-IsName s h (ground arith)

-- The name made for a machine is one that Kubernetes takes, or empty: whatever the machine is called, it
-- has at most 63 characters, only small letters, digits and hyphens, and no hyphen at either end.
pub sanitize_vm_name-IsName : (lower : String) → IsName (sanitize_vm_name lower)
unfolding sanitize_vm_name
sanitize_vm_name-IsName lower =
    limit-IsName (keep_valid (replace_all lower)) (keep_valid-IsClean (replace_all lower))
