-- ===== src/Common/Texts.antt =====
-- Whole texts: the equality test, and the decimal numerals that `%d` prints.
use Prim.Native.Nat.{ℕ, zero, suc, ◌/◌, ◌%◌, compare, Ordering}
use Prim.Native.String.{String, ◌++◌}
use mathlib.Core.Path.{◌≡◌, refl, ap}
use mathlib.Core.Logic.{◌↔◌}
use mathlib.Core.Bool.{Bool, true}
use mathlib.Core.List.{List, [], ◌∷◌}
use projectbeskar_virtrigaud.Common.Tests.{is_some}
use text.Mathlib.Text
use text.Mathlib.TextEquality
use text.Mathlib.TextPositions

infix 50 ◌=t◌
abbrev pub ◌=t◌ : String → String → Bool
s =t t = Text.◌==◌ s t

pub =t_iff : (s t : String) → ((s =t t) ≡ true) ↔ (s ≡ t)
=t_iff s t = TextEquality.eq_iff s t

pub =t_refl : (s : String) → (s =t s) ≡ true
=t_refl s = TextPositions.eq_refl s

-- Equal texts compare alike with any third.
pub =t_cong : (r s t : String) → (r =t s) ≡ true → (r =t t) ≡ (s =t t)
=t_cong r s t e = ap (λ u. u =t t) ((=t_iff r s).0 e)

-- `strings.Contains`.
abbrev pub has_part : String → String → Bool
has_part s t = is_some (Text.find? s t)

-- `strings.Join`.
pub join : String → List String → String
join separator [] = ""
join separator (s ∷ []) = s
join separator (s ∷ t ∷ ts) = s ++ (separator ++ join separator (t ∷ ts))

-- `%q` of a text without a character that it escapes.
abbrev pub quote : String → String
quote s = "\"" ++ (s ++ "\"")

-- The numeral of a number below ten.
digit : ℕ → String
digit zero = "0"
digit (suc zero) = "1"
digit (suc (suc zero)) = "2"
digit (suc (suc (suc zero))) = "3"
digit (suc (suc (suc (suc zero)))) = "4"
digit (suc (suc (suc (suc (suc zero))))) = "5"
digit (suc (suc (suc (suc (suc (suc zero)))))) = "6"
digit (suc (suc (suc (suc (suc (suc (suc zero))))))) = "7"
digit (suc (suc (suc (suc (suc (suc (suc (suc zero)))))))) = "8"
digit n = "9"

numeral_fuel : ℕ → ℕ → String
unfolding digit
numeral_fuel zero n = ""
numeral_fuel (suc f) n =
    let higher = numeral_fuel f (n / 10) in
    elim (compare n 10) [ Ordering.lt ↦ digit n | _ ↦ higher ++ digit (n % 10) ]

-- A number has at most 64 decimal digits where it is below 10 ^ 64, which every Go integer is.
pub numeral : ℕ → String
unfolding numeral_fuel
numeral n = numeral_fuel 64 n

numeral_test : numeral 4096 ≡ "4096"
unfolding numeral
numeral_test = refl
