-- ===== src/Resilience/Registry/Laws.antt =====
-- internal/resilience/circuitbreaker.go: the registry hands out one breaker for each key.
use projectbeskar_virtrigaud.Common.{
  ℕ, String, ◌≡◌, ◌≢◌, refl, ◌=t◌, =t_iff, Bool, false, if◌then◌else◌, Option, none, some, List, [],
  ◌∷◌, arith, Option-cases, inl, inr, =t_refl, ◌==◌, ◌||◌, ap,
}
use mathlib.Core.Option
use projectbeskar_virtrigaud.Resilience.Breaker
use projectbeskar_virtrigaud.Resilience.Breaker.{Breaker, Config, closed}
use projectbeskar_virtrigaud.Resilience.Registry.{
  Registry, key, find, delete, get_or_create, get, remove, reset_all, reset_each, reset_at, write,
}

-- After `GetOrCreate`, `Get` of the same names finds that very breaker, `GetOrCreate` returns it
-- again and changes nothing, and every other key leads where it led.
pub get-get_or_create :
    (name provider_type provider : String) (r : Registry)
    → let (p, r') = get_or_create name provider_type provider r in
      (get name provider_type provider r' ≡ some p)
      × (get_or_create name provider_type provider r' ≡ (p, r'))
      × ((k : String)
          → k ≢ key name provider_type provider
          → find k r'.breakers ≡ find k r.breakers)
unfolding get get_or_create find
get-get_or_create name t p r = elim (Option-cases (find (key name t p) r.breakers)) [
  | inl new ↦
      rw new
        (rw (=t_refl (key name t p)) (refl, refl, λ k ne. ground (arith, =t_iff (key name t p) k)))
  | inr (q, old) ↦ rw old (rw old (refl, refl, λ k ne. refl))
]

find-delete :
    (k j : String) (m : List (String × ℕ))
    → find j (delete k m) ≡ (if k =t j then none else find j m)
unfolding find delete
find-delete k j [] = ground arith
find-delete k j ((i, p) ∷ m) = ground (arith, =t_iff k j, =t_iff i k, =t_iff i j, find-delete k j m)

-- After `Remove` the key is gone and every other key leads where it led; the breaker itself, which
-- others may hold, is left alone.
pub get-remove :
    (name provider_type provider : String) (r : Registry)
    → let r' = remove name provider_type provider r in
      (get name provider_type provider r' ≡ none)
      × ((k : String)
          → k ≢ key name provider_type provider
          → find k r'.breakers ≡ find k r.breakers)
      × (r'.heap ≡ r.heap)
unfolding get remove
get-remove name t p r = (
  rw (find-delete, =t_refl),
  λ k ne. ground (arith, find-delete (key name t p) k r.breakers, =t_iff (key name t p) k),
  refl,
)

-- Whether some key of the map leads to the address.
pub points : List (String × ℕ) → ℕ → Bool
points [] q = false
points ((k, p) ∷ m) q = p == q || points m q

abbrev reset? : Option Breaker → Option Breaker
reset? none = none
reset? (some b) = some (Breaker.reset b)

reset_idem : (b : Breaker) → Breaker.reset (Breaker.reset b) ≡ Breaker.reset b
unfolding Breaker.reset
reset_idem b = refl

reset?_idem : (o : Option Breaker) → reset? (reset? o) ≡ reset? o
reset?_idem none = refl
reset?_idem (some b) = ap some (reset_idem b)

reset_at_lem :
    (heap : ℕ → Option Breaker) (p q : ℕ)
    → reset_at heap p (heap p) q ≡ (if p == q then reset? (heap q) else heap q)
unfolding reset_at write
reset_at_lem heap p q = elim (Option-cases (heap p)) [
  | inl e ↦ rw (e, reset_at) (ground arith)
  | inr (b, e) ↦ rw (e, reset_at) (ground arith)
]

reset_each_lem :
    (m : List (String × ℕ)) (heap : ℕ → Option Breaker) (q : ℕ)
    → reset_each m heap q ≡ (if points m q then reset? (heap q) else heap q)
unfolding reset_each points
reset_each_lem [] heap q = refl
reset_each_lem ((k, p) ∷ m) heap q = ground (
  arith,
  reset_each_lem m (reset_at heap p (heap p)) q,
  reset_at_lem heap p q,
  reset?_idem (heap q),
)

-- `Reset` resets each breaker that the map leads to, once or several times over, and touches no
-- other, nor the map.
pub reset_all_lem :
    (r : Registry)
    → ((reset_all r).breakers ≡ r.breakers)
      × ((q : ℕ)
          → (reset_all r).heap q
            ≡ (if points r.breakers q then Option.map Breaker.reset (r.heap q) else r.heap q))
unfolding reset_all
reset_all_lem r = (refl, λ q. ground (arith, reset_each_lem r.breakers r.heap q))
