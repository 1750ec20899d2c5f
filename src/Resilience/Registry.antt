-- ===== src/Resilience/Registry.antt =====
-- internal/resilience/circuitbreaker.go: the registry of breakers. `*CircuitBreaker` is an address
-- in a heap, since the breakers that it hands out are shared; `map[string]*CircuitBreaker` is an
-- association list. Each method runs under the registry's mutex.
pub mod Laws
mod Tests
use projectbeskar_virtrigaud.Common.{
  ℕ, suc, ◌+◌, String, ◌<>◌, ◌=t◌, Bool, true, false, ◌==◌, if◌then◌else◌, Option, none, some, List,
  [], ◌∷◌,
}
use projectbeskar_virtrigaud.Resilience.Breaker
use projectbeskar_virtrigaud.Resilience.Breaker.{Breaker, Config, new_circuit_breaker}

pub record Registry : Type 0 where
  pub breakers : List (String × ℕ)
  pub config : Config
  pub heap : ℕ → Option Breaker
  pub next : ℕ

pub new_registry : Option Config → Registry
new_registry config = record {
  breakers = [];
  config = Breaker.or_default config;
  heap = λ _. none;
  next = 0;
}

-- The key of a breaker: `%s:%s:%s`.
pub key : String → String → String → String
key name provider_type provider = provider_type <> (":" <> (provider <> (":" <> name)))

pub find : String → List (String × ℕ) → Option ℕ
find k [] = none
find k ((j, p) ∷ m) = if j =t k then some p else find k m

delete : String → List (String × ℕ) → List (String × ℕ)
delete k [] = []
delete k ((j, p) ∷ m) = let rest = delete k m in if j =t k then rest else (j, p) ∷ rest

write : (ℕ → Option Breaker) → ℕ → Breaker → ℕ → Option Breaker
write heap p b q = if p == q then some b else heap q

create : String → String → Registry → ℕ × Registry
unfolding write
create k name r = (
  r.next,
  record r {
    breakers = (k, r.next) ∷ r.breakers;
    heap = write r.heap r.next (new_circuit_breaker name (some r.config));
    next = suc r.next;
  },
)

or_create : String → String → Registry → Option ℕ → ℕ × Registry
unfolding create
or_create k name r (some p) = (p, r)
or_create k name r none = create k name r

pub get_or_create : String → String → String → Registry → ℕ × Registry
unfolding or_create
get_or_create name provider_type provider r =
    let k = key name provider_type provider in or_create k name r (find k r.breakers)

pub get : String → String → String → Registry → Option ℕ
get name provider_type provider r = find (key name provider_type provider) r.breakers

pub remove : String → String → String → Registry → Registry
unfolding delete
remove name provider_type provider r = record r {
  breakers = delete (key name provider_type provider) r.breakers;
}

-- `List`: a copy of the map, which shares the breakers.
pub list : Registry → List (String × ℕ)
list r = r.breakers

reset_at : (ℕ → Option Breaker) → ℕ → Option Breaker → ℕ → Option Breaker
unfolding write
reset_at heap p none = heap
reset_at heap p (some b) = write heap p (Breaker.reset b)

reset_each : List (String × ℕ) → (ℕ → Option Breaker) → ℕ → Option Breaker
unfolding reset_at
reset_each [] heap = heap
reset_each ((k, p) ∷ m) heap = reset_each m (reset_at heap p (heap p))

-- `Reset`: resets every registered breaker.
pub reset_all : Registry → Registry
unfolding reset_each
reset_all r = record r { heap = reset_each r.breakers r.heap }
