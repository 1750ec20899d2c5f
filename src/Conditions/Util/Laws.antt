-- ===== src/Conditions/Util/Laws.antt =====
-- internal/util/k8s/conditions.go: what the editors of conditions leave for the readers.
use projectbeskar_virtrigaud.Common.{
  ℕ, String, false, subst, =t_cong, ◌=t◌, =t_iff, =t_refl, if◌then◌else◌, Option, none, some, List,
  [], ◌∷◌, ◌≡◌, ◌≢◌, refl, arith, All, Bool-cases, inl, inr,
}
use projectbeskar_virtrigaud.Conditions.Condition.{Condition, Status, DistinctKinds}
use projectbeskar_virtrigaud.Conditions.Util.{
  set_condition, get_condition, remove_condition, update,
}

-- Setting a condition a second time to the same status, reason and message, at whatever later
-- time, changes nothing: neither its transition time nor its generation.
pub set_condition_idem :
    (now later : ℕ) (kind : String) (status : Status) (reason message : String)
    (cs : List Condition)
    → set_condition later kind status reason message
        (set_condition now kind status reason message cs)
      ≡ set_condition now kind status reason message cs
unfolding set_condition update
set_condition_idem now later kind status reason message [] =
    ground (arith, =t_refl kind, =t_refl reason, =t_refl message)
set_condition_idem now later kind status reason message (c ∷ cs) = ground (
  arith,
  =t_refl reason,
  =t_refl message,
  set_condition_idem now later kind status reason message cs,
)

-- The condition that `SetCondition` leaves under its type.
pub edited : Option Condition → ℕ → String → Status → String → String → Condition
edited none now kind status reason message = record {
  kind = kind;
  status = status;
  reason = reason;
  message = message;
  last_transition_time = now;
  observed_generation = 1;
}
edited (some c) now kind status reason message = update c now status reason message

kind-update :
    (c : Condition) (now : ℕ) (status : Status) (reason message : String)
    → (update c now status reason message).kind ≡ c.kind
unfolding update
kind-update c now status reason message = ground arith

self-set_condition :
    (now : ℕ) (kind : String) (status : Status) (reason message : String) (cs : List Condition)
    → get_condition (set_condition now kind status reason message cs) kind
      ≡ some (edited (get_condition cs kind) now kind status reason message)
unfolding set_condition get_condition edited
self-set_condition now kind status reason message [] = rw (=t_refl kind)
self-set_condition now kind status reason message (c ∷ cs) = elim (Bool-cases (c.kind =t kind)) [
  | inl e ↦ rw e (rw (kind-update c now status reason message) (rw e))
  | inr e ↦ rw e (rw e (self-set_condition now kind status reason message cs))
]

other-set_condition :
    (now : ℕ) (kind k : String) (status : Status) (reason message : String) (cs : List Condition)
    → (kind =t k) ≡ false
    → get_condition (set_condition now kind status reason message cs) k ≡ get_condition cs k
unfolding set_condition get_condition
other-set_condition now kind k status reason message [] ne = rw ne
other-set_condition now kind k status reason message (c ∷ cs) ne =
    elim (Bool-cases (c.kind =t kind)) [
      | inl e ↦
          rw e (rw (kind-update c now status reason message) (rw (=t_cong c.kind kind k e, ne)))
      | inr e ↦ rw e (rw (other-set_condition now kind k status reason message cs ne))
    ]

-- After `SetCondition` the type that was set has the edited condition (the given status, reason
-- and message, with a new transition time and generation only where one of them changes), and the
-- condition of every other type is what it was.
get_condition-set_condition_generation :
    (now : ℕ) (kind k : String) (status : Status) (reason message : String) (cs : List Condition)
    → get_condition (set_condition now kind status reason message cs) k ≡ (
        if kind =t k
        then some (edited (get_condition cs kind) now kind status reason message)
        else get_condition cs k)
get_condition-set_condition_generation now kind k status reason message cs =
    elim (Bool-cases (kind =t k)) [
      | inl e ↦ rw e (
          subst
            (λ j.
              get_condition (set_condition now kind status reason message cs) j
              ≡ some (edited (get_condition cs kind) now kind status reason message))
            ((=t_iff kind k).0 e) (self-set_condition now kind status reason message cs))
      | inr e ↦ rw e (other-set_condition now kind k status reason message cs e)
    ]

absent :
    (kind : String) (cs : List Condition)
    → All (λ d. d.kind ≢ kind) cs
    → get_condition cs kind ≡ none
unfolding get_condition
absent kind [] h = refl
absent kind (c ∷ cs) h = ground (arith, =t_iff c.kind kind, absent kind cs h.1)

self-remove_condition :
    (kind : String) (cs : List Condition)
    → DistinctKinds cs
    → get_condition (remove_condition kind cs) kind ≡ none
unfolding get_condition remove_condition
self-remove_condition kind [] h = refl
self-remove_condition kind (c ∷ cs) h = elim (Bool-cases (c.kind =t kind)) [
  | inl e ↦
      rw e (absent kind cs (subst (λ k. All (λ d. d.kind ≢ k) cs) ((=t_iff c.kind kind).0 e) h.0))
  | inr e ↦ rw e (rw e (self-remove_condition kind cs h.1))
]

other-remove_condition :
    (kind k : String) (cs : List Condition)
    → (kind =t k) ≡ false
    → get_condition (remove_condition kind cs) k ≡ get_condition cs k
unfolding get_condition remove_condition
other-remove_condition kind k [] ne = refl
other-remove_condition kind k (c ∷ cs) ne = elim (Bool-cases (c.kind =t kind)) [
  | inl e ↦ rw e (rw (=t_cong c.kind kind k e, ne))
  | inr e ↦ rw e (rw (other-remove_condition kind k cs ne))
]

-- In a list with one condition of each type `RemoveCondition` leaves none of the given type, and
-- every other as it was.
get_condition-remove_condition :
    (kind k : String) (cs : List Condition)
    → DistinctKinds cs
    → get_condition (remove_condition kind cs) k ≡ (if kind =t k then none else get_condition cs k)
get_condition-remove_condition kind k cs h = elim (Bool-cases (kind =t k)) [
  | inl e ↦ rw e (
      subst (λ j. get_condition (remove_condition kind cs) j ≡ none) ((=t_iff kind k).0 e)
        (self-remove_condition kind cs h))
  | inr e ↦ rw e (other-remove_condition kind k cs e)
]
