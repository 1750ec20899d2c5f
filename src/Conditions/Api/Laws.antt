-- ===== src/Conditions/Api/Laws.antt =====
-- internal/k8s/conditions.go: what `SetCondition` leaves for the readers.
use projectbeskar_virtrigaud.Common.{
  ℕ, String, false, ap, =t_cong, ◌=t◌, =t_iff, =t_refl, ◌&&◌, if◌then◌else◌, Option, none, some,
  List, [], ◌∷◌, ◌≡◌, ◌≢◌, refl, arith, All, sym, ◌∙◌, subst, Bool-cases, inl, inr,
}
use projectbeskar_virtrigaud.Conditions.Condition.{Condition, Status, same_status, DistinctKinds}
use projectbeskar_virtrigaud.Conditions.Api.{
  set_condition, get_condition, replacement, new_condition,
}

-- The time that the condition of the given type carries after `SetCondition`.
pub transition_time : Option Condition → ℕ → Status → String → ℕ
transition_time none now status reason = now
transition_time (some c) now status reason =
    if same_status c.status status && c.reason =t reason then c.last_transition_time else now

kind-replacement :
    (c : Condition) (now : ℕ) (kind : String) (status : Status) (reason message : String)
    → (replacement c now kind status reason message).kind ≡ kind
unfolding replacement new_condition
kind-replacement c now kind status reason message = ground arith

-- The condition that `SetCondition` leaves under its type.
pub edited : Option Condition → ℕ → String → Status → String → String → Condition
edited old now kind status reason message = record {
  kind = kind;
  status = status;
  reason = reason;
  message = message;
  last_transition_time = transition_time old now status reason;
  observed_generation = 0;
}

replacement_lem :
    (c : Condition) (now : ℕ) (kind : String) (status : Status) (reason message : String)
    → replacement c now kind status reason message ≡ edited (some c) now kind status reason message
unfolding replacement new_condition edited transition_time
replacement_lem c now kind status reason message =
    elim (Bool-cases (same_status c.status status && c.reason =t reason)) [
      | inl e ↦ rw e
      | inr e ↦ rw e
    ]

self-set_condition :
    (now : ℕ) (kind : String) (status : Status) (reason message : String) (cs : List Condition)
    → get_condition (set_condition now kind status reason message cs) kind
      ≡ some (edited (get_condition cs kind) now kind status reason message)
unfolding set_condition get_condition
self-set_condition now kind status reason message [] =
    rw (=t_refl kind) (unfold new_condition edited transition_time in refl)
self-set_condition now kind status reason message (c ∷ cs) = elim (Bool-cases (c.kind =t kind)) [
  | inl e ↦ rw e (
      rw (kind-replacement c now kind status reason message)
        (rw (=t_refl kind) (ap some (replacement_lem c now kind status reason message))))
  | inr e ↦ rw e (rw e (self-set_condition now kind status reason message cs))
]

other-set_condition :
    (now : ℕ) (kind k : String) (status : Status) (reason message : String) (cs : List Condition)
    → (kind =t k) ≡ false
    → get_condition (set_condition now kind status reason message cs) k ≡ get_condition cs k
unfolding set_condition get_condition new_condition
other-set_condition now kind k status reason message [] ne = rw ne
other-set_condition now kind k status reason message (c ∷ cs) ne =
    elim (Bool-cases (c.kind =t kind)) [
      | inl e ↦ rw e (
          rw (kind-replacement c now kind status reason message)
            (rw (ne, =t_cong c.kind kind k e, ne)))
      | inr e ↦ rw e (rw (other-set_condition now kind k status reason message cs ne))
    ]

-- After `SetCondition` the type that was set has the given status, reason and message, and its
-- transition time is the present unless it had that status and reason before; the condition of
-- every other type is what it was.
pub get_condition-set_condition :
    (now : ℕ) (kind k : String) (status : Status) (reason message : String) (cs : List Condition)
    → get_condition (set_condition now kind status reason message cs) k ≡ (
        if kind =t k
        then some (edited (get_condition cs kind) now kind status reason message)
        else get_condition cs k)
get_condition-set_condition now kind k status reason message cs = elim (Bool-cases (kind =t k)) [
  | inl e ↦ rw e (
      subst
        (λ j.
          get_condition (set_condition now kind status reason message cs) j
          ≡ some (edited (get_condition cs kind) now kind status reason message))
        ((=t_iff kind k).0 e) (self-set_condition now kind status reason message cs))
  | inr e ↦ rw e (other-set_condition now kind k status reason message cs e)
]

kinds-set_condition :
    (now : ℕ) (kind : String) (status : Status) (reason message k : String) (cs : List Condition)
    → kind ≢ k
    → All (λ d. d.kind ≢ k) cs
    → All (λ d. d.kind ≢ k) (set_condition now kind status reason message cs)
unfolding set_condition
kinds-set_condition now kind status reason message k [] ne h = (ne, tt)
kinds-set_condition now kind status reason message k (c ∷ cs) ne h =
    ground
      (arith, =t_iff c.kind kind, kinds-set_condition now kind status reason message k cs ne h.1)

-- `SetCondition` never gives a list two conditions of one type.
pub set_condition-DistinctKinds :
    (now : ℕ) (kind : String) (status : Status) (reason message : String) (cs : List Condition)
    → DistinctKinds cs
    → DistinctKinds (set_condition now kind status reason message cs)
unfolding set_condition
set_condition-DistinctKinds now kind status reason message [] h = (tt, tt)
set_condition-DistinctKinds now kind status reason message (c ∷ cs) h =
    elim (Bool-cases (c.kind =t kind)) [
      | inl e ↦
          let same : c.kind ≡ (replacement c now kind status reason message).kind =
            (=t_iff c.kind kind).0 e ∙ sym (kind-replacement c now kind status reason message) in
          rw e (subst (λ k. All (λ d. d.kind ≢ k) cs) same h.0, h.1)
      | inr e ↦
          let ne : kind ≢ c.kind = λ p. ground (arith, =t_iff c.kind kind) in
          rw e (
            kinds-set_condition now kind status reason message c.kind cs ne h.0,
            set_condition-DistinctKinds now kind status reason message cs h.1,
          )
    ]
