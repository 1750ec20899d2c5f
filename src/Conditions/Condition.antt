-- ===== src/Conditions/Condition.antt =====
-- `metav1.Condition` of the Kubernetes API, which both packages of conditions edit. The status
-- constants "True", "False" and "Unknown" are `met`, `unmet` and `unknown`.
use projectbeskar_virtrigaud.Common.{
  ℕ, String, Bool, true, false, Option, none, some, List, [], ◌∷◌, ◌≢◌, All,
}

pub data Status : Type 0 where
  met unmet unknown : Status

abbrev pub same_status : Status → Status → Bool
same_status met met = true
same_status unmet unmet = true
same_status unknown unknown = true
same_status _ _ = false

pub record Condition : Type 0 where
  pub kind : String
  pub status : Status
  pub reason : String
  pub message : String
  pub last_transition_time : ℕ
  pub observed_generation : ℕ

abbrev pub has_status : Status → Option Condition → Bool
has_status s none = false
has_status s (some c) = same_status c.status s

-- No two conditions of the list have one type.
abbrev pub DistinctKinds : List Condition → Type 0
DistinctKinds [] = Unit
DistinctKinds (c ∷ cs) = All (λ d. d.kind ≢ c.kind) cs × DistinctKinds cs
