-- ===== src/Conditions/Util.antt =====
-- internal/util/k8s/conditions.go. The list that the Go code edits through a pointer, which is not
-- nil, is returned; `now` is the time that `metav1.Now` reads.
pub mod Laws
mod Tests
use projectbeskar_virtrigaud.Common.{
  ℕ, suc, String, Bool, true, false, not, ◌=t◌, ◌&&◌, if◌then◌else◌, Option, none, some, List, [],
  ◌∷◌,
}
use projectbeskar_virtrigaud.Conditions.Condition.{
  Condition, Status, met, unmet, same_status, has_status,
}

-- A condition of the type is changed only if its status, reason or message is; the change counts
-- the generation up.
update : Condition → ℕ → Status → String → String → Condition
update c now status reason message =
    if same_status c.status status && (c.reason =t reason && c.message =t message)
    then c
    else record c {
      status = status;
      reason = reason;
      message = message;
      last_transition_time = now;
      observed_generation = suc c.observed_generation;
    }

pub set_condition : ℕ → String → Status → String → String → List Condition → List Condition
unfolding update
set_condition now kind status reason message [] =
    record {
      kind = kind;
      status = status;
      reason = reason;
      message = message;
      last_transition_time = now;
      observed_generation = 1;
    }
    ∷ []
set_condition now kind status reason message (c ∷ cs) =
    if c.kind =t kind
    then update c now status reason message ∷ cs
    else c ∷ set_condition now kind status reason message cs

pub get_condition : List Condition → String → Option Condition
get_condition [] kind = none
get_condition (c ∷ cs) kind = if c.kind =t kind then some c else get_condition cs kind

pub is_condition_true : List Condition → String → Bool
is_condition_true cs kind = has_status met (get_condition cs kind)

pub is_condition_false : List Condition → String → Bool
is_condition_false cs kind = has_status unmet (get_condition cs kind)

pub remove_condition : String → List Condition → List Condition
remove_condition kind [] = []
remove_condition kind (c ∷ cs) = if c.kind =t kind then cs else c ∷ remove_condition kind cs
