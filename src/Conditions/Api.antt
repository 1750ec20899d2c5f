-- ===== src/Conditions/Api.antt =====
-- internal/k8s/conditions.go. The list that the Go code edits through a pointer is returned; `now`
-- is the time that `metav1.Now` reads.
pub mod Laws
mod Tests
use projectbeskar_virtrigaud.Common.{
  ℕ, String, Bool, ◌=t◌, ◌&&◌, if◌then◌else◌, Option, none, some, List, [], ◌∷◌,
}
use projectbeskar_virtrigaud.Conditions.Condition.{
  Condition, Status, met, unmet, unknown, same_status, has_status,
}

new_condition : ℕ → String → Status → String → String → Condition
new_condition now kind status reason message = record {
  kind = kind;
  status = status;
  reason = reason;
  message = message;
  last_transition_time = now;
  observed_generation = 0;
}

-- What replaces a condition of the same type: its transition time is kept where neither the status
-- nor the reason changes.
replacement : Condition → ℕ → String → Status → String → String → Condition
unfolding new_condition
replacement existing now kind status reason message =
    if same_status existing.status status && existing.reason =t reason
    then new_condition existing.last_transition_time kind status reason message
    else new_condition now kind status reason message

pub set_condition : ℕ → String → Status → String → String → List Condition → List Condition
unfolding new_condition replacement
set_condition now kind status reason message [] = new_condition now kind status reason message ∷ []
set_condition now kind status reason message (c ∷ cs) =
    if c.kind =t kind
    then replacement c now kind status reason message ∷ cs
    else c ∷ set_condition now kind status reason message cs

pub get_condition : List Condition → String → Option Condition
get_condition [] kind = none
get_condition (c ∷ cs) kind = if c.kind =t kind then some c else get_condition cs kind

pub is_condition_true : List Condition → String → Bool
is_condition_true cs kind = has_status met (get_condition cs kind)

pub is_condition_false : List Condition → String → Bool
is_condition_false cs kind = has_status unmet (get_condition cs kind)

pub is_condition_unknown : List Condition → String → Bool
is_condition_unknown cs kind = has_status unknown (get_condition cs kind)

pub set_ready_condition : ℕ → Status → String → String → List Condition → List Condition
set_ready_condition now = set_condition now "Ready"

pub set_provisioning_condition : ℕ → Status → String → String → List Condition → List Condition
set_provisioning_condition now = set_condition now "Provisioning"

pub set_reconfiguring_condition : ℕ → Status → String → String → List Condition → List Condition
set_reconfiguring_condition now = set_condition now "Reconfiguring"

pub set_error_condition : ℕ → Status → String → String → List Condition → List Condition
set_error_condition now = set_condition now "Error"

pub set_healthy_condition : ℕ → Status → String → String → List Condition → List Condition
set_healthy_condition now = set_condition now "Healthy"
