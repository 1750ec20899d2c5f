-- ===== src/Conditions/Api/Tests.antt =====
-- internal/k8s/conditions.go: a sample list of conditions.
use projectbeskar_virtrigaud.Common.{◌=t◌, if◌then◌else◌, ◌≡◌, some, List, [], ◌∷◌}
use projectbeskar_virtrigaud.Conditions.Condition.{Condition, met, unmet, DistinctKinds}
use projectbeskar_virtrigaud.Conditions.Api.{set_condition, get_condition}
use projectbeskar_virtrigaud.Conditions.Api.Laws.{
  edited, get_condition-set_condition, set_condition-DistinctKinds,
}

abbrev not_ready : List Condition
not_ready =
    record {
      kind = "Ready";
      status = unmet;
      reason = "Creating";
      message = "";
      last_transition_time = 5;
      observed_generation = 0;
    }
    ∷ []

get_condition-set_condition_example :
    get_condition (set_condition 9 "Ready" met "Created" "" not_ready) "Ready" ≡ (
      if "Ready" =t "Ready"
      then some (edited (get_condition not_ready "Ready") 9 "Ready" met "Created" "")
      else get_condition not_ready "Ready")
get_condition-set_condition_example =
    get_condition-set_condition 9 "Ready" "Ready" met "Created" "" not_ready

set_condition-DistinctKinds_example :
    DistinctKinds (set_condition 9 "Healthy" met "Probed" "" not_ready)
set_condition-DistinctKinds_example =
    set_condition-DistinctKinds 9 "Healthy" met "Probed" "" not_ready (tt, tt)
