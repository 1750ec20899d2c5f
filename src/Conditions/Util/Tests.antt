-- ===== src/Conditions/Util/Tests.antt =====
-- internal/util/k8s/conditions.go: a sample list of conditions.
use projectbeskar_virtrigaud.Common.{◌≡◌, List, [], ◌∷◌}
use projectbeskar_virtrigaud.Conditions.Condition.{Condition, met, unmet}
use projectbeskar_virtrigaud.Conditions.Util.{set_condition}
use projectbeskar_virtrigaud.Conditions.Util.Laws.{set_condition_idem}

abbrev not_ready : List Condition
not_ready =
    record {
      kind = "Ready";
      status = unmet;
      reason = "Creating";
      message = "";
      last_transition_time = 5;
      observed_generation = 1;
    }
    ∷ []

set_condition_idem_example :
    set_condition 20 "Ready" met "Created" "" (set_condition 9 "Ready" met "Created" "" not_ready)
    ≡ set_condition 9 "Ready" met "Created" "" not_ready
set_condition_idem_example = set_condition_idem 9 20 "Ready" met "Created" "" not_ready
