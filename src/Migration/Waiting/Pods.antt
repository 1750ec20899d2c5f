-- ===== src/Migration/Waiting/Pods.antt =====
-- internal/controller/vmmigration_controller.go: when the pods of a provider have the claim mounted.
use projectbeskar_virtrigaud.Common.{
  String, Bool, true, false, not, ◌&&◌, ◌||◌, ◌==◌, List, [], ◌∷◌, ◌≡◌, refl, arith,
}
use projectbeskar_virtrigaud.Migration.Cluster.{Api, Pod}
use projectbeskar_virtrigaud.Controller.{Reply, ok, fault}
use projectbeskar_virtrigaud.Migration.Waiting.{
  mounts, all_true, Tally, count_pod, count_pods, pods_ready, judge_pods,
}

-- A pod that uses the claim, and all of whose containers are ready.
serves : String → Pod → Bool
serves pvc p = mounts pvc p.volumes && (p.running && (p.ready && all_true p.containers))

-- Every pod that is not going away serves the claim.
all_serve : String → List Pod → Bool
all_serve pvc [] = true
all_serve pvc (p ∷ ps) = (p.terminating || serves pvc p) && all_serve pvc ps

-- There is a pod that is not going away.
some_stays : List Pod → Bool
some_stays [] = false
some_stays (p ∷ ps) = not p.terminating || some_stays ps

pub healthy : String → Reply (List Pod) → Bool
healthy pvc (fault e) = false
healthy pvc (ok ps) = some_stays ps && all_serve pvc ps

counted :
    (pvc : String) (ps : List Pod) (t : Tally)
    → ((count_pods pvc ps t).all_ready ≡ t.all_ready && all_serve pvc ps)
unfolding count_pods count_pod all_serve serves
counted pvc [] t = ground arith
counted pvc (p ∷ ps) t = ground (arith, counted pvc ps (count_pod pvc p t))

counted_with_pvc :
    (pvc : String) (ps : List Pod) (t : Tally)
    → (count_pods pvc ps t).all_ready ≡ true
    → ((count_pods pvc ps t).with_pvc == 0) ≡ (t.with_pvc == 0) && not (some_stays ps)
unfolding count_pods count_pod some_stays serves
counted_with_pvc pvc [] t h = ground arith
counted_with_pvc pvc (p ∷ ps) t h =
    ground (arith, counted pvc ps (count_pod pvc p t), counted_with_pvc pvc ps (count_pod pvc p t))

-- The answer of the pods is good exactly if there is a pod that is not going away, and every pod
-- that is not going away has the claim mounted, runs, has the condition Ready and has only ready
-- containers. An error and an empty answer are not good.
pub judge_pods_lem :
    {W : Type 0} (api : Api W) (pvc : String) (r : Reply (List Pod))
    → judge_pods api pvc r ≡ healthy pvc r
unfolding judge_pods healthy some_stays pods_ready all_serve
judge_pods_lem api pvc (fault e) = refl
judge_pods_lem api pvc (ok []) = refl
judge_pods_lem api pvc (ok (p ∷ ps)) = ground (
  arith,
  counted pvc (p ∷ ps) (record { all_ready = true; with_pvc = 0 }),
  counted_with_pvc pvc (p ∷ ps) (record { all_ready = true; with_pvc = 0 }),
)
