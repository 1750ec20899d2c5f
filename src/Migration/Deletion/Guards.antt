-- ===== src/Migration/Deletion/Guards.antt =====
-- internal/controller/vmmigration_controller.go: which virtual machines a deletion may delete.
use projectbeskar_virtrigaud.Common.{
  ℕ, ◌≡◌, refl, Bool, true, false, List, [], ◌∷◌, ◌++◌, All, All-append, if◌then◌else◌,
}
use projectbeskar_virtrigaud.Controller.{
  Fault, Reply, ok, fault, Outcome, perform_object, pure, ◌>>=◌,
}
use projectbeskar_virtrigaud.Controller.Keeps.{
  Keeps, Keeps-pure, Keeps-stop, Keeps-query, Keeps-settle, Keeps-on_error, Keeps-if, Keeps-modify,
  Keeps-note, Keeps-perform, Keeps-perform_object, ◌and_then◌,
}
use projectbeskar_virtrigaud.Migration.Types.{Migration}
use projectbeskar_virtrigaud.Migration.Cluster.{
  Api, Call, vm_deleted, file_deleted, snapshot_deleted, VirtualMachine, object_written,
}
use projectbeskar_virtrigaud.Migration.Store.{Run}
use projectbeskar_virtrigaud.Migration.Cleanup.{
  cleanup_intermediate_storage, delete_source_snapshot,
}
use projectbeskar_virtrigaud.Migration.Cleanup.Rules.{
  Keeps-cleanup_intermediate_storage, Keeps-delete_source_snapshot,
}
use projectbeskar_virtrigaud.Migration.Deletion.{
  is_completed, is_created_by, count_errors, delete_found_pvc, delete_pvc, delete_found_target,
  delete_target, report_errors, delete_all, handle_deletion,
}

-- A virtual machine that is deleted was created by the migration and is no completed one.
pub IsAllowed : Migration → Call → Type 0
IsAllowed m (vm_deleted vm) = (is_completed vm ≡ false) × (is_created_by m vm ≡ true)
IsAllowed m _ = Unit

abbrev Guarded : Migration → Migration → List Call → Type 0
Guarded m o cs = All (IsAllowed m) cs

module _ {W : Type 0} (api : Api W) (m : Migration) where
  allowed :
      (c : Call)
      → IsAllowed m c
      → (o : Migration) (cs : List Call) → Guarded m o cs
      → Guarded m o (cs ++ c ∷ [])
  allowed c a o cs h = All-append (IsAllowed m) cs (c ∷ []) h (a, tt)

  Guarded-cleanup_intermediate_storage : Keeps (Guarded m) (cleanup_intermediate_storage api)
  unfolding IsAllowed
  Guarded-cleanup_intermediate_storage =
      Keeps-cleanup_intermediate_storage api (λ mount url. allowed (file_deleted mount url) tt)

  Guarded-delete_source_snapshot : Keeps (Guarded m) (delete_source_snapshot api)
  unfolding IsAllowed
  Guarded-delete_source_snapshot =
      Keeps-delete_source_snapshot api (λ p vm name. allowed (snapshot_deleted p vm name) tt)

  Guarded-count_errors :
      (b : Bool) (n : Run W Fault (Unit {0}))
      → Keeps (Guarded m) n
      → Keeps (Guarded m) (count_errors api b n)
  unfolding count_errors
  Guarded-count_errors false n k = Keeps-pure _
  Guarded-count_errors true n k = Keeps-settle _ k and_then λ r. Keeps-pure _

  Guarded-delete_found_pvc : (r : Reply Unit) → Keeps (Guarded m) (delete_found_pvc api m r)
  unfolding delete_found_pvc IsAllowed
  Guarded-delete_found_pvc (ok found) =
      Keeps-settle _ (Keeps-perform _ _ (allowed _ tt)) and_then λ r. Keeps-pure _
  Guarded-delete_found_pvc (fault e) = Keeps-pure _

  Guarded-delete_pvc : (b : Bool) → Keeps (Guarded m) (delete_pvc api m b)
  unfolding delete_pvc
  Guarded-delete_pvc false = Keeps-pure _
  Guarded-delete_pvc true = Keeps-settle _ (Keeps-query _) and_then λ r. Guarded-delete_found_pvc r

  -- The two tests before the call.
  Guarded-delete_vm :
      (vm : VirtualMachine) (completed created : Bool)
      → is_completed vm ≡ completed
      → is_created_by m vm ≡ created
      → (n : Run W Outcome ℕ)
      → ((is_completed vm ≡ false) × (is_created_by m vm ≡ true) → Keeps (Guarded m) n)
      → Keeps (Guarded m) (if completed then pure 0 else if created then n else pure 0)
  Guarded-delete_vm vm true created p q n k = Keeps-pure _
  Guarded-delete_vm vm false true p q n k = k (p, q)
  Guarded-delete_vm vm false false p q n k = Keeps-pure _

  Guarded-delete_found_target :
      (r : Reply VirtualMachine) → Keeps (Guarded m) (delete_found_target api m r)
  unfolding delete_found_target IsAllowed
  Guarded-delete_found_target (fault e) = Keeps-pure _
  Guarded-delete_found_target (ok vm) =
      Guarded-delete_vm vm _ _ refl refl _
        λ h. Keeps-settle _ (Keeps-perform _ _ (allowed _ h)) and_then λ r. Keeps-pure _

  Guarded-delete_target : (b : Bool) → Keeps (Guarded m) (delete_target api m b)
  unfolding delete_target
  Guarded-delete_target false = Keeps-pure _
  Guarded-delete_target true =
      Keeps-settle _ (Keeps-query _) and_then λ r. Guarded-delete_found_target r

  Guarded-report_errors : (n : ℕ) → Keeps (Guarded m) (report_errors api n)
  unfolding report_errors IsAllowed
  Guarded-report_errors n = Keeps-if _ _ _ (Keeps-pure tt) (Keeps-note _ (allowed _ tt))

  Guarded-update : Keeps (Guarded m) (perform_object object_written api.update)
  unfolding IsAllowed
  Guarded-update = Keeps-perform_object _ _ (λ o cs h. allowed (object_written o) tt o cs h)

  Guarded-delete_all : Keeps (Guarded m) (delete_all api m)
  unfolding delete_all
  Guarded-delete_all = Guarded-count_errors _ _ Guarded-cleanup_intermediate_storage and_then λ a.
      Guarded-delete_pvc _ and_then λ b.
      Guarded-count_errors _ _ Guarded-delete_source_snapshot and_then λ c.
      Guarded-delete_target _ and_then λ d. Guarded-report_errors _ and_then λ e.
      Keeps-modify _ (λ o cs h. h) and_then λ f.
      Keeps-on_error _ _ Guarded-update (λ e. Keeps-stop _) and_then λ version. Keeps-stop _

-- Every virtual machine that the deletion of a migration tells the API server to delete carries the
-- mark of that migration, and not the mark of a completed one. This holds for all answers of the
-- server and the providers.
pub handle_deletion-Guarded :
    {W : Type 0} (api : Api W) (m : Migration) (w : W)
    → All (IsAllowed m) (handle_deletion api (record { object = m; world = w; calls = [] })).1.calls
unfolding handle_deletion ◌>>=◌
handle_deletion-Guarded api m w =
    (Guarded-delete_all api m).at (record { object = m; world = w; calls = [] }) tt
