-- ===== src/Migration/Reconcile/Edges.antt =====
-- internal/controller/vmmigration_controller.go: a pass over a migration follows the edges between
-- the phases.

use projectbeskar_virtrigaud.Controller.Keeps.{
  Keeps-stop, Keeps-ask, Keeps-on_error, Keeps-if, ◌and_then◌,
}
use projectbeskar_virtrigaud.Migration.Types.{Migration, MigrationPhase}
use projectbeskar_virtrigaud.Migration.Edges.{stays, initialized}
use projectbeskar_virtrigaud.Migration.Edges.Steps.{Takes, Takes-put_status, Takes-save}
use projectbeskar_virtrigaud.Migration.Cluster.{Api}
use projectbeskar_virtrigaud.Common.{[]}
use projectbeskar_virtrigaud.Controller.{◌>>=◌}
use projectbeskar_virtrigaud.Controller.Keeps.{Keeps-modify}
use projectbeskar_virtrigaud.Migration.Edges.{From}
use projectbeskar_virtrigaud.Migration.Store.Saved.{Saved}
use projectbeskar_virtrigaud.Migration.Preparing.Edges.{
  Takes-pending, Takes-validating, Takes-snapshotting,
}
use projectbeskar_virtrigaud.Migration.Moving.Edges.{
  Takes-exporting, Takes-transferring, Takes-converting, Takes-importing,
}
use projectbeskar_virtrigaud.Migration.Target.Edges.{Takes-creating, Takes-validating_target}
use projectbeskar_virtrigaud.Migration.Cleanup.Edges.{Takes-ready}
use projectbeskar_virtrigaud.Migration.Retry.Edges.{Takes-failed}
use projectbeskar_virtrigaud.Migration.Deletion.Edges.{Takes-update, Takes-deletion}
use projectbeskar_virtrigaud.Migration.Deletion.{finalizer_name}
use projectbeskar_virtrigaud.Migration.Reconcile.{
  initialize, add_finalizer, handle_phase, reconcile_object, contains, is_terminal,
}

module _ {W : Type 0} (api : Api W) where
  Takes-handle_phase : (p : MigrationPhase) → Takes p (handle_phase api p)
  unfolding handle_phase initialize
  Takes-handle_phase MigrationPhase.unset = Takes-put_status _ (λ st h. initialized) and_then λ a.
      Keeps-ask _ and_then λ now.
      Takes-put_status _ (λ st h. h) and_then λ b. Takes-save api and_then λ c. Keeps-stop _
  Takes-handle_phase MigrationPhase.pending = Takes-pending api
  Takes-handle_phase MigrationPhase.validating = Takes-validating api
  Takes-handle_phase MigrationPhase.snapshotting = Takes-snapshotting api
  Takes-handle_phase MigrationPhase.exporting = Takes-exporting api
  Takes-handle_phase MigrationPhase.transferring = Takes-transferring api
  Takes-handle_phase MigrationPhase.converting = Takes-converting api
  Takes-handle_phase MigrationPhase.importing = Takes-importing api
  Takes-handle_phase MigrationPhase.creating = Takes-creating api
  Takes-handle_phase MigrationPhase.validating_target = Takes-validating_target api
  Takes-handle_phase MigrationPhase.ready = Takes-ready api
  Takes-handle_phase MigrationPhase.failed = Takes-failed api
  Takes-handle_phase (MigrationPhase.custom text) = Keeps-stop _

  Takes-add_finalizer : (p : MigrationPhase) → Takes p (add_finalizer api)
  unfolding add_finalizer
  Takes-add_finalizer p = Keeps-modify _ (λ o cs h. h) and_then λ a.
      Keeps-on_error _ _ (Takes-update api) (λ e. Keeps-stop _) and_then λ version. Keeps-stop _

-- A pass over a migration, whatever the API server, the providers and the clock answer: the phase
-- behind the pass, and the phase of every status that the pass wrote, is the phase that the
-- migration had before or is one edge from it.
pub reconcile_object-Edge :
    {W : Type 0} (api : Api W) (m : Migration) (w : W)
    → Saved
        (From m.status.phase)
        (reconcile_object api (record { object = m; world = w; calls = [] })).1.object.status
        (reconcile_object api (record { object = m; world = w; calls = [] })).1.calls
unfolding reconcile_object ◌>>=◌
reconcile_object-Edge api m w =
    (Keeps-if m.deleting _ _ (Takes-deletion api) (
        Keeps-if (contains finalizer_name m.finalizers) _ _
          (Keeps-if (is_terminal m) _ _ (Keeps-stop _) (Takes-handle_phase api m.status.phase))
          (Takes-add_finalizer api m.status.phase))).at
      (record { object = m; world = w; calls = [] }) (stays _, tt)
