-- ===== src/Migration/Reconcile/Tests.antt =====
-- internal/controller/vmmigration_controller.go: passes over sample migrations.

use projectbeskar_virtrigaud.Migration.Sample.{calm, begin, pending}
use projectbeskar_virtrigaud.Migration.Types.{MigrationPhase}
use projectbeskar_virtrigaud.Migration.Edges.{From}
use projectbeskar_virtrigaud.Migration.Store.Saved.{Saved}
use projectbeskar_virtrigaud.Migration.Reconcile.{reconcile_object}
use projectbeskar_virtrigaud.Migration.Reconcile.Edges.{reconcile_object-Edge}

reconcile_object-Edge_example :
    Saved
      (From MigrationPhase.pending)
      (reconcile_object calm (begin pending)).1.object.status
      (reconcile_object calm (begin pending)).1.calls
reconcile_object-Edge_example = reconcile_object-Edge calm pending 1000
