-- ===== src/Migration/Edges.antt =====
-- internal/controller/vmmigration_controller.go: the edges between the phases of a migration, as
-- the handlers of the controller draw them.
pub mod Steps
use projectbeskar_virtrigaud.Common.{String, ℕ, Option, List}
use projectbeskar_virtrigaud.Conditions.Condition.{Condition}
use projectbeskar_virtrigaud.Migration.Types.{MigrationStatus, MigrationPhase}
use projectbeskar_virtrigaud.Migration.Store.Rules.{IsStable, IsFailStable}
use projectbeskar_virtrigaud.Migration.Store.Saved.{Saved, Saved-IsStable, Saved-IsFailStable}

-- One pass over a migration leaves its phase, or goes along one edge. Only the phases that do
-- something which may fail have an edge to Failed.
pub data Edge : MigrationPhase → MigrationPhase → Type 0 where
  stays : (p : MigrationPhase) → Edge p p
  initialized : Edge MigrationPhase.unset MigrationPhase.pending
  started : Edge MigrationPhase.pending MigrationPhase.validating
  to_snapshot : Edge MigrationPhase.validating MigrationPhase.snapshotting
  to_export : Edge MigrationPhase.validating MigrationPhase.exporting
  snapshotted : Edge MigrationPhase.snapshotting MigrationPhase.exporting
  exported : Edge MigrationPhase.exporting MigrationPhase.importing
  transferred : Edge MigrationPhase.transferring MigrationPhase.importing
  converted : Edge MigrationPhase.converting MigrationPhase.importing
  imported : Edge MigrationPhase.importing MigrationPhase.creating
  created : Edge MigrationPhase.creating MigrationPhase.validating_target
  completed : Edge MigrationPhase.validating_target MigrationPhase.ready
  retried : Edge MigrationPhase.failed MigrationPhase.pending
  validating_failed : Edge MigrationPhase.validating MigrationPhase.failed
  snapshotting_failed : Edge MigrationPhase.snapshotting MigrationPhase.failed
  exporting_failed : Edge MigrationPhase.exporting MigrationPhase.failed
  importing_failed : Edge MigrationPhase.importing MigrationPhase.failed
  creating_failed : Edge MigrationPhase.creating MigrationPhase.failed
  validating_target_failed : Edge MigrationPhase.validating_target MigrationPhase.failed

-- The phase of the status is one edge from `p`, or is `p`.
abbrev pub From : MigrationPhase → MigrationStatus → Type 0
From p st = Edge p st.phase

pub From-IsStable : (p : MigrationPhase) → IsStable (Saved (From p))
From-IsStable p = Saved-IsStable (From p) (λ l st h. h)

pub From-IsFailStable :
    (p : MigrationPhase) → Edge p MigrationPhase.failed → IsFailStable (Saved (From p))
From-IsFailStable p e = Saved-IsFailStable (From p) (λ message st h. e) (λ t st h. h)
