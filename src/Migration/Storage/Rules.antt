-- ===== src/Migration/Storage/Rules.antt =====
-- internal/controller/vmmigration_controller.go: ensuring the claim keeps every invariant of the
-- status, since it writes none.
use projectbeskar_virtrigaud.Common.{String, Option, none, some}
use projectbeskar_virtrigaud.Controller.{Reply, ok, fault}
use projectbeskar_virtrigaud.Controller.Keeps.{Keeps, keeps_rules}
use projectbeskar_virtrigaud.Migration.Types.{Migration, MigrationStatus, PvcStorageConfig}
use projectbeskar_virtrigaud.Migration.Cluster.{Api, Provider}
use projectbeskar_virtrigaud.Migration.Store.Rules.{Over, lookup_rules}
use projectbeskar_virtrigaud.Migration.Store.Saved.{Saved, Keeps-call, Keeps-event}
use projectbeskar_virtrigaud.Migration.Storage.{
  annotate_provider, trigger_provider_reconciliation, existing_pvc, create_pvc, auto_pvc,
  ensure_pvc, ensure_migration_pvc,
}

module _ {W : Type 0} (api : Api W) (Q : MigrationStatus → Type 0) where
  Keeps-annotate_provider :
      (timestamp pvc : String) (p : Provider) (which : String)
      → Keeps (Over (Saved Q)) (annotate_provider api timestamp pvc p which)
  unfolding annotate_provider
  Keeps-annotate_provider timestamp pvc p which = search (keeps_rules, Keeps-call Q, tt) depth 8

  Keeps-trigger : Keeps (Over (Saved Q)) (trigger_provider_reconciliation api)
  unfolding trigger_provider_reconciliation
  Keeps-trigger = search (keeps_rules, lookup_rules, Keeps-annotate_provider) depth 16

  Keeps-existing_pvc :
      (m : Migration) (name : String) → Keeps (Over (Saved Q)) (existing_pvc api m name)
  unfolding existing_pvc
  Keeps-existing_pvc m name = search keeps_rules depth 8

  Keeps-create_pvc :
      (m : Migration) (name : String) (c : PvcStorageConfig) (r : Reply String)
      → Keeps (Over (Saved Q)) (create_pvc api m name c r)
  unfolding create_pvc
  Keeps-create_pvc m name c (fault e) = search keeps_rules
  Keeps-create_pvc m name c (ok q) =
      search (keeps_rules, Keeps-trigger, Keeps-call Q, Keeps-event Q, tt) depth 16

  Keeps-auto_pvc :
      (m : Migration) (c : PvcStorageConfig) (r : Reply Unit)
      → Keeps (Over (Saved Q)) (auto_pvc api m c r)
  unfolding auto_pvc
  Keeps-auto_pvc m c (ok u) = search keeps_rules
  Keeps-auto_pvc m c (fault e) = search (keeps_rules, Keeps-create_pvc)

  Keeps-ensure_pvc :
      (m : Migration) (c : Option PvcStorageConfig) → Keeps (Over (Saved Q)) (ensure_pvc api m c)
  unfolding ensure_pvc
  Keeps-ensure_pvc m none = search keeps_rules
  Keeps-ensure_pvc m (some c) = search (keeps_rules, Keeps-existing_pvc, Keeps-auto_pvc) depth 8

  pub Keeps-ensure_migration_pvc : Keeps (Over (Saved Q)) (ensure_migration_pvc api)
  unfolding ensure_migration_pvc
  Keeps-ensure_migration_pvc = search (keeps_rules, Keeps-ensure_pvc)
