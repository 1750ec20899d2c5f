-- ===== src/Migration/Cleanup/Rules.antt =====
-- internal/controller/vmmigration_controller.go: what the cleanup of the storage and of the snapshot
-- keeps: an invariant that does not mind the calls that delete files and snapshots.
use projectbeskar_virtrigaud.Common.{String, Option, none, some, List, [], ◌∷◌, ◌++◌}
use projectbeskar_virtrigaud.Controller.{Reply, ok, fault}
use projectbeskar_virtrigaud.Controller.Keeps.{
  Keeps, Keeps-pure, Keeps-stop, Keeps-the_object, Keeps-query, Keeps-settle, Keeps-on_error,
  Keeps-perform, ◌and_then◌,
}
use projectbeskar_virtrigaud.Migration.Types.{Migration, MigrationStorage}
use projectbeskar_virtrigaud.Migration.Cluster.{Api, Call, Provider, file_deleted, snapshot_deleted}
use projectbeskar_virtrigaud.Migration.Store.Rules.{
  Keeps-get_source_vm, Keeps-provider_of_source, Keeps-get_provider_instance,
}
use projectbeskar_virtrigaud.Migration.Cleanup.{
  delete_export, cleanup_storage, cleanup_intermediate_storage, delete_source_snapshot,
}

module _ {W : Type 0} (api : Api W) {J : Migration → List Call → Type 0} where
  module _
      (files : (mount url : String) (o : Migration) (cs : List Call)
        → J o cs
        → J o (cs ++ file_deleted mount url ∷ [])) where
    Keeps-delete_export : (mount : String) (r : Reply String) → Keeps J (delete_export api mount r)
    unfolding delete_export
    Keeps-delete_export mount (fault e) = Keeps-pure tt
    Keeps-delete_export mount (ok url) =
        Keeps-settle _ (Keeps-perform _ _ (files mount url)) and_then λ deleted. Keeps-pure tt

    Keeps-cleanup_storage :
        (o : Migration) (s : Option MigrationStorage) → Keeps J (cleanup_storage api o s)
    unfolding cleanup_storage
    Keeps-cleanup_storage o none = Keeps-pure tt
    Keeps-cleanup_storage o (some s) =
        Keeps-on_error _ _ (Keeps-query _) (λ e. Keeps-stop _) and_then λ a. Keeps-delete_export _ _

    pub Keeps-cleanup_intermediate_storage : Keeps J (cleanup_intermediate_storage api)
    unfolding cleanup_intermediate_storage
    Keeps-cleanup_intermediate_storage = Keeps-the_object and_then λ o. Keeps-cleanup_storage o _

  module _
      (snapshots : (p : Provider) (vm name : String) (o : Migration) (cs : List Call)
        → J o cs
        → J o (cs ++ snapshot_deleted p vm name ∷ [])) where
    pub Keeps-delete_source_snapshot : Keeps J (delete_source_snapshot api)
    unfolding delete_source_snapshot
    Keeps-delete_source_snapshot =
        Keeps-on_error _ _ (Keeps-get_source_vm api) (λ e. Keeps-stop _) and_then λ vm.
        Keeps-on_error _ _ (Keeps-provider_of_source api vm) (λ e. Keeps-stop _) and_then λ q.
        Keeps-on_error _ _ (Keeps-get_provider_instance api q) (λ e. Keeps-stop _) and_then λ a.
        Keeps-the_object and_then λ o.
        Keeps-on_error _ _ (Keeps-perform _ _ (snapshots _ _ _)) (λ e. Keeps-stop _)
        and_then λ task. Keeps-pure tt
