-- ===== src/Migration/Storage.antt =====
-- internal/controller/vmmigration_controller.go: the intermediate storage of a migration
-- (`validateStorageConfig`, `ensureMigrationPVC`, `triggerProviderReconciliation`,
-- `generateStorageURL`).
pub mod Validation
pub mod Rules
mod Tests
use projectbeskar_virtrigaud.Common.{
  ◌/◌, String, ◌<>◌, ◌=t◌, numeral, Bool, not, if◌then◌else◌, Option, none, some, [], ◌∷◌, ◌&&◌,
  ◌||◌,
}
use projectbeskar_virtrigaud.Controller.{
  Fault, plain, wrap, Reply, ok, fault, ◌>>=◌, ◌>>◌, pure, stop, the_object, ask, note, query,
  perform, ◌on_error◌, settle,
}
use projectbeskar_virtrigaud.Migration.Types.{Migration, MigrationStorage, PvcStorageConfig}
use projectbeskar_virtrigaud.Migration.Cluster.{
  Api, event, pvc_created, provider_updated, Provider, Pvc, annotate,
}
use projectbeskar_virtrigaud.Migration.Store.{
  Run, non_empty_or, get_source_provider, get_target_provider,
}

is_access_mode : String → Bool
is_access_mode mode = mode =t "ReadWriteOnce" || (mode =t "ReadWriteMany" || mode =t "ReadOnlyMany")

validate_auto_create : PvcStorageConfig → Option Fault
unfolding is_access_mode
validate_auto_create c =
    if c.storage_class_name =t ""
    then some
        (plain "storageClassName is required when PVC name is not specified (auto-create mode)")
    else if c.size =t ""
    then some (plain "size is required when PVC name is not specified (auto-create mode)")
    else if not (c.access_mode =t "") && not (is_access_mode c.access_mode)
    then some (plain ("invalid access mode: " <> c.access_mode))
    else none

validate_pvc : Option PvcStorageConfig → Option Fault
unfolding validate_auto_create
validate_pvc none = some (plain "pvc configuration is required when using pvc storage type")
validate_pvc (some c) = if not (c.name =t "") then none else validate_auto_create c

-- `none` is a nil error. The configuration that is passed is not nil.
pub validate_storage_config : MigrationStorage → Option Fault
unfolding validate_pvc
validate_storage_config s =
    if not (s.kind =t "pvc") && not (s.kind =t "")
    then some (plain ("unsupported storage type: " <> (s.kind <> " (only 'pvc' is supported)")))
    else validate_pvc s.pvc

storage_url : Migration → String → MigrationStorage → Reply String
storage_url m stage s =
    if s.kind =t "pvc" || s.kind =t ""
    then if m.status.storage_pvc_name =t ""
      then fault (plain "storage PVC name not set in migration status")
      else ok (
          "pvc://"
          <> (m.status.storage_pvc_name
              <> ("/vmmigrations/"
                  <> (m.namespace <> ("/" <> (m.name <> ("/" <> (stage <> ".qcow2"))))))))
    else fault (plain ("unsupported storage type: " <> s.kind))

url_of : Migration → String → Option MigrationStorage → Reply String
unfolding storage_url
url_of m stage none = fault (plain "storage configuration is required for migration")
url_of m stage (some s) = storage_url m stage s

pub generate_storage_url : Migration → String → Reply String
unfolding url_of
generate_storage_url m stage = url_of m stage m.spec.storage

-- The annotations that make the provider controller mount the claim.
mark_provider : String → String → Provider → Provider
mark_provider timestamp pvc p = record p {
  annotations =
      annotate "virtrigaud.io/migration-pvc" pvc
        (annotate "virtrigaud.io/reconcile-trigger" timestamp p.annotations);
}

pvc_config : Option MigrationStorage → Option PvcStorageConfig
pvc_config none = none
pvc_config (some s) = s.pvc

new_pvc : Migration → String → PvcStorageConfig → String → Pvc
new_pvc m pvc_name c quantity = record {
  namespace = m.namespace;
  name = pvc_name;
  labels =
      ("app.kubernetes.io/managed-by", "virtrigaud")
      ∷ ("virtrigaud.io/migration", m.name)
      ∷ ("virtrigaud.io/component", "migration-storage")
      ∷ [];
  annotations = ("virtrigaud.io/created-by", "vmmigration-controller") ∷ [];
  storage_class_name = c.storage_class_name;
  access_mode = non_empty_or c.access_mode "ReadWriteMany";
  size = quantity;
  owner = m.name;
}

module _ {W : Type 0} (api : Api W) where
  annotate_provider : String → String → Provider → String → Run W Fault (Unit {0})
  unfolding mark_provider
  annotate_provider timestamp pvc p which =
      let p' = mark_provider timestamp pvc p in
      perform (provider_updated p') (api.update_provider p') on_error λ e.
      stop (wrap ("failed to annotate " <> (which <> " provider: ")) e)

  pub trigger_provider_reconciliation : Run W Fault (Unit {0})
  unfolding annotate_provider
  trigger_provider_reconciliation = do
    now ← ask api.now
    let timestamp = numeral (now / 1000000000)
    source ← get_source_provider api on_error λ e. stop (wrap "failed to get source provider: " e)
    m ← the_object
    annotate_provider timestamp m.status.storage_pvc_name source "source"
    target ← get_target_provider api on_error λ e. stop (wrap "failed to get target provider: " e)
    annotate_provider timestamp m.status.storage_pvc_name target "target"

  -- A claim that the user named must exist.
  existing_pvc : Migration → String → Run W Fault String
  existing_pvc m name = do
    query (api.get_pvc name m.namespace) on_error λ e. stop (
        if e.not_found
        then plain ("specified PVC " <> (name <> (" not found in namespace " <> m.namespace)))
        else wrap ("failed to get PVC " <> (name <> ": ")) e)
    pure name

  create_pvc : Migration → String → PvcStorageConfig → Reply String → Run W Fault String
  unfolding trigger_provider_reconciliation new_pvc
  create_pvc m pvc_name c (fault e) = stop (wrap ("invalid PVC size " <> (c.size <> ": ")) e)
  create_pvc m pvc_name c (ok quantity) = do
    let pvc = new_pvc m pvc_name c quantity
    query (api.set_owner m) on_error λ e. stop (wrap "failed to set owner reference on PVC: " e)
    perform (pvc_created pvc) (api.create_pvc pvc) on_error λ e.
        stop (wrap "failed to create PVC: " e)
    note (event "Normal" "PVCCreated" ("Created migration storage PVC: " <> pvc_name))
    triggered ← settle trigger_provider_reconciliation
    pure pvc_name

  auto_pvc : Migration → PvcStorageConfig → Reply Unit → Run W Fault String
  unfolding create_pvc
  auto_pvc m c (ok found) = pure (m.name <> "-storage")
  auto_pvc m c (fault e) =
      if e.not_found
      then create_pvc m (m.name <> "-storage") c (api.parse_quantity c.size)
      else stop (wrap "failed to check for existing PVC: " e)

  ensure_pvc : Migration → Option PvcStorageConfig → Run W Fault String
  unfolding existing_pvc auto_pvc
  ensure_pvc m none = stop (plain "storage PVC configuration is missing")
  ensure_pvc m (some c) = if not (c.name =t "") then existing_pvc m c.name else do
    found ← settle (query (api.get_pvc (m.name <> "-storage") m.namespace))
    auto_pvc m c found

  pub ensure_migration_pvc : Run W Fault String
  unfolding ensure_pvc pvc_config
  ensure_migration_pvc = do m ← the_object; ensure_pvc m (pvc_config m.spec.storage)
