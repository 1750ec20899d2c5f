-- ===== src/Migration/Sample.antt =====
-- A world for the tests of the migration controller: a clock, and an API server and providers that
-- grant everything.
use projectbeskar_virtrigaud.Common.{ℕ, ◌+◌, numeral, true, false, none, some, [], ◌∷◌}
use projectbeskar_virtrigaud.Controller.{Reply, ok, State}
use projectbeskar_virtrigaud.Migration.Types.{
  Migration, MigrationSpec, MigrationPhase, MigrationRetryPolicy, new_status,
}
use projectbeskar_virtrigaud.Migration.Cluster.{Api, Call, VirtualMachine, Provider, Pod}
use projectbeskar_virtrigaud.Migration.Deletion.{finalizer_name}

abbrev pub spec : MigrationSpec
spec = record {
  source = record {
    vm_name = "web";
    provider_ref = none;
    snapshot_ref = none;
    create_snapshot = false;
    delete_after_migration = false;
  };
  target = record {
    name = "web2";
    namespace = "";
    provider_ref = record { name = "kvm"; namespace = "" };
    class_ref = none;
    networks = [];
    placement_ref = none;
    labels = [];
    annotations = [];
  };
  options = none;
  storage = none;
}

abbrev pub pending : Migration
pending = record {
  namespace = "prod";
  name = "move";
  uid = "0123456789";
  resource_version = 1;
  deleting = false;
  finalizers = finalizer_name ∷ [];
  spec = spec;
  status = record new_status { phase = MigrationPhase.pending };
}

abbrev pub policy : MigrationRetryPolicy
policy = record { max_retries = some 10; retry_delay = none; backoff_multiplier = none }

-- A migration that failed behind its export, with retries left.
abbrev pub failed : Migration
failed = record pending {
  spec = record spec {
    options = some (record {
      disk_format = "";
      compress = false;
      verify_checksums = true;
      retry_policy = some policy;
    });
  };
  status = record new_status {
    phase = MigrationPhase.failed;
    snapshot_id = "snap-1";
    export_id = "exp-1";
  };
}

-- One with no policy.
abbrev pub lost : Migration
lost = record pending { status = record new_status { phase = MigrationPhase.failed } }

-- One that is deleted while its target is being created.
abbrev pub doomed : Migration
doomed = record pending {
  deleting = true;
  status = record new_status { phase = MigrationPhase.creating };
}

-- The target of `pending`.
abbrev pub target : VirtualMachine
target = record {
  namespace = "prod";
  name = "web2";
  labels = [];
  annotations = ("virtrigaud.io/migration", "prod/move") ∷ [];
  provider_ref = record { name = "kvm"; namespace = "" };
  class_ref = record { name = ""; namespace = "" };
  networks = [];
  imported_disk = none;
  placement_ref = none;
  id = "vm-1";
  conditions = [];
}

abbrev pub provider : Provider
provider = record { namespace = "prod"; name = "kvm"; annotations = []; conditions = [] }

abbrev pub pod : Pod
pod = record {
  terminating = false;
  volumes = "claim" ∷ [];
  running = true;
  ready = true;
  containers = true ∷ [];
}

abbrev pub good : {A : Type 0} → A → ℕ → Reply A × ℕ
good a w = (ok a, w)

abbrev pub calm : Api ℕ
calm = record {
  now = λ w. (w, w);
  format_time = numeral;
  sleep = λ d w. w + d;
  ctx_err = λ w. (none, w);
  get_migration = λ ns n. good lost;
  get_vm = λ ns n. good target;
  get_provider = λ ns n. good provider;
  get_pvc = λ n ns. good tt;
  get_deployment = λ n ns.
      good (record { volumes = []; replicas = 1; updated_replicas = 1; ready_replicas = 1 });
  list_pods = λ p. good (pod ∷ []);
  update_status = λ m. good 2;
  update = λ m. good 2;
  create_vm = λ vm. good tt;
  update_vm = λ vm. good tt;
  delete_vm = λ vm. good tt;
  update_provider = λ p. good tt;
  parse_quantity = λ q. ok q;
  set_owner = λ m. good tt;
  create_pvc = λ c. good tt;
  delete_pvc = λ n ns. good tt;
  resolve = λ p. good tt;
  is_task_complete = λ p t. good true;
  task_error = λ p t. good "";
  snapshot_create = λ p r. good (record { snapshot_id = "snap-1"; task_id = "" });
  snapshot_delete = λ p vm s. good "";
  export_disk = λ p r.
      good (record { export_id = "exp-1"; task_ref = ""; estimated_size_bytes = 1; checksum = "" });
  import_disk = λ p r.
      good (record { disk_id = "disk-1"; task_ref = ""; actual_size_bytes = 1; checksum = "" });
  open_storage = λ c ns mount. good tt;
  delete_file = λ mount url. good tt;
}

-- The beginning of a pass over a migration, at the time 1000.
abbrev pub begin : Migration → State Migration Call ℕ
begin m = record { object = m; world = 1000; calls = [] }
