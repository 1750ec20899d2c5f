-- ===== src/Snapshot/Cluster/Rules.antt =====
-- internal/controller/vmsnapshot_controller.go (`getProviderInstance`): it only reads.
use projectbeskar_virtrigaud.Common.{Option, none, some, List}
use projectbeskar_virtrigaud.Controller.{Reply}
use projectbeskar_virtrigaud.Controller.Keeps.{Keeps, Keeps-stop, Keeps-query}
use projectbeskar_virtrigaud.Migration.Cluster.{Provider}
use projectbeskar_virtrigaud.Snapshot.Types.{VmSnapshot}
use projectbeskar_virtrigaud.Snapshot.Cluster.{Api, Call, resolve_with, get_provider_instance}

module _ {J : VmSnapshot → List Call → Type 0} {W : Type 0} (api : Api W) where
  Keeps-resolve_with :
      (o : Option (Provider → W → Reply Unit × W)) (p : Provider) → Keeps J (resolve_with api o p)
  unfolding resolve_with
  Keeps-resolve_with none p = Keeps-stop _
  Keeps-resolve_with (some resolve) p = Keeps-query _

  pub Keeps-get_provider_instance : (p : Provider) → Keeps J (get_provider_instance api p)
  unfolding get_provider_instance
  Keeps-get_provider_instance p = Keeps-resolve_with api.resolver p
