-- ===== src/Adoption/Discovery/Tests.antt =====
-- The discovery at a provider with one machine that no object stands for.
use projectbeskar_virtrigaud.Common.{none, []}
use projectbeskar_virtrigaud.Controller.Yields.{Gives}
use projectbeskar_virtrigaud.Adoption.Discovery.{discover_unmanaged_vms}
use projectbeskar_virtrigaud.Adoption.Discovery.Laws.{IsDiscovery, discover_unmanaged_vms_lem}
use projectbeskar_virtrigaud.Adoption.Sample.{api, provider}

discover_unmanaged_vms_lem_example :
    Gives
      (IsDiscovery api provider none)
      (discover_unmanaged_vms api provider none
        (record { object = provider; world = tt; calls = [] })).0
discover_unmanaged_vms_lem_example =
    discover_unmanaged_vms_lem api provider none
      (record { object = provider; world = tt; calls = [] })
