-- ===== src/Vm/Reconcile/Tests.antt =====
-- A pass over a small virtual machine.
use projectbeskar_virtrigaud.Common.{[]}
use projectbeskar_virtrigaud.Vm.Deletion.{has_finalizer}
use projectbeskar_virtrigaud.Vm.Reconcile.{reconcile_object}
use projectbeskar_virtrigaud.Vm.Reconcile.Allowed.{reconcile_object-IsAllowed}
use projectbeskar_virtrigaud.Vm.Allowed.{IsAllowedSoFar}
use projectbeskar_virtrigaud.Vm.Sample.{fresh, api}

reconcile_object-IsAllowed_example :
    let s = (reconcile_object api (record { object = fresh; world = tt; calls = [] })).1 in
    IsAllowedSoFar api (has_finalizer api fresh) fresh s.object s.calls
reconcile_object-IsAllowed_example = reconcile_object-IsAllowed api fresh tt
