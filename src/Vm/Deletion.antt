-- ===== src/Vm/Deletion.antt =====
-- internal/controller/virtualmachine_controller.go (`handleDeletion`), with internal/k8s/finalizers.go
-- (`AddFinalizer`, `RemoveFinalizer`, `HasFinalizer`).
pub mod Rules
use projectbeskar_virtrigaud.Common.{
  String, ◌=t◌, Bool, true, false, not, ◌&&◌, if◌then◌else◌, List,
}
use projectbeskar_virtrigaud.Controller.{
  Fault, Reply, ok, fault, Outcome, finished, requeue_after, failed, seconds, ◌>>=◌, ◌>>◌, pure,
  stop, the_object, modify, query, perform, perform_object, ◌on_error◌, settle,
}
use projectbeskar_virtrigaud.Migration.Cluster.{Provider}
use projectbeskar_virtrigaud.Vm.Types.{VirtualMachine}
use projectbeskar_virtrigaud.Vm.Cluster.{
  Api, Run, Handler, object_written, vm_deleted, get_provider_instance,
}
use projectbeskar_virtrigaud.Vm.Dependencies.{namespace_of}

abbrev pub finalizer_name : String
finalizer_name = "virtualmachine.infra.virtrigaud.io/finalizer"

-- Whether there is something to delete: an identifier, and the name of a provider.
has_provider : VirtualMachine → Bool
has_provider vm = not (vm.status.id =t "") && not (vm.spec.provider_ref.name =t "")

module _ {W : Type 0} (api : Api W) where
  pub has_finalizer : VirtualMachine → Bool
  has_finalizer vm = api.has_finalizer finalizer_name vm.finalizers

  edit_finalizers : (String → List String → List String) → Run W Fault (Unit {0})
  edit_finalizers f = do
    modify (λ vm. record vm { finalizers = f finalizer_name vm.finalizers })
    written ← perform_object object_written api.update
    pure tt

  pub add_finalizer : Run W Fault (Unit {0})
  unfolding edit_finalizers has_finalizer
  add_finalizer = do
    vm ← the_object
    if has_finalizer vm then pure tt else edit_finalizers api.with_finalizer

  pub remove_finalizer : Run W Fault (Unit {0})
  unfolding edit_finalizers has_finalizer
  remove_finalizer = do
    vm ← the_object
    if has_finalizer vm then edit_finalizers api.without_finalizer else pure tt

  -- An error of the resolver or of the provider is only logged.
  delete_resolved : String → Provider → Reply Unit → Run W Outcome (Unit {0})
  delete_resolved id p (fault e) = pure tt
  delete_resolved id p (ok resolved) = do
    task ← settle (perform (vm_deleted p id) (api.delete p id))
    pure tt

  delete_at : String → Reply Provider → Run W Outcome (Unit {0})
  unfolding delete_resolved
  delete_at id (fault e) = if e.not_found then pure tt else stop (requeue_after (seconds 5))
  delete_at id (ok p) = do
    instance_reply ← settle (get_provider_instance api p)
    delete_resolved id p instance_reply

  pub delete_from_provider : VirtualMachine → Bool → Run W Outcome (Unit {0})
  unfolding delete_at
  delete_from_provider vm false = pure tt
  delete_from_provider vm true = do
    p ← settle (
        query (
          api.get_provider (namespace_of vm.namespace vm.spec.provider_ref)
            vm.spec.provider_ref.name))
    delete_at vm.status.id p

  delete_and_release : VirtualMachine → Handler W
  unfolding delete_from_provider has_provider remove_finalizer
  delete_and_release vm = do
    delete_from_provider vm (has_provider vm)
    remove_finalizer on_error λ e. stop (failed e)
    stop finished

  pub handle_deletion : Handler W
  unfolding delete_and_release has_finalizer
  handle_deletion = do
    vm ← the_object
    if has_finalizer vm then delete_and_release vm else stop finished
