-- ===== src/Vm/Deletion/Rules.antt =====
-- internal/controller/virtualmachine_controller.go (`handleDeletion`): what it asks of a provider is
-- allowed.
use projectbeskar_virtrigaud.Common.{
  String, Bool, false, true, List, ◌≡◌, ◌=t◌, refl, arith, [], if◌then◌else◌,
}
use projectbeskar_virtrigaud.Controller.{Reply, ok, fault, finished, stop, ◌>>=◌}
use projectbeskar_virtrigaud.Controller.Keeps.{
  Keeps, Keeps-pure, Keeps-stop, Keeps-the_object, Keeps-settle, Keeps-on_error, Keeps-if,
  ◌and_then◌,
}
use projectbeskar_virtrigaud.Controller.Yields.{IsOk, Yields-query, Yields-settle, ◌and_knowing◌}
use projectbeskar_virtrigaud.Migration.Cluster.{Provider}
use projectbeskar_virtrigaud.Vm.Types.{VirtualMachine}
use projectbeskar_virtrigaud.Vm.Cluster.{Api}
use projectbeskar_virtrigaud.Vm.Cluster.Rules.{Keeps-get_provider_instance}
use projectbeskar_virtrigaud.Vm.Deletion.{
  has_provider, edit_finalizers, add_finalizer, remove_finalizer, delete_resolved, delete_at,
  delete_from_provider, delete_and_release, handle_deletion, has_finalizer,
}
use projectbeskar_virtrigaud.Vm.Allowed.{
  IsAllowed, IsAllowedUnder, IsProviderOf, IsAllowedSoFar, Keeps-call, Keeps-finalizers,
  Keeps-object_written,
}

module _ {v : VirtualMachine} {W : Type 0} (api : Api W) where
  module _ {held known : Bool} where
    Keeps-edit_finalizers :
        (f : String → List String → List String)
        → Keeps (IsAllowedUnder api held v known) (edit_finalizers api f)
    unfolding edit_finalizers
    Keeps-edit_finalizers f =
        Keeps-finalizers _ and_then λ t. Keeps-object_written and_then λ u. Keeps-pure _

    pub Keeps-add_finalizer : Keeps (IsAllowedUnder api held v known) (add_finalizer api)
    unfolding add_finalizer
    Keeps-add_finalizer = Keeps-the_object and_then λ vm.
        Keeps-if _ _ _ (Keeps-pure _) (Keeps-edit_finalizers api.with_finalizer)

    Keeps-remove_finalizer : Keeps (IsAllowedUnder api held v known) (remove_finalizer api)
    unfolding remove_finalizer
    Keeps-remove_finalizer = Keeps-the_object and_then λ vm.
        Keeps-if _ _ _ (Keeps-edit_finalizers api.without_finalizer) (Keeps-pure _)

  module _ (gone : v.deleting ≡ true) where
    Keeps-delete_resolved :
        (p : Provider) (r : Reply Unit)
        → (v.status.id =t "") ≡ false
        → IsProviderOf api v.namespace v.spec p
        → Keeps (IsAllowedSoFar api true v) (delete_resolved api v.status.id p r)
    unfolding delete_resolved IsAllowed
    Keeps-delete_resolved p (fault e) n at = Keeps-pure _
    Keeps-delete_resolved p (ok u) n at =
        Keeps-settle _ (Keeps-call _ _ (gone, refl, at, refl, n)) and_then λ task. Keeps-pure _

    Keeps-delete_at :
        (r : Reply Provider)
        → (v.status.id =t "") ≡ false
        → IsOk (IsProviderOf api v.namespace v.spec) r
        → Keeps (IsAllowedSoFar api true v) (delete_at api v.status.id r)
    unfolding delete_at
    Keeps-delete_at (fault e) n u = Keeps-if _ _ _ (Keeps-pure _) (Keeps-stop _)
    Keeps-delete_at (ok p) n at = Keeps-settle _ (Keeps-get_provider_instance api p) and_then λ r.
        Keeps-delete_resolved p r n at

    Keeps-delete_from_provider :
        (b : Bool)
        → has_provider v ≡ b
        → Keeps (IsAllowedSoFar api true v) (delete_from_provider api v b)
    unfolding delete_from_provider has_provider
    Keeps-delete_from_provider false e = Keeps-pure _
    Keeps-delete_from_provider true e =
        Yields-settle (Yields-query _) and_knowing λ p at. Keeps-delete_at p (ground (arith, e)) at

    Keeps-delete_and_release : Keeps (IsAllowedSoFar api true v) (delete_and_release api v)
    unfolding delete_and_release
    Keeps-delete_and_release = Keeps-delete_from_provider _ refl and_then λ t.
        Keeps-on_error _ _ Keeps-remove_finalizer (λ e. Keeps-stop _) and_then λ t. Keeps-stop _

    Keeps-handle :
        (held : Bool)
        → Keeps
            (IsAllowedSoFar api held v)
            (if held then delete_and_release api v else stop finished)
    Keeps-handle true = Keeps-delete_and_release
    Keeps-handle false = Keeps-stop _

    -- From the start of a pass over an object that is being deleted.
    pub handle_deletion-IsAllowed :
        (w : W)
        → IsAllowedSoFar api (has_finalizer api v) v v []
        → let s = (handle_deletion api (record { object = v; world = w; calls = [] })).1 in
          IsAllowedSoFar api (has_finalizer api v) v s.object s.calls
    unfolding handle_deletion ◌>>=◌
    handle_deletion-IsAllowed w h = (Keeps-handle _).at _ h
