-- ===== src/Snapshot/Steps.antt =====
-- internal/controller/vmsnapshot_controller.go: the edges between the phases of a snapshot, and what a
-- pass may ask of a provider or of the API server in each of them.
use projectbeskar_virtrigaud.Common.{
  String, ◌=t◌, Bool, true, false, is_some, List, [], ◌∷◌, ◌++◌, ◌≡◌, refl, sym, subst, ◌∙◌, All,
  All-append,
}
use projectbeskar_virtrigaud.Conditions.Condition.{Status}
use projectbeskar_virtrigaud.Controller.{Reply, perform, perform_object, modify, note}
use projectbeskar_virtrigaud.Controller.Keeps.{
  Keeps, Keeps-modify, Keeps-note, Keeps-ask, Keeps-pure, Keeps-settle, Keeps-perform,
  Keeps-perform_object, ◌and_then◌,
}
use projectbeskar_virtrigaud.Controller.Yields.{Answered, Yields, Yields-query}
use projectbeskar_virtrigaud.Migration.Cluster.{Provider, SnapshotCreateRequest}
use projectbeskar_virtrigaud.Vm.Types.{VirtualMachine}
use projectbeskar_virtrigaud.Vm.Dependencies.{namespace_of}
use projectbeskar_virtrigaud.Snapshot.Types.{VmSnapshot, VmSnapshotStatus, SnapshotPhase}
use projectbeskar_virtrigaud.Snapshot.Cluster.{
  Api, Call, status_written, object_written, object_deleted, snapshot_created, snapshot_deleted,
  event, put_status, set_condition, update_status, try_update_status, get_provider,
}
use projectbeskar_virtrigaud.Snapshot.Creation.{build_snapshot_create_request}

-- A pass leaves the phase, or goes along one edge; the Boolean is whether the snapshot is being
-- deleted.
pub data Edge : Bool → SnapshotPhase → SnapshotPhase → Type 0 where
  stays : (d : Bool) (p : SnapshotPhase) → Edge d p p
  started : Edge false SnapshotPhase.unset SnapshotPhase.creating
  created : Edge false SnapshotPhase.unset SnapshotPhase.ready
  creation_failed : Edge false SnapshotPhase.unset SnapshotPhase.failed
  completed : Edge false SnapshotPhase.creating SnapshotPhase.ready
  task_failed : Edge false SnapshotPhase.creating SnapshotPhase.failed
  removed : (p : SnapshotPhase) → Edge true p SnapshotPhase.deleting

abbrev pub EdgeFrom : VmSnapshot → SnapshotPhase → Type 0
EdgeFrom v p = Edge v.deleting v.status.phase p

module _ {W : Type 0} (api : Api W) (v : VmSnapshot) where
  -- The virtual machine that the snapshot refers to, as the API server answered.
  abbrev pub IsVmOf : VirtualMachine → Type 0
  IsVmOf vm = Answered (api.get_vm v.namespace v.spec.vm_ref) vm

  -- The provider that a virtual machine refers to, as the API server answered.
  abbrev pub IsProviderOf : VirtualMachine → Provider → Type 0
  IsProviderOf vm p =
      Answered
        (api.get_provider (namespace_of vm.namespace vm.spec.provider_ref)
          vm.spec.provider_ref.name)
        p

  -- A call for the virtual machine of the snapshot, by its identifier, at its provider.
  pub record IsFor (p : Provider) (vm_id : String) : Type 0 where
    pub vm : VirtualMachine
    pub vm_found : IsVmOf vm
    pub of_vm : vm_id ≡ vm.status.id
    pub known : (vm_id =t "") ≡ false
    pub provider_found : IsProviderOf vm p

  -- The request says what the specification says, and no more.
  abbrev pub IsRequest : SnapshotCreateRequest → Type 0
  IsRequest req =
      (vm : VirtualMachine) × (req.vm_id ≡ vm.status.id)
      × (req ≡ build_snapshot_create_request v vm)

  -- What a pass that began with `v` may call.
  unfoldable pub IsStep : Call → Type 0
  IsStep (status_written o) = EdgeFrom v o.status.phase
  IsStep (object_written o) = EdgeFrom v o.status.phase
  IsStep (object_deleted o) =
      (v.deleting ≡ false)
      × (v.status.phase ≡ SnapshotPhase.ready)
      × (is_some v.spec.retention_policy ≡ true)
  IsStep (snapshot_created p req) =
      (v.deleting ≡ false)
      × (v.status.phase ≡ SnapshotPhase.unset)
      × IsFor p req.vm_id
      × IsRequest req
  IsStep (snapshot_deleted p vm_id id) =
      (v.deleting ≡ true) × (id ≡ v.status.snapshot_id) × ((id =t "") ≡ false) × IsFor p vm_id
  IsStep (event a b c) = Unit

  pub record IsOnPath (o : VmSnapshot) (cs : List Call) : Type 0 where
    pub edge : EdgeFrom v o.status.phase
    pub same_name : o.name ≡ v.name
    pub same_namespace : o.namespace ≡ v.namespace
    pub same_spec : o.spec ≡ v.spec
    pub same_id : v.deleting ≡ true → o.status.snapshot_id ≡ v.status.snapshot_id
    pub steps : All IsStep cs

pub edge_at :
    {d : Bool} {p q : SnapshotPhase} (v : VmSnapshot)
    → v.deleting ≡ d
    → v.status.phase ≡ p
    → Edge d p q
    → EdgeFrom v q
edge_at {d = d} {q = q} v ed ep e =
    subst (λ b. Edge b v.status.phase q) (sym ed) (subst (λ r. Edge d r q) (sym ep) e)

module _ {v : VmSnapshot} {W : Type 0} {api : Api W} where
  pub IsOnPath-append :
      (c : Call) (o : VmSnapshot) (cs : List Call)
      → IsStep api v c
      → IsOnPath api v o cs
      → IsOnPath api v o (cs ++ c ∷ [])
  IsOnPath-append c o cs w h = record {
    edge = h.edge;
    same_name = h.same_name;
    same_namespace = h.same_namespace;
    same_spec = h.same_spec;
    same_id = h.same_id;
    steps = All-append (IsStep api v) cs (c ∷ []) h.steps (w, tt);
  }

  pub Keeps-call :
      {A : Type 0} (c : Call) (op : W → Reply A × W)
      → IsStep api v c
      → Keeps (IsOnPath api v) (perform c op)
  Keeps-call c op w = Keeps-perform c op (λ o cs h. IsOnPath-append c o cs w h)

  pub Keeps-event :
      {E : Type 0} (a b c : String) → Keeps {W = W} {E = E} (IsOnPath api v) (note (event a b c))
  unfolding IsStep
  Keeps-event a b c = Keeps-note _ (λ o cs h. IsOnPath-append (event a b c) o cs tt h)

  pub Keeps-put_status :
      {E : Type 0} (g : VmSnapshotStatus → VmSnapshotStatus)
      → ((st : VmSnapshotStatus) → EdgeFrom v st.phase → EdgeFrom v (g st).phase)
      → ((st : VmSnapshotStatus) → v.deleting ≡ true → (g st).snapshot_id ≡ st.snapshot_id)
      → Keeps {W = W} {E = E} (IsOnPath api v) (put_status g)
  unfolding put_status
  Keeps-put_status g k m = Keeps-modify _ (λ o cs h. record {
    edge = k o.status h.edge;
    same_name = h.same_name;
    same_namespace = h.same_namespace;
    same_spec = h.same_spec;
    same_id = λ gone. m o.status gone ∙ h.same_id gone;
    steps = h.steps;
  })

  pub Keeps-finalizers :
      {E : Type 0} (f : List String → List String)
      → Keeps {W = W} {E = E}
          (IsOnPath api v)
          (modify (λ o. record o { finalizers = f o.finalizers }))
  Keeps-finalizers f = Keeps-modify _ (λ o cs h. record {
    edge = h.edge;
    same_name = h.same_name;
    same_namespace = h.same_namespace;
    same_spec = h.same_spec;
    same_id = h.same_id;
    steps = h.steps;
  })

module _ {v : VmSnapshot} {W : Type 0} (api : Api W) where
  pub Keeps-object_written : Keeps (IsOnPath api v) (perform_object object_written api.update)
  unfolding IsStep
  Keeps-object_written =
      Keeps-perform_object object_written api.update
        (λ o cs h. IsOnPath-append (object_written o) o cs h.edge h)

  pub Keeps-set_condition :
      {E : Type 0} (kind : String) (s : Status) (reason message : String)
      → Keeps {E = E} (IsOnPath api v) (set_condition api kind s reason message)
  unfolding set_condition
  Keeps-set_condition kind s reason message =
      Keeps-ask api.now and_then λ now. Keeps-put_status _ (λ st e. e) (λ st gone. refl)

  pub Keeps-update_status : Keeps (IsOnPath api v) (update_status api)
  unfolding update_status IsStep
  Keeps-update_status =
      Keeps-perform_object status_written api.update_status
        (λ o cs h. IsOnPath-append (status_written o) o cs h.edge h)

  pub Keeps-try_update_status :
      {E : Type 0} → Keeps {E = E} (IsOnPath api v) (try_update_status api)
  unfolding try_update_status
  Keeps-try_update_status = Keeps-settle _ Keeps-update_status and_then λ r. Keeps-pure tt

  pub Yields-get_provider :
      (vm : VirtualMachine) → Yields (IsOnPath api v) (IsProviderOf api v vm) (get_provider api vm)
  unfolding get_provider
  Yields-get_provider vm = Yields-query _
