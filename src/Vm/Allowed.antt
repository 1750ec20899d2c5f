-- ===== src/Vm/Allowed.antt =====
-- internal/controller/virtualmachine_controller.go: what a pass may ask of a provider, by the
-- specification of its virtual machine.
use projectbeskar_virtrigaud.Common.{
  ℕ, String, ◌=t◌, Bool, true, false, not, is_some, ◌∙◌, arith, Option, none, some, List, [], ◌∷◌,
  ◌++◌, ◌≡◌, All, All-append,
}
use projectbeskar_virtrigaud.Conditions.Condition.{Status}
use projectbeskar_virtrigaud.Controller.{Reply, perform, perform_object, modify}
use projectbeskar_virtrigaud.Controller.Keeps.{
  Keeps, Keeps-modify, Keeps-ask, Keeps-stop, Keeps-pure, Keeps-settle, Keeps-perform,
  Keeps-perform_object, ◌and_then◌,
}
use projectbeskar_virtrigaud.Controller.Yields.{
  Answered, Yields, Yields-stop, Yields-any, Yields-bind,
}
use projectbeskar_virtrigaud.Vm.Types.{
  VirtualMachine, VirtualMachineSpec, VirtualMachineStatus, ImageSource, NetworkConfig, CloudInit,
}
use projectbeskar_virtrigaud.Migration.Types.{ObjectRef, VmNetworkRef}
use projectbeskar_virtrigaud.Migration.Cluster.{Provider}
use projectbeskar_virtrigaud.Vm.Contracts.{PowerOp, CreateRequest}
use projectbeskar_virtrigaud.Vm.Cluster.{
  Api, Call, status_written, object_written, vm_created, vm_deleted, power_set, reconfigured, Kind,
  put_status, set_condition, update_status, save_and_wait, report,
}
use projectbeskar_virtrigaud.Vm.Request.{Parts, unless_empty, request_of}
use projectbeskar_virtrigaud.Vm.CloudInit.Rules.{IsUserDataAt, IsMetaDataAt}
use projectbeskar_virtrigaud.Vm.Cluster.Rules.{edit-id}
use projectbeskar_virtrigaud.Vm.Dependencies.{namespace_of}

unfoldable pub IsSameSpec : VirtualMachine → VirtualMachine → Type 0
IsSameSpec v o = (o.name ≡ v.name) × (o.spec ≡ v.spec) × (o.namespace ≡ v.namespace)

-- An optional object that a reference leads to.
unfoldable pub IsAt : {A B : Type 0} → (A → B → Type 0) → Option A → Option B → Type 0
IsAt P none none = Unit
IsAt P none (some b) = ⊥
IsAt P (some a) none = ⊥
IsAt P (some a) (some b) = P a b

-- What comes of a cloud-init entry: nothing without one, or where its text is empty.
unfoldable pub IsTextOf : (CloudInit → String → Type 0) → Option CloudInit → Option String → Type 0
IsTextOf P none o = o ≡ none
IsTextOf P (some ci) o = (text : String) × P ci text × (o ≡ unless_empty text)

module _ {W : Type 0} (api : Api W) where
  -- What the API server answered for the references of a virtual machine: a network in its own namespace,
  -- the rest in that of the reference, if it has one.
  abbrev pub IsImageAt : String → ObjectRef → ImageSource → Type 0
  IsImageAt namespace r image = Answered (api.get_image (namespace_of namespace r) r.name) image

  abbrev pub IsNetworkAt : String → ObjectRef → NetworkConfig → Type 0
  IsNetworkAt namespace r network = Answered (api.get_network namespace r.name) network

  unfoldable pub AreNetworksAt : String → List VmNetworkRef → List (Option NetworkConfig) → Type 0
  AreNetworksAt namespace [] [] = Unit
  AreNetworksAt namespace [] (n ∷ ns) = ⊥
  AreNetworksAt namespace (r ∷ rs) [] = ⊥
  AreNetworksAt namespace (r ∷ rs) (n ∷ ns) =
      IsAt (IsNetworkAt namespace) r.network_ref n × AreNetworksAt namespace rs ns

  pub record ArePartsOf (namespace : String) (spec : VirtualMachineSpec) (parts : Parts)
      : Type 0 where
    pub class_found :
        Answered
          (api.get_class (namespace_of namespace spec.class_ref) spec.class_ref.name)
          parts.class
    pub image_found : IsAt (IsImageAt namespace) spec.image_ref parts.image
    pub networks_found : AreNetworksAt namespace spec.networks parts.networks

  abbrev pub IsProviderOf : String → VirtualMachineSpec → Provider → Type 0
  IsProviderOf namespace spec p =
      Answered (api.get_provider (namespace_of namespace spec.provider_ref) spec.provider_ref.name)
        p

  -- A request for the virtual machine: its name, the disks, placement and tags of its specification, and
  -- the objects of its references, with the user data and the metadata that its specification gives.
  pub record IsRequestOf (v : VirtualMachine) (req : CreateRequest) : Type 0 where
    pub same_name : req.name ≡ v.name
    pub same_disks : req.disks ≡ v.spec.disks
    pub same_placement : req.placement ≡ v.spec.placement
    pub same_tags : req.tags ≡ v.spec.tags
    pub parts : Parts
    pub parts_found : ArePartsOf v.namespace v.spec parts
    pub user : Option String
    pub user_found : IsTextOf (IsUserDataAt api v.namespace) v.spec.user_data user
    pub meta : Option String
    pub meta_found : IsTextOf (IsMetaDataAt api v.namespace) v.spec.meta_data meta
    pub built : req ≡ request_of v.name v.spec parts user meta

-- Exactly one source of the disk.
abbrev pub HasOneSource : VirtualMachineSpec → Type 0
HasOneSource spec = is_some spec.image_ref ≡ not (is_some spec.imported_disk)

-- The operation for a desired power state: "On" is the default.
pub data IsPowerFor (s : String) : PowerOp → Type 0 where
  on_by_default : (s =t "") ≡ true → IsPowerFor s PowerOp.on
  on : (s =t "On") ≡ true → IsPowerFor s PowerOp.on
  off : (s =t "Off") ≡ true → IsPowerFor s PowerOp.off
  graceful : (s =t "OffGraceful") ≡ true → IsPowerFor s PowerOp.shutdown_graceful

-- `held` is whether the virtual machine had the controller's finalizer when the pass began.
module _ {W : Type 0} (api : Api W) (held : Bool) (v : VirtualMachine) where
  abbrev IsWanted : Provider → Type 0
  IsWanted p = (v.deleting ≡ false) × (held ≡ true) × IsProviderOf api v.namespace v.spec p

  -- Only with the finalizer is anything asked of a provider, and only of the one that the specification
  -- refers to. A virtual machine is created from exactly one source, and created or reconfigured only to
  -- what the specification says; its power is changed only to the desired state; it is deleted only where
  -- the object is. Apart from a creation, the identifier is the one that the status had.
  unfoldable pub IsAllowed : Call → Type 0
  IsAllowed (status_written o) = IsSameSpec v o
  IsAllowed (object_written o) = IsSameSpec v o
  IsAllowed (vm_created p req) = IsWanted p × HasOneSource v.spec × IsRequestOf api v req
  IsAllowed (vm_deleted p id) =
      (v.deleting ≡ true)
      × (held ≡ true)
      × IsProviderOf api v.namespace v.spec p
      × (id ≡ v.status.id)
      × ((id =t "") ≡ false)
  IsAllowed (power_set p id op) = IsWanted p × (id ≡ v.status.id) × IsPowerFor v.spec.power_state op
  IsAllowed (reconfigured p id req) = IsWanted p × (id ≡ v.status.id) × IsRequestOf api v req

  -- `known` is whether the object in memory still has the identifier that it began with.
  pub record IsAllowedUnder (known : Bool) (o : VirtualMachine) (cs : List Call) : Type 0 where
    pub same_spec : IsSameSpec v o
    pub same_id : known ≡ true → o.status.id ≡ v.status.id
    pub calls_allowed : All IsAllowed cs

  abbrev pub IsAllowedSoFar : VirtualMachine → List Call → Type 0
  IsAllowedSoFar = IsAllowedUnder false

  pub forget_id :
      (o : VirtualMachine) (cs : List Call) → IsAllowedUnder true o cs → IsAllowedSoFar o cs
  forget_id o cs h = record {
    same_spec = h.same_spec;
    same_id = λ k. ground (arith, k);
    calls_allowed = h.calls_allowed;
  }

module _ {W : Type 0} {api : Api W} {held known : Bool} {v : VirtualMachine} where
  IsAllowedUnder-append :
      (c : Call) (o : VirtualMachine) (cs : List Call)
      → IsAllowed api held v c
      → IsAllowedUnder api held v known o cs
      → IsAllowedUnder api held v known o (cs ++ c ∷ [])
  IsAllowedUnder-append c o cs w h = record {
    same_spec = h.same_spec;
    same_id = h.same_id;
    calls_allowed = All-append (IsAllowed api held v) cs (c ∷ []) h.calls_allowed (w, tt);
  }

  pub Keeps-call :
      {A : Type 0} (c : Call) (op : W → Reply A × W)
      → IsAllowed api held v c
      → Keeps (IsAllowedUnder api held v known) (perform c op)
  Keeps-call c op w = Keeps-perform c op (λ o cs h. IsAllowedUnder-append c o cs w h)

  pub Keeps-put_status :
      {E : Type 0} (g : VirtualMachineStatus → VirtualMachineStatus)
      → (known ≡ true → (st : VirtualMachineStatus) → (g st).id ≡ st.id)
      → Keeps {W = W} {E = E} (IsAllowedUnder api held v known) (put_status g)
  unfolding put_status IsSameSpec
  Keeps-put_status g k = Keeps-modify _ (λ o cs h. record {
    same_spec = h.same_spec;
    same_id = λ e. k e o.status ∙ h.same_id e;
    calls_allowed = h.calls_allowed;
  })

  pub Keeps-finalizers :
      {E : Type 0} (f : List String → List String)
      → Keeps {W = W} {E = E}
          (IsAllowedUnder api held v known)
          (modify (λ o. record o { finalizers = f o.finalizers }))
  unfolding IsSameSpec
  Keeps-finalizers f = Keeps-modify _ (λ o cs h. record {
    same_spec = h.same_spec;
    same_id = h.same_id;
    calls_allowed = h.calls_allowed;
  })

  pub Keeps-object_written :
      Keeps (IsAllowedUnder api held v known) (perform_object object_written api.update)
  unfolding IsAllowed
  Keeps-object_written =
      Keeps-perform_object object_written api.update
        (λ o cs h. IsAllowedUnder-append (object_written o) o cs h.same_spec h)

module _ {W : Type 0} (api : Api W) {held known : Bool} {v : VirtualMachine} where
  pub Keeps-set_condition :
      {E : Type 0} (kind : Kind) (s : Status) (reason message : String)
      → Keeps {E = E} (IsAllowedUnder api held v known) (set_condition api kind s reason message)
  unfolding set_condition
  Keeps-set_condition kind s reason message =
      Keeps-ask api.now and_then λ now. Keeps-put_status _ (λ k. edit-id kind now s reason message)

  pub Keeps-update_status :
      {E : Type 0} → Keeps {E = E} (IsAllowedUnder api held v known) (update_status api)
  unfolding update_status IsAllowed
  Keeps-update_status =
      Keeps-settle _ (
        Keeps-perform_object status_written api.update_status
          (λ o cs h. IsAllowedUnder-append (status_written o) o cs h.same_spec h))
      and_then λ r. Keeps-pure tt

  pub Keeps-save_and_wait :
      {A : Type 0} (d : ℕ) → Keeps {A = A} (IsAllowedUnder api held v known) (save_and_wait api d)
  unfolding save_and_wait
  Keeps-save_and_wait d = Keeps-update_status and_then λ t. Keeps-stop _

  pub Keeps-report :
      {A : Type 0} (kind : Kind) (s : Status) (reason message : String)
      → Keeps {A = A} (IsAllowedUnder api held v known) (report api kind s reason message)
  unfolding report
  Keeps-report kind s reason message =
      Keeps-set_condition kind s reason message and_then λ t. Keeps-save_and_wait _

  pub Yields-save_and_wait :
      {A : Type 0} {P : A → Type 0} (d : ℕ)
      → Yields (IsAllowedUnder api held v known) P (save_and_wait api d)
  unfolding save_and_wait
  Yields-save_and_wait d = Yields-bind (Yields-any Keeps-update_status) λ t u. Yields-stop _

  pub Yields-report :
      {A : Type 0} {P : A → Type 0} (kind : Kind) (s : Status) (reason message : String)
      → Yields (IsAllowedUnder api held v known) P (report api kind s reason message)
  unfolding report save_and_wait
  Yields-report kind s reason message =
      Yields-bind (Yields-any (Keeps-set_condition kind s reason message))
        λ t u. Yields-bind (Yields-any Keeps-update_status) λ t u. Yields-stop _
