-- ===== src/Adoption/Discovery/Laws.antt =====
-- internal/controller/vmadoption_controller.go (`discoverUnmanagedVMs`): which machines are found.
use projectbeskar_virtrigaud.Common.{
  Bool-cases, ◌⊎◌, String, ◌=t◌, Bool, true, false, ◌&&◌, if◌then◌else◌, Option, none, some, List,
  [], ◌∷◌, ◌≡◌, ◌↔◌, refl, All, inl, inr, ◌⊎◌, sym, ap, ◌∙◌, arith,
}
use mathlib.Core.List.{Memᴰ}
use projectbeskar_virtrigaud.Controller.{Reply, State}
use projectbeskar_virtrigaud.Controller.Keeps.{
  Keeps, Keeps-pure, Keeps-stop, Keeps-query, Keeps-on_error, ◌and_then◌,
}
use projectbeskar_virtrigaud.Controller.Yields.{
  Answered, Gives, Yields, Yields-pure, Yields-stop, Yields-any, Yields-query, Yields-bind,
  Yields-on_error,
}
use projectbeskar_virtrigaud.Vm.Dependencies.{namespace_of}
use projectbeskar_virtrigaud.Adoption.Filter.Laws.{IsMatch, matches_filter_lem}
use projectbeskar_virtrigaud.Vm.Types.{VirtualMachine}
use projectbeskar_virtrigaud.Adoption.Types.{VmInfo, VmAdoptionFilter, Provider, Call, Api}
use projectbeskar_virtrigaud.Adoption.Discovery.{
  is_of_provider, vm_id, is_managed, passes_filter, is_selected, select, instance_of,
  get_provider_instance, discover_unmanaged_vms,
}

module _ {J : Provider → List Call → Type 0} {W : Type 0} (api : Api W) where
  Keeps-instance_of :
      (o : Option (Provider → W → Reply Unit × W)) (p : Provider) → Keeps J (instance_of api o p)
  unfolding instance_of
  Keeps-instance_of none p = Keeps-stop _
  Keeps-instance_of (some resolve) p = Keeps-on_error _ _ (Keeps-query _) (λ e. Keeps-stop _)

  pub Keeps-discover_unmanaged_vms :
      (p : Provider) (f : Option VmAdoptionFilter) → Keeps J (discover_unmanaged_vms api p f)
  unfolding discover_unmanaged_vms get_provider_instance
  Keeps-discover_unmanaged_vms p f =
      Keeps-on_error _ _ (Keeps-instance_of api.resolver p) (λ e. Keeps-stop _) and_then λ u.
      Keeps-on_error _ _ (Keeps-query _) (λ e. Keeps-stop _) and_then λ all.
      Keeps-on_error _ _ (Keeps-query _) (λ e. Keeps-stop _) and_then λ vms. Keeps-pure _

-- The object stands for the machine with this identifier of this provider: its reference is to the
-- provider, in the namespace of the reference or, without one, in its own, and the identifier is that of its
-- status or, without one, its name.
pub record IsKnownAs (p : Provider) (id : String) (vm : VirtualMachine) : Type 0 where
  pub same_name : (vm.spec.provider_ref.name =t p.name) ≡ true
  pub same_namespace :
      (((vm.spec.provider_ref.namespace =t "") ≡ true) × ((vm.namespace =t p.namespace) ≡ true))
      ⊎ (((vm.spec.provider_ref.namespace =t "") ≡ false)
          × ((vm.spec.provider_ref.namespace =t p.namespace) ≡ true))
  pub same_id :
      (((vm.status.id =t "") ≡ true) × ((vm.name =t id) ≡ true))
      ⊎ (((vm.status.id =t "") ≡ false) × ((vm.status.id =t id) ≡ true))

known_lem :
    (p : Provider) (id : String) (vm : VirtualMachine)
    → ((is_of_provider p vm && vm_id vm =t id) ≡ true) ↔ IsKnownAs p id vm
unfolding is_of_provider vm_id namespace_of
known_lem p id vm = (
  (λ h. record {
    same_name = ground (arith, h);
    same_namespace = ground (arith, h);
    same_id = ground (arith, h);
  }),
  (λ k. ground (arith, k.same_name, k.same_namespace, k.same_id)),
)

-- No object stands for the machine.
pub IsUnmanaged : Provider → List VirtualMachine → String → Type 0
IsUnmanaged p vms id = All (λ vm. ¬ (IsKnownAs p id vm)) vms

IsUnmanaged-is_managed :
    (p : Provider) (vms : List VirtualMachine) (id : String)
    → is_managed p vms id ≡ false
    → IsUnmanaged p vms id
unfolding is_managed IsUnmanaged
IsUnmanaged-is_managed p [] id e = tt
IsUnmanaged-is_managed p (vm ∷ vms) id e = (
  (λ k. ground (arith, e, (known_lem p id vm).1 k)),
  IsUnmanaged-is_managed p vms id (ground (arith, e)),
)

is_managed-IsUnmanaged :
    (p : Provider) (vms : List VirtualMachine) (id : String)
    → IsUnmanaged p vms id
    → is_managed p vms id ≡ false
unfolding is_managed IsUnmanaged
is_managed-IsUnmanaged p [] id h = refl
is_managed-IsUnmanaged p (vm ∷ vms) id h =
    elim (Bool-cases (is_of_provider p vm && vm_id vm =t id)) [
      | inl e ↦ absurd (h.0 ((known_lem p id vm).0 e))
      | inr e ↦ ground (arith, e, is_managed-IsUnmanaged p vms id h.1)
    ]

-- The machine has what the filter asks for, where there is one.
pub IsWanted : {W : Type 0} → Api W → Option VmAdoptionFilter → VmInfo → Type 0
IsWanted api none vm = Unit
IsWanted api (some f) vm = IsMatch api vm f

passes_filter_lem :
    {W : Type 0} (api : Api W) (f : Option VmAdoptionFilter) (vm : VmInfo)
    → (passes_filter api f vm ≡ true) ↔ IsWanted api f vm
unfolding passes_filter IsWanted
passes_filter_lem api none vm = (λ h. tt, λ h. refl)
passes_filter_lem api (some f) vm = matches_filter_lem api vm f

module _ {W : Type 0} (api : Api W) (p : Provider) (f : Option VmAdoptionFilter)
    (vms : List VirtualMachine) (vm : VmInfo) where
  -- What is asked of a machine that is found.
  pub IsFound : List VmInfo → Type 0
  IsFound all = Memᴰ vm all × IsUnmanaged p vms vm.id × IsWanted api f vm

  Mem-if :
      (b : Bool) (x : VmInfo) (rest : List VmInfo)
      → Memᴰ vm (if b then x ∷ rest else rest)
      → ((vm ≡ x) × (b ≡ true)) ⊎ Memᴰ vm rest
  Mem-if true x rest (Memᴰ.head e) = inl (e, refl)
  Mem-if true x rest (Memᴰ.tail m) = inr m
  Mem-if false x rest m = inr m

  if-Mem :
      (b : Bool) (x : VmInfo) (rest : List VmInfo)
      → Memᴰ vm rest
      → Memᴰ vm (if b then x ∷ rest else rest)
  if-Mem true x rest m = Memᴰ.tail m
  if-Mem false x rest m = m

  if-Mem_head :
      (b : Bool) (x : VmInfo) (rest : List VmInfo)
      → vm ≡ x
      → b ≡ true
      → Memᴰ vm (if b then x ∷ rest else rest)
  if-Mem_head true x rest e h = Memᴰ.head e
  if-Mem_head false x rest e h = ground (arith, h)

  selected : (is_selected api p f vms vm ≡ true) ↔ (IsUnmanaged p vms vm.id × IsWanted api f vm)
  unfolding is_selected
  selected = (
    (λ h. (
      IsUnmanaged-is_managed p vms vm.id (ground (arith, h)),
      (passes_filter_lem api f vm).0 (ground (arith, h)),
    )),
    (λ h.
        ground (arith, is_managed-IsUnmanaged p vms vm.id h.0, (passes_filter_lem api f vm).1 h.1)),
  )

  IsFound-tail : (x : VmInfo) (rest : List VmInfo) → IsFound rest → IsFound (x ∷ rest)
  unfolding IsFound
  IsFound-tail x rest h = (Memᴰ.tail h.0, h.1, h.2)

  IsFound-head :
      (x : VmInfo) (rest : List VmInfo)
      → vm ≡ x
      → is_selected api p f vms x ≡ true
      → IsFound (x ∷ rest)
  unfolding IsFound
  IsFound-head x rest e h =
      let k = selected.0 (ap (is_selected api p f vms) e ∙ h) in (Memᴰ.head e, k.0, k.1)

  found : (all : List VmInfo) → Memᴰ vm (select api p f vms all) → IsFound all
  unfolding select
  found [] m = elim m [ ]
  found (x ∷ rest) m = elim (Mem-if (is_selected api p f vms x) x (select api p f vms rest) m) [
    | inl h ↦ IsFound-head x rest h.0 h.1
    | inr h ↦ IsFound-tail x rest (found rest h)
  ]

  finds :
      (all : List VmInfo)
      → Memᴰ vm all
      → is_selected api p f vms vm ≡ true
      → Memᴰ vm (select api p f vms all)
  unfolding select
  finds [] m h = elim m [ ]
  finds (x ∷ rest) (Memᴰ.head e) h =
      if-Mem_head (is_selected api p f vms x) x (select api p f vms rest) e
        (sym (ap (is_selected api p f vms) e) ∙ h)
  finds (x ∷ rest) (Memᴰ.tail m) h =
      if-Mem (is_selected api p f vms x) x (select api p f vms rest) (finds rest m h)

  select_lem : (all : List VmInfo) → Memᴰ vm (select api p f vms all) ↔ IsFound all
  unfolding IsFound
  select_lem all = (found all, λ h. finds all h.0 (selected.1 (h.1, h.2)))

-- What was found, by the machines that the provider listed and the objects that the API server listed.
pub record IsDiscovery {W : Type 0} (api : Api W) (p : Provider) (f : Option VmAdoptionFilter)
    (found : List VmInfo) : Type 0 where
  pub all : List VmInfo
  pub listed : Answered (api.provider_vms p) all
  pub vms : List VirtualMachine
  pub known : Answered api.list_vms vms
  pub exactly : (vm : VmInfo) → Memᴰ vm found ↔ IsFound api p f vms vm all

Yields-discover_unmanaged_vms :
    {J : Provider → List Call → Type 0} {W : Type 0} (api : Api W) (p : Provider)
    (f : Option VmAdoptionFilter)
    → Yields J (IsDiscovery api p f) (discover_unmanaged_vms api p f)
unfolding discover_unmanaged_vms get_provider_instance
Yields-discover_unmanaged_vms api p f =
    Yields-bind
      (Yields-any (Keeps-on_error _ _ (Keeps-instance_of api api.resolver p) (λ e. Keeps-stop _)))
      λ t u. Yields-bind (Yields-on_error (Yields-query _) (λ e. Yields-stop _)) λ all a.
        Yields-bind (Yields-on_error (Yields-query _) (λ e. Yields-stop _)) λ vms k.
          Yields-pure _ (record {
            all = all;
            listed = a;
            vms = vms;
            known = k;
            exactly = λ vm. select_lem api p f vms vm all;
          })

-- Where the discovery succeeds, it returns exactly the machines that the provider listed, that have what the
-- filter asks for, and that no object which the API server listed stands for: none whose reference is to
-- this provider and whose identifier, or name where it has no identifier yet, is that of the machine.
pub discover_unmanaged_vms_lem :
    {W : Type 0} (api : Api W) (p : Provider) (f : Option VmAdoptionFilter)
    (s : State Provider Call W)
    → Gives (IsDiscovery api p f) (discover_unmanaged_vms api p f s).0
discover_unmanaged_vms_lem api p f s =
    (Yields-discover_unmanaged_vms {J = λ o cs. Unit} api p f).gives s tt
