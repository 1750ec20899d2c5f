-- ===== src/Adoption/Reconcile/Rules.antt =====
-- internal/controller/vmadoption_controller.go (`Reconcile`): a pass creates and writes only what is
-- allowed, and counts every machine that it finds.
use projectbeskar_virtrigaud.Common.{
  ℕ, suc, ◌+◌, pos, to_int32, String, ◌=t◌, Bool, true, false, if◌then◌else◌, Option, none, some,
  List, [], ◌∷◌, length, ◌≡◌, refl, sym, ap, ◌∙◌, arith,
}
use projectbeskar_virtrigaud.Controller.{Outcome, Reply, ok, fault, State, pure}
use projectbeskar_virtrigaud.Controller.Keeps.{
  Keeps, Keeps-pure, Keeps-stop, Keeps-ask, Keeps-modify, Keeps-perform_object, Keeps-if,
  Keeps-on_error, Keeps-settle, ◌and_then◌,
}
use projectbeskar_virtrigaud.Controller.Yields.{
  Yields, Yields-pure, Yields-stop, Yields-any, Yields-bind, Yields-the_object, ◌and_knowing◌,
}
use projectbeskar_virtrigaud.Controller.Results.{
  Is, Results, Results-pure, Results-settle, Results-weaken, Results-bind,
}
use projectbeskar_virtrigaud.Adoption.Types.{
  VmInfo, VmAdoptionFilter, ProviderAdoptionStatus, Provider, provider_status_written, Call, Api,
}
use projectbeskar_virtrigaud.Adoption.Filter.{parse_filter_annotation}
use projectbeskar_virtrigaud.Adoption.Discovery.Laws.{Keeps-discover_unmanaged_vms}
use projectbeskar_virtrigaud.Adoption.Adopting.Rules.{Keeps-adopt_vm}
use projectbeskar_virtrigaud.Adoption.Reconcile.{
  adoption_annotation, is_provider_ready, Counts, count_one, set_adoption, update_status,
  try_update_status, put_adoption, report, cleared, with_counts, parsed_filter, filter_of,
  wait_since, adopt_all, adopt_discovered, adopt, reconcile_object,
}
use projectbeskar_virtrigaud.Adoption.Allowed.{
  IsSame, IsWanted, IsAllowed, IsWithin, IsWithin-append,
}

module _ {v : Provider} {W : Type 0} (api : Api W) where
  Keeps-put_adoption :
      {E : Type 0} (f : ProviderAdoptionStatus → ProviderAdoptionStatus)
      → Keeps {E = E} (IsWithin v) (put_adoption api f)
  unfolding put_adoption set_adoption
  Keeps-put_adoption f =
      Keeps-modify _ (λ o cs h. record { same = h.same; calls_allowed = h.calls_allowed })

  Keeps-update_status : Keeps (IsWithin v) (update_status api)
  unfolding update_status IsAllowed
  Keeps-update_status =
      Keeps-perform_object provider_status_written api.update_status
        (λ o cs h. IsWithin-append (provider_status_written o) o cs h.same h)

  Keeps-try_update_status : {E : Type 0} → Keeps {E = E} (IsWithin v) (try_update_status api)
  unfolding try_update_status
  Keeps-try_update_status = Keeps-settle _ Keeps-update_status and_then λ r. Keeps-pure tt

  Keeps-report :
      {A : Type 0} (message : String) (delay : ℕ)
      → Keeps {A = A} (IsWithin v) (report api message delay)
  unfolding report
  Keeps-report message delay =
      Keeps-put_adoption (λ a. record a { message = message }) and_then λ t.
      Keeps-try_update_status and_then λ t. Keeps-stop _

  Keeps-cleared : (b : Bool) → Keeps (IsWithin v) (cleared api b)
  unfolding cleared
  Keeps-cleared false = Keeps-stop _
  Keeps-cleared true =
      Keeps-modify _ (λ o cs h. record { same = h.same; calls_allowed = h.calls_allowed })
      and_then λ t. Keeps-try_update_status and_then λ t. Keeps-stop _

  Keeps-parsed_filter : (r : Reply VmAdoptionFilter) → Keeps (IsWithin v) (parsed_filter api r)
  unfolding parsed_filter
  Keeps-parsed_filter (ok f) = Keeps-pure _
  Keeps-parsed_filter (fault e) = Keeps-report _ _

  Keeps-filter_of : (text : String) → Keeps (IsWithin v) (filter_of api text)
  unfolding filter_of
  Keeps-filter_of text =
      Keeps-if (text =t "") _ _ (Keeps-pure _)
        (Keeps-parsed_filter (parse_filter_annotation api text))

  Keeps-wait_since : (o : Option ℕ) → Keeps (IsWithin v) (wait_since api o)
  unfolding wait_since
  Keeps-wait_since none = Keeps-pure _
  Keeps-wait_since (some t) =
      Keeps-ask _ and_then λ now. Keeps-if _ _ _ (Keeps-stop _) (Keeps-pure _)

  Keeps-adopt_all :
      {E : Type 0} (p : Provider) (vms : List VmInfo) (c : Counts)
      → IsWanted v
      → IsSame v p
      → Keeps {E = E} (IsWithin v) (adopt_all api p vms c)
  unfolding adopt_all
  Keeps-adopt_all p [] c wanted same = Keeps-pure _
  Keeps-adopt_all p (info ∷ rest) c wanted same =
      Keeps-settle _ (Keeps-adopt_vm api wanted p info same) and_then λ r.
      Keeps-adopt_all p rest _ wanted same

  Keeps-adopt_discovered :
      (vms : List VmInfo) → IsWanted v → Keeps (IsWithin v) (adopt_discovered api vms)
  unfolding adopt_discovered
  Keeps-adopt_discovered vms wanted = Keeps-ask _ and_then λ now.
      Yields-the_object and_knowing λ p h. Keeps-wait_since _ and_then λ t.
      Keeps-put_adoption (λ a. record a {
        last_discovery_time = some now;
        discovered_vms = to_int32 (pos (length vms));
      })
      and_then λ t. Keeps-adopt_all p vms _ wanted h.1.same and_then λ c.
          Keeps-put_adoption (with_counts c) and_then λ t.
          Keeps-on_error _ _ Keeps-update_status (λ e. Keeps-stop _) and_then λ u. Keeps-stop _

  Yields-ready :
      (b : Bool) (message : String) (delay : ℕ)
      → Yields (IsWithin v) (λ _. b ≡ true) (if b then pure tt else report api message delay)
  unfolding report
  Yields-ready true message delay = Yields-pure tt refl
  Yields-ready false message delay =
      Yields-bind (Yields-any (Keeps-put_adoption (λ a. record a { message = message })))
        λ t u. Yields-bind (Yields-any Keeps-try_update_status) λ t u. Yields-stop _

  Keeps-adopt : (adoption_annotation v =t "true") ≡ true → Keeps (IsWithin v) (adopt api)
  unfolding adopt is_provider_ready
  Keeps-adopt asked = Keeps-put_adoption (λ a. a) and_then λ t. Yields-the_object and_knowing λ p h.
      Yields-ready (is_provider_ready p) _ _ and_knowing λ t ready. Keeps-filter_of _ and_then λ f.
      Keeps-on_error _ _ (Keeps-discover_unmanaged_vms api p f) (λ e. Keeps-report _ _)
      and_then λ vms.
          Keeps-adopt_discovered vms (asked, sym (ap is_provider_ready h.1.same) ∙ ready)

  Keeps-asked :
      (b : Bool)
      → (adoption_annotation v =t "true") ≡ b
      → (there : Bool) → Keeps (IsWithin v) (if b then adopt api else cleared api there)
  Keeps-asked true e there = Keeps-adopt e
  Keeps-asked false e there = Keeps-cleared there

  Keeps-reconcile_object : Keeps (IsWithin v) (reconcile_object api)
  unfolding reconcile_object adoption_annotation
  Keeps-reconcile_object = Yields-the_object and_knowing λ p h.
      Keeps-asked (adoption_annotation p =t "true")
        (sym (ap (λ q. adoption_annotation q =t "true") h.1.same)) _

-- Whatever the world answers, a pass over a provider changes nothing of it but the state of its adoption,
-- and creates objects and writes their statuses only where the provider asks for adoption and is
-- available: classes and virtual machines in its namespace with the label of adopted objects, each
-- machine of this provider, and with an imported disk that has the identifier of its status.
pub reconcile_object-IsWithin :
    {W : Type 0} (api : Api W) (v : Provider) (w : W)
    → let s = (reconcile_object api (record { object = v; world = w; calls = [] })).1 in
      IsWithin v s.object s.calls
reconcile_object-IsWithin api v w =
    (Keeps-reconcile_object api).at (record { object = v; world = w; calls = [] })
      (record { same = refl; calls_allowed = tt })

-- A machine counts once, as adopted or as failed.
count_one-total :
    (r : Reply Unit) (c : Counts)
    → (count_one r c).adopted + (count_one r c).failed ≡ suc (c.adopted + c.failed)
unfolding count_one
count_one-total (ok u) c = omega arith
count_one-total (fault e) c = omega arith

-- No early end.
abbrev pub Never : {E : Type 0} → E → Type 0
Never e = true ≡ false

module _ {W : Type 0} (api : Api W) where
  Results-adopt_all :
      {E : Type 0} (p : Provider) (vms : List VmInfo) (c : Counts)
      → Results {E = E} Never
          (λ c'. c'.adopted + c'.failed ≡ c.adopted + c.failed + length vms)
          (adopt_all api p vms c)
  unfolding adopt_all
  Results-adopt_all p [] c = Results-pure _ (omega arith)
  Results-adopt_all p (info ∷ rest) c = Results-bind (Results-settle _) λ r u.
      Results-weaken (Results-adopt_all p rest (count_one r c))
        λ c' e. omega (arith, e, count_one-total r c)

  -- Whatever the world answers, an error of one machine does not end the loop of the adoptions: every
  -- machine of the list counts once, as adopted or as failed.
  pub adopt_all-total :
      (p : Provider) (vms : List VmInfo) (s : State Provider Call W)
      → Is {E = Outcome} Never
          (λ c. c.adopted + c.failed ≡ length vms)
          (adopt_all api p vms (record { adopted = 0; failed = 0 }) s).0
  adopt_all-total p vms =
      (Results-weaken (Results-adopt_all p vms (record { adopted = 0; failed = 0 }))
        λ c e. omega (arith, e)).at
