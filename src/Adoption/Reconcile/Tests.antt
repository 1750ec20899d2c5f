-- ===== src/Adoption/Reconcile/Tests.antt =====
-- A pass over a provider with one machine to adopt.
use projectbeskar_virtrigaud.Common.{[], ◌∷◌, ◌+◌, ◌≡◌}
use projectbeskar_virtrigaud.Controller.{Outcome, State}
use projectbeskar_virtrigaud.Controller.Results.{Is}
use projectbeskar_virtrigaud.Adoption.Types.{Provider, Call}
use projectbeskar_virtrigaud.Adoption.Reconcile.{adopt_all, reconcile_object}
use projectbeskar_virtrigaud.Adoption.Reconcile.Rules.{
  Never, reconcile_object-IsWithin, adopt_all-total,
}
use projectbeskar_virtrigaud.Adoption.Allowed.{IsWithin}
use projectbeskar_virtrigaud.Adoption.Sample.{api, provider, web, database}

abbrev start : State Provider Call Unit
start = record { object = provider; world = tt; calls = [] }

reconcile_object-IsWithin_example :
    let s = (reconcile_object api start).1 in IsWithin provider s.object s.calls
reconcile_object-IsWithin_example = reconcile_object-IsWithin api provider tt

adopt_all-total_example :
    Is {E = Outcome} Never
      (λ c. c.adopted + c.failed ≡ 2)
      (adopt_all api provider (web ∷ database ∷ []) (record { adopted = 0; failed = 0 }) start).0
adopt_all-total_example = adopt_all-total api provider (web ∷ database ∷ []) start
