-- ===== src/Controller/Leads.antt =====
-- Code that starts under one invariant and ends under a weaker one: what it has from the stronger invariant
-- holds up to some step, and only the weaker one behind it.
use projectbeskar_virtrigaud.Common.{Bool, true, false, if◌then◌else◌, List}
use projectbeskar_virtrigaud.Controller.{Flow, ended, next, State, Proc, ◌>>=◌, continue}
use projectbeskar_virtrigaud.Controller.Keeps.{Keeps}
use projectbeskar_virtrigaud.Controller.Yields.{Yields, Gives}

pub record Leads {O C W E A : Type 0} (J K : O → List C → Type 0) (m : Proc O C W E A)
    : Type 0 where
  pub at : (s : State O C W) → J s.object s.calls → K (m s).1.object (m s).1.calls

module _ {O C W : Type 0} {J K : O → List C → Type 0}
    (weaken : (o : O) (cs : List C) → J o cs → K o cs) where
  pub Leads-before : {E A : Type 0} {m : Proc O C W E A} → Keeps J m → Leads J K m
  Leads-before {m = m} k = record { at = λ s h. weaken (m s).1.object (m s).1.calls (k.at s h) }

  pub Leads-after : {E A : Type 0} {m : Proc O C W E A} → Keeps K m → Leads J K m
  Leads-after k = record { at = λ s h. k.at s (weaken s.object s.calls h) }

  leads_on :
      {E A B : Type 0} {P : A → Type 0} {f : A → Proc O C W E B} (r : Flow E A) (s : State O C W)
      → J s.object s.calls
      → Gives P r
      → ((a : A) → P a → Leads J K (f a))
      → K (continue r f s).1.object (continue r f s).1.calls
  leads_on (ended e) s h p k = weaken s.object s.calls h
  leads_on (next a) s h p k = (k a p).at s h

  pub Leads-bind :
      {E A B : Type 0} {P : A → Type 0} {m : Proc O C W E A} {f : A → Proc O C W E B}
      → Yields J P m
      → ((a : A) → P a → Leads J K (f a))
      → Leads J K (m >>= f)
  unfolding ◌>>=◌
  Leads-bind {m = m} y k = record {
    at = λ s h. leads_on (m s).0 (m s).1 (y.keeps.at s h) (y.gives s h) k;
  }

module _ {O C W : Type 0} {J K : O → List C → Type 0} where
  pub Leads-if :
      {E A : Type 0} (b : Bool) (m n : Proc O C W E A)
      → Leads J K m
      → Leads J K n
      → Leads J K (if b then m else n)
  Leads-if true m n km kn = km
  Leads-if false m n km kn = kn
