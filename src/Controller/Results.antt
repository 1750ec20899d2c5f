-- ===== src/Controller/Results.antt =====
-- What code of a reconciler or of a client ends with: a property of the early ends, and one of the
-- values that it goes on with. Nothing is said of the state.
use projectbeskar_virtrigaud.Common.{Bool, true, false, if◌then◌else◌, ◌≡◌, arith}
use projectbeskar_virtrigaud.Controller.{
  Fault, Flow, ended, next, State, Proc, ◌>>=◌, pure, stop, ask, note, ◌on_error◌, continue, handle,
  settle, as_reply,
}

abbrev pub Is : {E A : Type 0} → (E → Type 0) → (A → Type 0) → Flow E A → Type 0
Is R P (ended e) = R e
Is R P (next a) = P a

pub record Results {O C W E A : Type 0} (R : E → Type 0) (P : A → Type 0) (m : Proc O C W E A)
    : Type 0 where
  pub at : (s : State O C W) → Is R P (m s).0

anything : {E A : Type 0} (r : Flow E A) → Is (λ _. Unit) (λ _. Unit) r
anything (ended e) = tt
anything (next a) = tt

weaker :
    {E A : Type 0} (R : E → Type 0) {P Q : A → Type 0} (r : Flow E A)
    → Is R P r
    → ((a : A) → P a → Q a)
    → Is R Q r
weaker R (ended e) h k = h
weaker R (next a) h k = k a h

forgotten :
    {E A : Type 0} (R : E → Type 0) (P : A → Type 0) (r : Flow E A) → Is R P r → Is (λ _. Unit) P r
forgotten R P (ended e) h = tt
forgotten R P (next a) h = h

module _ {O C W : Type 0} where
  settled :
      {E A : Type 0} (R : E → Type 0) (r : Flow Fault A) (s : State O C W)
      → Is R (λ _. Unit) (as_reply r s).0
  settled R (ended e) s = tt
  settled R (next a) s = tt

  pub Results-any : {E A : Type 0} (m : Proc O C W E A) → Results (λ _. Unit) (λ _. Unit) m
  Results-any m = record { at = λ s. anything (m s).0 }

  module _ {E : Type 0} {R : E → Type 0} where
    pub Results-pure :
        {A : Type 0} {P : A → Type 0} (a : A) → P a → Results {O = O} {C = C} {W = W} R P (pure a)
    unfolding pure
    Results-pure a p = record { at = λ s. p }

    pub Results-stop :
        {A : Type 0} {P : A → Type 0} (e : E)
        → R e
        → Results {O = O} {C = C} {W = W} {A = A} R P (stop e)
    unfolding stop
    Results-stop e r = record { at = λ s. r }

    pub Results-note : (c : C) → Results {O = O} {C = C} {W = W} R (λ _. Unit) (note c)
    unfolding note
    Results-note c = record { at = λ s. tt }

    pub Results-ask :
        {A : Type 0} {P : A → Type 0} (op : W → A × W)
        → ((w : W) → P (op w).0)
        → Results {O = O} {C = C} R P (ask op)
    unfolding ask
    Results-ask op k = record { at = λ s. k s.world }

    pub Results-weaken :
        {A : Type 0} {P Q : A → Type 0} {m : Proc O C W E A}
        → Results R P m
        → ((a : A) → P a → Q a)
        → Results R Q m
    Results-weaken {m = m} h k = record { at = λ s. weaker R (m s).0 (h.at s) k }

    -- Of the errors nothing is said any more.
    pub Results-forget :
        {A : Type 0} {P : A → Type 0} {m : Proc O C W E A} → Results R P m → Results (λ _. Unit) P m
    Results-forget {P = P} {m = m} h = record { at = λ s. forgotten R P (m s).0 (h.at s) }

    pub Results-else :
        {A : Type 0} {P : A → Type 0} (b : Bool) (m n : Proc O C W E A)
        → b ≡ false
        → Results R P n
        → Results R P (if b then m else n)
    Results-else true m n e k = ground (arith, e)
    Results-else false m n e k = k

    pub Results-if :
        {A : Type 0} {P : A → Type 0} (b : Bool) (m n : Proc O C W E A)
        → Results R P m
        → Results R P n
        → Results R P (if b then m else n)
    Results-if true m n km kn = km
    Results-if false m n km kn = kn

    continued :
        {A B : Type 0} {P : A → Type 0} {Q : B → Type 0} {f : A → Proc O C W E B} (r : Flow E A)
        (s : State O C W)
        → Is R P r
        → ((a : A) → P a → Results R Q (f a))
        → Is R Q (continue r f s).0
    continued (ended e) s p k = p
    continued (next a) s p k = (k a p).at s

    pub Results-bind :
        {A B : Type 0} {P : A → Type 0} {Q : B → Type 0} {m : Proc O C W E A}
        {f : A → Proc O C W E B}
        → Results R P m
        → ((a : A) → P a → Results R Q (f a))
        → Results R Q (m >>= f)
    unfolding ◌>>=◌
    Results-bind {m = m} h k = record { at = λ s. continued (m s).0 (m s).1 (h.at s) k }

    -- Whatever the code ends with is a value.
    pub Results-settle : {A : Type 0} (m : Proc O C W Fault A) → Results R (λ _. Unit) (settle m)
    unfolding settle
    Results-settle m = record { at = λ s. settled R (m s).0 (m s).1 }

    handled :
        {A : Type 0} {P : A → Type 0} {f : Fault → Proc O C W E A} (r : Flow Fault A)
        (s : State O C W)
        → Is (λ _. Unit) P r
        → ((e : Fault) → Results R P (f e))
        → Is R P (handle r f s).0
    handled (ended e) s p k = (k e).at s
    handled (next a) s p k = p

    pub Results-on_error :
        {A : Type 0} {P : A → Type 0} {m : Proc O C W Fault A} {f : Fault → Proc O C W E A}
        → Results (λ _. Unit) P m
        → ((e : Fault) → Results R P (f e))
        → Results R P (m on_error f)
    unfolding ◌on_error◌
    Results-on_error {m = m} h k = record { at = λ s. handled (m s).0 (m s).1 (h.at s) k }
