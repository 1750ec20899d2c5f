-- ===== src/Controller/Yields.antt =====
-- Invariants of reconciler code that also say what a step hands to the next one.
use projectbeskar_virtrigaud.Common.{Bool, true, false, if◌then◌else◌, List, ◌≡◌, refl}
use projectbeskar_virtrigaud.Controller.{
  Fault, Reply, ok, fault, Flow, ended, next, State, Proc, ◌>>=◌, pure, stop, the_object, query,
  settle, ◌on_error◌, continue, handle, returned, as_reply,
}
use projectbeskar_virtrigaud.Controller.Keeps.{Keeps, Keeps-query, Keeps-settle, Keeps-on_error}

-- The world gave this answer at some time.
abbrev pub Answered : {W A : Type 0} → (W → Reply A × W) → A → Type 0
Answered {W = W} op a = (w : W) × ((op w).0 ≡ ok a)

abbrev pub IsOk : {A : Type 0} → (A → Type 0) → Reply A → Type 0
IsOk P (ok a) = P a
IsOk P (fault e) = Unit

abbrev pub Gives : {E A : Type 0} → (A → Type 0) → Flow E A → Type 0
Gives P (ended e) = Unit
Gives P (next a) = P a

-- `m` keeps `J`, and where it goes on it does so with a value that has `P`.
pub record Yields {O C W E A : Type 0} (J : O → List C → Type 0) (P : A → Type 0)
    (m : Proc O C W E A) : Type 0 where
  pub keeps : Keeps J m
  pub gives : (s : State O C W) → J s.object s.calls → Gives P (m s).0

given :
    {O C W A : Type 0} (r : Reply A) (s : State O C W) (P : A → Type 0)
    → ((a : A) → r ≡ ok a → P a)
    → Gives P (returned r s).0
given (ok a) s P k = k a refl
given (fault e) s P k = tt

settled :
    {O C W A : Type 0} (E : Type 0) (P : A → Type 0) (r : Flow Fault A) (s : State O C W)
    → Gives P r
    → Gives (IsOk P) (as_reply {E = E} r s).0
settled E P (ended e) s p = tt
settled E P (next a) s p = p

anything : {E A : Type 0} (r : Flow E A) → Gives (λ _. Unit) r
anything (ended e) = tt
anything (next a) = tt

module _ {O C W : Type 0} {J : O → List C → Type 0} where
  pub Yields-pure :
      {E A : Type 0} {P : A → Type 0} (a : A) → P a → Yields {W = W} {E = E} J P (pure a)
  unfolding pure
  Yields-pure a p = record { keeps = record { at = λ s h. h }; gives = λ s h. p }

  pub Yields-stop : {E A : Type 0} {P : A → Type 0} (e : E) → Yields {W = W} J P (stop e)
  unfolding stop
  Yields-stop e = record { keeps = record { at = λ s h. h }; gives = λ s h. tt }

  -- What is read has the invariant.
  pub Yields-the_object :
      {E : Type 0} → Yields {W = W} {E = E} J (λ o. (cs : List C) × J o cs) the_object
  unfolding the_object
  Yields-the_object = record { keeps = record { at = λ s h. h }; gives = λ s h. (s.calls, h) }

  -- Nothing is known of the value.
  pub Yields-any : {E A : Type 0} {m : Proc O C W E A} → Keeps J m → Yields J (λ _. Unit) m
  Yields-any {E} {A} {m} k = record { keeps = k; gives = λ s h. anything (m s).0 }

  continued :
      {E A B : Type 0} {P : A → Type 0} {f : A → Proc O C W E B} (r : Flow E A) (s : State O C W)
      → Gives P r
      → ((a : A) → P a → Keeps J (f a))
      → J s.object s.calls
      → J (continue r f s).1.object (continue r f s).1.calls
  continued (ended e) s p k h = h
  continued (next a) s p k h = (k a p).at s h

  -- A step whose successor relies on its value.
  infixr 4 ◌and_knowing◌
  pub ◌and_knowing◌ :
      {E A B : Type 0} {P : A → Type 0} {m : Proc O C W E A} {f : A → Proc O C W E B}
      → Yields J P m
      → ((a : A) → P a → Keeps J (f a))
      → Keeps J (m >>= f)
  unfolding ◌>>=◌
  ◌and_knowing◌ {m = m} y k = record {
    at = λ s h. continued (m s).0 (m s).1 (y.gives s h) k (y.keeps.at s h);
  }

  Gives-continued :
      {E A B : Type 0} {P : A → Type 0} {Q : B → Type 0} {f : A → Proc O C W E B} (r : Flow E A)
      (s : State O C W)
      → Gives P r
      → ((a : A) → P a → Yields J Q (f a))
      → J s.object s.calls
      → Gives Q (continue r f s).0
  Gives-continued (ended e) s p k h = tt
  Gives-continued (next a) s p k h = (k a p).gives s h

  pub Yields-bind :
      {E A B : Type 0} {P : A → Type 0} {Q : B → Type 0} {m : Proc O C W E A}
      {f : A → Proc O C W E B}
      → Yields J P m
      → ((a : A) → P a → Yields J Q (f a))
      → Yields J Q (m >>= f)
  unfolding ◌>>=◌
  Yields-bind {m = m} y k = record {
    keeps = y and_knowing λ a p. (k a p).keeps;
    gives = λ s h. Gives-continued (m s).0 (m s).1 (y.gives s h) k (y.keeps.at s h);
  }

  handled :
      {E A : Type 0} {P : A → Type 0} {f : Fault → Proc O C W E A} (r : Flow Fault A)
      (s : State O C W)
      → Gives P r
      → ((e : Fault) → Yields J P (f e))
      → J s.object s.calls
      → Gives P (handle r f s).0
  handled (ended e) s p k h = (k e).gives s h
  handled (next a) s p k h = p

  pub Yields-on_error :
      {E A : Type 0} {P : A → Type 0} {m : Proc O C W Fault A} {f : Fault → Proc O C W E A}
      → Yields J P m
      → ((e : Fault) → Yields J P (f e))
      → Yields J P (m on_error f)
  unfolding ◌on_error◌
  Yields-on_error {m = m} y k = record {
    keeps = Keeps-on_error _ _ y.keeps (λ e. (k e).keeps);
    gives = λ s h. handled (m s).0 (m s).1 (y.gives s h) k (y.keeps.at s h);
  }

  -- What is read was answered by the world.
  pub Yields-query : {A : Type 0} (op : W → Reply A × W) → Yields J (Answered op) (query op)
  unfolding query
  Yields-query op = record {
    keeps = Keeps-query op;
    gives = λ s h.
        let (r, w) = op s.world in
        given r (record s { world = w }) (Answered op) (λ a e. (s.world, e));
  }

  pub Yields-settle :
      {E A : Type 0} {P : A → Type 0} {m : Proc O C W Fault A}
      → Yields J P m
      → Yields {E = E} J (IsOk P) (settle m)
  unfolding settle
  Yields-settle {E = E} {P = P} {m = m} y = record {
    keeps = Keeps-settle _ y.keeps;
    gives = λ s h. settled E P (m s).0 (m s).1 (y.gives s h);
  }

  pub Yields-if :
      {E A : Type 0} {P : A → Type 0} (b : Bool) (m n : Proc O C W E A)
      → Yields J P m
      → Yields J P n
      → Yields J P (if b then m else n)
  Yields-if true m n ym yn = ym
  Yields-if false m n ym yn = yn
