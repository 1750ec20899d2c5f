-- ===== src/Controller/Runs.antt =====
-- What code ends with when it starts with the object `o` in memory: a property of its early ends, and one
-- of the object and the value that it goes on with. The world and the calls are left open.
use projectbeskar_virtrigaud.Common.{Bool, true, false, if◌then◌else◌, ◌≡◌, refl, ap, sym, subst}
use projectbeskar_virtrigaud.Controller.{
  Fault, Reply, ok, fault, Flow, ended, next, State, Proc, ◌>>=◌, pure, stop, the_object, modify,
  ask, note, query, ◌on_error◌, returned, continue, handle,
}

abbrev pub Ends :
    {E A O C W : Type 0} → (E → Type 0) → (O → A → Type 0) → Flow E A × State O C W → Type 0
Ends R P (ended e, s) = R e
Ends R P (next a, s) = P s.object a

pub record Runs {O C W E A : Type 0} (R : E → Type 0) (o : O) (P : O → A → Type 0)
    (m : Proc O C W E A) : Type 0 where
  pub at : (s : State O C W) → s.object ≡ o → Ends R P (m s)

weaker :
    {O C W E A : Type 0} (R : E → Type 0) (P Q : O → A → Type 0) (r : Flow E A × State O C W)
    → Ends R P r
    → ((o : O) (a : A) → P o a → Q o a)
    → Ends R Q r
weaker R P Q (ended e, s) h k = h
weaker R P Q (next a, s) h k = k s.object a h

forgotten :
    {O C W E A : Type 0} (R : E → Type 0) (P : O → A → Type 0) (r : Flow E A × State O C W)
    → Ends R P r
    → Ends (λ _. Unit) P r
forgotten R P (ended e, s) h = tt
forgotten R P (next a, s) h = h

returned_same :
    {O C W A : Type 0} (o : O) (r : Reply A) (s : State O C W)
    → s.object ≡ o
    → Ends (λ _. Unit) (λ o' a. o' ≡ o) (returned r s)
returned_same o (ok a) s h = h
returned_same o (fault e) s h = tt

continued :
    {O C W E A B : Type 0} {R : E → Type 0} {P : O → A → Type 0} {Q : O → B → Type 0}
    {f : A → Proc O C W E B} (r : Flow E A × State O C W)
    → Ends R P r
    → ((o' : O) (a : A) → P o' a → Runs R o' Q (f a))
    → Ends R Q (continue r.0 f r.1)
continued (ended e, s) p k = p
continued (next a, s) p k = (k s.object a p).at s refl

handled :
    {O C W E A : Type 0} {R : E → Type 0} {P : O → A → Type 0} {f : Fault → Proc O C W E A}
    (r : Flow Fault A × State O C W)
    → Ends (λ _. Unit) P r
    → ((o' : O) (e : Fault) → Runs R o' P (f e))
    → Ends R P (handle r.0 f r.1)
handled (ended e, s) p k = (k s.object e).at s refl
handled (next a, s) p k = p

anything :
    {O C W E A : Type 0} (r : Flow E A × State O C W) → Ends {A = A} (λ _. Unit) (λ o' a. Unit) r
anything (ended e, s) = tt
anything (next a, s) = tt

both :
    {O C W E A : Type 0} (R : E → Type 0) (P Q : O → A → Type 0) (r : Flow E A × State O C W)
    → Ends R P r
    → Ends R Q r
    → Ends R (λ o a. P o a × Q o a) r
both R P Q (ended e, s) h k = h
both R P Q (next a, s) h k = (h, k)

module _ {O C W E : Type 0} {R : E → Type 0} {o : O} where
  pub Runs-pure :
      {A : Type 0} {P : O → A → Type 0} (a : A) → P o a → Runs {C = C} {W = W} R o P (pure a)
  unfolding pure
  Runs-pure {P = P} a p = record { at = λ s h. subst (λ x. P x a) (sym h) p }

  pub Runs-stop :
      {A : Type 0} {P : O → A → Type 0} (e : E) → R e → Runs {C = C} {W = W} R o P (stop e)
  unfolding stop
  Runs-stop e r = record { at = λ s h. r }

  pub Runs-the_object : Runs {C = C} {W = W} R o (λ o' a. (o' ≡ o) × (a ≡ o)) the_object
  unfolding the_object
  Runs-the_object = record { at = λ s h. (h, h) }

  pub Runs-modify : (f : O → O) → Runs {C = C} {W = W} R o (λ o' _. o' ≡ f o) (modify f)
  unfolding modify
  Runs-modify f = record { at = λ s h. ap f h }

  pub Runs-note : (c : C) → Runs {W = W} R o (λ o' _. o' ≡ o) (note c)
  unfolding note
  Runs-note c = record { at = λ s h. h }

  pub Runs-ask :
      {A : Type 0} {P : A → Type 0} (op : W → A × W)
      → ((w : W) → P (op w).0)
      → Runs {C = C} R o (λ o' a. (o' ≡ o) × P a) (ask op)
  unfolding ask
  Runs-ask op k = record { at = λ s h. (h, k s.world) }

  pub Runs-weaken :
      {A : Type 0} {P Q : O → A → Type 0} {m : Proc O C W E A}
      → Runs R o P m
      → ((o' : O) (a : A) → P o' a → Q o' a)
      → Runs R o Q m
  Runs-weaken {P = P} {Q = Q} {m = m} h k = record { at = λ s e. weaker R P Q (m s) (h.at s e) k }

  -- Of the errors nothing is said any more.
  pub Runs-forget :
      {A : Type 0} {P : O → A → Type 0} {m : Proc O C W E A} → Runs R o P m → Runs (λ _. Unit) o P m
  Runs-forget {P = P} {m = m} h = record { at = λ s e. forgotten R P (m s) (h.at s e) }

  pub Runs-bind :
      {A B : Type 0} {P : O → A → Type 0} {Q : O → B → Type 0} {m : Proc O C W E A}
      {f : A → Proc O C W E B}
      → Runs R o P m
      → ((o' : O) (a : A) → P o' a → Runs R o' Q (f a))
      → Runs R o Q (m >>= f)
  unfolding ◌>>=◌
  Runs-bind {m = m} h k = record { at = λ s e. continued (m s) (h.at s e) k }

  pub Runs-if :
      {A : Type 0} {P : O → A → Type 0} (b : Bool) (m n : Proc O C W E A)
      → (b ≡ true → Runs R o P m)
      → (b ≡ false → Runs R o P n)
      → Runs R o P (if b then m else n)
  Runs-if true m n km kn = km refl
  Runs-if false m n km kn = kn refl

module _ {O C W : Type 0} {o : O} where
  pub Runs-query :
      {A : Type 0} (op : W → Reply A × W) → Runs {C = C} (λ _. Unit) o (λ o' a. o' ≡ o) (query op)
  unfolding query
  Runs-query op = record {
    at = λ s h. let (r, w) = op s.world in returned_same o r (record s { world = w }) h;
  }

  -- Of the handler nothing is asked but that it ends well from any object.
  pub Runs-on_error :
      {E A : Type 0} {R : E → Type 0} {P : O → A → Type 0} {m : Proc O C W Fault A}
      {f : Fault → Proc O C W E A}
      → Runs (λ _. Unit) o P m
      → ((o' : O) (e : Fault) → Runs R o' P (f e))
      → Runs R o P (m on_error f)
  unfolding ◌on_error◌
  Runs-on_error {m = m} h k = record { at = λ s e. handled (m s) (h.at s e) k }

  pub Runs-any : {E A : Type 0} (m : Proc O C W E A) → Runs (λ _. Unit) o (λ o' a. Unit) m
  Runs-any m = record { at = λ s e. anything (m s) }

module _ {O C W E : Type 0} {R : E → Type 0} {o : O} where
  pub Runs-both :
      {A : Type 0} {P Q : O → A → Type 0} {m : Proc O C W E A}
      → Runs R o P m
      → Runs R o Q m
      → Runs R o (λ o' a. P o' a × Q o' a) m
  Runs-both {P = P} {Q = Q} {m = m} h k = record {
    at = λ s e. both R P Q (m s) (h.at s e) (k.at s e);
  }
