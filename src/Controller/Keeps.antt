-- ===== src/Controller/Keeps.antt =====
-- Invariants of reconciler code over the object in memory and the calls made, one rule for each way
-- to build such code. What the world answers is left open.
use projectbeskar_virtrigaud.Common.{Bool, true, false, if◌then◌else◌, List, [], ◌∷◌, ◌++◌}
use projectbeskar_virtrigaud.Controller.{
  Fault, Reply, ok, fault, Flow, ended, next, State, Proc, ◌>>=◌, pure, stop, the_object, modify,
  ask, note, query, perform, perform_object, ◌on_error◌, settle, returned, continue, handle,
  as_reply,
}

-- Whether `m` ends early or goes on, it keeps `J`.
pub record Keeps {O C W E A : Type 0} (J : O → List C → Type 0) (m : Proc O C W E A) : Type 0 where
  pub at : (s : State O C W) → J s.object s.calls → J (m s).1.object (m s).1.calls

module _ {O C W : Type 0} (J : O → List C → Type 0) where
  kept_returned :
      {A : Type 0} (r : Reply A) (s : State O C W)
      → J s.object s.calls
      → J (returned r s).1.object (returned r s).1.calls
  kept_returned (ok a) s h = h
  kept_returned (fault e) s h = h

  kept_as_reply :
      (E : Type 0) {A : Type 0} (r : Flow Fault A) (s : State O C W)
      → J s.object s.calls
      → J (as_reply {E = E} r s).1.object (as_reply {E = E} r s).1.calls
  kept_as_reply E (ended e) s h = h
  kept_as_reply E (next a) s h = h

module _ {O C W : Type 0} {J : O → List C → Type 0} where
  pub Keeps-pure : {E A : Type 0} (a : A) → Keeps {W = W} {E = E} J (pure a)
  unfolding pure
  Keeps-pure a = record { at = λ s h. h }

  pub Keeps-stop : {E A : Type 0} (e : E) → Keeps {W = W} {A = A} J (stop e)
  unfolding stop
  Keeps-stop e = record { at = λ s h. h }

  pub Keeps-the_object : {E : Type 0} → Keeps {W = W} {E = E} J the_object
  unfolding the_object
  Keeps-the_object = record { at = λ s h. h }

  pub Keeps-ask : {E A : Type 0} (op : W → A × W) → Keeps {E = E} J (ask op)
  unfolding ask
  Keeps-ask op = record { at = λ s h. h }

  pub Keeps-modify :
      {E : Type 0} (f : O → O)
      → ((o : O) (cs : List C) → J o cs → J (f o) cs)
      → Keeps {W = W} {E = E} J (modify f)
  unfolding modify
  Keeps-modify f k = record { at = λ s h. k s.object s.calls h }

  pub Keeps-note :
      {E : Type 0} (c : C)
      → ((o : O) (cs : List C) → J o cs → J o (cs ++ c ∷ []))
      → Keeps {W = W} {E = E} J (note c)
  unfolding note
  Keeps-note c k = record { at = λ s h. k s.object s.calls h }

  pub Keeps-query : {A : Type 0} (op : W → Reply A × W) → Keeps J (query op)
  unfolding query
  Keeps-query op = record {
    at = λ s h. let (r, w) = op s.world in kept_returned J r (record s { world = w }) h;
  }

  pub Keeps-perform :
      {A : Type 0} (c : C) (op : W → Reply A × W)
      → ((o : O) (cs : List C) → J o cs → J o (cs ++ c ∷ []))
      → Keeps J (perform c op)
  unfolding perform
  Keeps-perform c op k = record {
    at = λ s h.
        let (r, w) = op s.world in
        kept_returned J r (record s { world = w; calls = s.calls ++ c ∷ [] })
          (k s.object s.calls h);
  }

  pub Keeps-perform_object :
      {A : Type 0} (c : O → C) (op : O → W → Reply A × W)
      → ((o : O) (cs : List C) → J o cs → J o (cs ++ c o ∷ []))
      → Keeps J (perform_object c op)
  unfolding perform_object
  Keeps-perform_object c op k = record {
    at = λ s h.
        let (r, w) = op s.object s.world in
        kept_returned J r (record s { world = w; calls = s.calls ++ c s.object ∷ [] })
          (k s.object s.calls h);
  }

  pub Keeps-if :
      {E A : Type 0} (b : Bool) (m n : Proc O C W E A)
      → Keeps J m
      → Keeps J n
      → Keeps J (if b then m else n)
  Keeps-if true m n km kn = km
  Keeps-if false m n km kn = kn

  kept_continue :
      {E A B : Type 0} (r : Flow E A) (f : A → Proc O C W E B) (s : State O C W)
      → ((a : A) → Keeps J (f a))
      → J s.object s.calls
      → J (continue r f s).1.object (continue r f s).1.calls
  kept_continue (ended e) f s kf h = h
  kept_continue (next a) f s kf h = (kf a).at s h

  pub Keeps-bind :
      {E A B : Type 0} (m : Proc O C W E A) (f : A → Proc O C W E B)
      → Keeps J m
      → ((a : A) → Keeps J (f a))
      → Keeps J (m >>= f)
  unfolding ◌>>=◌
  Keeps-bind m f km kf = record {
    at = λ s h. let (r, s') = m s in kept_continue r f s' kf (km.at s h);
  }

  infixr 4 ◌and_then◌
  pub ◌and_then◌ :
      {E A B : Type 0} {m : Proc O C W E A} {f : A → Proc O C W E B}
      → Keeps J m
      → ((a : A) → Keeps J (f a))
      → Keeps J (m >>= f)
  km and_then kf = Keeps-bind _ _ km kf

  kept_handle :
      {E A : Type 0} (r : Flow Fault A) (f : Fault → Proc O C W E A) (s : State O C W)
      → ((e : Fault) → Keeps J (f e))
      → J s.object s.calls
      → J (handle r f s).1.object (handle r f s).1.calls
  kept_handle (ended e) f s kf h = (kf e).at s h
  kept_handle (next a) f s kf h = h

  pub Keeps-on_error :
      {E A : Type 0} (m : Proc O C W Fault A) (f : Fault → Proc O C W E A)
      → Keeps J m
      → ((e : Fault) → Keeps J (f e))
      → Keeps J (m on_error f)
  unfolding ◌on_error◌
  Keeps-on_error m f km kf = record {
    at = λ s h. let (r, s') = m s in kept_handle r f s' kf (km.at s h);
  }

  pub Keeps-settle :
      {E A : Type 0} (m : Proc O C W Fault A) → Keeps J m → Keeps {E = E} J (settle m)
  unfolding settle
  Keeps-settle {E} m km = record {
    at = λ s h. let (r, s') = m s in kept_as_reply J E r s' (km.at s h);
  }

pub ruleset keeps_rules = (
  Keeps-pure, Keeps-stop, Keeps-the_object, Keeps-ask, Keeps-query, Keeps-if, Keeps-bind,
  Keeps-on_error, Keeps-settle,
)
