-- ===== src/Controller.antt =====
-- How a reconciler of internal/controller runs: it changes one object in memory, and calls the API
-- server and the providers, which are a world that answers each call and moves on.
pub mod Keeps
pub mod Yields
pub mod Results
pub mod Runs
pub mod Leads
use projectbeskar_virtrigaud.Common.{
  ℕ, ◌*◌, String, ◌<>◌, Bool, true, false, List, [], ◌∷◌, ◌++◌, if◌then◌else◌,
}

-- An `error`: its text, and the answers of `errors.IsNotFound` and `errors.IsConflict`.
pub record Fault : Type 0 where
  pub text : String
  pub not_found : Bool
  pub conflict : Bool

-- `fmt.Errorf("…: %w", err)`: what a wrapped error is stays to be seen.
abbrev pub wrap : String → Fault → Fault
wrap prefix e = record e { text = prefix <> e.text }

-- `fmt.Errorf` with nothing wrapped.
abbrev pub plain : String → Fault
plain text = record { text = text; not_found = false; conflict = false }

-- What an operation that may fail returns.
pub data Reply (A : Type 0) : Type 0 where
  ok : A → Reply A
  fault : Fault → Reply A

-- What `Reconcile` returns: `Result{}`, `Result{Requeue: true}`, `Result{RequeueAfter: d}` (d in
-- nanoseconds) or an error; or it panics.
pub data Outcome : Type 0 where
  finished : Outcome
  requeue : Outcome
  requeue_after : ℕ → Outcome
  failed : Fault → Outcome
  panicked : Outcome

abbrev pub seconds : ℕ → ℕ
seconds n = n * 1000000000

pub data Flow (E A : Type 0) : Type 0 where
  ended : E → Flow E A
  next : A → Flow E A

-- The object in memory, the world, and the calls that change something, the latest last.
pub record State (O C W : Type 0) : Type 0 where
  pub object : O
  pub world : W
  pub calls : List C

-- Code that ends early with an `E` or goes on with an `A`.
abbrev pub Proc : Type 0 → Type 0 → Type 0 → Type 0 → Type 0 → Type 0
Proc O C W E A = State O C W → Flow E A × State O C W

module _ {O C W : Type 0} where
  unfoldable pub pure : {E A : Type 0} → A → Proc O C W E A
  pure a s = (next a, s)

  -- An early return.
  unfoldable pub stop : {E A : Type 0} → E → Proc O C W E A
  stop e s = (ended e, s)

  unfoldable pub the_object : {E : Type 0} → Proc O C W E O
  the_object s = (next s.object, s)

  unfoldable pub modify : {E : Type 0} → (O → O) → Proc O C W E (Unit {0})
  modify f s = (next tt, record s { object = f s.object })

  -- A question to the world.
  unfoldable pub ask : {E A : Type 0} → (W → A × W) → Proc O C W E A
  ask op s = let (a, w) = op s.world in (next a, record s { world = w })

  unfoldable pub note : {E : Type 0} → C → Proc O C W E (Unit {0})
  note c s = (next tt, record s { calls = s.calls ++ c ∷ [] })

  abbrev returned : {A : Type 0} → Reply A → State O C W → Flow Fault A × State O C W
  returned (ok a) s = (next a, s)
  returned (fault e) s = (ended e, s)

  -- A question that may fail.
  unfoldable pub query : {A : Type 0} → (W → Reply A × W) → Proc O C W Fault A
  query op s = let (r, w) = op s.world in returned r (record s { world = w })

  -- A call that changes something, and may fail.
  unfoldable pub perform : {A : Type 0} → C → (W → Reply A × W) → Proc O C W Fault A
  perform c op s =
      let (r, w) = op s.world in returned r (record s { world = w; calls = s.calls ++ c ∷ [] })

  -- Such a call on the object in memory.
  unfoldable pub perform_object :
      {A : Type 0} → (O → C) → (O → W → Reply A × W) → Proc O C W Fault A
  unfolding perform
  perform_object c op s = perform (c s.object) (op s.object) s

  abbrev handle : {E A : Type 0} → Flow Fault A → (Fault → Proc O C W E A) → Proc O C W E A
  handle (ended e) f s = f e s
  handle (next a) f s = (next a, s)

  -- `if err != nil { … }`.
  infixl 6 ◌on_error◌
  unfoldable pub ◌on_error◌ :
      {E A : Type 0} → Proc O C W Fault A → (Fault → Proc O C W E A) → Proc O C W E A
  ◌on_error◌ m f s = let (r, s') = m s in handle r f s'

  abbrev as_reply : {E A : Type 0} → Flow Fault A → State O C W → Flow E (Reply A) × State O C W
  as_reply (ended e) s = (next (fault e), s)
  as_reply (next a) s = (next (ok a), s)

  -- The result and the error together, for code that uses both.
  unfoldable pub settle : {E A : Type 0} → Proc O C W Fault A → Proc O C W E (Reply A)
  settle m s = let (r, s') = m s in as_reply r s'

  -- Opening this opens all of the above.
  infixl 5 ◌>>=◌ ◌>>◌
  abbrev continue : {E A B : Type 0} → Flow E A → (A → Proc O C W E B) → Proc O C W E B
  continue (ended e) f s = (ended e, s)
  continue (next a) f s = f a s

  unfoldable pub ◌>>=◌ : {E A B : Type 0} → Proc O C W E A → (A → Proc O C W E B) → Proc O C W E B
  unfolding pure stop the_object modify ask note query perform perform_object ◌on_error◌ settle
  ◌>>=◌ m f s = let (r, s') = m s in continue r f s'

  abbrev pub ◌>>◌ : {E B : Type 0} → Proc O C W E (Unit {0}) → Proc O C W E B → Proc O C W E B
  m >> n = m >>= λ _. n

-- A handler of an object that was fetched: what the pass returns, the world behind it and the calls
-- that it made. An object that is gone is nothing to do.
outcome : Flow Outcome (Unit {0}) → Outcome
outcome (ended o) = o
outcome (next a) = finished

pub pass : {O C W : Type 0} → Proc O C W Outcome (Unit {0}) → Reply O × W → Outcome × W × List C
unfolding outcome
pass handler (fault e, w) = (if e.not_found then finished else failed e, w, [])
pass handler (ok o, w) =
    let (r, s) = handler (record { object = o; world = w; calls = [] }) in
    (outcome r, s.world, s.calls)
