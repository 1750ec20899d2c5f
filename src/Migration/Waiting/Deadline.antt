-- ===== src/Migration/Waiting/Deadline.antt =====
-- internal/controller/vmmigration_controller.go: the fuel of the loops that wait for the providers.
use projectbeskar_virtrigaud.Common.{
  ℕ, zero, suc, ◌+◌, ◌*◌, ◌≤◌, ◌<◌, String, Bool, true, false, if◌then◌else◌, ◌≡◌, ◌∙◌, sym, refl,
  arith,
}
use projectbeskar_virtrigaud.Controller.{Fault, Proc, Flow, State, ended, next, ◌>>=◌, ◌>>◌}
use projectbeskar_virtrigaud.Migration.Types.{Migration}
use projectbeskar_virtrigaud.Migration.Cluster.{Api, Call}
use projectbeskar_virtrigaud.Migration.Store.{Run}
use projectbeskar_virtrigaud.Migration.Waiting.{
  poll_loop, check_time, give_up_if, sleep, poll_interval, wait_fuel, wait_timeout,
}

module _ {O C W E A B : Type 0} (f g : A → Proc O C W E B) where
  continue_cong :
      (r : Flow E A) (s : State O C W)
      → ((a : A) → r ≡ next a → f a s ≡ g a s)
      → ((λ t. (r, t)) >>= f) s ≡ ((λ t. (r, t)) >>= g) s
  unfolding ◌>>=◌
  continue_cong (ended e) s k = refl
  continue_cong (next a) s k = k a refl

  bind_cong :
      (m : Proc O C W E A) (s : State O C W)
      → ((a : A) → (m s).0 ≡ next a → f a (m s).1 ≡ g a (m s).1)
      → (m >>= f) s ≡ (m >>= g) s
  unfolding ◌>>=◌
  bind_cong m s k = continue_cong (m s).0 (m s).1 k

if_cong :
    {O C W E B : Type 0} (b : Bool) (m f g : Proc O C W E B) (s : State O C W)
    → (b ≡ false → f s ≡ g s)
    → (if b then m else f) s ≡ (if b then m else g) s
if_cong true m f g s k = refl
if_cong false m f g s k = k refl

-- The clock of the world: it is what `time.Now` reads, it never goes back, and a sleep takes at least
-- as long as it says.
pub record Ticks {W : Type 0} (api : Api W) (clock : W → ℕ) : Type 0 where
  pub reads : (w : W) → (api.now w).0 ≡ clock w
  pub after_now : (w : W) → clock w ≤ clock (api.now w).1
  pub after_ctx_err : (w : W) → clock w ≤ clock (api.ctx_err w).1
  pub after_sleep : (d : ℕ) (w : W) → clock w + d ≤ clock (api.sleep d w)

module _ {W : Type 0} (api : Api W) (clock : W → ℕ) (ticks : Ticks api clock) (deadline : ℕ)
    (message : String) (grace : Run W Fault (Unit {0})) (poll : Run W Fault Bool)
    (forward : (s : State Migration Call W) → clock s.world ≤ clock (poll s).1.world) where
  -- The head of a round: a round goes on only before the deadline.
  checked :
      (s : State Migration Call W)
      → (clock s.world ≤ clock (check_time api deadline message s).1.world)
        × (((check_time api deadline message s).0 ≡ next tt) → clock s.world ≤ deadline)
  unfolding check_time give_up_if ◌>>=◌
  checked s =
      let (e, w) = api.ctx_err s.world in
      ground (
        arith,
        ticks.after_ctx_err s.world,
        ticks.reads (api.ctx_err s.world).1,
        ticks.after_now (api.ctx_err s.world).1,
      )

  slept :
      (m : Run W Fault (Unit {0})) (s : State Migration Call W)
      → (sleep api poll_interval >> m) s ≡ m (record s { world = api.sleep poll_interval s.world })
  unfolding sleep ◌>>=◌
  slept m s = refl

  more_fuel :
      (n k : ℕ) (s : State Migration Call W)
      → n ≤ k
      → deadline < clock s.world + n * poll_interval
      → poll_loop api (suc n) deadline message grace poll s
        ≡ poll_loop api (suc k) deadline message grace poll s
  unfolding poll_loop
  more_fuel zero k s le h = bind_cong _ _ _ s λ u e. absurd (omega (arith, h, (checked s).1 e))
  more_fuel (suc n) zero s le h = absurd (omega (arith, le))
  more_fuel (suc n) (suc k) s le h = bind_cong _ _ _ s λ u e.
      let s1 = (check_time api deadline message s).1 in
      bind_cong _ _ _ s1 λ ready e'. if_cong ready _ _ _ (poll s1).1 λ r.
        let s2 = (poll s1).1 in
        let again =
          more_fuel n k (record s2 { world = api.sleep poll_interval s2.world }) (omega (arith, le))
            (omega
              (arith, h, (checked s).0, forward s1, ticks.after_sleep poll_interval s2.world)) in
        slept _ s2 ∙ again ∙ sym (slept _ s2)

-- The fuel of 62 rounds is enough for the timeout of 5 minutes: with any more the loop, started when
-- the deadline is 5 minutes away, gives the same result in the same world. The clock goes on by at
-- least the time of each sleep, and neither a reading of it, nor a look at the context, nor a poll
-- turns it back.
pub poll_loop_fuel :
    {W : Type 0} (api : Api W) (clock : W → ℕ) (ticks : Ticks api clock) (message : String)
    (grace : Run W Fault (Unit {0})) (poll : Run W Fault Bool)
    (forward : (s : State Migration Call W) → clock s.world ≤ clock (poll s).1.world) (fuel : ℕ)
    (s : State Migration Call W)
    → wait_fuel ≤ suc fuel
    → poll_loop api wait_fuel (clock s.world + wait_timeout) message grace poll s
      ≡ poll_loop api (suc fuel) (clock s.world + wait_timeout) message grace poll s
poll_loop_fuel api clock ticks message grace poll forward fuel s le =
    more_fuel api clock ticks (clock s.world + wait_timeout) message grace poll forward 61 fuel s
      (omega arith) (omega arith)
