-- ===== src/Resilience/Breaker.antt =====
-- internal/resilience/circuitbreaker.go: one breaker. A method that mutates `*CircuitBreaker`
-- returns the new record. Times and durations are nanoseconds; the clock is read by the caller.
pub mod Events
pub mod Probing
pub mod Recovery
mod Tests
use projectbeskar_virtrigaud.Common.{
  ℕ, ◌+◌, String, ◌<>◌, Bool, true, false, ltb, leb, if◌then◌else◌, Option, none, some,
}
use projectbeskar_virtrigaud.Errors.{ErrorValue, is_nil, nil, new_unavailable_error}

pub data State : Type 0 where
  closed half_open opened : State

pub state_text : State → String
state_text closed = "closed"
state_text half_open = "half-open"
state_text opened = "open"

pub record Config : Type 0 where
  pub failure_threshold : ℕ
  pub reset_timeout : ℕ
  pub half_open_max_calls : ℕ

pub default_config : Config
default_config = record {
  failure_threshold = 10;
  reset_timeout = 60000000000;
  half_open_max_calls = 3;
}

-- `gauge` and `failure_count` are what the breaker last wrote to its metrics.
pub record Breaker : Type 0 where
  pub name : String
  pub config : Config
  pub state : State
  pub failures : ℕ
  pub last_failure_time : ℕ
  pub half_open_calls : ℕ
  pub gauge : State
  pub failure_count : ℕ

pub or_default : Option Config → Config
unfolding default_config
or_default none = default_config
or_default (some c) = c

-- A nil configuration is the default one. The provider and its type only label the metrics.
pub new_circuit_breaker : String → Option Config → Breaker
unfolding or_default
new_circuit_breaker name config = record {
  name = name;
  config = or_default config;
  state = closed;
  failures = 0;
  last_failure_time = 0;
  half_open_calls = 0;
  gauge = closed;
  failure_count = 0;
}

unfoldable pub transition_to_closed : Breaker → Breaker
transition_to_closed cb = record cb {
  state = closed;
  failures = 0;
  half_open_calls = 0;
  gauge = closed;
}

pub transition_to_open : Breaker → Breaker
transition_to_open cb = record cb { state = opened; half_open_calls = 0; gauge = opened }

pub transition_to_half_open : Breaker → Breaker
transition_to_half_open cb = record cb { state = half_open; half_open_calls = 0; gauge = half_open }

allow_in : State → ℕ → Breaker → Breaker × Bool
unfolding transition_to_half_open
allow_in closed now cb = (cb, true)
allow_in opened now cb =
    if ltb (cb.last_failure_time + cb.config.reset_timeout) now
    then (transition_to_half_open cb, true)
    else (cb, false)
allow_in half_open now cb =
    if ltb cb.half_open_calls cb.config.half_open_max_calls
    then (record cb { half_open_calls = cb.half_open_calls + 1 }, true)
    else (cb, false)

-- `allowCall`, with the time that `time.Since` reads.
pub allow_call : ℕ → Breaker → Breaker × Bool
unfolding allow_in
allow_call now cb = allow_in cb.state now cb

fail_in : State → Breaker → Breaker
unfolding transition_to_open
fail_in closed cb =
    if leb cb.config.failure_threshold cb.failures then transition_to_open cb else cb
fail_in half_open cb = transition_to_open cb
fail_in opened cb = cb

pub record_failure : ℕ → Breaker → Breaker
unfolding fail_in
record_failure now cb =
    let cb' = record cb {
      failures = cb.failures + 1;
      last_failure_time = now;
      failure_count = cb.failure_count + 1;
    } in
    fail_in cb.state cb'

succeed_in : State → Breaker → Breaker
unfolding transition_to_closed
succeed_in half_open cb =
    if leb cb.config.half_open_max_calls cb.half_open_calls then transition_to_closed cb else cb
succeed_in closed cb = record cb { failures = 0 }
succeed_in opened cb = cb

pub record_success : Breaker → Breaker
unfolding succeed_in
record_success cb = succeed_in cb.state cb

pub record_result : ℕ → ErrorValue → Breaker → Breaker
unfolding record_failure record_success
record_result now err cb = if is_nil err then record_success cb else record_failure now cb

-- `Reset`.
unfoldable pub reset : Breaker → Breaker
unfolding transition_to_closed
reset cb = transition_to_closed cb

pub get_state : Breaker → State
get_state cb = cb.state

pub get_failures : Breaker → ℕ
get_failures cb = cb.failures

rejection : Breaker → ErrorValue
unfolding new_unavailable_error
rejection cb = new_unavailable_error ("circuit breaker " <> (cb.name <> " is open")) nil

-- `Call`, where no other goroutine uses the breaker while `fn` runs. The world `W` is what `fn`
-- acts on, and `clock` reads its time.
module _ {W : Type 0} (clock : W → ℕ) (fn : W → ErrorValue × W) where
  finish_call : Breaker → ErrorValue × W → ErrorValue × Breaker × W
  unfolding record_result
  finish_call cb (err, w) = (err, record_result (clock w) err cb, w)

  pub call : Breaker → W → ErrorValue × Breaker × W
  unfolding allow_call finish_call rejection
  call cb w =
      let (cb', allowed) = allow_call (clock w) cb in
      if allowed then finish_call cb' (fn w) else (rejection cb', cb', w)
