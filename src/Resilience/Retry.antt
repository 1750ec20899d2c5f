-- ===== src/Resilience/Retry.antt =====
-- internal/resilience/retry.go: retries with exponential backoff, and policies that join them to a
-- circuit breaker. Floating-point numbers, the random source, the timer and the context are not
-- code of the repository: they are the parameters `Floats` and `Env`.
pub mod Attempts
mod Tests
use projectbeskar_virtrigaud.Common.{
  ℕ, zero, suc, String, Bool, true, false, ◌==◌, if◌then◌else◌, Option, none, some, ℤ, exceeds,
}
use projectbeskar_virtrigaud.Errors.{
  ErrorValue, nil, provider_error, other, is_nil, provider_is_retryable,
}
use projectbeskar_virtrigaud.Resilience.Breaker.{Breaker, call}

-- `float64` with the operations that the code uses. `ratio n d` is the literal n / d, `of_int` and
-- `to_int` convert from and to `int` and `time.Duration`.
pub record Floats : Type 1 where
  pub Float : Type 0
  pub ratio : ℕ → ℕ → Float
  pub of_int : ℕ → Float
  pub to_int : Float → ℤ
  pub add : Float → Float → Float
  pub mul : Float → Float → Float
  pub pow : Float → Float → Float

-- `IsRetryable`: nil, and any error that is no `*ProviderError`, is not.
pub is_retryable : ErrorValue → Bool
unfolding provider_is_retryable
is_retryable nil = false
is_retryable (provider_error t m c r) = provider_is_retryable t r
is_retryable (other s) = false

module _ (F : Floats) where
  open F use {Float, ratio, of_int, to_int, add, mul, pow}

  pub record RetryConfig : Type 0 where
    pub max_attempts : ℕ
    pub base_delay : ℕ
    pub max_delay : ℕ
    pub multiplier : Float
    pub jitter : Bool

  pub default_retry_config : RetryConfig
  default_retry_config = record {
    max_attempts = 5;
    base_delay = 500000000;
    max_delay = 30000000000;
    multiplier = ratio 2 1;
    jitter = true;
  }

  pub aggressive_retry_config : RetryConfig
  aggressive_retry_config = record {
    max_attempts = 10;
    base_delay = 100000000;
    max_delay = 10000000000;
    multiplier = ratio 3 2;
    jitter = true;
  }

  pub conservative_retry_config : RetryConfig
  conservative_retry_config = record {
    max_attempts = 3;
    base_delay = 1000000000;
    max_delay = 60000000000;
    multiplier = ratio 3 1;
    jitter = true;
  }

  pub no_retry_config : RetryConfig
  no_retry_config = record {
    max_attempts = 1;
    base_delay = 0;
    max_delay = 0;
    multiplier = ratio 1 1;
    jitter = false;
  }

  pub or_default : Option RetryConfig → RetryConfig
  unfolding default_retry_config
  or_default none = default_retry_config
  or_default (some c) = c

  pub record RetryableCall : Type 0 where
    pub config : RetryConfig
    pub name : String

  pub new_retryable_call : String → Option RetryConfig → RetryableCall
  unfolding or_default
  new_retryable_call name config = record { config = or_default config; name = name }

  -- The breaker of a policy is a nil pointer (`none`) or a breaker of the policy's own.
  pub record Policy : Type 0 where
    pub retry_config : RetryConfig
    pub circuit_breaker : Option Breaker
    pub name : String

  pub new_policy : String → Option RetryConfig → Option Breaker → Policy
  unfolding or_default
  new_policy name config cb = record {
    retry_config = or_default config;
    circuit_breaker = cb;
    name = name;
  }

  pub record PolicyBuilder : Type 0 where
    pub name : String
    pub retry_config : Option RetryConfig
    pub circuit_breaker : Option Breaker

  pub new_policy_builder : String → PolicyBuilder
  new_policy_builder name = record { name = name; retry_config = none; circuit_breaker = none }

  pub with_retry : Option RetryConfig → PolicyBuilder → PolicyBuilder
  with_retry config pb = record pb { retry_config = config }

  pub with_circuit_breaker : Option Breaker → PolicyBuilder → PolicyBuilder
  with_circuit_breaker cb pb = record pb { circuit_breaker = cb }

  pub build : PolicyBuilder → Policy
  unfolding new_policy
  build pb = new_policy pb.name pb.retry_config pb.circuit_breaker

  -- What the code takes from the world `W`: `rand.Float64`, and a wait that ends when the timer
  -- fires (nil) or the context is done (its error).
  pub record Env (W : Type 0) : Type 0 where
    pub rand : W → Float × W
    pub wait : ℤ → W → ErrorValue × W

  capped : RetryConfig → Float → Float
  capped c delay = if exceeds (to_int delay) c.max_delay then of_int c.max_delay else delay

  module _ {W : Type 0} (env : Env W) where
    jittered : Bool → Float → W → Float × W
    jittered false delay w = (delay, w)
    jittered true delay w =
        let (r, w') = env.rand w in (add delay (mul (mul delay (ratio 1 10)) r), w')

    pub calculate_delay : RetryConfig → ℕ → W → ℤ × W
    unfolding capped jittered
    calculate_delay c attempt w =
        let delay = mul (of_int c.base_delay) (pow c.multiplier (of_int attempt)) in
        let (final, w') = jittered c.jitter (capped c delay) w in (to_int final, w')

    -- The delay after an attempt, and the `select` on the context and the timer.
    pub pause : RetryConfig → ℕ → W → ErrorValue × W
    unfolding calculate_delay
    pause c attempt w = let (d, w') = calculate_delay c attempt w in env.wait d w'

    -- The loop, with the rounds left.
    loop : RetryConfig → (ℕ → W → ErrorValue × W) → ℕ → ℕ → ErrorValue → W → ErrorValue × W
    loop c fn zero attempt last_err w = (last_err, w)
    loop c fn (suc left) attempt last_err w =
        let (err, w₁) = fn attempt w in
        let (ctx_err, w₂) = pause c attempt w₁ in
        let next = loop c fn left (suc attempt) err w₂ in
        if is_nil err
        then (nil, w₁)
        else if is_retryable err
        then if suc attempt == c.max_attempts
          then (err, w₁)
          else if is_nil ctx_err
          then next
          else (ctx_err, w₂)
        else (err, w₁)

    pub retry : Option RetryConfig → (ℕ → W → ErrorValue × W) → W → ErrorValue × W
    unfolding loop or_default
    retry config fn w = let c = or_default config in loop c fn c.max_attempts 0 nil w

    -- `Execute` of a `*RetryableCall`.
    pub execute_call : RetryableCall → (ℕ → W → ErrorValue × W) → W → ErrorValue × W
    unfolding retry
    execute_call rc fn w = retry (some rc.config) fn w

  -- The world with a breaker beside it, for calls that go through the breaker.
  pub beside : {W : Type 0} → Env W → Env (Breaker × W)
  beside env = record {
    rand = λ s. let (r, w) = env.rand s.1 in (r, (s.0, w));
    wait = λ d s. let (e, w) = env.wait d s.1 in (e, (s.0, w));
  }

  module _ {W : Type 0} (env : Env W) (clock : W → ℕ) where
    pub guarded : (W → ErrorValue × W) → ℕ → Breaker × W → ErrorValue × (Breaker × W)
    guarded fn attempt s = let (err, cb, w) = call clock fn s.0 s.1 in (err, (cb, w))

    -- `ExecuteWithCircuitBreaker`: each attempt is a `Call` of the breaker.
    pub execute_with_circuit_breaker :
        RetryableCall → Breaker → (W → ErrorValue × W) → W → ErrorValue × (Breaker × W)
    unfolding execute_call beside guarded
    execute_with_circuit_breaker rc cb fn w = execute_call (beside env) rc (guarded fn) (cb, w)

    execute_in : Option Breaker → Policy → (W → ErrorValue × W) → W → ErrorValue × (Policy × W)
    unfolding execute_with_circuit_breaker new_retryable_call
    execute_in none p fn w =
        let rc = new_retryable_call p.name (some p.retry_config) in
        let (err, w') = execute_call env rc (λ attempt. fn) w in (err, (p, w'))
    execute_in (some cb) p fn w =
        let rc = new_retryable_call p.name (some p.retry_config) in
        let (err, s) = execute_with_circuit_breaker rc cb fn w in
        (err, (record p { circuit_breaker = some s.0 }, s.1))

    -- `Execute` of a `*Policy`.
    pub execute : Policy → (W → ErrorValue × W) → W → ErrorValue × (Policy × W)
    unfolding execute_in
    execute p fn w = execute_in p.circuit_breaker p fn w
