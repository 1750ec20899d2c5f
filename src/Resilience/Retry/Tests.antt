-- ===== src/Resilience/Retry/Tests.antt =====
-- internal/resilience/retry.go: a call that fails twice.
use projectbeskar_virtrigaud.Common.{
  ℕ, suc, ◌+◌, ◌*◌, ◌/◌, ◌^◌, ◌<◌, true, false, some, arith, pos, ltb, if◌then◌else◌,
}
use projectbeskar_virtrigaud.Errors.{ErrorValue, nil, provider_error, timeout}
use projectbeskar_virtrigaud.Resilience.Retry.{Floats, RetryConfig, Env, retry}
use projectbeskar_virtrigaud.Resilience.Retry.Attempts.{
  world_before, Continues, EndsAt, retry_outcome,
}

-- Whole numbers in the place of `float64`.
abbrev whole : Floats
whole = record {
  Float = ℕ;
  ratio = λ n d. n / d;
  of_int = λ n. n;
  to_int = pos;
  add = λ a b. a + b;
  mul = λ a b. a * b;
  pow = λ a b. a ^ b;
}

abbrev timer : Env whole ℕ
timer = record { rand = λ w. (0, w); wait = λ d w. (nil, w) }

abbrev four_attempts : RetryConfig whole
four_attempts = record {
  max_attempts = 4;
  base_delay = 100;
  max_delay = 300;
  multiplier = 2;
  jitter = false;
}

-- The attempts 0 and 1 time out.
abbrev late : ℕ → ℕ → ErrorValue × ℕ
late attempt w = (if ltb attempt 2 then provider_error timeout "late" nil true else nil, suc w)

retry_outcome_example :
    (n : ℕ) × (n < 4)
    × Continues whole timer four_attempts late 0 n 0
    × EndsAt whole timer four_attempts late n
        (world_before whole timer four_attempts late 0 n 0)
        (retry whole timer (some four_attempts) late 0)
retry_outcome_example = retry_outcome whole timer four_attempts late 0 (omega arith)
