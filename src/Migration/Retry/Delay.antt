-- ===== src/Migration/Retry/Delay.antt =====
-- internal/controller/vmmigration_controller.go: how long the retries of a failed migration are
-- apart.
use projectbeskar_virtrigaud.Common.{
  ℕ, zero, suc, ◌*◌, ◌^◌, ◌%◌, ◌≤◌, ◌<◌, ◌≡◌, false, arith, pos, exceeds, ap, ◌∙◌, sym, subst,
}
use Prim.Native.Nat.{min}
use native.Mathlib.Nat.{mul_assoc, le-mul_of_pos_right, mod-eq_of_lt, pow-suc, pow-zero, mul-one}
use projectbeskar_virtrigaud.Controller.{seconds}
use projectbeskar_virtrigaud.Migration.Types.{MigrationRetryPolicy}
use projectbeskar_virtrigaud.Migration.Retry.{
  word, to_signed, scale, max_delay, cap_delay, retry_delay, value_or,
}

-- A delay is never above 30 minutes.
retry_delay-capped :
    (p : MigrationRetryPolicy) (count : ℕ) → exceeds (retry_delay p count) max_delay ≡ false
unfolding retry_delay cap_delay
retry_delay-capped p count = ground arith

less_before : (multiplier d x : ℕ) → 1 ≤ multiplier → d * (x * multiplier) < word → d * x < word
less_before multiplier d x pm h =
    let e = mul_assoc d x multiplier in
    let g = le-mul_of_pos_right {m = multiplier} (d * x) pm in omega arith

scale_step :
    (multiplier d x : ℕ)
    → d * (x * multiplier) < word
    → d * x * multiplier % word ≡ d * (x * multiplier)
scale_step multiplier d x h =
    subst (λ y. y % word ≡ d * (x * multiplier)) (sym (mul_assoc d x multiplier)) (mod-eq_of_lt h)

scale_exact :
    (multiplier n d : ℕ)
    → 1 ≤ multiplier
    → d * multiplier ^ n < word
    → scale multiplier n d ≡ d * multiplier ^ n
unfolding scale
scale_exact multiplier zero d pm h = sym (ap (λ y. d * y) (pow-zero multiplier) ∙ mul-one d)
scale_exact multiplier (suc n) d pm h =
    let k = subst (λ y. d * y < word) (pow-suc multiplier n) h in
    let e = scale_exact multiplier n d pm (less_before multiplier d (multiplier ^ n) pm k) in
    ap (λ x. x * multiplier % word) e
    ∙ (scale_step multiplier d (multiplier ^ n) k ∙ ap (λ y. d * y) (sym (pow-suc multiplier n)))

signed_delay : (d : ℕ) → d < 2 ^ 63 → cap_delay (to_signed d) ≡ pos (min d max_delay)
unfolding cap_delay to_signed
signed_delay d h = ground arith

-- While the product fits into the positive half of 64 bits, the delay before the retry that follows
-- `count` others is the base delay times the multiplier to the power `count`, or 30 minutes where
-- that is less. The multiplier is at least 1.
pub retry_delay-exact :
    (p : MigrationRetryPolicy) (count : ℕ)
    → 1 ≤ value_or 2 p.backoff_multiplier
    → value_or (seconds 300) p.retry_delay * value_or 2 p.backoff_multiplier ^ count < 2 ^ 63
    → retry_delay p count
      ≡ pos (
          min
            (value_or (seconds 300) p.retry_delay * value_or 2 p.backoff_multiplier ^ count)
            max_delay)
unfolding retry_delay
retry_delay-exact p count h k =
    ap (λ d. cap_delay (to_signed d))
      (scale_exact _ count (value_or (seconds 300) p.retry_delay) h (omega (arith, k)))
    ∙ signed_delay _ k
