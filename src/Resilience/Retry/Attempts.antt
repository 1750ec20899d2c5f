-- ===== src/Resilience/Retry/Attempts.antt =====
-- internal/resilience/retry.go: which attempts `Retry` makes, and what it returns.
use native.Mathlib.Nat.{add-zero}
use projectbeskar_virtrigaud.Common.{
  subst, sym, exceeds, ℕ, zero, suc, ◌+◌, ◌<◌, ◌≤◌, ◌≡◌, refl, ◌⊎◌, inl, inr, true, false, some,
  arith, Bool-cases, pos,
}
use projectbeskar_virtrigaud.Errors.{ErrorValue, nil, is_nil}
use projectbeskar_virtrigaud.Resilience.Retry.{
  Floats, RetryConfig, Env, is_retryable, pause, loop, retry, calculate_delay,
}

is_retryable-nil : (e : ErrorValue) → is_nil e ≡ true → (is_retryable e ≡ false) × (e ≡ nil)
unfolding is_retryable
is_retryable-nil e h = ground arith

module _ (F : Floats) {W : Type 0} (env : Env F W) (c : RetryConfig F)
    (fn : ℕ → W → ErrorValue × W) where
  -- The world after the attempt `a` and the pause behind it.
  abbrev rest_of : ℕ → W → W
  rest_of a w = (pause F env c a (fn a w).1).1

  -- The world before the attempt `a + n`, where the attempts `a`, `a + 1`, … are made in turn.
  abbrev pub world_before : ℕ → ℕ → W → W
  world_before a zero w = w
  world_before a (suc n) w = world_before (suc a) n (rest_of a w)

  -- Each of the `n` attempts from `a` on fails with a retryable error, and the pause behind it
  -- ends with the timer.
  abbrev pub Continues : ℕ → ℕ → W → Type 0
  Continues a zero w = Unit
  Continues a (suc n) w =
      (is_retryable (fn a w).0 ≡ true)
      × (is_nil (pause F env c a (fn a w).1).0 ≡ true)
      × Continues (suc a) n (rest_of a w)

  loop-step :
      (left a : ℕ) (last : ErrorValue) (w : W)
      → is_retryable (fn a w).0 ≡ true
      → is_nil (pause F env c a (fn a w).1).0 ≡ true
      → suc a < c.max_attempts
      → loop F env c fn (suc left) a last w ≡ loop F env c fn left (suc a) (fn a w).0 (rest_of a w)
  unfolding loop
  loop-step left a last w r p h = elim (Bool-cases (is_nil (fn a w).0)) [
    | inl n ↦ ground (arith, is_retryable-nil (fn a w).0 n)
    | inr n ↦ ground arith
  ]

  loop-stop :
      (left a : ℕ) (last : ErrorValue) (w : W)
      → (is_retryable (fn a w).0 ≡ false) ⊎ (suc a ≡ c.max_attempts)
      → loop F env c fn (suc left) a last w ≡ fn a w
  unfolding loop
  loop-stop left a last w h = ground (arith, is_retryable-nil (fn a w).0)

  loop-cancel :
      (left a : ℕ) (last : ErrorValue) (w : W)
      → is_retryable (fn a w).0 ≡ true
      → is_nil (pause F env c a (fn a w).1).0 ≡ false
      → suc a < c.max_attempts
      → loop F env c fn (suc left) a last w ≡ pause F env c a (fn a w).1
  unfolding loop
  loop-cancel left a last w r p h = elim (Bool-cases (is_nil (fn a w).0)) [
    | inl n ↦ ground (arith, is_retryable-nil (fn a w).0 n)
    | inr n ↦ ground arith
  ]

  -- How a run of attempts ends: with attempt `a`, which settles the matter or is the last one, or
  -- with the pause behind it, which the context cut short.
  abbrev pub EndsAt : ℕ → W → ErrorValue × W → Type 0
  EndsAt a w result =
      (((is_retryable (fn a w).0 ≡ false) ⊎ (suc a ≡ c.max_attempts)) × (result ≡ fn a w))
      ⊎ ((is_retryable (fn a w).0 ≡ true)
          × (suc a < c.max_attempts)
          × (is_nil (pause F env c a (fn a w).1).0 ≡ false)
          × (result ≡ pause F env c a (fn a w).1))

  abbrev Outcome : ℕ → ℕ → W → ErrorValue × W → Type 0
  Outcome left a w result =
      (n : ℕ) × (n ≤ left) × Continues a n w × EndsAt (a + n) (world_before a n w) result

  ends_here :
      (left a : ℕ) (w : W) (result : ErrorValue × W) → EndsAt a w result → Outcome left a w result
  ends_here left a w result e =
      (0, omega arith, tt, subst (λ b. EndsAt b w result) (sym (add-zero a)) e)

  ends_later :
      (left a : ℕ) (w : W) (result : ErrorValue × W)
      → is_retryable (fn a w).0 ≡ true
      → is_nil (pause F env c a (fn a w).1).0 ≡ true
      → Outcome left (suc a) (rest_of a w) result
      → Outcome (suc left) a w result
  ends_later left a w result r p (n, le, cont, e) =
      let shift : suc a + n ≡ a + suc n = omega arith in
      (
        suc n,
        omega arith,
        (r, p, cont),
        subst (λ b. EndsAt b (world_before (suc a) n (rest_of a w)) result) shift e,
      )

  loop_outcome :
      (left a : ℕ) (last : ErrorValue) (w : W)
      → a + suc left ≡ c.max_attempts
      → Outcome left a w (loop F env c fn (suc left) a last w)
  loop_outcome zero a last w h =
      let stop : (is_retryable (fn a w).0 ≡ false) ⊎ (suc a ≡ c.max_attempts) = inr (omega arith) in
      ends_here zero a w _ (inl (stop, loop-stop zero a last w stop))
  loop_outcome (suc left) a last w h =
      let later = loop_outcome left (suc a) (fn a w).0 (rest_of a w) (omega arith) in
      elim (Bool-cases (is_retryable (fn a w).0)) [
        | inr no_more ↦
            ends_here (suc left) a w _
              (inl (inl no_more, loop-stop (suc left) a last w (inl no_more)))
        | inl again ↦ elim (Bool-cases (is_nil (pause F env c a (fn a w).1).0)) [
          | inr done ↦ ends_here (suc left) a w _ (
              inr (
                again,
                omega arith,
                done,
                loop-cancel (suc left) a last w again done (omega arith),
              ))
          | inl fired ↦
              rw (loop-step (suc left) a last w again fired (omega arith))
                (ends_later left a w _ again fired later)
        ]
      ]

  -- With at least one attempt allowed, `Retry` makes some number `n < MaxAttempts` of attempts that
  -- fail with a retryable error, and then ends: with the result of the next attempt, if that is
  -- a success, an error that is not retryable, or the last attempt allowed; or with the context's
  -- error, if the context was done in the pause behind that attempt.
  pub retry_outcome :
      (w : W)
      → 0 < c.max_attempts
      → (n : ℕ) × (n < c.max_attempts)
        × Continues 0 n w
        × EndsAt n (world_before 0 n w) (retry F env (some c) fn w)
  unfolding retry
  retry_outcome w h = started c.max_attempts refl h
    where
      started :
          (left : ℕ)
          → left ≡ c.max_attempts
          → 0 < left
          → (n : ℕ) × (n < c.max_attempts)
            × Continues 0 n w
            × EndsAt n (world_before 0 n w) (loop F env c fn left 0 nil w)
      started zero e lt = elim lt [ ]
      started (suc left) e lt =
          let (n, le, cont, ends) = loop_outcome left 0 nil w (omega arith) in
          let shift : 0 + n ≡ n = omega arith in
          (
            n,
            omega arith,
            cont,
            subst (λ b. EndsAt b (world_before 0 n w) (loop F env c fn (suc left) 0 nil w)) shift
                ends,
          )

-- Without jitter the delay before the next attempt is at most `MaxDelay`, whatever the attempt and
-- the multiplier, provided that `MaxDelay` survives its conversion to `float64` and back.
calculate_delay-capped :
    (F : Floats) {W : Type 0} (env : Env F W) (c : RetryConfig F) (attempt : ℕ) (w : W)
    → c.jitter ≡ false
    → F.to_int (F.of_int c.max_delay) ≡ pos c.max_delay
    → exceeds (calculate_delay F env c attempt w).0 c.max_delay ≡ false
unfolding calculate_delay
calculate_delay-capped F env c attempt w j e =
    let delay = F.mul (F.of_int c.base_delay) (F.pow c.multiplier (F.of_int attempt)) in
    elim (Bool-cases (exceeds (F.to_int delay) c.max_delay)) [
      | inl over ↦ rw (j, over, e) (ground arith)
      | inr under ↦ rw (j, under) under
    ]
