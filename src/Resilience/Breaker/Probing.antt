-- ===== src/Resilience/Breaker/Probing.antt =====
-- internal/resilience/circuitbreaker.go: what an open and a half-open breaker admit.
use projectbeskar_virtrigaud.Common.{
  ℕ, suc, ltb, ltb→lt, ◌-◌, ◌+◌, ◌≤◌, ◌<◌, ◌≡◌, refl, List, [], ◌∷◌, true, false, All, length,
  arith, if◌then◌else◌, Bool-cases, inl, inr,
}
use Prim.Native.Nat.{min}
use projectbeskar_virtrigaud.Resilience.Breaker.{
  Breaker, half_open, opened, allow_call, transition_to_half_open,
}

-- `allowCall` at each of the given times, with no result in between, and how many were admitted.
pub admissions : List ℕ → Breaker → Breaker × ℕ
admissions [] cb = (cb, 0)
admissions (now ∷ rest) cb =
    let (cb', allowed) = allow_call now cb in
    let (cb'', n) = admissions rest cb' in (cb'', if allowed then suc n else n)

allow_call-opened_early :
    (now : ℕ) (cb : Breaker)
    → cb.state ≡ opened
    → now ≤ cb.last_failure_time + cb.config.reset_timeout
    → allow_call now cb ≡ (cb, false)
unfolding allow_call
allow_call-opened_early now cb s h = ground arith

-- An open breaker fails fast: up to the reset timeout after its last failure it admits no call
-- and does not change.
pub admissions-opened :
    (times : List ℕ) (cb : Breaker)
    → cb.state ≡ opened
    → All (λ now. now ≤ cb.last_failure_time + cb.config.reset_timeout) times
    → admissions times cb ≡ (cb, 0)
unfolding admissions
admissions-opened [] cb s h = refl
admissions-opened (now ∷ rest) cb s h =
    rw (allow_call-opened_early now cb s h.0) (rw (admissions-opened rest cb s h.1))

allow_call-half_open :
    (now : ℕ) (cb : Breaker)
    → cb.state ≡ half_open
    → allow_call now cb ≡ (
        if ltb cb.half_open_calls cb.config.half_open_max_calls
        then (record cb { half_open_calls = cb.half_open_calls + 1 }, true)
        else (cb, false))
unfolding allow_call
allow_call-half_open now cb s = ground arith

-- Until a result is recorded, a half-open breaker admits what is left of its quota of probes and
-- nothing after that, however much time passes.
pub admissions-half_open :
    (times : List ℕ) (cb : Breaker)
    → cb.state ≡ half_open
    → cb.half_open_calls ≤ cb.config.half_open_max_calls
    → ((admissions times cb).1
        ≡ min (length times) (cb.config.half_open_max_calls - cb.half_open_calls))
      × ((admissions times cb).0
          ≡ record cb { half_open_calls = cb.half_open_calls + (admissions times cb).1 })
unfolding admissions
admissions-half_open [] cb s h = ground arith
admissions-half_open (now ∷ rest) cb s h =
    elim (Bool-cases (ltb cb.half_open_calls cb.config.half_open_max_calls)) [
      | inl room ↦
          let cb' = record cb { half_open_calls = cb.half_open_calls + 1 } in
          rw (allow_call-half_open now cb s, room)
            (ground (arith, admissions-half_open rest cb' s (omega (arith, ltb→lt _ _ room))))
      | inr full ↦
          rw (allow_call-half_open now cb s, full)
            (ground (arith, admissions-half_open rest cb s h))
    ]

allow_call-opened_late :
    (now : ℕ) (cb : Breaker)
    → cb.state ≡ opened
    → cb.last_failure_time + cb.config.reset_timeout < now
    → allow_call now cb ≡ (transition_to_half_open cb, true)
unfolding allow_call transition_to_half_open
allow_call-opened_late now cb s h = ground arith

-- The request that finds an open breaker past its reset timeout is admitted and is not counted
-- as a probe: before any result comes in, the breaker admits it and `HalfOpenMaxCalls` more, and
-- then nothing, at whatever later times.
pub admissions-after_timeout :
    (now : ℕ) (rest : List ℕ) (cb : Breaker)
    → cb.state ≡ opened
    → cb.last_failure_time + cb.config.reset_timeout < now
    → (admissions (now ∷ rest) cb).1 ≡ suc (min (length rest) cb.config.half_open_max_calls)
unfolding admissions transition_to_half_open
admissions-after_timeout now rest cb s h =
    rw (allow_call-opened_late now cb s h)
      (ground (arith, admissions-half_open rest (transition_to_half_open cb) refl (omega arith)))
