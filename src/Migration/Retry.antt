-- ===== src/Migration/Retry.antt =====
-- internal/controller/vmmigration_controller.go: when a failed migration is tried again
-- (`handleFailedPhase`). A `time.Duration` is a signed 64-bit number of nanoseconds, whose products
-- wrap around: a delay is computed as a bit pattern below 2 ^ 64, and read as signed at the end.
pub mod Edges
pub mod Delay
pub mod Restart
pub mod Limit
mod Tests
use projectbeskar_virtrigaud.Common.{
  ℕ, zero, suc, ◌+◌, ◌-◌, ◌*◌, ◌^◌, ◌%◌, String, ◌<>◌, numeral, ltb, leb, if◌then◌else◌, Option,
  none, some, ℤ, pos, negsuc, exceeds,
}
use projectbeskar_virtrigaud.Conditions.Condition.{unmet}
use projectbeskar_virtrigaud.Controller.{
  finished, requeue, requeue_after, ◌>>=◌, ◌>>◌, stop, the_object, ask, note, seconds,
}
use projectbeskar_virtrigaud.Migration.Types.{
  Migration, MigrationPhase, MigrationOptions, MigrationRetryPolicy,
}
use projectbeskar_virtrigaud.Migration.Cluster.{Api, event}
use projectbeskar_virtrigaud.Migration.Store.{Handler, put_status, enter, record_condition, save}

abbrev pub policy_of : Option MigrationOptions → Option MigrationRetryPolicy
policy_of none = none
policy_of (some o) = o.retry_policy

abbrev pub value_or : ℕ → Option ℕ → ℕ
value_or d none = d
value_or d (some n) = n

-- `MaxRetries`, by default 3.
abbrev pub max_retries : MigrationRetryPolicy → ℕ
max_retries p = value_or 3 p.max_retries

abbrev pub word : ℕ
word = 2 ^ 64

-- The signed reading of a 64-bit pattern.
pub to_signed : ℕ → ℤ
to_signed d = if ltb d (2 ^ 63) then pos d else negsuc (2 ^ 64 - 1 - d)

-- `retryDelay *= backoffMultiplier`, `n` times over.
pub scale : ℕ → ℕ → ℕ → ℕ
scale multiplier zero d = d
scale multiplier (suc n) d = scale multiplier n d * multiplier % word

abbrev pub max_delay : ℕ
max_delay = seconds 1800

cap_delay : ℤ → ℤ
cap_delay d = if exceeds d max_delay then pos max_delay else d

-- The delay before the next retry: 5 minutes by default, times the multiplier (2 by default) for
-- each retry made, and at most 30 minutes.
pub retry_delay : MigrationRetryPolicy → ℕ → ℤ
unfolding to_signed scale cap_delay
retry_delay p count = cap_delay (
    to_signed
      (scale (value_or 2 p.backoff_multiplier) count (value_or (seconds 300) p.retry_delay)))

-- `now - last < delay`, and then `delay - (now - last)`.
still_waiting : ℤ → ℕ → ℕ → Option ℕ
still_waiting (pos d) now last = if ltb now (last + d) then some (last + d - now) else none
still_waiting (negsuc d) now last =
    if ltb (now + suc d) last then some (last - (now + suc d)) else none

-- How long to wait yet, where there has been a retry before.
pub remaining_wait : ℤ → ℕ → Option ℕ → Option ℕ
unfolding still_waiting
remaining_wait delay now none = none
remaining_wait delay now (some last) = still_waiting delay now last

pub retry_message : ℕ → ℕ → String
retry_message count limit =
    "Retrying migration (attempt " <> (numeral count <> ("/" <> (numeral limit <> ")")))

module _ {W : Type 0} (api : Api W) where
  give_up : Handler W
  give_up = do
    put_status (λ st. record st {
      message =
          "Migration failed after " <> (numeral st.retry_count <> (" retries: " <> st.message));
    })
    save api
    stop finished

  -- The retry starts over at the first phase. The task reference is cleared; the identifiers of the
  -- snapshot, the export and the import stay.
  start_over : ℕ → Handler W
  start_over limit = do
    m ← the_object
    enter MigrationPhase.pending (retry_message m.status.retry_count limit)
    put_status (λ st. record st { task_ref = "" })
    record_condition api "Failed" unmet "Retrying" (retry_message m.status.retry_count limit)
    note (event "Normal" "RetryingMigration" (retry_message m.status.retry_count limit))
    save api
    stop requeue

  retry_now : ℕ → ℕ → Handler W
  unfolding start_over
  retry_now limit now = do
    put_status (λ st. record st { retry_count = suc st.retry_count; last_retry_time = some now })
    start_over limit

  wait_or_retry : ℕ → ℕ → Option ℕ → Handler W
  unfolding retry_now
  wait_or_retry limit now (some remaining) = stop (requeue_after remaining)
  wait_or_retry limit now none = retry_now limit now

  try_again : Migration → MigrationRetryPolicy → Handler W
  unfolding wait_or_retry
  try_again m p = do
    now ← ask api.now
    wait_or_retry (max_retries p) now
        (remaining_wait (retry_delay p m.status.retry_count) now m.status.last_retry_time)

  with_policy : Migration → Option MigrationRetryPolicy → Handler W
  unfolding give_up try_again
  with_policy m none = stop finished
  with_policy m (some p) =
      if leb (max_retries p) m.status.retry_count then give_up else try_again m p

  pub handle_failed_phase : Handler W
  unfolding with_policy
  handle_failed_phase = do m ← the_object; with_policy m (policy_of m.spec.options)
