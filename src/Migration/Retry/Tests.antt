-- ===== src/Migration/Retry/Tests.antt =====
-- internal/controller/vmmigration_controller.go: retries of a sample migration.
use projectbeskar_virtrigaud.Common.{◌≡◌, refl, arith, pos, negsuc}
use projectbeskar_virtrigaud.Migration.Sample.{calm, begin, failed, policy}
use projectbeskar_virtrigaud.Migration.Store.Saved.{Saved}
use projectbeskar_virtrigaud.Migration.Retry.{
  handle_failed_phase, retry_delay, to_signed, scale, cap_delay,
}
use projectbeskar_virtrigaud.Migration.Retry.Delay.{retry_delay-exact}
use projectbeskar_virtrigaud.Migration.Retry.Limit.{IsLimited, handle_failed_phase-IsLimited}
use projectbeskar_virtrigaud.Migration.Retry.Restart.{HasTransfer, handle_failed_phase-Saved}

handle_failed_phase-Saved_example :
    Saved
      (HasTransfer "snap-1" "exp-1" "")
      (handle_failed_phase calm (begin failed)).1.object.status
      (handle_failed_phase calm (begin failed)).1.calls
handle_failed_phase-Saved_example = handle_failed_phase-Saved calm failed 1000

-- The third retry comes 20 minutes after the second.
retry_delay-exact_example : retry_delay policy 2 ≡ pos 1200000000000
retry_delay-exact_example = retry_delay-exact policy 2 (omega arith) (omega arith)

-- With the multiplier 10, which the schema allows, the product of the eighth retry is negative.
overflowing_delay : cap_delay (to_signed (scale 10 8 300000000000)) ≡ negsuc 6893488147419103231
unfolding scale to_signed cap_delay
overflowing_delay = refl

handle_failed_phase-IsLimited_example :
    Saved
      (IsLimited 10)
      (handle_failed_phase calm (begin failed)).1.object.status
      (handle_failed_phase calm (begin failed)).1.calls
handle_failed_phase-IsLimited_example =
    handle_failed_phase-IsLimited calm policy failed 1000 refl (omega arith)
