-- ===== src/Migration/Retry/Edges.antt =====
-- internal/controller/vmmigration_controller.go: a failed migration stays failed or starts over.
use projectbeskar_virtrigaud.Common.{Option, none, some}
use projectbeskar_virtrigaud.Controller.Keeps.{
  Keeps-stop, Keeps-the_object, Keeps-ask, Keeps-if, ◌and_then◌,
}
use projectbeskar_virtrigaud.Migration.Types.{Migration, MigrationPhase}
use projectbeskar_virtrigaud.Migration.Edges.{retried}
use projectbeskar_virtrigaud.Migration.Edges.Steps.{
  Takes, Takes-put_status, Takes-enter, Takes-event, Takes-condition, Takes-save,
}
use projectbeskar_virtrigaud.Migration.Cluster.{Api}
use projectbeskar_virtrigaud.Common.{ℕ}
use projectbeskar_virtrigaud.Migration.Types.{MigrationRetryPolicy}
use projectbeskar_virtrigaud.Migration.Retry.{
  give_up, retry_now, start_over, wait_or_retry, try_again, with_policy, handle_failed_phase,
}

module _ {W : Type 0} (api : Api W) where
  Takes-give_up : Takes MigrationPhase.failed (give_up api)
  unfolding give_up
  Takes-give_up =
      Takes-put_status _ (λ st h. h) and_then λ a. Takes-save api and_then λ b. Keeps-stop _

  Takes-wait_or_retry :
      (limit now : ℕ) (r : Option ℕ) → Takes MigrationPhase.failed (wait_or_retry api limit now r)
  unfolding wait_or_retry retry_now start_over
  Takes-wait_or_retry limit now (some r) = Keeps-stop _
  Takes-wait_or_retry limit now none = Takes-put_status _ (λ st h. h) and_then λ a.
      Keeps-the_object and_then λ m. Takes-enter _ retried and_then λ b.
      Takes-put_status _ (λ st h. h) and_then λ c. Takes-condition api _ _ _ _ and_then λ d.
      Takes-event _ _ _ and_then λ e. Takes-save api and_then λ f. Keeps-stop _

  Takes-with_policy :
      (m : Migration) (policy : Option MigrationRetryPolicy)
      → Takes MigrationPhase.failed (with_policy api m policy)
  unfolding with_policy try_again
  Takes-with_policy m none = Keeps-stop _
  Takes-with_policy m (some policy) =
      Keeps-if _ _ _ Takes-give_up (Keeps-ask _ and_then λ now. Takes-wait_or_retry _ now _)

  pub Takes-failed : Takes MigrationPhase.failed (handle_failed_phase api)
  unfolding handle_failed_phase
  Takes-failed = Keeps-the_object and_then λ m. Takes-with_policy m _
