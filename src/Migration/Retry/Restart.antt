-- ===== src/Migration/Retry/Restart.antt =====
-- internal/controller/vmmigration_controller.go: what a retry of a failed migration starts with.
use projectbeskar_virtrigaud.Common.{ℕ, String, ◌≡◌, refl, [], Option, none, some}
use projectbeskar_virtrigaud.Controller.Keeps.{
  Keeps, Keeps-bind, Keeps-stop, Keeps-ask, Keeps-the_object, Keeps-if,
}
use projectbeskar_virtrigaud.Migration.Types.{Migration, MigrationStatus, MigrationRetryPolicy}
use projectbeskar_virtrigaud.Migration.Cluster.{Api}
use projectbeskar_virtrigaud.Migration.Store.Rules.{
  Over, IsStable, Keeps-record_condition, Keeps-save,
}
use projectbeskar_virtrigaud.Migration.Store.Saved.{
  Saved, Saved-IsStable, Keeps-put_status, Keeps-event,
}
use projectbeskar_virtrigaud.Migration.Retry.{
  give_up, retry_now, start_over, wait_or_retry, try_again, with_policy, handle_failed_phase,
}

-- The identifiers of what the failed attempt has done: its snapshot, its export and its import.
abbrev pub HasTransfer : String → String → String → MigrationStatus → Type 0
HasTransfer snapshot exported imported st =
    (st.snapshot_id ≡ snapshot) × (st.export_id ≡ exported) × (st.import_id ≡ imported)

module _ {W : Type 0} (api : Api W) (snapshot exported imported : String) where
  abbrev Transfer : MigrationStatus → Type 0
  Transfer = HasTransfer snapshot exported imported

  stable : IsStable (Saved Transfer)
  stable = Saved-IsStable Transfer (λ l st h. h)

  Keeps-give_up : Keeps (Over (Saved Transfer)) (give_up api)
  unfolding give_up
  Keeps-give_up =
      Keeps-bind _ _ (Keeps-put_status Transfer _ (λ st h. h))
        λ u. Keeps-bind _ _ (Keeps-save api stable) λ v. Keeps-stop _

  Keeps-retry_now : (limit now : ℕ) → Keeps (Over (Saved Transfer)) (retry_now api limit now)
  unfolding retry_now start_over
  Keeps-retry_now limit now = Keeps-bind _ _ (Keeps-put_status Transfer _ (λ st h. h)) λ u.
      Keeps-bind _ _ Keeps-the_object λ m.
        Keeps-bind _ _ (Keeps-put_status Transfer _ (λ st h. h)) λ v.
          Keeps-bind _ _ (Keeps-put_status Transfer _ (λ st h. h)) λ w.
            Keeps-bind _ _ (Keeps-record_condition api stable _ _ _ _) λ x.
              Keeps-bind _ _ (Keeps-event Transfer _ _ _)
                λ y. Keeps-bind _ _ (Keeps-save api stable) λ z. Keeps-stop _

  Keeps-wait_or_retry :
      (limit now : ℕ) (r : Option ℕ) → Keeps (Over (Saved Transfer)) (wait_or_retry api limit now r)
  unfolding wait_or_retry
  Keeps-wait_or_retry limit now (some r) = Keeps-stop _
  Keeps-wait_or_retry limit now none = Keeps-retry_now limit now

  Keeps-with_policy :
      (m : Migration) (p : Option MigrationRetryPolicy)
      → Keeps (Over (Saved Transfer)) (with_policy api m p)
  unfolding with_policy try_again
  Keeps-with_policy m none = Keeps-stop _
  Keeps-with_policy m (some p) =
      Keeps-if _ _ _ Keeps-give_up (Keeps-bind _ _ (Keeps-ask _) λ now. Keeps-wait_or_retry _ now _)

  Keeps-handle_failed_phase : Keeps (Over (Saved Transfer)) (handle_failed_phase api)
  unfolding handle_failed_phase
  Keeps-handle_failed_phase = Keeps-bind _ _ Keeps-the_object λ m. Keeps-with_policy m _

-- Whatever the handler of the phase Failed does (give up, wait, or start the migration over) and
-- whatever the API server answers, the status behind it, and every status that it wrote, has the
-- identifiers of the snapshot, of the export and of the import that the status had before.
pub handle_failed_phase-Saved :
    {W : Type 0} (api : Api W) (m : Migration) (w : W)
    → Saved
        (HasTransfer m.status.snapshot_id m.status.export_id m.status.import_id)
        (handle_failed_phase api (record { object = m; world = w; calls = [] })).1.object.status
        (handle_failed_phase api (record { object = m; world = w; calls = [] })).1.calls
handle_failed_phase-Saved api m w =
    (Keeps-handle_failed_phase api _ _ _).at (record { object = m; world = w; calls = [] })
      ((refl, refl, refl), tt)
