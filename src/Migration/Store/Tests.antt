-- ===== src/Migration/Store/Tests.antt =====
-- internal/controller/vmmigration_controller.go: a status that is written against conflicts.
use projectbeskar_virtrigaud.Common.{ℕ, ◌+◌, ◌≤◌, ◌≡◌, true, false}
use projectbeskar_virtrigaud.Controller.{fault}
use projectbeskar_virtrigaud.Migration.Sample.{calm, begin, pending}
use projectbeskar_virtrigaud.Migration.Cluster.{Api}
use projectbeskar_virtrigaud.Migration.Store.{update_status}
use projectbeskar_virtrigaud.Migration.Store.Rounds.{writes, update_status_lem}

-- Each write meets a conflict.
abbrev contended : Api ℕ
contended = record calm {
  update_status =
      λ m w. (fault (record { text = "conflict"; not_found = false; conflict = true }), w);
}

update_status_lem_example :
    (writes (update_status contended (begin pending)).1.calls ≤ writes (begin pending).calls + 3)
    × ((update_status contended (begin pending)).1.object.status ≡ pending.status)
update_status_lem_example = update_status_lem contended (begin pending)
