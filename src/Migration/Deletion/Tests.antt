-- ===== src/Migration/Deletion/Tests.antt =====
-- internal/controller/vmmigration_controller.go: the deletion of a sample migration, which deletes
-- its target.
use projectbeskar_virtrigaud.Common.{All}
use projectbeskar_virtrigaud.Migration.Sample.{calm, begin, doomed}
use projectbeskar_virtrigaud.Migration.Deletion.{handle_deletion}
use projectbeskar_virtrigaud.Migration.Deletion.Guards.{IsAllowed, handle_deletion-Guarded}

handle_deletion-Guarded_example :
    All (IsAllowed doomed) (handle_deletion calm (begin doomed)).1.calls
handle_deletion-Guarded_example = handle_deletion-Guarded calm doomed 1000
