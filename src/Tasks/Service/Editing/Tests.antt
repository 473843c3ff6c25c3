-- ===== src/Tasks/Service/Editing/Tests.antt =====
-- A creation in a small task list.
use caldav_assistant_skeleto.Prelude.{◌≡◌, refl, true, List, strip}
use caldav_assistant_skeleto.Api.{Task, ok}
use caldav_assistant_skeleto.Effect.{◌>>=◌}
use caldav_assistant_skeleto.Tasks.Changes.{
  text, validate_summary, is_empty, validate, fill, normalize_changes,
}
use caldav_assistant_skeleto.Tasks.World.{World, remember, record_activity, on_store}
use caldav_assistant_skeleto.Tasks.Service.{done, require_id, no_changes_yet}
use caldav_assistant_skeleto.Tasks.Service.Editing.{
  from_summary, draft_from_fields, reconcile, all_fields, validated_task, snapshot, copy_for_create,
  candidate, create,
}
use caldav_assistant_skeleto.Tasks.Service.Editing.Created.{WellFormed, create_ok}
use caldav_assistant_skeleto.Tasks.Sample.{one_clock, memory, quiet, named}

abbrev after : World (List Task)
after = (create one_clock memory (from_summary (text " Read ")) no_changes_yet quiet).1

abbrev read : Task
read = record (named "new" "NEEDS-ACTION") { summary = "Read" }

creates :
    (create one_clock memory (from_summary (text " Read ")) no_changes_yet quiet).0
    ≡ ok (done read true)
unfolding create candidate copy_for_create draft_from_fields reconcile all_fields validated_task
    snapshot validate_summary is_empty validate fill normalize_changes remember record_activity
    on_store require_id ◌>>=◌ strip
creates = refl

create_ok_example : (t : Task) × WellFormed t × ((memory.create_task t quiet.store).0 ≡ ok read)
create_ok_example =
    (create_ok one_clock memory (from_summary (text " Read ")) no_changes_yet quiet).ends
      (done read true) after (λ i. (creates i, after))
