-- ===== src/Session/Caldav/Tests.antt =====
-- A session in the journal, and one in the work log.
use caldav_assistant_skeleto.Prelude.{
  ◌≡◌, refl, String, true, false, Option, none, some, List, [], ◌∷◌, filter, strip, if◌then◌else◌,
  ◌==◌,
}
use caldav_assistant_skeleto.Api.{Task, ok, err, unavailable, ambiguous}
use caldav_assistant_skeleto.Tasks.Sample.{named}
use caldav_assistant_skeleto.Session.Caldav.{
  Answers, JournalEntry, StartupSnapshot, latest_activity_action, ids_where, from_keys, task_by_id,
  is_started, is_paused, startup_snapshot, current_loop, current_task_id,
}
use caldav_assistant_skeleto.Session.Caldav.Resolved.{IsResolved, startup_snapshot-IsResolved}
use caldav_assistant_skeleto.Session.Caldav.Agrees.{startup_snapshot-current_task_id}

abbrev entry : String → JournalEntry
entry action = record { action = action; timestamp = 5 }

abbrev three : List Task
three = named " a " "IN-PROCESS" ∷ named "b" "IN-PROCESS" ∷ named "c" "IN-PROCESS" ∷ []

abbrev journal : String → Option (List JournalEntry)
journal id =
    if id == "a"
    then some (entry "task_paused" ∷ entry "note" ∷ entry "task_resumed" ∷ [])
    else if id == "b"
    then some (entry "task_started" ∷ entry "task_paused" ∷ [])
    else none

abbrev in_journal : Answers
in_journal = record {
  configured = false;
  work_events = err unavailable;
  open_snapshot = err unavailable;
  work_current = err unavailable;
  history = journal;
  in_progress = three;
  get = λ id. none;
}

abbrev a_and_b : StartupSnapshot
a_and_b = record { current_task_id = some "a"; current_task = none; paused_task_ids = "b" ∷ [] }

startup_in_journal : startup_snapshot in_journal three none ≡ ok a_and_b
unfolding startup_snapshot latest_activity_action ids_where from_keys task_by_id is_started
    is_paused strip filter
startup_in_journal = refl

startup_snapshot-IsResolved_example : IsResolved three a_and_b
startup_snapshot-IsResolved_example =
    startup_snapshot-IsResolved in_journal three none a_and_b startup_in_journal

startup_snapshot-current_task_id_example : current_task_id in_journal ≡ ok (some "a")
startup_snapshot-current_task_id_example =
    startup_snapshot-current_task_id in_journal none a_and_b refl (refl, (refl, (refl, tt)))
      startup_in_journal

-- Facts without a history: every other task in progress may be paused.
startup_in_log :
    startup_snapshot
      (record in_journal { configured = true })
      three
      (some (record { current_task_id = some "c"; worked_task_ids = none }))
    ≡ ok (record {
      current_task_id = some "c";
      current_task = some (named "c" "IN-PROCESS");
      paused_task_ids = "a" ∷ "b" ∷ [];
    })
unfolding startup_snapshot ids_where from_keys task_by_id strip filter
startup_in_log = refl

abbrev twice : List Task
twice = named "a" "IN-PROCESS" ∷ named "a" "IN-PROCESS" ∷ []

-- The one current task, listed twice, is ambiguous for the one reading and not for the other.
twice_ambiguous : startup_snapshot in_journal twice none ≡ err ambiguous
unfolding startup_snapshot latest_activity_action ids_where is_started strip filter
twice_ambiguous = refl

twice_current : current_task_id (record in_journal { in_progress = twice }) ≡ ok (some "a")
unfolding current_task_id current_loop latest_activity_action is_started strip filter
twice_current = refl
