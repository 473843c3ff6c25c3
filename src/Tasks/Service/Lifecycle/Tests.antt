-- ===== src/Tasks/Service/Lifecycle/Tests.antt =====
-- The lifecycle of a task in a small list.
use caldav_assistant_skeleto.Prelude.{
  ◌≡◌, refl, true, none, some, List, [], ◌∷◌, strip, filter, any, All-of_In, In-filter, eq_iff,
  ◌==◌,
}
use caldav_assistant_skeleto.Api.{Task, ok, err, validation, other_current}
use caldav_assistant_skeleto.Effect.{◌>>=◌}
use caldav_assistant_skeleto.Session.Invariant
use caldav_assistant_skeleto.Session.Invariant.{Reach, IsConsistent}
use caldav_assistant_skeleto.Session.{
  fresh_session, collect, paused_task_ids, without, recoverable, recover_from,
  recover_legacy_current_task_id, current_task_id, set_current, clear_current, mark_paused, unpause,
  forget,
}
use caldav_assistant_skeleto.Tasks.Changes.{
  validate_summary, is_empty, validate, fill, normalize_changes,
}
use caldav_assistant_skeleto.Tasks.World.{
  Adapter, in_process, World, Activity, remember, record_activity, session_current_id,
  session_paused_ids, on_session, on_store,
}
use caldav_assistant_skeleto.Tasks.Service.{
  object, ActionResult, by_id, done, require_id, before_of, plan_context, transition, session_word,
  get, write, update_task,
}
use caldav_assistant_skeleto.Tasks.Service.Lifecycle.{
  start, pause, switch_away, resume, complete, work_session_before,
}
use caldav_assistant_skeleto.Tasks.Service.Lifecycle.Begin.{Accepts, start_succeeds}
use caldav_assistant_skeleto.Tasks.Service.Lifecycle.Start.{Started, start_ok}
use caldav_assistant_skeleto.Tasks.Service.Lifecycle.Finish.{Finished, finish_ok}
use caldav_assistant_skeleto.Tasks.Service.Lifecycle.Journal.{to_start, run-Logs}
use caldav_assistant_skeleto.Tasks.Service.Lifecycle.Sessions.{ListsTrimmed, run-IsConsistent}
use caldav_assistant_skeleto.Tasks.Service.Lifecycle.Local.{lifecycle_local}
use caldav_assistant_skeleto.Tasks.Sample.{noon, one_clock, memory, quiet, named}

abbrev started : World (List Task)
started = (start one_clock memory (by_id "a") none quiet).1

abbrev paused : World (List Task)
paused = (pause one_clock memory (by_id "a") none started).1

-- "a" is started; "b" cannot be while "a" is current; then "a" is paused.
runs :
    ((start one_clock memory (by_id "a") none quiet).0 ≡ ok (done (named "a" "IN-PROCESS") true))
    × (started.session ≡ some (record { current = some "a"; paused = some [] }))
    × ((start one_clock memory (by_id "b") none started).0 ≡ err (validation other_current))
    × (paused.session ≡ some (record { current = none; paused = some ("a" ∷ []) }))
unfolding start pause update_task get require_id write before_of transition plan_context
    validate_summary is_empty validate fill normalize_changes remember record_activity
    session_current_id session_paused_ids on_session on_store collect paused_task_ids without
    recoverable recover_from recover_legacy_current_task_id current_task_id set_current mark_paused
    clear_current ◌>>=◌ strip filter any
runs = (refl, refl, refl, refl)

abbrev completed : World (List Task)
completed = (complete one_clock memory (by_id "a") none started).1

completes :
    (complete one_clock memory (by_id "a") none started).0
    ≡ ok (done (record (named "a" "COMPLETED") { completed = true }) true)
unfolding start complete work_session_before session_word update_task get require_id write before_of
    transition plan_context validate_summary is_empty validate fill normalize_changes remember
    record_activity session_current_id session_paused_ids on_session on_store collect
    paused_task_ids without recoverable recover_from recover_legacy_current_task_id current_task_id
    set_current clear_current unpause forget ◌>>=◌ strip filter any
completes = refl

start_ok_example :
    Started one_clock memory
      (by_id "a")
      quiet
      fresh_session
      (done (named "a" "IN-PROCESS") true)
      started
start_ok_example =
    (start_ok one_clock memory (by_id "a") none quiet fresh_session refl).ends _ started
      (λ i. (runs.0 i, started))

finish_ok_example :
    Finished (done (record (named "a" "COMPLETED") { completed = true }) true) completed
finish_ok_example =
    (finish_ok one_clock memory (by_id "a") none started).1.ends _ completed
      (λ i. (completes i, completed))

run-Logs_example :
    (e : Activity) × (started.journal ≡ some (e ∷ []))
    × (e.action ≡ "task_started")
    × (e.metadata.work_session_after ≡ some "current")
run-Logs_example =
    (run-Logs one_clock memory to_start (by_id "a") none).on_ok quiet _ [] runs.0 refl

memory_trimmed : ListsTrimmed memory
memory_trimmed ts = All-of_In _ _ λ t i.
    let (_, same) = In-filter (λ (u : Task). strip u.id == u.id) _ t i in
    (eq_iff (strip t.id) t.id).0 same

run-IsConsistent_example :
    Reach (record { current = some "a"; paused = some [] })
    × IsConsistent (record { current = some "a"; paused = some [] })
run-IsConsistent_example =
    run-IsConsistent one_clock memory memory_trimmed to_start (by_id "a") none quiet fresh_session _
      refl Invariant.start runs.1

lifecycle_local_example :
    (paused.store ≡ started.store)
    × (paused.undo ≡ started.undo)
    × ((switch_away one_clock memory (by_id "a") none started).1.undo ≡ started.undo)
    × ((resume one_clock memory (by_id "a") none started).1.undo ≡ started.undo)
lifecycle_local_example = lifecycle_local one_clock memory (by_id "a") none started

-- An adapter that answers every write with the task itself.
abbrev willing : Adapter Unit
willing = record {
  list_tasks = λ status s. ok [];
  get_task = λ id s. ok (named "a" "NEEDS-ACTION");
  create_task = λ t s. (ok t, s);
  update_task = λ id c s. (ok (named "a" "IN-PROCESS"), s);
  update_task_from_snapshot = λ t c s. (ok (some (named "a" "IN-PROCESS")), s);
  delete_task = λ id s. (ok tt, s);
}

strip_a : strip "a" ≡ "a"
unfolding strip
strip_a = refl

willing-Accepts : Accepts one_clock willing "a"
willing-Accepts = record {
  accepts_fast = λ t c s. (
    some (named "a" "IN-PROCESS"),
    s,
    refl,
    λ u e. let same : named "a" "IN-PROCESS" ≡ u = cc in rw (← same) strip_a,
  );
  accepts = λ c s. (named "a" "IN-PROCESS", s, refl, strip_a);
}

abbrev idle : World Unit
idle = record {
  store = tt;
  session = some fresh_session;
  journal = some [];
  undo = none;
  now = noon;
}

nobody : (current_task_id fresh_session (in_process willing idle)).1 ≡ none
unfolding current_task_id recover_legacy_current_task_id recover_from filter
nobody = refl

start_succeeds_example :
    (r : ActionResult) × (w' : World Unit) × (start one_clock willing
        (object (named "a" "NEEDS-ACTION"))
        none
        idle
      ≡ (ok r, w'))
    × (strip r.affected.id ≡ "a")
start_succeeds_example =
    start_succeeds one_clock willing "a" refl willing-Accepts (named "a" "NEEDS-ACTION") none idle
      fresh_session strip_a refl refl nobody
