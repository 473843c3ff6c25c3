-- ===== src/Tasks/Work.antt =====
-- internal/tasks/work_service.py: `CalDAVWorkTaskService`, the lifecycle of tasks with a work log.
-- Where no work log is configured each call is that of the task service. The two reads that the
-- code makes side by side are made one after the other; the hints to extension hooks that it sets
-- on a completed task are left out.
pub mod Compensation
mod Tests
use caldav_assistant_skeleto.Prelude.{
  ◌≡◌, String, Bool, true, false, not, ◌&&◌, Option, none, some, List, [], ◌∷◌, is_some, is_blank,
  strip, if◌then◌else◌, ◌==◌,
}
use caldav_assistant_skeleto.Temporal.{Datetime, When, date, datetime, Zones}
use caldav_assistant_skeleto.Api.{
  Task, Event, Error, Result, ok, err, unavailable, finished, already_current, other_current,
  not_running, not_current, not_paused,
}
use caldav_assistant_skeleto.Effect.{Exec, pure, raise, gets, require, catch, ◌>>=◌, ◌>>◌}
use caldav_assistant_skeleto.Sync.Rows.{Fetched}
use caldav_assistant_skeleto.WorkLog
use caldav_assistant_skeleto.WorkLog.{
  WorkAdapter, Segments, collection_url, open_snapshot, segments_for, start_segment, close_segment,
  reopen_segment, discard_segment, open_for,
}
use caldav_assistant_skeleto.Tasks.Changes.{null, when}
use caldav_assistant_skeleto.Tasks.World.{
  Adapter, World, WorkSegment, Metadata, record_activity, at_or_now, on_store,
}
use caldav_assistant_skeleto.Tasks.Service.{
  Ref, object, by_id, ActionResult, done, require_id, status_changes, transition, same_id, is_other,
  is_closed, Call, get, update_task,
}
use caldav_assistant_skeleto.Tasks.Service.Lifecycle

-- `_closed_segment_metadata`
abbrev pub id_or_none : String → Option String
id_or_none id = if is_blank id then none else some id

abbrev pub segment_from : String → Option When → Option When → Option WorkSegment
segment_from id (some start) (some end) =
    some (record { start = start; end = end; event_id = id_or_none (strip id) })
segment_from id _ _ = none

abbrev pub closed_segment : Option (Fetched Event) → Option WorkSegment
closed_segment none = none
closed_segment (some e) = segment_from e.value.id e.value.start e.value.end

abbrev pub with_segment : Option (Fetched Event) → Metadata → Metadata
with_segment closed m = record m { work_segment = closed_segment closed }

-- The end of a closed interval, or else the given time. A server gives back the datetime that was
-- written.
abbrev pub end_or : Option (Fetched Event) → Datetime → Datetime
end_or none d = d
end_or (some e) d = elim e.value.end [ none ↦ d | some (date day) ↦ d | some (datetime end) ↦ end ]

abbrev pub has_none : Segments → Bool
has_none [] = true
has_none (e ∷ es) = false

module _ {Store : Type 0} (z : Zones) (a : Adapter Store) (l : WorkAdapter Store)
    (url : Option String) where
  -- `_worklog_configured`
  abbrev pub configured : Bool
  configured = is_some (collection_url l url)

  -- A call of the work log, which reads the clock of the moment.
  abbrev pub at_now : {A : Type 0} → (Datetime → Exec Store A) → Call z a A
  at_now f = do now ← gets (λ w. w.now); on_store (f now)

  -- `_task_and_open_snapshot`
  unfoldable pub task_and_open_snapshot : Ref → Call z a (Task × Segments)
  unfolding get on_store require_id
  task_and_open_snapshot ref = do
    obj ← get z a ref
    values ← on_store (open_snapshot l url)
    require_id obj
    pure (obj, values)

  -- `try: … except Exception: pass`
  unfoldable pub quietly : {A : Type 0} → Call z a A → Call z a Unit
  unfolding catch
  quietly m = catch (m >> pure tt) (λ e. pure tt)

  -- An update of the task, and what is done when it raises, before it raises on.
  unfoldable pub or_undo : Call z a ActionResult → Call z a Unit → Call z a ActionResult
  unfolding catch
  or_undo update undo = catch update (λ e. undo >> raise e)

  -- `_start_lookup`
  unfoldable pub start_lookup : Ref → Call z a Ref
  unfolding require_id
  start_lookup (object t) = do id ← require_id t; pure (by_id id)
  start_lookup (by_id id) = pure (by_id id)

  -- `_require_live_start_task`
  abbrev pub require_live : Task → Call z a Unit
  require_live t = if t.stale then raise unavailable else pure tt

  abbrev pub log_current : Segments → Call z a (Option String)
  log_current values = on_store (WorkLog.current_task_id l url (some values))

  -- `_start`, with a work log
  unfoldable pub start_logged : Ref → Option Datetime → Call z a ActionResult
  unfolding task_and_open_snapshot require_id on_store start_segment discard_segment or_undo quietly
      update_task record_activity
  start_logged ref at = do
    (obj, values) ← task_and_open_snapshot ref
    require_live obj
    id ← require_id obj
    require (not (is_closed obj)) finished
    current ← log_current values
    require (not (same_id current id)) already_current
    require (not (is_other current id)) other_current
    segment ← at_now (λ now. start_segment l url z now obj at (some values))
    result ←
        or_undo
          (update_task z a (object obj) (status_changes "IN-PROCESS" false null) none true true)
          (quietly (on_store (discard_segment l url segment)))
    record_activity z "task_started" result.affected at (transition "none" "current" obj)
    pure result

  -- `_pause`, with a work log
  unfoldable pub pause_logged : Ref → Option Datetime → Call z a ActionResult
  unfolding task_and_open_snapshot require_id on_store close_segment record_activity
  pause_logged ref at = do
    (obj, values) ← task_and_open_snapshot ref
    id ← require_id obj
    require (obj.status == "IN-PROCESS") not_running
    current ← log_current values
    require (same_id current id) not_current
    closed ← at_now (λ now. close_segment l url z now obj.id at true (some values))
    record_activity z "task_paused" obj at (with_segment closed (transition "current" "paused" obj))
    pure (done obj false)

  -- the compensation of a call that has closed an interval, if it has
  abbrev pub reopen_if : Option (Fetched Event) → Call z a Unit
  reopen_if none = pure tt
  reopen_if (some e) = quietly (on_store (reopen_segment l url e))

  -- `_switch_away`, with a work log
  unfoldable pub switch_away_logged : Ref → Option Datetime → Call z a ActionResult
  unfolding get require_id on_store close_segment reopen_segment or_undo quietly update_task
      record_activity
  switch_away_logged ref at = do
    obj ← get z a ref
    id ← require_id obj
    require (obj.status == "IN-PROCESS") not_current
    values ← on_store (open_snapshot l url)
    current ← log_current values
    require (same_id current id) not_current
    closed ← at_now (λ now. close_segment l url z now obj.id at true (some values))
    result ←
        or_undo
          (update_task z a (object obj) (status_changes "NEEDS-ACTION" false null) none true false)
          (reopen_if closed)
    record_activity z "task_switched_away" result.affected at
        (with_segment closed (transition "current" "none" obj))
    pure result

  -- `_resume`, with a work log
  unfoldable pub resume_logged : Ref → Option Datetime → Call z a ActionResult
  unfolding task_and_open_snapshot require_id on_store segments_for open_for start_segment
      record_activity
  resume_logged ref at = do
    (obj, values) ← task_and_open_snapshot ref
    id ← require_id obj
    require (not (is_closed obj)) finished
    require (obj.status == "IN-PROCESS") not_running
    current ← log_current values
    require (not (same_id current id)) already_current
    require (not (is_other current id)) other_current
    segments ← on_store (segments_for l url obj.id)
    require (not (has_none segments)) not_paused
    running ← on_store (open_for l url obj.id (some values))
    require (not (is_some running)) already_current
    at_now (λ now. start_segment l url z now obj at (some values))
    record_activity z "task_resumed" obj at (transition "paused" "current" obj)
    pure (done obj false)

  abbrev pub close_if : Bool → Task → Option Datetime → Segments → Call z a (Option (Fetched Event))
  close_if false obj at values = pure none
  close_if true obj at values =
      at_now (λ now. close_segment l url z now obj.id at true (some values))

  -- `worked_before`, of a task that is not the current one
  abbrev pub worked_before : Task → Call z a Bool
  worked_before obj =
      if obj.status == "IN-PROCESS"
      then (do segments ← on_store (segments_for l url obj.id); pure (not (has_none segments)))
      else pure false

  abbrev pub before_complete : Bool → Bool → String
  before_complete is_current worked =
      if is_current then "current" else if worked then "paused" else "none"

  -- `_complete`, with a work log
  unfoldable pub complete_logged : Ref → Option Datetime → Call z a ActionResult
  unfolding task_and_open_snapshot require_id on_store segments_for close_segment reopen_segment
      or_undo quietly update_task record_activity
  complete_logged ref at = do
    (obj, values) ← task_and_open_snapshot ref
    id ← require_id obj
    current ← log_current values
    let is_current = same_id current id
    worked ← if is_current then pure true else worked_before obj
    ends ← gets (λ w. at_or_now z at w.now)
    closed ← close_if is_current obj at values
    let completed_at = end_or closed ends
    result ←
        or_undo
          (update_task z a (object obj)
            (status_changes "COMPLETED" true (when (datetime completed_at))) none true true)
          (reopen_if closed)
    record_activity z "task_completed" result.affected (some completed_at)
        (with_segment closed (transition (before_complete is_current worked) "none" obj))
    pure result

  -- `_cancel`, with a work log
  unfoldable pub cancel_logged : Ref → Option Datetime → Call z a ActionResult
  unfolding task_and_open_snapshot require_id on_store close_segment update_task record_activity
  cancel_logged ref at = do
    (obj, values) ← task_and_open_snapshot ref
    id ← require_id obj
    current ← log_current values
    let is_current = same_id current id
    closed ← close_if is_current obj at values
    result ← update_task z a (object obj) (status_changes "CANCELLED" false null) none true true
    ends ← gets (λ w. at_or_now z at w.now)
    record_activity z "task_cancelled" result.affected (some (end_or closed ends))
        (with_segment closed (transition (if is_current then "current" else "paused") "none" obj))
    pure result

  -- `_start`: without a work log, of the task that is read again.
  unfoldable pub start : Ref → Option Datetime → Call z a ActionResult
  unfolding start_logged start_lookup get collection_url Lifecycle.start
  start ref at = do
    lookup ← start_lookup ref
    if configured
        then start_logged lookup at
        else (do obj ← get z a lookup; require_live obj; Lifecycle.start z a (object obj) at)

  -- `_pause`, `_switch_away`, `_resume`, `_complete` and `_cancel`
  unfoldable pub pause : Ref → Option Datetime → Call z a ActionResult
  unfolding pause_logged collection_url Lifecycle.pause
  pause ref at = if configured then pause_logged ref at else Lifecycle.pause z a ref at

  unfoldable pub switch_away : Ref → Option Datetime → Call z a ActionResult
  unfolding switch_away_logged collection_url Lifecycle.switch_away
  switch_away ref at =
      if configured then switch_away_logged ref at else Lifecycle.switch_away z a ref at

  unfoldable pub resume : Ref → Option Datetime → Call z a ActionResult
  unfolding resume_logged collection_url Lifecycle.resume
  resume ref at = if configured then resume_logged ref at else Lifecycle.resume z a ref at

  unfoldable pub complete : Ref → Option Datetime → Call z a ActionResult
  unfolding complete_logged collection_url Lifecycle.complete
  complete ref at = if configured then complete_logged ref at else Lifecycle.complete z a ref at

  unfoldable pub cancel : Ref → Option Datetime → Call z a ActionResult
  unfolding cancel_logged collection_url Lifecycle.cancel
  cancel ref at = if configured then cancel_logged ref at else Lifecycle.cancel z a ref at
