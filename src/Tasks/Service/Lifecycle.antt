-- ===== src/Tasks/Service/Lifecycle.antt =====
-- The lifecycle calls of `TaskService`: start, pause, switch_away, resume, complete and cancel.
pub mod Frames
pub mod Journal
mod Local
mod Start
mod Sessions
mod Finish
mod Begin
mod Tests
use caldav_assistant_skeleto.Prelude.{
  String, Bool, true, false, not, ◌||◌, Option, none, is_some, if◌then◌else◌, ◌==◌,
}
use caldav_assistant_skeleto.Temporal.{Datetime, Zones, datetime}
use caldav_assistant_skeleto.Api.{
  Result, ok, finished, already_current, other_current, not_running, not_current, not_paused,
}
use caldav_assistant_skeleto.Effect.{pure, gets, require, ◌>>=◌, ◌>>◌}
use caldav_assistant_skeleto.Session
use caldav_assistant_skeleto.Session.{SessionState, contains}
use caldav_assistant_skeleto.Tasks.Changes.{null, when}
use caldav_assistant_skeleto.Tasks.World.{
  Adapter, record_activity, session_current_id, session_paused_ids, on_session, at_or_now,
}
use caldav_assistant_skeleto.Tasks.Service.{
  Ref, object, ActionResult, done, require_id, status_changes, transition, same_id, is_other,
  is_closed, session_word, Call, get, update_task,
}

-- The session methods that never raise, as those that may.
abbrev pub never : (SessionState → SessionState) → SessionState → Result SessionState
never f s = ok (f s)

module _ {Store : Type 0} (z : Zones) (a : Adapter Store) where
  abbrev pub has_session : Call z a Bool
  has_session = gets (λ w. is_some w.session)

  -- The session's word on a task, for the calls that end its work.
  pub work_session_before : String → Call z a String
  work_session_before id = do
    current ← session_current_id a
    paused ← gets session_paused_ids
    pure (session_word current paused id)

  unfoldable pub start : Ref → Option Datetime → Call z a ActionResult
  start ref at = do
    obj ← get z a ref
    id ← require_id obj
    require (not (is_closed obj)) finished
    current ← session_current_id a
    require (not (same_id current id)) already_current
    require (not (is_other current id)) other_current
    result ← update_task z a (object obj) (status_changes "IN-PROCESS" false null) none true true
    on_session (Session.set_current result.affected.id)
    record_activity z "task_started" result.affected at (transition "none" "current" obj)
    pure result

  -- `if self.session is not None and self._session_current_id() != task_id`
  abbrev pub require_current : String → Call z a Unit
  require_current id = do
    present ← has_session
    current ← if present then session_current_id a else pure none
    require (not present || same_id current id) not_current

  unfoldable pub pause : Ref → Option Datetime → Call z a ActionResult
  pause ref at = do
    obj ← get z a ref
    id ← require_id obj
    require (obj.status == "IN-PROCESS") not_running
    require_current id
    on_session (Session.mark_paused obj.id)
    record_activity z "task_paused" obj at (transition "current" "paused" obj)
    pure (done obj false)

  unfoldable pub switch_away : Ref → Option Datetime → Call z a ActionResult
  switch_away ref at = do
    obj ← get z a ref
    id ← require_id obj
    require (obj.status == "IN-PROCESS") not_running
    current ← session_current_id a
    require (same_id current id) not_current
    result ← update_task z a (object obj) (status_changes "NEEDS-ACTION" false null) none true false
    on_session (never (Session.forget result.affected.id))
    record_activity z "task_switched_away" result.affected at (transition "current" "none" obj)
    pure result

  unfoldable pub resume : Ref → Option Datetime → Call z a ActionResult
  resume ref at = do
    obj ← get z a ref
    id ← require_id obj
    require (not (is_closed obj)) finished
    current ← session_current_id a
    require (not (is_other current id)) other_current
    present ← has_session
    paused ← gets session_paused_ids
    require (not present || contains paused id) not_paused
    result ← update_task z a (object obj) (status_changes "IN-PROCESS" false null) none true false
    on_session (Session.set_current result.affected.id)
    record_activity z "task_resumed" result.affected at (transition "paused" "current" obj)
    pure result

  unfoldable pub complete : Ref → Option Datetime → Call z a ActionResult
  complete ref at = do
    obj ← get z a ref
    id ← require_id obj
    before ← work_session_before id
    completed_at ← gets (λ w. at_or_now z at w.now)
    result ←
        update_task z a (object obj)
          (status_changes "COMPLETED" true (when (datetime completed_at))) none true true
    on_session (never (Session.forget result.affected.id))
    record_activity z "task_completed" result.affected at (transition before "none" obj)
    pure result

  unfoldable pub cancel : Ref → Option Datetime → Call z a ActionResult
  cancel ref at = do
    obj ← get z a ref
    id ← require_id obj
    before ← work_session_before id
    result ← update_task z a (object obj) (status_changes "CANCELLED" false null) none true true
    on_session (never (Session.forget result.affected.id))
    record_activity z "task_cancelled" result.affected at (transition before "none" obj)
    pure result
