-- ===== src/Tasks/Service.antt =====
-- internal/tasks/service.py: `TaskService`.
pub mod Lifecycle
pub mod Editing
mod Find
use caldav_assistant_skeleto.Prelude.{
  ℕ, String, Bool, true, false, not, ◌&&◌, ◌||◌, Option, none, some, List, [], ◌∷◌, is_blank,
  is_some, strip, filter, if◌then◌else◌, ◌==◌,
}
use caldav_assistant_skeleto.Temporal.{Datetime, When, Zones, datetime, date, astimezone}
use caldav_assistant_skeleto.Api.{
  Task, Error, Reason, Result, ok, err, validation, key_error, not_found, type_error, no_id,
  empty_id, fields_with_object, summary_not_text, unsupported_fields, finished, already_current,
  other_current, not_running, not_current, not_paused,
}
use caldav_assistant_skeleto.Effect.{Exec, pure, raise, lift, gets, require, ◌>>=◌, ◌>>◌}
use caldav_assistant_skeleto.Session
use caldav_assistant_skeleto.Session.{SessionState, contains}
use caldav_assistant_skeleto.Tasks.Changes.{
  Value, null, bool, int, negative, text, when, texts, other, Changes, validate_summary,
  normalize_changes, is_empty,
}
use caldav_assistant_skeleto.Tasks.World.{
  Adapter, World, Payload, task_create, task_update, task_delete, Plan, Metadata, remember,
  record_activity, session_current_id, session_paused_ids, on_session, on_store,
}

-- A task is passed as an object or by its id.
pub data Ref : Type 0 where
  object : Task → Ref
  by_id : String → Ref

-- What the methods return; the message is empty until an undo sets it.
pub record ActionResult : Type 0 where
  pub success : Bool
  pub message : String
  pub affected : Task
  pub undo_available : Bool

abbrev pub done : Task → Bool → ActionResult
done t undo = record { success = true; message = ""; affected = t; undo_available = undo }

-- semantics.py: `task_is_finished`, `task_is_actionable`.
pub task_is_finished : (String → String) → Task → Bool
task_is_finished upper t =
    if t.completed
    then true
    else (let status = upper (strip t.status) in status == "COMPLETED" || status == "CANCELLED")

pub task_is_actionable : (String → String) → Task → Bool
task_is_actionable upper t = not (task_is_finished upper t)

unfoldable pub require_id : {W : Type 0} → Task → Exec W String
require_id t w =
    let id = strip t.id in if is_blank id then (err (validation no_id), w) else (ok id, w)

-- The values of a task, as `getattr` gives them.
abbrev pub when_value : Option When → Value
when_value none = null
when_value (some w) = when w

abbrev pub datetime_value : Option Datetime → Value
datetime_value none = null
datetime_value (some d) = when (datetime d)

abbrev pub priority_value : Option ℕ → Value
priority_value none = null
priority_value (some p) = int p

abbrev pub kept : Option Value → Value → Option Value
kept none v = none
kept (some _) v = some v

-- `{key: getattr(obj, key) for key in normalized if key in self._MUTABLE_FIELDS}`
unfoldable pub before_of : Task → Changes → Changes
before_of t c = record {
  summary = kept c.summary (text t.summary);
  description = kept c.description (text t.description);
  start = kept c.start (when_value t.start);
  due = kept c.due (when_value t.due);
  status = kept c.status (text t.status);
  completed = kept c.completed (bool t.completed);
  completed_at = kept c.completed_at (datetime_value t.completed_at);
  priority = kept c.priority (priority_value t.priority);
  categories = kept c.categories (texts t.categories);
  unknown = false;
}

abbrev pub no_changes_yet : Changes
no_changes_yet = record {
  summary = none;
  description = none;
  start = none;
  due = none;
  status = none;
  completed = none;
  completed_at = none;
  priority = none;
  categories = none;
  unknown = false;
}

-- `{"status": status, "completed": completed, "completed_at": completed_at}`
abbrev pub status_changes : String → Bool → Value → Changes
status_changes status completed completed_at = record no_changes_yet {
  status = some (text status);
  completed = some (bool completed);
  completed_at = some completed_at;
}

abbrev pub no_metadata : Metadata
no_metadata = record {
  work_session_before = none;
  work_session_after = none;
  plan = none;
  changed = none;
  created = none;
  deleted = none;
  work_segment = none;
}

pub plan_context : Task → Plan
plan_context t = record { planned_start = t.start; due = t.due; priority = t.priority }

-- The metadata of a change of the work session.
pub transition : String → String → Task → Metadata
transition before after t = record no_metadata {
  work_session_before = some before;
  work_session_after = some after;
  plan = some (plan_context t);
}

abbrev pub found_task : Result Task → Result Task
found_task (err key_error) = err not_found
found_task r = r

abbrev pub same_id : Option String → String → Bool
same_id none id = false
same_id (some current) id = current == id

-- `current_id and current_id != task_id`
abbrev pub is_other : Option String → String → Bool
is_other none id = false
is_other (some current) id = not (is_blank current) && not (current == id)

abbrev pub is_closed : Task → Bool
is_closed t = t.completed || t.status == "COMPLETED" || t.status == "CANCELLED"

-- `"current" if … else "paused" if … else "none"`
unfoldable pub session_word : Option String → List String → String → String
session_word current paused id =
    if same_id current id then "current" else if contains paused id then "paused" else "none"

abbrev pub fast_or_slow : {W : Type 0} → Option Task → Exec W Task → Exec W Task
fast_or_slow (some t) slow = pure t
fast_or_slow none slow = slow

module _ {Store : Type 0} (z : Zones) (a : Adapter Store) where
  abbrev pub Call : Type 0 → Type 0
  Call A = Exec (World Store) A

  -- `list`, with the filter on a status that the service's own calls use.
  pub list : (String → String) → Bool → Option String → World Store → Result (List Task)
  list upper actionable status w = elim (a.list_tasks status w.store) [
    | ok items ↦ ok (if actionable then filter (task_is_actionable upper) items else items)
    | err e ↦ err e
  ]

  unfoldable pub get : Ref → Call Task
  get (object t) w = (ok t, w)
  get (by_id id) w =
      if is_blank (strip id)
      then (err (validation empty_id), w)
      else (found_task (a.get_task (strip id) w.store), w)

  -- The fast writer first; if it declines, the plain update.
  unfoldable pub write : Task → String → Changes → Call Task
  write t id changes = do
    fast ← on_store (a.update_task_from_snapshot t changes)
    fast_or_slow fast (on_store (a.update_task id changes))

  abbrev pub normalized : Bool → Changes → Call Changes
  normalized true changes w = (normalize_changes w.now changes, w)
  normalized false changes w = (ok changes, w)

  abbrev pub remember_if : Bool → Payload → Call Bool
  remember_if true payload = remember payload
  remember_if false payload = pure false

  abbrev pub record_if : Option String → Task → Changes → Changes → Call Unit
  record_if none t before after = pure tt
  record_if (some action) t before after =
      record_activity z action t none (record no_metadata { changed = some (before, after) })

  -- `_update`. Progress messages are left out.
  unfoldable pub update_task : Ref → Changes → Option String → Bool → Bool → Call ActionResult
  update_task ref changes action validate undo = do
    obj ← get ref
    id ← require_id obj
    changes' ← normalized validate changes
    let before = before_of obj changes'
    updated ← write obj id changes'
    undo_available ← remember_if undo (task_update id before changes')
    record_if action updated before changes'
    pure (done updated undo_available)
