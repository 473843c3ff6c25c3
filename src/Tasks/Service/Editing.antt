-- ===== src/Tasks/Service/Editing.antt =====
-- The planning calls of `TaskService`: create, update and delete.
pub mod Suspended
mod Created
pub mod Written
pub mod Restorable
mod Tests
use caldav_assistant_skeleto.Prelude.{
  letters, ℕ, zero, suc, String, Bool, true, false, not, ◌&&◌, ◌||◌, Option, none, some, List, [],
  ◌∷◌, is_none, is_some, is_blank, if◌then◌else◌, ◌==◌,
}
use caldav_assistant_skeleto.Temporal.{Datetime, When, Zones, datetime}
use caldav_assistant_skeleto.Api.{
  Task, Result, ok, err, validation, type_error, fields_with_object, summary_not_text,
  unsupported_fields,
}
use caldav_assistant_skeleto.Effect.{Exec, pure, gets, lift, require, ◌>>=◌, ◌>>◌}
use caldav_assistant_skeleto.Session
use caldav_assistant_skeleto.Tasks.Changes.{
  Value, null, bool, int, negative, text, when, texts, other, Changes, is_empty, validate_summary,
  normalize_changes,
}
use caldav_assistant_skeleto.Tasks.World.{
  Adapter, World, task_create, task_delete, record_activity, session_current_id, session_paused_ids,
  on_session, on_store, remember,
}
use caldav_assistant_skeleto.Tasks.Service.{
  Ref, object, ActionResult, done, require_id, no_metadata, session_word, when_value,
  datetime_value, priority_value, Call, get, update_task,
}

-- The attributes of a `Task` object before they are validated: any values, but for the texts of
-- the description and the id, which the source does not check.
pub record Draft : Type 0 where
  pub id : String
  pub overdue : Bool
  pub stale : Bool
  pub summary : Value
  pub description : String
  pub start : Value
  pub due : Value
  pub status : Value
  pub completed : Value
  pub completed_at : Value
  pub priority : Value
  pub categories : Value

pub draft_of : Task → Draft
draft_of t = record {
  id = t.id;
  overdue = t.overdue;
  stale = t.stale;
  summary = text t.summary;
  description = t.description;
  start = when_value t.start;
  due = when_value t.due;
  status = text t.status;
  completed = bool t.completed;
  completed_at = datetime_value t.completed_at;
  priority = priority_value t.priority;
  categories = texts t.categories;
}

abbrev pub value_or : Option Value → Value → Value
value_or none default = default
value_or (some v) default = v

abbrev pub text_or : Option Value → String → String
text_or (some (text s)) default = s
text_or _ default = default

-- `Task(summary=…, **fields)`, with the defaults of the class.
pub draft_from_fields : String → Changes → Draft
draft_from_fields summary f = record {
  id = "";
  overdue = false;
  stale = false;
  summary = text summary;
  description = text_or f.description "";
  start = value_or f.start null;
  due = value_or f.due null;
  status = value_or f.status (text "NEEDS-ACTION");
  completed = value_or f.completed (bool false);
  completed_at = value_or f.completed_at null;
  priority = value_or f.priority null;
  categories = value_or f.categories (texts []);
}

-- `list(value.categories)`
abbrev pub list_of : Value → Result Value
list_of (texts ts) = ok (texts ts)
list_of (text s) = ok (texts (letters s))
list_of _ = err type_error

-- The truth of a value.
abbrev pub truthy : Value → Bool
truthy null = false
truthy (bool b) = b
truthy (int zero) = false
truthy (int (suc n)) = true
truthy (text s) = not (is_blank s)
truthy (texts []) = false
truthy _ = true

abbrev pub is_completed_status : Value → Bool
is_completed_status (text s) = s == "COMPLETED"
is_completed_status _ = false

-- The status and the completed flag, made to agree.
pub reconcile : Draft → Draft
reconcile d =
    if is_completed_status d.status && not (truthy d.completed)
    then record d { completed = bool true }
    else if truthy d.completed && not (is_completed_status d.status)
    then record d { status = text "COMPLETED" }
    else d

pub all_fields : Draft → Changes
all_fields d = record {
  summary = some d.summary;
  description = some (text d.description);
  start = some d.start;
  due = some d.due;
  status = some d.status;
  completed = some d.completed;
  completed_at = some d.completed_at;
  priority = some d.priority;
  categories = some d.categories;
  unknown = false;
}

abbrev pub to_when : Option Value → Option When
to_when (some (when w)) = some w
to_when _ = none

abbrev pub to_datetime : Option Value → Option Datetime
to_datetime (some (when (datetime d))) = some d
to_datetime _ = none

abbrev pub to_priority : Option Value → Option ℕ
to_priority (some (int n)) = some n
to_priority _ = none

abbrev pub to_bool : Option Value → Bool
to_bool (some (bool b)) = b
to_bool _ = false

abbrev pub to_texts : Option Value → List String
to_texts (some (texts ts)) = ts
to_texts _ = []

-- `setattr(task, name, item)` for each validated field.
pub validated_task : Draft → Changes → Task
validated_task d c = record {
  id = d.id;
  summary = text_or c.summary "";
  description = d.description;
  start = to_when c.start;
  due = to_when c.due;
  status = text_or c.status "";
  completed = to_bool c.completed;
  completed_at = to_datetime c.completed_at;
  priority = to_priority c.priority;
  categories = to_texts c.categories;
  overdue = d.overdue;
  stale = d.stale;
}

-- `Task(**self._snapshot(task))`: the id and the mutable fields, with defaults for the rest.
unfoldable pub snapshot : Task → Task
snapshot t = record t { overdue = false; stale = false }

-- `create` takes a `Task`, or a summary with fields.
pub data NewTask : Type 0 where
  from_task : Task → NewTask
  from_summary : Value → NewTask

module _ {Store : Type 0} (z : Zones) (a : Adapter Store) where
  -- `_copy_for_create`
  pub copy_for_create : Draft → Call z a Task
  copy_for_create d = do
    categories ← lift (list_of d.categories)
    summary ← lift (validate_summary d.summary)
    let d' = reconcile (record d { categories = categories; summary = text summary })
    now ← gets (λ w. w.now)
    validated ← lift (normalize_changes now (all_fields d'))
    pure (validated_task d' validated)

  pub candidate : NewTask → Changes → Call z a Task
  candidate (from_task t) fields = do
    require (is_empty fields) fields_with_object
    copy_for_create (draft_of t)
  candidate (from_summary (text s)) fields = do
    require (not fields.unknown) unsupported_fields
    summary ← lift (validate_summary (text s))
    copy_for_create (draft_from_fields summary fields)
  candidate (from_summary _) fields = λ w. (err (validation summary_not_text), w)

  pub create : NewTask → Changes → Call z a ActionResult
  create new fields = do
    task ← candidate new fields
    created ← on_store (a.create_task task)
    require_id created
    undo_available ← remember (task_create created.id)
    record_activity z "task_created" created none
        (record no_metadata { created = some (snapshot created) })
    pure (done created undo_available)

  -- The name of an update in the journal, by the set of the changed fields.
  unfoldable pub update_action : Changes → String
  update_action c =
      let others =
        is_some c.summary
        || is_some c.description
        || is_some c.status
        || is_some c.completed
        || is_some c.completed_at
        || is_some c.categories
        || c.unknown in
      if others
      then "task_updated"
      else if is_some c.start && is_none c.due && is_none c.priority
      then "task_planned_start_changed"
      else if is_none c.start && is_some c.due && is_none c.priority
      then "task_due_changed"
      else if is_none c.start && is_none c.due && is_some c.priority
      then "task_priority_changed"
      else "task_updated"

  unfoldable pub update : Ref → Changes → Call z a ActionResult
  update ref changes = update_task z a ref changes (some (update_action changes)) true true

  unfoldable pub delete : Ref → Call z a ActionResult
  delete ref = do
    obj ← get z a ref
    id ← require_id obj
    current ← session_current_id a
    paused ← gets session_paused_ids
    let before = session_word current paused id
    on_store (a.delete_task id)
    undo_available ← remember (task_delete id (snapshot obj))
    on_session (λ s. ok (Session.forget obj.id s))
    record_activity z "task_deleted" obj none (record no_metadata {
      work_session_before = some before;
      work_session_after = some "none";
      deleted = some (snapshot obj);
    })
    pure (done obj undo_available)
