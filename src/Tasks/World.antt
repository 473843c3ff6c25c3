-- ===== src/Tasks/World.antt =====
-- What the task service holds: the CalDAV adapter's side, the session, the activity journal and
-- the undo manager, with the calls that the service makes of them.
-- The adapter talks to a server that is not part of the repository: a parameter.
use caldav_assistant_skeleto.Prelude.{
  ℕ, String, Bool, true, false, Option, none, some, List, [], ◌∷◌, ◌++◌, is_blank, strip,
  if◌then◌else◌,
}
use caldav_assistant_skeleto.Temporal.{Datetime, When, Zones, astimezone}
use caldav_assistant_skeleto.Api.{Task, Result, ok, err, validation, no_object_id}
use caldav_assistant_skeleto.Effect.{Exec}
use caldav_assistant_skeleto.Session
use caldav_assistant_skeleto.Session.{SessionState}
use caldav_assistant_skeleto.Tasks.Changes.{Changes}

-- internal/caldav/adapter.py, with the optional fast writer of the production adapter. A list may
-- be asked for one status. `update_task_from_snapshot` may decline, by `none`.
pub record Adapter (Store : Type 0) : Type 0 where
  pub list_tasks : Option String → Store → Result (List Task)
  pub get_task : String → Store → Result Task
  pub create_task : Task → Store → Result Task × Store
  pub update_task : String → Changes → Store → Result Task × Store
  pub update_task_from_snapshot : Task → Changes → Store → Result (Option Task) × Store
  pub delete_task : String → Store → Result (Unit {0}) × Store

-- The payloads that `remember` stores.
pub data Payload : Type 0 where
  task_create : String → Payload
  task_update : String → Changes → Changes → Payload
  task_delete : String → Task → Payload

-- The undo repository, newest entry first, and the flag `_applying` of the manager.
pub record UndoState : Type 0 where
  pub payloads : List Payload
  pub applying : Bool

-- `_plan_context`
pub record Plan : Type 0 where
  pub planned_start : Option When
  pub due : Option When
  pub priority : Option ℕ

-- `_closed_segment_metadata`
pub record WorkSegment : Type 0 where
  pub start : When
  pub end : When
  pub event_id : Option String

-- The metadata of a journal entry, by its keys.
pub record Metadata : Type 0 where
  pub work_session_before : Option String
  pub work_session_after : Option String
  pub plan : Option Plan
  pub changed : Option (Changes × Changes)
  pub created : Option Task
  pub deleted : Option Task
  pub work_segment : Option WorkSegment

pub record Activity : Type 0 where
  pub timestamp : Datetime
  pub action : String
  pub object_id : String
  pub metadata : Metadata

-- Each of the three collaborators may be missing. `now` is what the clock says, in UTC.
pub record World (Store : Type 0) : Type 0 where
  pub store : Store
  pub session : Option SessionState
  pub journal : Option (List Activity)
  pub undo : Option UndoState
  pub now : Datetime

abbrev pub remembered : Payload → UndoState → UndoState
remembered payload u = if u.applying then u else record u { payloads = payload ∷ u.payloads }

abbrev pub at_or_now : Zones → Option Datetime → Datetime → Datetime
at_or_now z none now = now
at_or_now z (some at) now = astimezone z z.utc at

abbrev pub listed : Result (List Task) → Option (List Task)
listed (ok tasks) = some tasks
listed (err e) = none

abbrev pub paused_in : Option SessionState → List String
paused_in none = []
paused_in (some s) = Session.paused_task_ids s

module _ {Store : Type 0} where
  -- `UndoManager.remember`
  abbrev pub remember_in : Payload → Option UndoState → World Store → Result Bool × World Store
  remember_in payload none w = (ok false, w)
  remember_in payload (some u) w = (ok true, record w { undo = some (remembered payload u) })

  -- `TaskService._remember`: true with an undo manager, whatever that does with the payload.
  unfoldable pub remember : Payload → Exec (World Store) Bool
  remember payload w = remember_in payload w.undo w

  abbrev pub record_in :
      Zones
      → String
      → String
      → Option Datetime
      → Metadata
      → Option (List Activity)
      → World Store
      → Result (Unit {0}) × World Store
  record_in z action object_id at metadata none w = (ok tt, w)
  record_in z action object_id at metadata (some log) w =
      if is_blank (strip object_id) then (err (validation no_object_id), w) else (
        ok tt,
        record w {
          journal = some (
              log
              ++ record {
                timestamp = at_or_now z at w.now;
                action = action;
                object_id = strip object_id;
                metadata = metadata;
              }
                ∷ []);
        },
      )

  -- `TaskService._record`, and `ActivityService._record_value` behind it. An entry that is
  -- persisted also runs extension hooks, whose failures are caught.
  unfoldable pub record_activity :
      Zones → String → Task → Option Datetime → Metadata → Exec (World Store) (Unit {0})
  record_activity z action t at metadata w = record_in z action t.id at metadata w.journal w

  -- What `self.tasks.list(status="IN-PROCESS")` gives the session.
  abbrev pub in_process : Adapter Store → World Store → Option (List Task)
  in_process a w = listed (a.list_tasks (some "IN-PROCESS") w.store)

  abbrev pub current_in :
      Adapter Store → Option SessionState → World Store → Result (Option String) × World Store
  current_in a none w = (ok none, w)
  current_in a (some s) w =
      let (s', found) = Session.current_task_id s (in_process a w) in
      (ok found, record w { session = some s' })

  -- `_session_current_id`
  unfoldable pub session_current_id : Adapter Store → Exec (World Store) (Option String)
  session_current_id a w = current_in a w.session w

  -- `_session_paused_ids`
  unfoldable pub session_paused_ids : World Store → List String
  session_paused_ids w = paused_in w.session

  abbrev pub settle : Result SessionState → World Store → Result (Unit {0}) × World Store
  settle (ok s') w = (ok tt, record w { session = some s' })
  settle (err e) w = (err e, w)

  abbrev pub apply_session :
      (SessionState → Result SessionState)
      → Option SessionState
      → World Store
      → Result (Unit {0}) × World Store
  apply_session f none w = (ok tt, w)
  apply_session f (some s) w = settle (f s) w

  -- A call of the session, if there is one.
  unfoldable pub on_session : (SessionState → Result SessionState) → Exec (World Store) (Unit {0})
  on_session f w = apply_session f w.session w

  abbrev pub on_store_in : {A : Type 0} → Result A × Store → World Store → Result A × World Store
  on_store_in (r, store') w = (r, record w { store = store' })

  -- A call of the adapter that may write.
  unfoldable pub on_store : {A : Type 0} → (Store → Result A × Store) → Exec (World Store) A
  on_store f w = on_store_in (f w.store) w
