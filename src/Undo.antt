-- ===== src/Undo.antt =====
-- internal/undo/service.py: `UndoManager`, for the payloads of the task service.
-- The manager applies a payload by a call of the task service while its `remember` is suspended.
-- Event payloads go the same way to the event service, and are not modelled.
mod Stack
mod Restore
mod Tests
use caldav_assistant_skeleto.Prelude.{Bool, true, false, Option, none, some, List, [], ◌∷◌}
use caldav_assistant_skeleto.Temporal.{Zones}
use caldav_assistant_skeleto.Api.{Result, ok, err, not_found, runtime_error}
use caldav_assistant_skeleto.Effect.{Exec, pure, raise, ◌>>=◌, ◌>>◌}
use caldav_assistant_skeleto.Tasks.World.{
  Adapter, World, Payload, task_create, task_update, task_delete, UndoState,
}
use caldav_assistant_skeleto.Tasks.Service.{by_id, ActionResult, no_changes_yet, Call}
use caldav_assistant_skeleto.Tasks.Service.Editing.{create, update, delete, from_task}

abbrev pub with_applying : Bool → Option UndoState → Option UndoState
with_applying flag none = none
with_applying flag (some u) = some (record u { applying = flag })

abbrev pub applying_of : Option UndoState → Bool
applying_of none = false
applying_of (some u) = u.applying

abbrev pub tail : List Payload → List Payload
tail [] = []
tail (p ∷ ps) = ps

-- `discard` of the entry that `latest` returned.
abbrev pub discarded : Option UndoState → Option UndoState
discarded none = none
discarded (some u) = some (record u { payloads = tail u.payloads })

module _ {Store : Type 0} (z : Zones) (a : Adapter Store) where
  -- `with self._suspended():` restores the flag whether the body returns or raises.
  pub suspended : {A : Type 0} → Call z a A → Call z a A
  suspended body w =
      let (r, w') = body (record w { undo = with_applying true w.undo }) in
      (r, record w' { undo = with_applying (applying_of w.undo) w'.undo })

  pub inverse : Payload → Call z a ActionResult
  inverse (task_create id) = delete z a (by_id id)
  inverse (task_update id before after) = update z a (by_id id) before
  inverse (task_delete id snapshot) = create z a (from_task snapshot) no_changes_yet

  -- `_apply`
  pub apply : Payload → Call z a ActionResult
  apply payload = do
    result ← suspended (inverse payload)
    pure (record result { undo_available = false; message = "Undone." })

  pub discard : Call z a Unit
  discard w = (ok tt, record w { undo = discarded w.undo })

  abbrev pub undo_top : List Payload → Call z a ActionResult
  undo_top [] = raise not_found
  undo_top (p ∷ ps) = do result ← apply p; discard; pure result

  abbrev pub undo_from : Option UndoState → Call z a ActionResult
  undo_from none = raise runtime_error
  undo_from (some u) = undo_top u.payloads

  pub undo_last : Call z a ActionResult
  undo_last w = undo_from w.undo w
