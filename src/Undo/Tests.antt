-- ===== src/Undo/Tests.antt =====
-- Undos in a small task list, and at a server that holds one task.
use caldav_assistant_skeleto.Prelude.{
  ◌≡◌, refl, sym, ap, ◌∙◌, inl, inr, String, true, false, none, some, List, [], ◌∷◌, strip, filter,
  any, if◌then◌else◌, ◌==◌, Bool-cases,
}
use caldav_assistant_skeleto.Api.{Task, ok, err, key_error}
use caldav_assistant_skeleto.Effect.{◌>>=◌}
use caldav_assistant_skeleto.Session.{
  collect, paused_task_ids, without, recoverable, recover_from, recover_legacy_current_task_id,
  current_task_id, clear_current, unpause, forget,
}
use caldav_assistant_skeleto.Tasks.Changes.{
  Changes, text, validate_summary, is_empty, validate, fill, normalize_changes,
}
use caldav_assistant_skeleto.Tasks.World.{
  Adapter, World, UndoState, task_create, task_delete, remember, record_activity,
  session_current_id, session_paused_ids, on_session, on_store,
}
use caldav_assistant_skeleto.Tasks.Service.{
  by_id, done, before_of, write, update_task, get, require_id, session_word, no_changes_yet,
}
use caldav_assistant_skeleto.Tasks.Service.Editing.{delete, snapshot, update, update_action}
use caldav_assistant_skeleto.Tasks.Service.Editing.Written.{IsPlain, patched}
use caldav_assistant_skeleto.Tasks.Service.Editing.Restorable.{IsSound}
use caldav_assistant_skeleto.Tasks.Sample.{one_clock, memory, quiet, named, noon}
use caldav_assistant_skeleto.Undo.{suspended, inverse, apply, discard, undo_last}
use caldav_assistant_skeleto.Undo.Stack.{Popped, undo_last-Popped}
use caldav_assistant_skeleto.Undo.Restore.{undo_restores}

-- "b" was deleted before "a" was created.
abbrev two : UndoState
two = record {
  payloads = task_create "a" ∷ task_delete "b" (named "b" "NEEDS-ACTION") ∷ [];
  applying = false;
}

abbrev before : World (List Task)
before = record quiet { undo = some two }

-- Undoing the creation deletes the task.
undo_creation : (undo_last one_clock memory before).1.store ≡ named "b" "NEEDS-ACTION" ∷ []
unfolding undo_last apply inverse suspended discard delete snapshot get require_id session_word
    remember record_activity session_current_id session_paused_ids on_session on_store collect
    paused_task_ids without recoverable recover_from recover_legacy_current_task_id current_task_id
    clear_current unpause forget ◌>>=◌ strip filter any
undo_creation = refl

undo_last-Popped_example :
    Popped one_clock memory two
      (undo_last one_clock memory before).0
      (undo_last one_clock memory before).1.undo
undo_last-Popped_example = undo_last-Popped one_clock memory before two refl

-- A server that holds one task.
abbrev single : Adapter Task
single = record {
  list_tasks = λ status s. ok (s ∷ []);
  get_task = λ id s. if s.id == id then ok s else err key_error;
  create_task = λ t s. (ok t, t);
  update_task =
      λ id c s. if s.id == id then (ok (patched c s), patched c s) else (err key_error, s);
  update_task_from_snapshot = λ t c s. (ok (some (patched c s)), patched c s);
  delete_task = λ id s. (ok tt, s);
}

single_writes :
    (id : String) (c : Changes) (s s' t u : Task)
    → single.get_task id s ≡ ok t
    → single.update_task id c s ≡ (ok u, s')
    → (u ≡ patched c t) × (single.get_task id s' ≡ ok u)
single_writes id c s s' t u got wrote = elim (Bool-cases (s.id == id)) [
  | inl e ↦
      let read : ok s ≡ ok t = rw e at got in
      let written : (ok (patched c s), patched c s) ≡ (ok u, s') = rw e at wrote in
      let same : s ≡ t = cc in
      let returned : u ≡ patched c s = cc in
      let stored : s' ≡ patched c s = cc in
      (returned ∙ ap (patched c) same, rw (stored, e) (ap ok (sym returned)))
  | inr e ↦ absurd (let none_read : err key_error ≡ ok t = rw e at got in cc)
]

single_writes_fast :
    (id : String) (c : Changes) (s s' t u : Task)
    → strip t.id ≡ id
    → single.get_task id s ≡ ok t
    → single.update_task_from_snapshot t c s ≡ (ok (some u), s')
    → (u ≡ patched c t) × (single.get_task id s' ≡ ok u)
single_writes_fast id c s s' t u own got wrote = elim (Bool-cases (s.id == id)) [
  | inl e ↦
      let read : ok s ≡ ok t = rw e at got in
      let same : s ≡ t = cc in
      let returned : u ≡ patched c s = cc in
      let stored : s' ≡ patched c s = cc in
      (returned ∙ ap (patched c) same, rw (stored, e) (ap ok (sym returned)))
  | inr e ↦ absurd (let none_read : err key_error ≡ ok t = rw e at got in cc)
]

single-IsPlain : IsPlain single
single-IsPlain = record {
  declines = λ t c s s' h. absurd (cc);
  writes_fast = single_writes_fast;
  writes = single_writes;
}

abbrev renaming : Changes
renaming = record no_changes_yet { summary = some (text "Read") }

abbrev one : World Task
one = record {
  store = named "a" "NEEDS-ACTION";
  session = none;
  journal = none;
  undo = some (record { payloads = []; applying = false });
  now = noon;
}

abbrev renamed : World Task
renamed = (update one_clock single (by_id "a") renaming one).1

abbrev restored : World Task
restored = (undo_last one_clock single renamed).1

renames :
    (normalize_changes noon renaming ≡ ok renaming)
    × ((update one_clock single (by_id "a") renaming one).0
        ≡ ok (done (record (named "a" "NEEDS-ACTION") { summary = "Read" }) true))
    × ((undo_last one_clock single renamed).0
        ≡ ok (record (done (named "a" "NEEDS-ACTION") false) { message = "Undone." }))
    × (strip "a" ≡ "a")
unfolding undo_last apply inverse suspended discard update update_task update_action write before_of
    get require_id validate_summary is_empty validate fill normalize_changes remember
    record_activity on_store ◌>>=◌ strip
renames = (refl, refl, refl, refl)

sound : IsSound (named "a" "NEEDS-ACTION")
unfolding strip
sound = record {
  summary_stripped = refl;
  summary_filled = refl;
  status_known = refl;
  flag_agrees = refl;
  priority_known = refl;
}

undo_restores_example : single.get_task "a" restored.store ≡ ok (named "a" "NEEDS-ACTION")
undo_restores_example =
    ((undo_restores one_clock single single-IsPlain "a" renaming renaming one
          (named "a" "NEEDS-ACTION") (record { payloads = []; applying = false }) refl refl
          renames.3 renames.3 refl sound renames.0 (λ h. absurd (cc))).ends
        _ renamed (λ i. (renames.1 i, renamed))).ends
      _ restored (λ i. (renames.2 i, restored))
