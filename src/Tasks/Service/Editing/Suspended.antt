-- ===== src/Tasks/Service/Editing/Suspended.antt =====
-- While the undo manager is suspended, the planning calls leave it as it is.
use caldav_assistant_skeleto.Prelude.{◌≡◌, refl, true, none, some}
use caldav_assistant_skeleto.Temporal.{Zones}
use caldav_assistant_skeleto.Effect.{Exec}
use caldav_assistant_skeleto.Effect.Fixes.{
  Fixes, Fixes-bind, Fixes-pure, Fixes-gets, Fixes-lift, Fixes-require,
}
use caldav_assistant_skeleto.Effect.Runs.{Keeps, Keeps-bind, Keeps-fixed}
use caldav_assistant_skeleto.Tasks.Changes.{
  Changes, text, null, bool, int, negative, when, texts, other,
}
use caldav_assistant_skeleto.Tasks.World.{Adapter, World, Payload, UndoState, remember}
use caldav_assistant_skeleto.Tasks.Service.{Ref, update_task}
use caldav_assistant_skeleto.Tasks.Service.Editing.{
  Draft, NewTask, from_task, from_summary, create, update, delete, candidate, copy_for_create,
}
use caldav_assistant_skeleto.Tasks.Service.Lifecycle.Frames.{
  Fixes-get, Fixes-require_id, Fixes-normalized, Fixes-write, Fixes-on_store, Fixes-on_session,
  Fixes-session_current_id, Fixes-record_activity,
}

module _ {Store : Type 0} (z : Zones) (a : Adapter Store) where
  module _ {X : Type 0} {part : World Store → X} where
    Fixes-copy_for_create : (d : Draft) → Fixes part (copy_for_create z a d)
    unfolding copy_for_create
    Fixes-copy_for_create d = Fixes-bind _ _ (Fixes-lift _) λ categories.
        Fixes-bind _ _ (Fixes-lift _) λ summary.
          Fixes-bind _ _ (Fixes-gets _)
            λ now. Fixes-bind _ _ (Fixes-lift _) λ validated. Fixes-pure _

    pub Fixes-candidate : (new : NewTask) (fields : Changes) → Fixes part (candidate z a new fields)
    unfolding candidate
    Fixes-candidate (from_task t) fields =
        Fixes-bind _ _ (Fixes-require _ _) λ _. Fixes-copy_for_create _
    Fixes-candidate (from_summary (text s)) fields =
        Fixes-bind _ _ (Fixes-require _ _)
          λ _. Fixes-bind _ _ (Fixes-lift _) λ summary. Fixes-copy_for_create _
    Fixes-candidate (from_summary null) fields = record { at = λ w. refl }
    Fixes-candidate (from_summary (bool b)) fields = record { at = λ w. refl }
    Fixes-candidate (from_summary (int n)) fields = record { at = λ w. refl }
    Fixes-candidate (from_summary (negative n)) fields = record { at = λ w. refl }
    Fixes-candidate (from_summary (when w)) fields = record { at = λ w. refl }
    Fixes-candidate (from_summary (texts ts)) fields = record { at = λ w. refl }
    Fixes-candidate (from_summary other) fields = record { at = λ w. refl }

  -- While the manager is suspended, the calls of the task service remember nothing.
  abbrev pub Holds : UndoState → World Store → Type 0
  Holds u w = w.undo ≡ some u

  module _ (u : UndoState) (suspended_now : u.applying ≡ true) where
    still : {A : Type 0} (m : Exec (World Store) A) → Fixes (λ w. w.undo) m → Keeps (Holds u) m
    still m p = Keeps-fixed (λ w. w.undo) (λ o. o ≡ some u) m p

    Keeps-remember : (p : Payload) → Keeps (Holds u) (remember p)
    unfolding remember
    Keeps-remember p = record { at = λ w h. rw (h, suspended_now) refl }

    pub Keeps-update : (ref : Ref) (changes : Changes) → Keeps (Holds u) (update z a ref changes)
    unfolding update update_task
    Keeps-update ref changes = Keeps-bind _ _ (still _ (Fixes-get z a ref)) λ obj.
        Keeps-bind _ _ (still _ (Fixes-require_id obj)) λ id.
          Keeps-bind _ _ (still _ (Fixes-normalized z a true changes)) λ changes'.
            Keeps-bind _ _ (still _ (Fixes-write z a obj id changes' (λ _ _. refl))) λ updated.
              Keeps-bind _ _ (Keeps-remember _) λ undo.
                Keeps-bind _ _ (still _ (Fixes-record_activity z a _ updated none _ (λ _ _. refl)))
                  λ _. still _ (Fixes-pure _)

    pub Keeps-create : (new : NewTask) (fields : Changes) → Keeps (Holds u) (create z a new fields)
    unfolding create
    Keeps-create new fields = Keeps-bind _ _ (still _ (Fixes-candidate new fields)) λ task.
        Keeps-bind _ _ (still _ (Fixes-on_store _ (λ _ _. refl))) λ created.
          Keeps-bind _ _ (still _ (Fixes-require_id created)) λ id.
            Keeps-bind _ _ (Keeps-remember _) λ undo.
              Keeps-bind _ _ (still _ (Fixes-record_activity z a _ created none _ (λ _ _. refl)))
                λ _. still _ (Fixes-pure _)

    pub Keeps-delete : (ref : Ref) → Keeps (Holds u) (delete z a ref)
    unfolding delete
    Keeps-delete ref = Keeps-bind _ _ (still _ (Fixes-get z a ref)) λ obj.
        Keeps-bind _ _ (still _ (Fixes-require_id obj)) λ id.
          Keeps-bind _ _ (still _ (Fixes-session_current_id a (λ _ _. refl))) λ current.
            Keeps-bind _ _ (still _ (Fixes-gets _)) λ paused.
              Keeps-bind _ _ (still _ (Fixes-on_store _ (λ _ _. refl))) λ _.
                Keeps-bind _ _ (Keeps-remember _) λ undo.
                  Keeps-bind _ _ (still _ (Fixes-on_session _ (λ _ _. refl))) λ _.
                    Keeps-bind _ _ (still _ (Fixes-record_activity z a _ obj none _ (λ _ _. refl)))
                      λ _. still _ (Fixes-pure _)
