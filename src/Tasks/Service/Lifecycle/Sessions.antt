-- ===== src/Tasks/Service/Lifecycle/Sessions.antt =====
-- The lifecycle calls change the session by the calls of its own methods only.
use caldav_assistant_skeleto.Prelude.{
  ◌≡◌, refl, subst, String, Bool, true, false, Option, none, some,
}
use caldav_assistant_skeleto.Temporal.{Datetime, Zones}
use caldav_assistant_skeleto.Api.{Task, Result, ok, err, not_current, Reason}
use caldav_assistant_skeleto.Effect.{Exec, pure, require, ◌>>◌}
use caldav_assistant_skeleto.Effect.Fixes.{Fixes, Fixes-bind, Fixes-pure, Fixes-gets, Fixes-require}
use caldav_assistant_skeleto.Effect.Runs.{Keeps, Keeps-bind, Keeps-fixed, Keeps-if}
use caldav_assistant_skeleto.Session
use caldav_assistant_skeleto.Session.{SessionState}
use caldav_assistant_skeleto.Session.Invariant.{
  IsConsistent, AllTrimmed, Step, Reach, Reach-IsConsistent, set, pause as paused_by, forget_task,
  look, next,
}
use caldav_assistant_skeleto.Tasks.Changes.{Changes}
use caldav_assistant_skeleto.Tasks.World.{
  Adapter, World, in_process, session_current_id, current_in, on_session, apply_session, settle,
  listed, record_activity, Metadata,
}
use caldav_assistant_skeleto.Tasks.Service.{Ref, ActionResult, get, require_id, update_task}
use caldav_assistant_skeleto.Tasks.Service.Lifecycle.{
  start, pause, switch_away, resume, complete, cancel, never, work_session_before, require_current,
}
use caldav_assistant_skeleto.Tasks.Service.Lifecycle.Journal.{
  Lifecycle, to_start, to_pause, to_switch_away, to_resume, to_complete, to_cancel, run,
}
use caldav_assistant_skeleto.Tasks.Service.Lifecycle.Frames.{
  Fixes-get, Fixes-require_id, Fixes-update_undoable, Fixes-update_quiet, Fixes-record_activity,
}

-- The session, if there is one, is reached by calls of its methods from the empty one.
abbrev pub Reached : Option SessionState → Type 0
Reached none = Unit
Reached (some s) = Reach s

abbrev pub Sound : {Store : Type 0} → World Store → Type 0
Sound w = Reached w.session

-- The tasks that the adapter lists have ids without white space at their ends.
abbrev pub ListsTrimmed : {Store : Type 0} → Adapter Store → Type 0
ListsTrimmed {Store = Store} a =
    (store : Store) → AllTrimmed (listed (a.list_tasks (some "IN-PROCESS") store))

module _ {Store : Type 0} where
  Keeps-still : {A : Type 0} (m : Exec (World Store) A) → Fixes (λ w. w.session) m → Keeps Sound m
  Keeps-still m p = Keeps-fixed (λ w. w.session) Reached m p

  module _ (f : SessionState → Result SessionState)
      (steps : (s t : SessionState) → f s ≡ ok t → Step s t) where
    settled :
        (s : SessionState) (r : Result SessionState) (w : World Store)
        → f s ≡ r
        → Reach s
        → Reached w.session
        → Sound (settle r w).1
    settled s (ok t) w e h k = next h (steps s t e)
    settled s (err x) w e h k = k

    applied-Sound :
        (o : Option SessionState) (w : World Store)
        → w.session ≡ o
        → Reached o
        → Sound (apply_session f o w).1
    applied-Sound none w e h = rw e tt
    applied-Sound (some s) w e h = settled s (f s) w refl h (rw e h)

    Keeps-on_session : Keeps Sound (on_session {Store = Store} f)
    unfolding on_session
    Keeps-on_session = record { at = λ w h. applied-Sound w.session w refl h }

  Keeps-set_current :
      (id : String) → Keeps Sound (on_session {Store = Store} (Session.set_current id))
  Keeps-set_current id = Keeps-on_session _ (λ s t e. set id e)

  Keeps-mark_paused :
      (id : String) → Keeps Sound (on_session {Store = Store} (Session.mark_paused id))
  Keeps-mark_paused id = Keeps-on_session _ (λ s t e. paused_by id e)

  Keeps-forget :
      (id : String) → Keeps Sound (on_session {Store = Store} (never (Session.forget id)))
  Keeps-forget id =
      Keeps-on_session _
        (λ s t e. let same : Session.forget id s ≡ t = cc in subst (Step s) same (forget_task id))

module _ {Store : Type 0} (z : Zones) (a : Adapter Store) (trimmed : ListsTrimmed a) where
  asked-Sound :
      (o : Option SessionState) (w : World Store)
      → w.session ≡ o
      → Reached o
      → Sound (current_in a o w).1
  asked-Sound none w e h = rw e tt
  asked-Sound (some s) w e h = next h (look (in_process a w) (trimmed w.store))

  Keeps-session_current_id : Keeps Sound (session_current_id a)
  unfolding session_current_id
  Keeps-session_current_id = record { at = λ w h. asked-Sound w.session w refl h }

  Keeps-work_session_before : (id : String) → Keeps Sound (work_session_before z a id)
  unfolding work_session_before
  Keeps-work_session_before id =
      Keeps-bind _ _ Keeps-session_current_id
        λ current. Keeps-still _ (Fixes-bind _ _ (Fixes-gets _) λ paused. Fixes-pure _)

  Keeps-require_current : (id : String) → Keeps Sound (require_current z a id)
  Keeps-require_current id = Keeps-bind _ _ (Keeps-still _ (Fixes-gets _)) λ present.
      Keeps-bind _ _
        (Keeps-if present _ _ Keeps-session_current_id (Keeps-still _ (Fixes-pure none)))
        λ current. Keeps-still _ (Fixes-require _ not_current)

  -- The steps that have nothing to do with the session.
  Keeps-get : (ref : Ref) → Keeps Sound (get z a ref)
  Keeps-get ref = Keeps-still _ (Fixes-get z a ref)

  Keeps-require_id : (t : Task) → Keeps {W = World Store} Sound (require_id t)
  Keeps-require_id t = Keeps-still _ (Fixes-require_id t)

  Keeps-require : (b : Bool) (reason : Reason) → Keeps {W = World Store} Sound (require b reason)
  Keeps-require b reason = Keeps-still _ (Fixes-require b reason)

  Keeps-undoable : (ref : Ref) (c : Changes) → Keeps Sound (update_task z a ref c none true true)
  Keeps-undoable ref c = Keeps-still _ (Fixes-update_undoable z a ref c (λ _ _. refl) (λ _ _. refl))

  Keeps-quiet : (ref : Ref) (c : Changes) → Keeps Sound (update_task z a ref c none true false)
  Keeps-quiet ref c = Keeps-still _ (Fixes-update_quiet z a ref c (λ _ _. refl))

  -- The end of each call: the journal entry and the result.
  Keeps-end :
      (action : String) (t : Task) (at : Option Datetime) (m : Metadata) (result : ActionResult)
      → Keeps Sound (record_activity {Store = Store} z action t at m >> pure result)
  Keeps-end action t at m result =
      Keeps-bind _ _ (Keeps-still _ (Fixes-record_activity z a action t at m (λ _ _. refl)))
        λ _. Keeps-still _ (Fixes-pure result)

  run-Keeps : (c : Lifecycle) (ref : Ref) (at : Option Datetime) → Keeps Sound (run z a c ref at)
  unfolding start pause switch_away resume complete cancel
  run-Keeps to_start ref at = Keeps-bind _ _ (Keeps-get ref) λ obj.
      Keeps-bind _ _ (Keeps-require_id obj) λ id. Keeps-bind _ _ (Keeps-require _ _) λ _.
        Keeps-bind _ _ Keeps-session_current_id λ current. Keeps-bind _ _ (Keeps-require _ _) λ _.
          Keeps-bind _ _ (Keeps-require _ _) λ _.
            Keeps-bind _ _ (Keeps-undoable _ _)
              λ result. Keeps-bind _ _ (Keeps-set_current _) λ _. Keeps-end _ _ _ _ _
  run-Keeps to_pause ref at = Keeps-bind _ _ (Keeps-get ref) λ obj.
      Keeps-bind _ _ (Keeps-require_id obj) λ id. Keeps-bind _ _ (Keeps-require _ _) λ _.
        Keeps-bind _ _ (Keeps-require_current id)
          λ _. Keeps-bind _ _ (Keeps-mark_paused _) λ _. Keeps-end _ _ _ _ _
  run-Keeps to_switch_away ref at = Keeps-bind _ _ (Keeps-get ref) λ obj.
      Keeps-bind _ _ (Keeps-require_id obj) λ id. Keeps-bind _ _ (Keeps-require _ _) λ _.
        Keeps-bind _ _ Keeps-session_current_id λ current. Keeps-bind _ _ (Keeps-require _ _) λ _.
          Keeps-bind _ _ (Keeps-quiet _ _)
            λ result. Keeps-bind _ _ (Keeps-forget _) λ _. Keeps-end _ _ _ _ _
  run-Keeps to_resume ref at = Keeps-bind _ _ (Keeps-get ref) λ obj.
      Keeps-bind _ _ (Keeps-require_id obj) λ id. Keeps-bind _ _ (Keeps-require _ _) λ _.
        Keeps-bind _ _ Keeps-session_current_id λ current. Keeps-bind _ _ (Keeps-require _ _) λ _.
          Keeps-bind _ _ (Keeps-still _ (Fixes-gets _)) λ present.
            Keeps-bind _ _ (Keeps-still _ (Fixes-gets _)) λ paused.
              Keeps-bind _ _ (Keeps-require _ _) λ _.
                Keeps-bind _ _ (Keeps-quiet _ _)
                  λ result. Keeps-bind _ _ (Keeps-set_current _) λ _. Keeps-end _ _ _ _ _
  run-Keeps to_complete ref at = Keeps-bind _ _ (Keeps-get ref) λ obj.
      Keeps-bind _ _ (Keeps-require_id obj) λ id.
        Keeps-bind _ _ (Keeps-work_session_before id) λ before.
          Keeps-bind _ _ (Keeps-still _ (Fixes-gets _)) λ completed_at.
            Keeps-bind _ _ (Keeps-undoable _ _)
              λ result. Keeps-bind _ _ (Keeps-forget _) λ _. Keeps-end _ _ _ _ _
  run-Keeps to_cancel ref at = Keeps-bind _ _ (Keeps-get ref) λ obj.
      Keeps-bind _ _ (Keeps-require_id obj) λ id.
        Keeps-bind _ _ (Keeps-work_session_before id) λ before.
          Keeps-bind _ _ (Keeps-undoable _ _)
            λ result. Keeps-bind _ _ (Keeps-forget _) λ _. Keeps-end _ _ _ _ _

  -- With an adapter that lists trimmed ids, and a session that its own methods have led to, every
  -- lifecycle call, whether it returns or raises, ends in a session that its own methods lead to,
  -- in which the current task is not also a paused one.
  pub run-IsConsistent :
      (c : Lifecycle) (ref : Ref) (at : Option Datetime) (w : World Store) (s t : SessionState)
      → w.session ≡ some s
      → Reach s
      → (run z a c ref at w).1.session ≡ some t
      → Reach t × IsConsistent t
  run-IsConsistent c ref at w s t e h k =
      let ends : Reached (some t) = subst Reached k ((run-Keeps c ref at).at w (rw e h)) in
      (ends, Reach-IsConsistent ends)
