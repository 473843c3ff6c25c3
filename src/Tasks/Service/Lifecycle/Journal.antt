-- ===== src/Tasks/Service/Lifecycle/Journal.antt =====
-- What the lifecycle calls write to the activity journal.
use caldav_assistant_skeleto.Prelude.{
  ◌≡◌, refl, ◌∙◌, String, Option, some, List, [], ◌∷◌, ◌++◌, strip, arith,
}
use caldav_assistant_skeleto.Temporal.{Datetime, Zones}
use caldav_assistant_skeleto.Api.{Task, Error, Result, ok, err}
use caldav_assistant_skeleto.Effect.{Exec, continue, pure, ◌>>=◌, ◌>>◌}
use caldav_assistant_skeleto.Effect.Fixes.{Fixes, Fixes-gets, Fixes-require}
use caldav_assistant_skeleto.Tasks.World.{
  Adapter, World, Activity, Metadata, record_activity, at_or_now,
}
use caldav_assistant_skeleto.Tasks.Service.{Ref, ActionResult, Call, transition}
use caldav_assistant_skeleto.Tasks.Service.Lifecycle.{
  start, pause, switch_away, resume, complete, cancel,
}
use caldav_assistant_skeleto.Tasks.Service.Lifecycle.Frames.{
  Fixes-get, Fixes-require_id, Fixes-session_current_id, Fixes-require_current, Fixes-update_quiet,
  Fixes-update_undoable, Fixes-work_session_before, Fixes-on_session,
}

-- A call that succeeds appends one entry to the journal, with the action and with the state of the
-- work session that it leads to; a call that fails writes nothing to it.
pub record Logs {Store A : Type 0} (action after : String) (m : Exec (World Store) A) : Type 0 where
  pub on_ok :
      (w : World Store) (r : A) (log : List Activity)
      → (m w).0 ≡ ok r
      → w.journal ≡ some log
      → (e : Activity) × ((m w).1.journal ≡ some (log ++ e ∷ []))
        × (e.action ≡ action)
        × (e.metadata.work_session_after ≡ some after)
  pub on_err : (w : World Store) (e : Error) → (m w).0 ≡ err e → (m w).1.journal ≡ w.journal

module _ {Store A B : Type 0} {action after : String} where
  Logs-continue :
      (r : Result A) (f : A → Exec (World Store) B)
      → ((a : A) → Logs action after (f a))
      → Logs action after (continue r f)
  Logs-continue (ok a) f k = k a
  Logs-continue (err e) f k = record { on_ok = λ w r log h. absurd (cc); on_err = λ w e' h. refl }

  Logs-bind :
      (m : Exec (World Store) A) (f : A → Exec (World Store) B)
      → Fixes (λ w. w.journal) m
      → ((a : A) → Logs action after (f a))
      → Logs action after (m >>= f)
  unfolding ◌>>=◌
  Logs-bind m f p k = record {
    on_ok = λ w b log h j. (Logs-continue (m w).0 f k).on_ok (m w).1 b log h (p.at w ∙ j);
    on_err = λ w e h. (Logs-continue (m w).0 f k).on_err (m w).1 e h ∙ p.at w;
  }

module _ {Store A : Type 0} (z : Zones) (action after : String) (t : Task) (at : Option Datetime)
    (m : Metadata) (says : m.work_session_after ≡ some after) (r : A) where
  Logs-record : Logs {Store = Store} action after (record_activity z action t at m >> pure r)
  unfolding record_activity ◌>>=◌
  Logs-record = record {
    on_ok = λ w r' log h j.
        let e : Activity = record {
          timestamp = at_or_now z at w.now;
          action = action;
          object_id = strip t.id;
          metadata = m;
        } in
        (e, ground arith, refl, says);
    on_err = λ w e h. ground arith;
  }

-- The lifecycle calls by name, with the action that each records and the work-session state that
-- it leads to.
pub data Lifecycle : Type 0 where
  to_start to_pause to_switch_away to_resume to_complete to_cancel : Lifecycle

abbrev pub action_of : Lifecycle → String
action_of to_start = "task_started"
action_of to_pause = "task_paused"
action_of to_switch_away = "task_switched_away"
action_of to_resume = "task_resumed"
action_of to_complete = "task_completed"
action_of to_cancel = "task_cancelled"

abbrev pub after_of : Lifecycle → String
after_of to_start = "current"
after_of to_pause = "paused"
after_of to_resume = "current"
after_of _ = "none"

module _ {Store : Type 0} (z : Zones) (a : Adapter Store) where
  abbrev pub run : Lifecycle → Ref → Option Datetime → Call z a ActionResult
  run to_start = start z a
  run to_pause = pause z a
  run to_switch_away = switch_away z a
  run to_resume = resume z a
  run to_complete = complete z a
  run to_cancel = cancel z a

  -- Each lifecycle call that succeeds appends exactly one entry to the journal, with its own action
  -- and work-session state; one that fails, at whatever step, leaves the journal as it was.
  pub run-Logs :
      (c : Lifecycle) (ref : Ref) (at : Option Datetime)
      → Logs (action_of c) (after_of c) (run c ref at)
  unfolding start pause switch_away resume complete cancel transition
  run-Logs to_start ref at = Logs-bind _ _ (Fixes-get z a ref) λ obj.
      Logs-bind _ _ (Fixes-require_id obj) λ id. Logs-bind _ _ (Fixes-require _ _) λ _.
        Logs-bind _ _ (Fixes-session_current_id a (λ w s. refl)) λ current.
          Logs-bind _ _ (Fixes-require _ _) λ _. Logs-bind _ _ (Fixes-require _ _) λ _.
            Logs-bind _ _ (Fixes-update_undoable z a _ _ (λ w s. refl) (λ w u. refl)) λ result.
              Logs-bind _ _ (Fixes-on_session _ (λ w s. refl)) λ _. Logs-record z _ _ _ _ _ refl _
  run-Logs to_pause ref at = Logs-bind _ _ (Fixes-get z a ref) λ obj.
      Logs-bind _ _ (Fixes-require_id obj) λ id. Logs-bind _ _ (Fixes-require _ _) λ _.
        Logs-bind _ _ (Fixes-require_current z a id (λ w s. refl))
          λ _. Logs-bind _ _ (Fixes-on_session _ (λ w s. refl)) λ _. Logs-record z _ _ _ _ _ refl _
  run-Logs to_switch_away ref at = Logs-bind _ _ (Fixes-get z a ref) λ obj.
      Logs-bind _ _ (Fixes-require_id obj) λ id. Logs-bind _ _ (Fixes-require _ _) λ _.
        Logs-bind _ _ (Fixes-session_current_id a (λ w s. refl)) λ current.
          Logs-bind _ _ (Fixes-require _ _) λ _.
            Logs-bind _ _ (Fixes-update_quiet z a _ _ (λ w s. refl)) λ result.
              Logs-bind _ _ (Fixes-on_session _ (λ w s. refl)) λ _. Logs-record z _ _ _ _ _ refl _
  run-Logs to_resume ref at = Logs-bind _ _ (Fixes-get z a ref) λ obj.
      Logs-bind _ _ (Fixes-require_id obj) λ id. Logs-bind _ _ (Fixes-require _ _) λ _.
        Logs-bind _ _ (Fixes-session_current_id a (λ w s. refl)) λ current.
          Logs-bind _ _ (Fixes-require _ _) λ _. Logs-bind _ _ (Fixes-gets _) λ present.
            Logs-bind _ _ (Fixes-gets _) λ paused. Logs-bind _ _ (Fixes-require _ _) λ _.
              Logs-bind _ _ (Fixes-update_quiet z a _ _ (λ w s. refl)) λ result.
                Logs-bind _ _ (Fixes-on_session _ (λ w s. refl)) λ _. Logs-record z _ _ _ _ _ refl _
  run-Logs to_complete ref at = Logs-bind _ _ (Fixes-get z a ref) λ obj.
      Logs-bind _ _ (Fixes-require_id obj) λ id.
        Logs-bind _ _ (Fixes-work_session_before z a id (λ w s. refl)) λ before.
          Logs-bind _ _ (Fixes-gets _) λ completed_at.
            Logs-bind _ _ (Fixes-update_undoable z a _ _ (λ w s. refl) (λ w u. refl)) λ result.
              Logs-bind _ _ (Fixes-on_session _ (λ w s. refl)) λ _. Logs-record z _ _ _ _ _ refl _
  run-Logs to_cancel ref at = Logs-bind _ _ (Fixes-get z a ref) λ obj.
      Logs-bind _ _ (Fixes-require_id obj) λ id.
        Logs-bind _ _ (Fixes-work_session_before z a id (λ w s. refl)) λ before.
          Logs-bind _ _ (Fixes-update_undoable z a _ _ (λ w s. refl) (λ w u. refl)) λ result.
            Logs-bind _ _ (Fixes-on_session _ (λ w s. refl)) λ _. Logs-record z _ _ _ _ _ refl _
