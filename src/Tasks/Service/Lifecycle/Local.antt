-- ===== src/Tasks/Service/Lifecycle/Local.antt =====
-- Which lifecycle calls touch the CalDAV side and the undo manager.
use caldav_assistant_skeleto.Prelude.{◌≡◌, refl, Option}
use caldav_assistant_skeleto.Temporal.{Datetime, Zones}
use caldav_assistant_skeleto.Effect.Fixes.{Fixes, Fixes-bind, Fixes-pure, Fixes-gets, Fixes-require}
use caldav_assistant_skeleto.Tasks.World.{Adapter, World}
use caldav_assistant_skeleto.Tasks.Service.{Ref}
use caldav_assistant_skeleto.Tasks.Service.Lifecycle.{pause, switch_away, resume}
use caldav_assistant_skeleto.Tasks.Service.Lifecycle.Frames.{
  IgnoresSession, IgnoresJournal, IgnoresStore, Fixes-get, Fixes-require_id,
  Fixes-session_current_id, Fixes-require_current, Fixes-update_quiet, Fixes-on_session,
  Fixes-record_activity,
}

module _ {Store : Type 0} (z : Zones) (a : Adapter Store) (ref : Ref) (at : Option Datetime) where
  module _ {X : Type 0} (part : World Store → X) (s : IgnoresSession part)
      (j : IgnoresJournal part) where
    Fixes-pause : Fixes part (pause z a ref at)
    unfolding pause
    Fixes-pause = Fixes-bind _ _ (Fixes-get z a ref) λ obj.
        Fixes-bind _ _ (Fixes-require_id obj) λ id. Fixes-bind _ _ (Fixes-require _ _) λ _.
          Fixes-bind _ _ (Fixes-require_current z a id s) λ _.
            Fixes-bind _ _ (Fixes-on_session _ s)
              λ _. Fixes-bind _ _ (Fixes-record_activity z a _ _ _ _ j) λ _. Fixes-pure _

    Fixes-switch_away : IgnoresStore part → Fixes part (switch_away z a ref at)
    unfolding switch_away
    Fixes-switch_away i = Fixes-bind _ _ (Fixes-get z a ref) λ obj.
        Fixes-bind _ _ (Fixes-require_id obj) λ id. Fixes-bind _ _ (Fixes-require _ _) λ _.
          Fixes-bind _ _ (Fixes-session_current_id a s) λ current.
            Fixes-bind _ _ (Fixes-require _ _) λ _.
              Fixes-bind _ _ (Fixes-update_quiet z a _ _ i) λ result.
                Fixes-bind _ _ (Fixes-on_session _ s)
                  λ _. Fixes-bind _ _ (Fixes-record_activity z a _ _ _ _ j) λ _. Fixes-pure _

    Fixes-resume : IgnoresStore part → Fixes part (resume z a ref at)
    unfolding resume
    Fixes-resume i = Fixes-bind _ _ (Fixes-get z a ref) λ obj.
        Fixes-bind _ _ (Fixes-require_id obj) λ id. Fixes-bind _ _ (Fixes-require _ _) λ _.
          Fixes-bind _ _ (Fixes-session_current_id a s) λ current.
            Fixes-bind _ _ (Fixes-require _ _) λ _. Fixes-bind _ _ (Fixes-gets _) λ present.
              Fixes-bind _ _ (Fixes-gets _) λ paused. Fixes-bind _ _ (Fixes-require _ _) λ _.
                Fixes-bind _ _ (Fixes-update_quiet z a _ _ i) λ result.
                  Fixes-bind _ _ (Fixes-on_session _ s)
                    λ _. Fixes-bind _ _ (Fixes-record_activity z a _ _ _ _ j) λ _. Fixes-pure _

  -- Pausing writes nothing to the CalDAV side and nothing to the undo manager; switching away and
  -- resuming write nothing to the undo manager. So it is whether the calls return or raise.
  pub lifecycle_local :
      (w : World Store)
      → ((pause z a ref at w).1.store ≡ w.store)
        × ((pause z a ref at w).1.undo ≡ w.undo)
        × ((switch_away z a ref at w).1.undo ≡ w.undo)
        × ((resume z a ref at w).1.undo ≡ w.undo)
  lifecycle_local w = (
    (Fixes-pause (λ v. v.store) (λ _ _. refl) (λ _ _. refl)).at w,
    (Fixes-pause (λ v. v.undo) (λ _ _. refl) (λ _ _. refl)).at w,
    (Fixes-switch_away (λ v. v.undo) (λ _ _. refl) (λ _ _. refl) (λ _ _. refl)).at w,
    (Fixes-resume (λ v. v.undo) (λ _ _. refl) (λ _ _. refl) (λ _ _. refl)).at w,
  )
