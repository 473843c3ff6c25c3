-- ===== src/Tasks/Service/Lifecycle/Finish.antt =====
-- The calls that end the work on a task.
use caldav_assistant_skeleto.Prelude.{
  ◌≡◌, ◌≢◌, refl, sym, ap, ◌∙◌, String, false, Option, none, some, strip,
}
use caldav_assistant_skeleto.Temporal.{Datetime, Zones}
use caldav_assistant_skeleto.Api.{ok}
use caldav_assistant_skeleto.Effect.{pure, ◌>>◌}
use caldav_assistant_skeleto.Effect.Runs.{Returns, Returns-bind, Returns-require, Returns-pure}
use caldav_assistant_skeleto.Session
use caldav_assistant_skeleto.Session.{SessionState, contains}
use caldav_assistant_skeleto.Session.Transitions.{forget-Gone}
use caldav_assistant_skeleto.Tasks.World.{
  Adapter, World, on_session, apply_session, record_activity, Metadata,
}
use caldav_assistant_skeleto.Tasks.Service.{Ref, ActionResult}
use caldav_assistant_skeleto.Tasks.Service.Lifecycle.{never, switch_away, complete, cancel}
use caldav_assistant_skeleto.Tasks.Service.Lifecycle.Frames.{Fixes-record_activity}

-- Neither the current task nor a paused one.
abbrev pub Gone : String → Option SessionState → Type 0
Gone id none = Unit
Gone id (some s) =
    (s.current ≢ some (strip id)) × (contains (Session.paused_task_ids s) (strip id) ≡ false)

abbrev pub Finished : {Store : Type 0} → ActionResult → World Store → Type 0
Finished r w = Gone r.affected.id w.session

module _ {Store : Type 0} (z : Zones) (a : Adapter Store) where
  forgotten :
      (id : String) (o : Option SessionState) (w w' : World Store) (u : Unit)
      → w.session ≡ o
      → apply_session (never (Session.forget id)) o w ≡ (ok u, w')
      → Gone id w'.session
  forgotten id none w w' u e h = rw (← ap (λ r. r.1.session) h, e) tt
  forgotten id (some s) w w' u e h = rw (← ap (λ r. r.1.session) h) (forget-Gone id s)

  forget_session :
      (id : String) (w w' : World Store) (u : Unit)
      → on_session (never (Session.forget id)) w ≡ (ok u, w')
      → Gone id w'.session
  unfolding on_session
  forget_session id w w' u h = forgotten id w.session w w' u refl h

  -- The end that the three calls share.
  Returns-end :
      (r : ActionResult) (action : String) (at : Option Datetime) (m : Metadata) (w : World Store)
      → Returns
          (on_session (never (Session.forget r.affected.id))
            >> (record_activity z action r.affected at m >> pure r))
          w
          Finished
  Returns-end r action at m w = Returns-bind _ _ w _ λ u w1 forgot.
      Returns-bind _ _ w1 _ λ v w2 recorded.
        let kept : w2.session ≡ w1.session =
          ap (λ t. t.1.session) (sym recorded)
          ∙ (Fixes-record_activity {part = λ y. y.session} z a action r.affected at m
                (λ _ _. refl)).at
              w1 in
        Returns-pure r w2 _ (rw kept (forget_session r.affected.id w w1 u forgot))

  -- After a switch away, a completion or a cancellation that returns, the task that the adapter
  -- wrote is neither the current task of the session nor one of its paused tasks.
  pub finish_ok :
      (ref : Ref) (at : Option Datetime) (w : World Store)
      → Returns (switch_away z a ref at) w Finished
        × Returns (complete z a ref at) w Finished
        × Returns (cancel z a ref at) w Finished
  unfolding switch_away complete cancel
  finish_ok ref at w = (
    Returns-bind _ _ w _ λ t w1 _. Returns-bind _ _ w1 _ λ id w2 _. Returns-require _ _ _ w2 _ λ _.
        Returns-bind _ _ w2 _ λ current w3 _.
          Returns-require _ _ _ w3 _ λ _. Returns-bind _ _ w3 _ λ r w4 _. Returns-end r _ at _ w4,
    Returns-bind _ _ w _ λ t w1 _. Returns-bind _ _ w1 _ λ id w2 _.
        Returns-bind _ _ w2 _ λ before w3 _.
          Returns-bind _ _ w3 _
            λ completed_at w4 _. Returns-bind _ _ w4 _ λ r w5 _. Returns-end r _ at _ w5,
    Returns-bind _ _ w _ λ t w1 _. Returns-bind _ _ w1 _ λ id w2 _.
        Returns-bind _ _ w2 _
          λ before w3 _. Returns-bind _ _ w3 _ λ r w4 _. Returns-end r _ at _ w4,
  )
