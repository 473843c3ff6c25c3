-- ===== src/Tasks/Service/Lifecycle/Start.antt =====
-- When `start` succeeds, and what it refuses.
use caldav_assistant_skeleto.Prelude.{
  ◌≡◌, refl, sym, ap, ◌∙◌, String, true, false, not, Option, none, some, is_blank, strip, arith,
}
use caldav_assistant_skeleto.Temporal.{Datetime, Zones}
use caldav_assistant_skeleto.Api.{Task, Result, ok, err}
use caldav_assistant_skeleto.Effect.Runs.{
  Returns, Returns-fixed, Returns-bind, Returns-require, Returns-pure,
}
use caldav_assistant_skeleto.Session
use caldav_assistant_skeleto.Session.{SessionState, contains}
use caldav_assistant_skeleto.Session.Current.{current_task_id-filled}
use caldav_assistant_skeleto.Session.Transitions.{
  paused_task_ids-set_current, contains-without_self,
}
use caldav_assistant_skeleto.Tasks.Changes.{null}
use caldav_assistant_skeleto.Tasks.World.{
  Adapter, World, session_current_id, in_process, on_session, settle, record_activity,
}
use caldav_assistant_skeleto.Tasks.Service.{
  Ref, object, status_changes, transition, ActionResult, same_id, is_other, is_closed, get,
  require_id, update_task,
}
use caldav_assistant_skeleto.Tasks.Service.Lifecycle.{start}
use caldav_assistant_skeleto.Tasks.Service.Lifecycle.Frames.{
  Fixes-get, Fixes-require_id, Fixes-update_undoable, Fixes-record_activity,
}

applied :
    {Store : Type 0} (r : Result SessionState) (w w' : World Store) (u : Unit)
    → settle r w ≡ (ok u, w')
    → (s' : SessionState) × (r ≡ ok s') × (w'.session ≡ some s')
applied (ok s') w w' u h = (s', refl, ap (λ t. t.1.session) (sym h))
applied (err e) w w' u h = absurd (cc)

-- With neither the task itself nor another one current, nothing is current.
no_current :
    (current : Option String) (id : String)
    → ((c : String) → current ≡ some c → is_blank c ≡ false)
    → not (same_id current id) ≡ true
    → not (is_other current id) ≡ true
    → current ≡ none
no_current none id filled h k = refl
no_current (some c) id filled h k = ground (arith, filled c refl)

module _ {Store : Type 0} (z : Zones) (a : Adapter Store) where
  -- The session was asked for its current task.
  looked_up :
      (w w' : World Store) (s : SessionState) (found : Option String)
      → w.session ≡ some s
      → session_current_id a w ≡ (ok found, w')
      → (found ≡ (Session.current_task_id s (in_process a w)).1)
        × (w'.session ≡ some (Session.current_task_id s (in_process a w)).0)
  unfolding session_current_id
  looked_up w w' s found h e = ground arith

  -- A session call returned.
  session_set :
      (f : SessionState → Result SessionState) (w w' : World Store) (s : SessionState) (u : Unit)
      → w.session ≡ some s
      → on_session f w ≡ (ok u, w')
      → (s' : SessionState) × (f s ≡ ok s') × (w'.session ≡ some s')
  unfolding on_session
  session_set f w w' s u h e = applied (f s) w w' u (ground arith)

  -- The condition that `start_ok` ends in.
  abbrev pub Started : Ref → World Store → SessionState → ActionResult → World Store → Type 0
  Started ref w s r w' =
      (t : Task) × (get z a ref w ≡ (ok t, w))
      × (is_closed t ≡ false)
      × ((Session.current_task_id s (in_process a w)).1 ≡ none)
      × (s' : SessionState) × (w'.session ≡ some s')
      × (s'.current ≡ some (strip r.affected.id))
      × (contains (Session.paused_task_ids s') (strip r.affected.id) ≡ false)

  not_closed : (t : Task) → not (is_closed t) ≡ true → is_closed t ≡ false
  not_closed t h = ground arith

  started :
      (ref : Ref) (at : Option Datetime) (w : World Store) (s : SessionState) (t : Task)
      (id : String) (found : Option String) (result : ActionResult) (u v : Unit)
      (w4 w7 w8 w9 : World Store)
      → w.session ≡ some s
      → get z a ref w ≡ (ok t, w)
      → not (is_closed t) ≡ true
      → session_current_id a w ≡ (ok found, w4)
      → not (same_id found id) ≡ true
      → not (is_other found id) ≡ true
      → update_task z a (object t) (status_changes "IN-PROCESS" false null) none true true w4
        ≡ (ok result, w7)
      → on_session (Session.set_current result.affected.id) w7 ≡ (ok u, w8)
      → record_activity z "task_started" result.affected at (transition "none" "current" t) w8
        ≡ (ok v, w9)
      → Started ref w s result w9
  started ref at w s t id found result u v w4 w7 w8 w9 hs got open_task looked distinct alone
        updated set recorded =
      let (word, state) = looked_up w w4 s found hs looked in
      let filled = current_task_id-filled s (in_process a w) in
      let nobody : found ≡ none =
        no_current found id (λ c e. filled c (sym word ∙ e)) distinct alone in
      let kept : w7.session ≡ w4.session =
        ap (λ r. r.1.session) (sym updated)
        ∙ (Fixes-update_undoable {part = λ y. y.session} z a (object t) _ (λ _ _. refl)
              (λ _ _. refl)).at
            w4 in
      let (s', made, state8) = session_set _ w7 w8 _ u (kept ∙ state) set in
      let kept9 : w9.session ≡ w8.session =
        ap (λ r. r.1.session) (sym recorded)
        ∙ (Fixes-record_activity {part = λ y. y.session} z a "task_started" result.affected at _
              (λ _ _. refl)).at
            w8 in
      let (now, ids) = paused_task_ids-set_current result.affected.id _ s' made in
      (
        t,
        got,
        not_closed t open_task,
        sym word ∙ nobody,
        s',
        kept9 ∙ state8,
        now,
        rw ids (contains-without_self (strip result.affected.id) _),
      )

  -- A start that returns was of a task that is neither completed nor cancelled, at a moment when
  -- the session had no current task; the task that the adapter wrote is then the current one and
  -- is not among the paused ones.
  pub start_ok :
      (ref : Ref) (at : Option Datetime) (w : World Store) (s : SessionState)
      → w.session ≡ some s
      → Returns (start z a ref at) w (Started ref w s)
  unfolding start
  start_ok ref at w s hs = Returns-fixed (get z a ref) _ w _ (Fixes-get z a ref) λ t got.
      Returns-fixed (require_id t) _ w _ (Fixes-require_id t) λ id _.
        Returns-require _ _ _ w _ λ open_task.
          Returns-bind (session_current_id a) _ w _ λ found w4 looked.
            Returns-require _ _ _ w4 _ λ distinct. Returns-require _ _ _ w4 _ λ alone.
              Returns-bind _ _ w4 _ λ result w7 updated. Returns-bind _ _ w7 _ λ u w8 set.
                Returns-bind _ _ w8 _ λ v w9 recorded. Returns-pure result w9 _ (
                  started ref at w s t id found result u v w4 w7 w8 w9 hs got open_task looked
                    distinct alone updated set recorded)
