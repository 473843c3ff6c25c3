-- ===== src/Tasks/Service/Lifecycle/Begin.antt =====
-- When `start` returns.
use caldav_assistant_skeleto.Prelude.{
  ◌≡◌, refl, ap, ◌∙◌, String, true, false, Option, none, some, List, is_blank, strip,
}
use caldav_assistant_skeleto.Temporal.{Datetime, Zones}
use caldav_assistant_skeleto.Api.{Task, ok, already_current, other_current}
use caldav_assistant_skeleto.Effect.Succeeds.{Succeeds, Succeeds-bind, Succeeds-require}
use caldav_assistant_skeleto.Session
use caldav_assistant_skeleto.Session.{SessionState, set_current}
use caldav_assistant_skeleto.Tasks.Changes.{
  null, Changes, normalize_changes, validate, fill, is_empty,
}
use caldav_assistant_skeleto.Tasks.World.{
  Adapter, World, Payload, Metadata, in_process, session_current_id, current_in, on_session,
  on_store, record_activity, remember, remember_in, record_in, UndoState, Activity,
}
use caldav_assistant_skeleto.Tasks.Service.{
  object, is_closed, status_changes, get, require_id, write, fast_or_slow, update_task, done,
}
use caldav_assistant_skeleto.Tasks.Service.Lifecycle.{start}

abbrev Any : {A W : Type 0} → A → W → Type 0
Any a w = Unit

module _ {Store : Type 0} (z : Zones) (a : Adapter Store) where
  -- The adapter writes any change of the task, whose id stays. A fast writer may write or decline.
  pub record Accepts (id : String) : Type 0 where
    pub accepts_fast :
        (t : Task) (c : Changes) (s : Store)
        → (o : Option Task) × (s' : Store) × (a.update_task_from_snapshot t c s ≡ (ok o, s'))
          × ((u : Task) → o ≡ some u → strip u.id ≡ id)
    pub accepts :
        (c : Changes) (s : Store)
        → (u : Task) × (s' : Store) × (a.update_task id c s ≡ (ok u, s')) × (strip u.id ≡ id)

  module _ (id : String) (named : is_blank id ≡ false) (adapter : Accepts id) where
    HasId : Task → World Store → Type 0
    HasId u w = (strip u.id ≡ id)

    slow_succeeds :
        (c : Changes) (w : World Store)
        → Succeeds
            (on_store (a.update_task id c))
            w
            (λ u w'. (strip u.id ≡ id) × (w'.session ≡ w.session))
    unfolding on_store
    slow_succeeds c w =
        let (u, s', e, own) = adapter.accepts c w.store in
        (u, record w { store = s' }, (λ i. ((e i).0, record w { store = (e i).1 })), (own, refl))

    after_fast :
        (c : Changes) (w w1 : World Store) (o : Option Task)
        → ((u : Task) → o ≡ some u → strip u.id ≡ id)
        → w1.session ≡ w.session
        → Succeeds
            (fast_or_slow o (on_store (a.update_task id c)))
            w1
            (λ u w'. (strip u.id ≡ id) × (w'.session ≡ w.session))
    after_fast c w w1 none own same = rw (← same) (slow_succeeds c w1)
    after_fast c w w1 (some u) own same = (u, w1, refl, (own u refl, same))

    write_succeeds :
        (t : Task) (c : Changes) (w : World Store)
        → Succeeds (write z a t id c) w (λ u w'. (strip u.id ≡ id) × (w'.session ≡ w.session))
    unfolding write on_store
    write_succeeds t c w =
        let (o, s', e, own) = adapter.accepts_fast t c w.store in
        Succeeds-bind _ _ w
          (λ o w'. ((u : Task) → o ≡ some u → strip u.id ≡ id) × (w'.session ≡ w.session)) _
          (o, record w { store = s' }, (λ i. ((e i).0, record w { store = (e i).1 })), (own, refl))
          λ o w1 (own_o, same). after_fast c w w1 o own_o same

    remember_succeeds :
        (p : Payload) (w : World Store) (o : Option UndoState)
        → Succeeds (remember_in p o) w (λ b w'. w'.session ≡ w.session)
    remember_succeeds p w none = (false, w, refl, refl)
    remember_succeeds p w (some u) = (true, _, refl, refl)

    abbrev started_changes : Changes
    started_changes = status_changes "IN-PROCESS" false null

    update_succeeds :
        (t : Task) (w : World Store)
        → strip t.id ≡ id
        → Succeeds
            (update_task z a (object t) started_changes none true true)
            w
            (λ r w'. (strip r.affected.id ≡ id) × (w'.session ≡ w.session))
    unfolding update_task get require_id normalize_changes validate fill is_empty remember
    update_succeeds t w own =
        Succeeds-bind _ _ w (λ x w'. (x ≡ t) × (w' ≡ w)) _ (t, w, refl, (refl, refl))
          λ x w1 (is_t, at_w).
            rw (is_t, at_w)
              (Succeeds-bind _ _ w (λ y w'. (y ≡ id) × (w' ≡ w)) _
                (id, w, rw (own, named) refl, (refl, refl))
                λ y w2 (is_id, at_w2).
                  rw (is_id, at_w2)
                    (Succeeds-bind _ _ w (λ c w'. (c ≡ started_changes) × (w' ≡ w)) _
                      (started_changes, w, refl, (refl, refl))
                      λ c w3 (same, at_w3).
                        rw (same, at_w3)
                          (Succeeds-bind _ _ w _ _ (write_succeeds t started_changes w)
                            λ u w4 (own_u, s4).
                              Succeeds-bind _ _ w4 _ _ (remember_succeeds _ w4 w4.undo) λ b w5 s5.
                                Succeeds-bind _ _ w5 (λ _ w'. w' ≡ w5) _ (tt, w5, refl, refl)
                                  λ _ w6 at_w5. (
                                    done u b,
                                    w6,
                                    refl,
                                    (own_u, ap (λ (v : World Store). v.session) at_w5 ∙ s5 ∙ s4),
                                  ))))

    set_succeeds :
        (ref : String) (w : World Store) (s : SessionState)
        → strip ref ≡ id
        → w.session ≡ some s
        → Succeeds (on_session (set_current ref)) w (λ _ w'. Unit)
    unfolding on_session set_current
    set_succeeds ref w s own e =
        let returned : (on_session (set_current ref) w).0 ≡ ok tt = rw (e, own, named) refl in
        let after = (on_session (set_current ref) w).1 in
        (tt, after, (λ i. (returned i, after)), tt)

    record_succeeds :
        (action : String) (t : Task) (at : Option Datetime) (m : Metadata) (w : World Store)
        (o : Option (List Activity))
        → strip t.id ≡ id
        → Succeeds (record_in z action t.id at m o) w (λ _ w'. Unit)
    record_succeeds action t at m w none own = (tt, w, refl, tt)
    record_succeeds action t at m w (some log) own =
        let returned : (record_in z action t.id at m (some log) w).0 ≡ ok tt =
          rw (own, named) refl in
        let after = (record_in z action t.id at m (some log) w).1 in
        (tt, after, (λ i. (returned i, after)), tt)

    asked :
        (o : Option SessionState) (w : World Store) (s : SessionState)
        → o ≡ some s
        → (Session.current_task_id s (in_process a w)).1 ≡ none
        → Succeeds
            (current_in a o)
            w
            (λ c w'. (c ≡ none) × (x : SessionState) × (w'.session ≡ some x))
    asked none w s e nobody = absurd (cc)
    asked (some s0) w s e nobody =
        let same : s ≡ s0 = cc in
        let (s', found) = Session.current_task_id s0 (in_process a w) in
        let free : found ≡ none = rw same at nobody in
        let after = record w { session = some s' } in
        (none, after, (λ i. (ok (free i), after)), (refl, s', refl))

    -- With an adapter that accepts every change of the task and keeps its id, by its fast writer or,
    -- where that declines, by the plain one: starting a task that has an id and is neither completed
    -- nor cancelled returns, if the session has no current task; the task of the result has the same
    -- id.
    pub start_succeeds :
        (t : Task) (at : Option Datetime) (w : World Store) (s : SessionState)
        → strip t.id ≡ id
        → is_closed t ≡ false
        → w.session ≡ some s
        → (Session.current_task_id s (in_process a w)).1 ≡ none
        → Succeeds (start z a (object t) at) w (λ r w'. strip r.affected.id ≡ id)
    unfolding start get require_id session_current_id record_activity
    start_succeeds t at w s own open_task hs nobody =
        Succeeds-bind _ _ w (λ x w'. (x ≡ t) × (w' ≡ w)) _ (t, w, refl, (refl, refl))
          λ x w1 (is_t, at_w).
            rw (is_t, at_w)
              (Succeeds-bind _ _ w (λ y w'. (y ≡ id) × (w' ≡ w)) _
                (id, w, rw (own, named) refl, (refl, refl))
                λ y w2 (is_id, at_w2).
                  rw (is_id, at_w2)
                    (Succeeds-require _ _ _ w _ (rw open_task refl) (
                      Succeeds-bind _ _ w _ _ (asked w.session w s hs nobody)
                        λ c w3 (free, s3, hs3). rw free (
                          Succeeds-require _ already_current _ w3 _ refl (
                            Succeeds-require _ other_current _ w3 _ refl (
                              Succeeds-bind _ _ w3 _ _ (update_succeeds t w3 own)
                                λ r w4 (own_r, s4).
                                  Succeeds-bind _ _ w4 _ _
                                    (set_succeeds r.affected.id w4 s3 own_r (s4 ∙ hs3))
                                    λ _ w5 _.
                                      Succeeds-bind _ _ w5 _ _
                                        (record_succeeds _ r.affected at _ w5 w5.journal own_r)
                                        λ _ w6 _. (r, w6, refl, own_r)))))))
