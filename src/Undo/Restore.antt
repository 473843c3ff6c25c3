-- ===== src/Undo/Restore.antt =====
-- An undo of an update puts the task back as it was.
use caldav_assistant_skeleto.Prelude.{
  ◌≡◌, refl, sym, ap, ◌∙◌, String, true, false, some, List, ◌∷◌, strip, is_some,
}
use caldav_assistant_skeleto.Temporal.{Datetime, Zones}
use caldav_assistant_skeleto.Api.{Task, ok}
use caldav_assistant_skeleto.Effect.Runs.{Returns, Returns-pure, Returns-bind}
use caldav_assistant_skeleto.Tasks.Changes.{Changes, normalize_changes}
use caldav_assistant_skeleto.Tasks.World.{
  Adapter, World, UndoState, Payload, task_update, remembered,
}
use caldav_assistant_skeleto.Tasks.Service.{by_id, ActionResult, before_of}
use caldav_assistant_skeleto.Tasks.Service.Editing.{update}
use caldav_assistant_skeleto.Tasks.Service.Editing.Written.{
  IsPlain, updated_ok, patched, patched-before,
}
use caldav_assistant_skeleto.Tasks.Service.Editing.Restorable.{IsSound, normalize-before}
use caldav_assistant_skeleto.Undo.{
  with_applying, suspended, inverse, apply, discard, undo_top, undo_from, undo_last,
}

module _ {Store : Type 0} (z : Zones) (a : Adapter Store) (plain : IsPlain a) where
  -- Applying the payload of an update reads and writes the old values.
  module _ (id : String) (d : Changes) (t : Task) (trimmed : strip id ≡ id) (own : strip t.id ≡ id)
      (fits : (now : Datetime) → normalize_changes now (before_of t d) ≡ ok (before_of t d)) where
    abbrev Back : World Store → Type 0
    Back w = a.get_task id w.store ≡ ok t

    inverse_ok :
        (w : World Store)
        → a.get_task id w.store ≡ ok (patched d t)
        → Returns (inverse z a (task_update id (before_of t d) d)) w (λ _ w'. Back w')
    unfolding inverse
    inverse_ok w got = record {
      ends = λ r w' h.
          let (restored, _) =
            (updated_ok z a plain id (before_of t d) (before_of t d) w (patched d t) trimmed own got
                (fits w.now)).ends
              r w' h in
          restored ∙ ap ok (patched-before t d);
    }

    suspended_ok :
        (w : World Store)
        → a.get_task id w.store ≡ ok (patched d t)
        → Returns
            (suspended z a (inverse z a (task_update id (before_of t d) d)))
            w
            (λ _ w'. Back w')
    unfolding suspended
    suspended_ok w got = record {
      ends = λ r w' h.
          let inside : World Store = record w { undo = with_applying true w.undo } in
          let (result, after) = inverse z a (task_update id (before_of t d) d) inside in
          let returned : result ≡ ok r = ap (λ x. x.0) h in
          let back = (inverse_ok inside got).ends r after (λ i. (returned i, after)) in
          ap (λ x. a.get_task id x.1.store) (sym h) ∙ back;
    }

    undo_ok :
        (w : World Store) (u : UndoState) (rest : List Payload)
        → w.undo ≡ some u
        → u.payloads ≡ task_update id (before_of t d) d ∷ rest
        → a.get_task id w.store ≡ ok (patched d t)
        → Returns (undo_last z a) w (λ _ w'. Back w')
    unfolding undo_last apply discard
    undo_ok w u rest e top got = record { ends = λ r w' h. (steps.ends) r w' (at_top r w' h) }
      where
        p : Payload
        p = task_update id (before_of t d) d

        steps : Returns (undo_top z a (p ∷ rest)) w (λ _ w'. Back w')
        steps = Returns-bind _ _ w _ λ r w1 applied. Returns-bind _ _ w1 _ λ _ w2 gone.
            Returns-pure r w2 _ (ap (λ x. a.get_task id x.1.store) (sym gone) ∙ kept r w1 applied)
          where
            kept : (r : ActionResult) (w1 : World Store) → apply z a p w ≡ (ok r, w1) → Back w1
            kept r w1 applied =
                (Returns-bind (suspended z a (inverse z a p)) _ w (λ _ w'. Back w')
                    (λ q w' s. Returns-pure _ w' _ ((suspended_ok w got).ends q w' s))).ends
                  r w1 applied

        at_top :
            (r : ActionResult) (w' : World Store)
            → undo_last z a w ≡ (ok r, w')
            → undo_top z a (p ∷ rest) w ≡ (ok r, w')
        at_top r w' h =
            ap (λ l. undo_top z a l w) (sym top) ∙ ap (λ o. undo_from z a o w) (sym e) ∙ h

  -- With an adapter that sets exactly the fields that it is given, by its fast writer and by the
  -- plain one, and whose fast writer writes nothing when it declines: when an update of a sound task
  -- has returned, an undo that returns leaves the task as it was before the update. The dict of the
  -- update, once normalised, has a status if it has a completed flag; the undo manager was not
  -- suspended; and the ids have no white space at their ends.
  pub undo_restores :
      (id : String) (c d : Changes) (w : World Store) (t : Task) (u : UndoState)
      → w.undo ≡ some u
      → u.applying ≡ false
      → strip id ≡ id
      → strip t.id ≡ id
      → a.get_task id w.store ≡ ok t
      → IsSound t
      → normalize_changes w.now c ≡ ok d
      → (is_some d.completed ≡ true → is_some d.status ≡ true)
      → Returns
          (update z a (by_id id) c)
          w
          (λ _ w1. Returns (undo_last z a) w1 (λ _ w2. a.get_task id w2.store ≡ ok t))
  undo_restores id c d w t u hu running trimmed own got sound normal with_status = record {
    ends = λ r w1 h.
        let (stored, told) = (updated_ok z a plain id c d w t trimmed own got normal).ends r w1 h in
        let p : Payload = task_update id (before_of t d) d in
        let top : (remembered p u).payloads ≡ p ∷ u.payloads = rw running refl in
        undo_ok id d t trimmed own
          (λ now. normalize-before w.now now t c d sound normal with_status) w1 (remembered p u)
          u.payloads (told u hu) top stored;
  }
