-- ===== src/Tasks/Service/Editing/Created.antt =====
-- The task that `create` hands to the adapter.
use caldav_assistant_skeleto.Prelude.{
  ◌≡◌, refl, sym, ap, ◌∙◌, String, true, false, some, is_blank, strip, ◌==◌,
}
use caldav_assistant_skeleto.Temporal.{Zones}
use caldav_assistant_skeleto.Api.{Task, ok}
use caldav_assistant_skeleto.Effect.Runs.{
  Returns, Returns-pure, Returns-bind, Returns-fixed, Returns-require,
}
use caldav_assistant_skeleto.Effect.Fixes.{Fixes-lift, Fixes-gets}
use caldav_assistant_skeleto.Tasks.Changes.{
  null, bool, int, negative, text, when, texts, other, Changes, is_status, normalize_changes,
}
use caldav_assistant_skeleto.Tasks.Changes.Full.{normalize-full}
use caldav_assistant_skeleto.Tasks.World.{Adapter, World, on_store}
use caldav_assistant_skeleto.Tasks.Service.{ActionResult}
use caldav_assistant_skeleto.Tasks.Service.Editing.{
  Draft, NewTask, from_task, from_summary, to_bool, text_or, reconcile, all_fields, validated_task,
  copy_for_create, candidate, create,
}
use caldav_assistant_skeleto.Tasks.Service.Editing.Suspended.{Fixes-candidate}

-- A task that passes the checks: a stripped summary that is not empty, one of the four statuses,
-- and the completed flag set exactly when the status says so.
pub record WellFormed (t : Task) : Type 0 where
  summary_stripped : strip t.summary ≡ t.summary
  summary_filled : is_blank t.summary ≡ false
  status_known : is_status t.status ≡ true
  flag_agrees : t.completed ≡ (t.status == "COMPLETED")

validated-WellFormed :
    (d : Draft) (c : Changes) (status summary : String)
    → c.status ≡ some (text status)
    → is_status status ≡ true
    → c.completed ≡ some (bool (status == "COMPLETED"))
    → c.summary ≡ some (text summary)
    → strip summary ≡ summary
    → is_blank summary ≡ false
    → WellFormed (validated_task d c)
unfolding validated_task
validated-WellFormed d c status summary e known flag f stripped filled =
    let status_is : text_or c.status "" ≡ status = ap (λ o. text_or o "") e in
    let summary_is : text_or c.summary "" ≡ summary = ap (λ o. text_or o "") f in
    record {
      summary_stripped = ap strip summary_is ∙ stripped ∙ sym summary_is;
      summary_filled = ap is_blank summary_is ∙ filled;
      status_known = ap is_status status_is ∙ known;
      flag_agrees = ap to_bool flag ∙ ap (λ s. s == "COMPLETED") (sym status_is);
    }

module _ {Store : Type 0} (z : Zones) (a : Adapter Store) where
  copy-WellFormed :
      (d : Draft) (w : World Store) → Returns (copy_for_create z a d) w (λ t _. WellFormed t)
  unfolding copy_for_create all_fields
  copy-WellFormed d w = Returns-fixed _ _ w _ (Fixes-lift _) λ categories _.
      Returns-fixed _ _ w _ (Fixes-lift _) λ summary _.
        Returns-fixed _ _ w _ (Fixes-gets _) λ now _. Returns-fixed _ _ w _ (Fixes-lift _) λ c made.
          let d' = reconcile (record d { categories = categories; summary = text summary }) in
          let normal : normalize_changes now (all_fields d') ≡ ok c = ap (λ r. r.0) made in
          let (status, title, e, known, flag, f, stripped, filled, _) =
            normalize-full now (all_fields d') c normal refl refl in
          Returns-pure _ w _ (validated-WellFormed d' c status title e known flag f stripped filled)

  candidate-WellFormed :
      (new : NewTask) (fields : Changes) (w : World Store)
      → Returns (candidate z a new fields) w (λ t _. WellFormed t)
  unfolding candidate
  candidate-WellFormed (from_task t) fields w = Returns-require _ _ _ w _ λ _. copy-WellFormed _ w
  candidate-WellFormed (from_summary (text s)) fields w =
      Returns-require _ _ _ w _
        λ _. Returns-fixed _ _ w _ (Fixes-lift _) λ summary _. copy-WellFormed _ w
  candidate-WellFormed (from_summary null) fields w = record { ends = λ t w' h. absurd (cc) }
  candidate-WellFormed (from_summary (bool b)) fields w = record { ends = λ t w' h. absurd (cc) }
  candidate-WellFormed (from_summary (int n)) fields w = record { ends = λ t w' h. absurd (cc) }
  candidate-WellFormed (from_summary (negative n)) fields w = record {
    ends = λ t w' h. absurd (cc);
  }
  candidate-WellFormed (from_summary (when x)) fields w = record { ends = λ t w' h. absurd (cc) }
  candidate-WellFormed (from_summary (texts ts)) fields w = record { ends = λ t w' h. absurd (cc) }
  candidate-WellFormed (from_summary other) fields w = record { ends = λ t w' h. absurd (cc) }

  -- What a creation did: it handed a well-formed task to the adapter, and returns the adapter's.
  abbrev pub Created : World Store → ActionResult → World Store → Type 0
  Created w r w' = (t : Task) × WellFormed t × ((a.create_task t w.store).0 ≡ ok r.affected)

  stored_ok :
      (t created : Task) (w w' : World Store)
      → on_store (a.create_task t) w ≡ (ok created, w')
      → (a.create_task t w.store).0 ≡ ok created
  unfolding on_store
  stored_ok t created w w' h = ap (λ r. r.0) h

  -- A creation that returns has handed to the adapter a task with a stripped summary that is not
  -- empty, one of the four statuses, and a completed flag that agrees with the status; and it
  -- returns the task that the adapter made of it.
  pub create_ok :
      (new : NewTask) (fields : Changes) (w : World Store)
      → Returns (create z a new fields) w (Created w)
  unfolding create
  create_ok new fields w =
      Returns-fixed (candidate z a new fields) _ w _ (Fixes-candidate z a new fields) λ t given.
        Returns-bind _ _ w _ λ created w1 wrote. Returns-bind _ _ w1 _ λ id w2 _.
          Returns-bind _ _ w2 _ λ undo w3 _. Returns-bind _ _ w3 _ λ _ w4 _.
            Returns-pure _ w4 _ (
              t,
              (candidate-WellFormed new fields w).ends t w given,
              stored_ok t created w w1 wrote,
            )
