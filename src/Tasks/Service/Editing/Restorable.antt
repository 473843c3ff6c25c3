-- ===== src/Tasks/Service/Editing/Restorable.antt =====
-- The old values of a sound task, as a dict of changes, pass the checks as they are.
use caldav_assistant_skeleto.Prelude.{
  ◌≡◌, refl, sym, ap, ◌∙◌, String, Bool, true, false, Option, none, some, is_blank, strip, is_none,
  is_some, arith, ◌==◌, eq_iff,
}
use caldav_assistant_skeleto.Temporal.{Datetime, When}
use caldav_assistant_skeleto.Api.{Task, ok}
use caldav_assistant_skeleto.Tasks.Changes.{
  Value, bool, text, texts, Changes, is_empty, validate_summary, normal_summary, valid_date,
  valid_completed_at, valid_completed, valid_priority, valid_categories, valid_status, is_status,
  says_completed, denies, overclaims, normalize_changes,
}
use caldav_assistant_skeleto.Tasks.Changes.Normal.{
  IsValid, IsCoherent, normalize-IsValid, normalize_fixed,
}
use caldav_assistant_skeleto.Tasks.Service.{
  kept, when_value, datetime_value, priority_value, before_of,
}

-- A task whose values the checks accept: a stripped summary that is not empty, one of the four
-- statuses, a completed flag that agrees with it, and a priority of at most 9, if any.
pub record IsSound (t : Task) : Type 0 where
  pub summary_stripped : strip t.summary ≡ t.summary
  pub summary_filled : is_blank t.summary ≡ false
  pub status_known : is_status t.status ≡ true
  pub flag_agrees : t.completed ≡ (t.status == "COMPLETED")
  pub priority_known : valid_priority (some (priority_value t.priority)) ≡ true

is_none-kept : (o : Option Value) (v : Value) → is_none (kept o v) ≡ is_none o
is_none-kept none v = refl
is_none-kept (some x) v = refl

kept_lem :
    (P : Option Value → Bool) (o : Option Value) (v : Value)
    → P none ≡ true
    → P (some v) ≡ true
    → P (kept o v) ≡ true
kept_lem P none v h k = h
kept_lem P (some x) v h k = k

kept-summary :
    (o : Option Value) (s : String)
    → strip s ≡ s
    → is_blank s ≡ false
    → normal_summary (kept o (text s)) ≡ ok (kept o (text s))
unfolding validate_summary
kept-summary none s h k = refl
kept-summary (some x) s h k = rw (h, k) refl

date_value : (x : Option When) → valid_date (some (when_value x)) ≡ true
date_value none = refl
date_value (some w) = refl

completed_at_value : (x : Option Datetime) → valid_completed_at (some (datetime_value x)) ≡ true
completed_at_value none = refl
completed_at_value (some d) = refl

kept-denies :
    (o p : Option Value) (s : String) (b : Bool)
    → b ≡ (s == "COMPLETED")
    → (denies (kept o (text s)) (kept p (bool b)) ≡ false)
      × (overclaims (kept o (text s)) (kept p (bool b)) ≡ false)
kept-denies none p s b h = (refl, refl)
kept-denies (some x) none s b h = (refl, refl)
kept-denies (some x) (some y) s true h = (refl, ground arith)
kept-denies (some x) (some y) s false h = (sym h, refl)

is_empty-before :
    (t : Task) (d : Changes) → d.unknown ≡ false → is_empty (before_of t d) ≡ is_empty d
unfolding is_empty before_of
is_empty-before t d h =
    rw
      (
        is_none-kept d.summary (text t.summary),
        is_none-kept d.description (text t.description),
        is_none-kept d.start (when_value t.start),
        is_none-kept d.due (when_value t.due),
        is_none-kept d.status (text t.status),
        is_none-kept d.completed (bool t.completed),
        is_none-kept d.completed_at (datetime_value t.completed_at),
        is_none-kept d.priority (priority_value t.priority),
        is_none-kept d.categories (texts t.categories),
        h,
      )
      refl

before-IsValid : (t : Task) (d : Changes) → IsSound t → IsValid d → IsValid (before_of t d)
unfolding before_of
before-IsValid t d sound valid =
    let (allowed, claimed) =
      kept-denies d.status d.completed t.status t.completed sound.flag_agrees in
    record {
      full = is_empty-before t d valid.known ∙ valid.full;
      known = refl;
      summary = kept-summary d.summary t.summary sound.summary_stripped sound.summary_filled;
      start = kept_lem valid_date d.start (when_value t.start) refl (date_value t.start);
      due = kept_lem valid_date d.due (when_value t.due) refl (date_value t.due);
      completed_at =
          kept_lem valid_completed_at d.completed_at (datetime_value t.completed_at) refl
            (completed_at_value t.completed_at);
      completed = kept_lem valid_completed d.completed (bool t.completed) refl refl;
      priority =
          kept_lem valid_priority d.priority (priority_value t.priority) refl sound.priority_known;
      categories = kept_lem valid_categories d.categories (texts t.categories) refl refl;
      status = kept_lem valid_status d.status (text t.status) refl sound.status_known;
      not_denied = allowed;
      not_overclaimed = claimed;
    }

kept-some :
    (o : Option Value) (v x : Value) → kept o v ≡ some x → (y : Value) × (o ≡ some y) × (v ≡ x)
kept-some none v x h = absurd (cc)
kept-some (some y) v x h = (y, refl, cc)

kept_of : (o : Option Value) (v : Value) → is_some o ≡ true → kept o v ≡ some v
kept_of none v h = absurd (cc)
kept_of (some y) v h = refl

is_some-kept : (o : Option Value) (v : Value) → is_some o ≡ true → is_some (kept o v) ≡ true
is_some-kept none v h = h
is_some-kept (some y) v h = refl

before-IsCoherent :
    (t : Task) (d : Changes)
    → IsSound t
    → IsCoherent d
    → (is_some d.completed ≡ true → is_some d.status ≡ true)
    → IsCoherent (before_of t d)
unfolding before_of
before-IsCoherent t d sound coherent with_status = record {
  by_status = λ x e.
      let (y, has, same) = kept-some d.status (text t.status) x e in
      let (flag, moment) = coherent.by_status y has in
      (
        kept_of d.completed (bool t.completed) (ap is_some flag)
            ∙ ap (λ b. some (bool b)) sound.flag_agrees
            ∙ ap (λ v. some (bool (says_completed v))) same,
        is_some-kept d.completed_at _ moment,
      );
  by_flag = λ e.
      let (y, has, same) = kept-some d.completed (bool t.completed) (bool true) e in
      let flag : t.completed ≡ true = cc in
      let done : t.status ≡ "COMPLETED" =
        (eq_iff t.status "COMPLETED").0 (sym sound.flag_agrees ∙ flag) in
      kept_of d.status (text t.status) (with_status (ap is_some has))
      ∙ ap (λ s. some (text s)) done;
}

-- Normalising the old values changes nothing.
pub normalize-before :
    (now later : Datetime) (t : Task) (c d : Changes)
    → IsSound t
    → normalize_changes now c ≡ ok d
    → (is_some d.completed ≡ true → is_some d.status ≡ true)
    → normalize_changes later (before_of t d) ≡ ok (before_of t d)
normalize-before now later t c d sound h with_status =
    let (valid, coherent) = normalize-IsValid now c d h in
    normalize_fixed later _ (before-IsValid t d sound valid)
      (before-IsCoherent t d sound coherent with_status)
