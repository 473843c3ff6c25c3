-- ===== src/Tasks/Changes/Full.antt =====
-- The normalised dict of a dict with a status and a summary, field by field.
use caldav_assistant_skeleto.Prelude.{
  ◌≡◌, refl, ap, true, false, not, String, is_blank, strip, sym, ◌==◌, Option, none, some, subst,
  ◌∙◌, is_none, arith,
}
use caldav_assistant_skeleto.Temporal.{Datetime}
use caldav_assistant_skeleto.Api.{ok}
use caldav_assistant_skeleto.Tasks.Changes.{
  Value, null, bool, int, negative, when, texts, other, is_status, text, Changes, is_empty,
  validate_summary, normal_summary, valid_date, valid_completed_at, valid_completed, valid_priority,
  valid_categories, valid_status, says_completed, denies, overclaims, validate, fill, fill_status,
  normalize_changes,
}
use caldav_assistant_skeleto.Tasks.Changes.Normal.{
  IsValid, IsCoherent, normal_summary_normal, check-bind, bind-ok, validate-IsValid,
  fill_status-IsValid, fill_status-IsCoherent,
}

valid_text :
    (v : Value) → valid_status (some v) ≡ true → (s : String) × (v ≡ text s) × (is_status s ≡ true)
valid_text (text s) h = (s, refl, h)
valid_text null h = absurd (cc)
valid_text (bool b) h = absurd (cc)
valid_text (int n) h = absurd (cc)
valid_text (negative n) h = absurd (cc)
valid_text (when w) h = absurd (cc)
valid_text (texts ts) h = absurd (cc)
valid_text other h = absurd (cc)

valid_summary_text :
    (v : Value)
    → normal_summary (some v) ≡ ok (some v)
    → (s : String) × (v ≡ text s) × (strip s ≡ s) × (is_blank s ≡ false)
unfolding validate_summary
valid_summary_text (text s) h = (s, refl, ground arith, ground arith)
valid_summary_text null h = absurd (cc)
valid_summary_text (bool b) h = absurd (cc)
valid_summary_text (int n) h = absurd (cc)
valid_summary_text (negative n) h = absurd (cc)
valid_summary_text (when w) h = absurd (cc)
valid_summary_text (texts ts) h = absurd (cc)
valid_summary_text other h = absurd (cc)

fill_status-kept :
    (now : Datetime) (c : Changes) (v : Value)
    → ((fill_status now c (some v)).status ≡ c.status)
      × ((fill_status now c (some v)).summary ≡ c.summary)
fill_status-kept now c v = (ground arith, ground arith)

-- Checking rewrites nothing but the summary.
validate-kept :
    (c d : Changes)
    → validate c ≡ ok d
    → (d.status ≡ c.status) × (is_none d.summary ≡ is_none c.summary)
unfolding validate
validate-kept c d h0 =
    let (_, h1) = check-bind (not (is_empty c)) _ _ d h0 in
    let (_, h2) = check-bind (not c.unknown) _ _ d h1 in
    let (s, summary, h3) = bind-ok (normal_summary c.summary) _ d h2 in
    let (_, h4) = check-bind (valid_date c.start) _ _ d h3 in
    let (_, h5) = check-bind (valid_date c.due) _ _ d h4 in
    let (_, h6) = check-bind (valid_completed_at c.completed_at) _ _ d h5 in
    let (_, h7) = check-bind (valid_completed c.completed) _ _ d h6 in
    let (_, h8) = check-bind (valid_priority c.priority) _ _ d h7 in
    let (_, h9) = check-bind (valid_categories c.categories) _ _ d h8 in
    let (_, h10) = check-bind (valid_status c.status) _ _ d h9 in
    let (_, h11) = check-bind (not (denies c.status c.completed)) _ _ d h10 in
    let (_, h12) = check-bind (not (overclaims c.status c.completed)) _ _ d h11 in
    let (_, same) = normal_summary_normal c.summary s summary in
    let done : record c { summary = s } ≡ d = cc in
    (
      ap (λ (x : Changes). x.status) (sym done),
      ap (λ (x : Changes). is_none x.summary) (sym done) ∙ same,
    )

is_none-some : (o : Option Value) → is_none o ≡ false → (v : Value) × (o ≡ some v)
is_none-some none h = absurd (cc)
is_none-some (some v) h = (v, refl)

-- The normalised dict of a dict with a status and a summary.
pub normalize-full :
    (now : Datetime) (c d : Changes)
    → normalize_changes now c ≡ ok d
    → is_none c.status ≡ false
    → is_none c.summary ≡ false
    → (status summary : String) × (d.status ≡ some (text status))
      × (is_status status ≡ true)
      × (d.completed ≡ some (bool (status == "COMPLETED")))
      × (d.summary ≡ some (text summary))
      × (strip summary ≡ summary)
      × (is_blank summary ≡ false)
      × (valid_priority d.priority ≡ true)
unfolding normalize_changes fill
normalize-full now c d h has_status has_summary =
    let (v, valid, filled) = bind-ok (validate c) _ d h in
    let same : fill_status now v v.status ≡ d = cc in
    let facts = validate-IsValid c v valid in
    let good : IsValid d = subst IsValid same (fill_status-IsValid now v v.status refl facts) in
    let coherent : IsCoherent d =
      subst IsCoherent same (fill_status-IsCoherent now v v.status refl facts) in
    let (kept, none_kept) = validate-kept c v valid in
    let (x, status_x) = is_none-some v.status (rw kept has_status) in
    let (y, summary_y) = is_none-some v.summary (none_kept ∙ has_summary) in
    let (status_kept, summary_kept) = fill_status-kept now v x in
    let from_x : fill_status now v (some x) ≡ d = rw status_x at same in
    let d_status : d.status ≡ some x =
      ap (λ (w : Changes). w.status) (sym from_x) ∙ status_kept ∙ status_x in
    let d_summary : d.summary ≡ some y =
      ap (λ (w : Changes). w.summary) (sym from_x) ∙ summary_kept ∙ summary_y in
    let (status, is_x, allowed) = valid_text x (rw d_status at good.status) in
    let (summary, is_y, stripped, filled_in) =
      valid_summary_text y (rw d_summary at good.summary) in
    let (completed, _) = coherent.by_status x d_status in
    (
      status,
      summary,
      d_status ∙ ap some is_x,
      allowed,
      completed ∙ ap (λ (v : Value). some (bool (says_completed v))) is_x,
      d_summary ∙ ap some is_y,
      stripped,
      filled_in,
      good.priority,
    )
