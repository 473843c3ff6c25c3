-- ===== src/Tasks/Changes/Normal.antt =====
-- What a normalised dict of changes looks like, and that normalising it again changes nothing.
use caldav_assistant_skeleto.Prelude.{
  ◌≡◌, refl, ap, Bool-cases, inl, inr, Bool, true, false, not, Option, none, some, subst, ◌∙◌,
  is_none, is_some, strip-strip, eq_iff, arith,
}
use caldav_assistant_skeleto.Temporal.{Datetime}
use caldav_assistant_skeleto.Api.{Reason, Result, ok, err}
use caldav_assistant_skeleto.Tasks.Changes.{
  Value, null, bool, text, Changes, is_empty, validate_summary, normal_summary, valid_date,
  valid_completed_at, valid_completed, valid_priority, valid_categories, valid_status, is_true,
  says_completed, denies, overclaims, check, ◌>>=◌, ◌>>◌, validate, fill, fill_status,
  normalize_changes,
}

-- What the checks establish, the summary being stripped already.
pub record IsValid (c : Changes) : Type 0 where
  pub full : is_empty c ≡ false
  pub known : c.unknown ≡ false
  pub summary : normal_summary c.summary ≡ ok c.summary
  pub start : valid_date c.start ≡ true
  pub due : valid_date c.due ≡ true
  pub completed_at : valid_completed_at c.completed_at ≡ true
  pub completed : valid_completed c.completed ≡ true
  pub priority : valid_priority c.priority ≡ true
  pub categories : valid_categories c.categories ≡ true
  pub status : valid_status c.status ≡ true
  pub not_denied : denies c.status c.completed ≡ false
  pub not_overclaimed : overclaims c.status c.completed ≡ false

pub normal_summary_normal :
    (v r : Option Value)
    → normal_summary v ≡ ok r
    → (normal_summary r ≡ ok r) × (is_none r ≡ is_none v)
unfolding validate_summary
normal_summary_normal none r h = ground arith
normal_summary_normal (some (text s)) r h = ground (arith, strip-strip s)
normal_summary_normal (some null) r h = cc
normal_summary_normal (some v) r h = cc

pub check-bind :
    {A : Type 0} (b : Bool) (reason : Reason) (k : Result A) (a : A)
    → (check b reason >> k) ≡ ok a
    → (b ≡ true) × (k ≡ ok a)
check-bind true reason k a h = (refl, h)
check-bind false reason k a h = cc

pub bind-ok :
    {A B : Type 0} (m : Result A) (f : A → Result B) (b : B)
    → (m >>= f) ≡ ok b
    → (a : A) × (m ≡ ok a) × (f a ≡ ok b)
bind-ok (ok a) f b h = (a, refl, h)
bind-ok (err e) f b h = cc

is_false-of_not : (b : Bool) → not b ≡ true → b ≡ false
is_false-of_not b h = ground arith

is_empty-with_summary :
    (c : Changes) (s : Option Value)
    → is_none s ≡ is_none c.summary
    → is_empty (record c { summary = s }) ≡ is_empty c
unfolding is_empty
is_empty-with_summary c s h = rw h

pub validate-IsValid : (c d : Changes) → validate c ≡ ok d → IsValid d
unfolding validate
validate-IsValid c d h0 =
    let (full, h1) = check-bind (not (is_empty c)) _ _ d h0 in
    let (known, h2) = check-bind (not c.unknown) _ _ d h1 in
    let (s, summary, h3) = bind-ok (normal_summary c.summary) _ d h2 in
    let (start, h4) = check-bind (valid_date c.start) _ _ d h3 in
    let (due, h5) = check-bind (valid_date c.due) _ _ d h4 in
    let (completed_at, h6) = check-bind (valid_completed_at c.completed_at) _ _ d h5 in
    let (completed, h7) = check-bind (valid_completed c.completed) _ _ d h6 in
    let (priority, h8) = check-bind (valid_priority c.priority) _ _ d h7 in
    let (categories, h9) = check-bind (valid_categories c.categories) _ _ d h8 in
    let (status, h10) = check-bind (valid_status c.status) _ _ d h9 in
    let (agrees, h11) = check-bind (not (denies c.status c.completed)) _ _ d h10 in
    let (claims, h12) = check-bind (not (overclaims c.status c.completed)) _ _ d h11 in
    let (normal, same) = normal_summary_normal c.summary s summary in
    let done : record c { summary = s } ≡ d = cc in
    subst IsValid done (record {
      full = is_empty-with_summary c s same ∙ is_false-of_not _ full;
      known = is_false-of_not _ known;
      summary = normal;
      start = start;
      due = due;
      completed_at = completed_at;
      completed = completed;
      priority = priority;
      categories = categories;
      status = status;
      not_denied = is_false-of_not _ agrees;
      not_overclaimed = is_false-of_not _ claims;
    })

validate_valid : (d : Changes) → IsValid d → validate d ≡ ok d
unfolding validate
validate_valid d v = rw (
  v.full, v.known, v.summary, v.start, v.due, v.completed_at, v.completed, v.priority, v.categories,
  v.status, v.not_denied, v.not_overclaimed,
)

-- What the defaults add keeps the checks satisfied.
pub fill_status-IsValid :
    (now : Datetime) (c : Changes) (status : Option Value)
    → c.status ≡ status
    → IsValid c
    → IsValid (fill_status now c status)
unfolding is_empty
fill_status-IsValid now c none e v = ground arith
fill_status-IsValid now c (some s) e v = ground arith

-- A dict whose status and completed flag agree, both present, or neither claiming completion.
pub record IsCoherent (c : Changes) : Type 0 where
  pub by_status :
      (status : Value)
      → c.status ≡ some status
      → (c.completed ≡ some (bool (says_completed status))) × (is_some c.completed_at ≡ true)
  pub by_flag : c.completed ≡ some (bool true) → c.status ≡ some (text "COMPLETED")

by_completed :
    (c : Changes) (s : Value)
    → is_true c.completed ≡ true
    → some (text "COMPLETED") ≡ some s
    → c.completed ≡ some (bool (says_completed s))
by_completed c s t p = ground arith

says_completed-text : (s : Value) → says_completed s ≡ true → s ≡ text "COMPLETED"
says_completed-text (text s) h = ap text ((eq_iff s "COMPLETED").0 h)
says_completed-text null h = cc
says_completed-text s h = cc

pub fill_status-IsCoherent :
    (now : Datetime) (c : Changes) (status : Option Value)
    → c.status ≡ status
    → IsValid c
    → IsCoherent (fill_status now c status)
fill_status-IsCoherent now c none e v = elim (Bool-cases (is_true c.completed)) [
  | inl t ↦
      rw t (record { by_status = λ s p. (by_completed c s t p, ground arith); by_flag = λ _. refl })
  | inr f ↦ rw f (record { by_status = λ s p. absurd (cc); by_flag = λ p. absurd (cc) })
]
fill_status-IsCoherent now c (some s) e v = elim (Bool-cases (says_completed s)) [
  | inl t ↦ rw t (record {
    by_status = λ r p. (ground arith, ground arith);
    by_flag = λ p. e ∙ ap some (says_completed-text s t);
  })
  | inr f ↦ rw f (record {
    by_status = λ r p. (ground arith, ground arith);
    by_flag = λ p. absurd (ground arith);
  })
]

fill_status-coherent :
    (now : Datetime) (d : Changes) (status : Option Value)
    → d.status ≡ status
    → IsCoherent d
    → fill_status now d status ≡ d
fill_status-coherent now d none e k = ground (arith, k.by_flag)
fill_status-coherent now d (some s) e k = ground (arith, k.by_status s)

pub normalize-IsValid :
    (now : Datetime) (c d : Changes) → normalize_changes now c ≡ ok d → IsValid d × IsCoherent d
unfolding normalize_changes fill
normalize-IsValid now c d h =
    let (v, valid, filled) = bind-ok (validate c) _ d h in
    let same : fill_status now v v.status ≡ d = cc in
    let facts = validate-IsValid c v valid in
    (
      subst IsValid same (fill_status-IsValid now v v.status refl facts),
      subst IsCoherent same (fill_status-IsCoherent now v v.status refl facts),
    )

pub normalize_fixed :
    (now : Datetime) (d : Changes) → IsValid d → IsCoherent d → normalize_changes now d ≡ ok d
unfolding normalize_changes fill
normalize_fixed now d valid coherent =
    rw (validate_valid d valid) (ap ok (fill_status-coherent now d d.status refl coherent))

-- A dict that `_normalize_changes` returned passes all of its checks, its status and its completed
-- flag agree (each says completed exactly when the other does, where it is present, and a status
-- comes with a flag and a time of completion), and normalising it once more, at any later time,
-- returns it as it is.
pub normalize_changes_idempotent :
    (now later : Datetime) (c d : Changes)
    → normalize_changes now c ≡ ok d
    → IsCoherent d × (normalize_changes later d ≡ ok d)
normalize_changes_idempotent now later c d h =
    let (valid, coherent) = normalize-IsValid now c d h in
    (coherent, normalize_fixed later d valid coherent)
