-- ===== src/Session/Invariant.antt =====
-- Whatever the calls, the session never holds a task as current and as paused at once.
use caldav_assistant_skeleto.Prelude.{
  ◌≡◌, ◌≢◌, refl, sym, ◌∙◌, inl, inr, String, Bool, false, Option, none, some, List, [], ◌∷◌,
  if◌then◌else◌, is_blank, is_some, strip, filter, any, eq_iff, arith, Bool-cases, All,
}
use caldav_assistant_skeleto.Api.{Task, ok}
use caldav_assistant_skeleto.Session.{
  SessionState, fresh_session, contains, paused_task_ids, without, set_current, clear_current,
  holds_other, mark_paused, unpause, forget, recoverable, recover_from,
  recover_legacy_current_task_id, current_task_id, current_task, keep_live, paused_tasks, valid_ids,
  same_ids, live_task, stored, is_over,
}
use caldav_assistant_skeleto.Session.Clean.{
  paused_task_ids-IsClean, paused_task_ids-of_clean, filter-IsClean, contains-filter,
}
use caldav_assistant_skeleto.Session.Transitions.{
  paused_task_ids-clear, contains-without_self, paused_task_ids-set_current,
  paused_task_ids-mark_paused, paused_task_ids-unpause,
}

abbrev pub IsConsistent : SessionState → Type 0
IsConsistent s = (uid : String) → s.current ≡ some uid → contains (paused_task_ids s) uid ≡ false

-- The ids that the CalDAV side gives carry no white space at their ends.
abbrev pub IsTrimmed : List Task → Type 0
IsTrimmed tasks = All (λ t. strip t.id ≡ t.id) tasks

abbrev pub AllTrimmed : Option (List Task) → Type 0
AllTrimmed none = Unit
AllTrimmed (some tasks) = IsTrimmed tasks

-- One call of a method that may write.
pub data Step (s : SessionState) : SessionState → Type 0 where
  set : {t : SessionState} (ref : String) → set_current ref s ≡ ok t → Step s t
  pause : {t : SessionState} (ref : String) → mark_paused ref s ≡ ok t → Step s t
  clear : (ref : Option String) → Step s (clear_current ref s)
  drop : (ref : String) → Step s (unpause ref s)
  forget_task : (ref : String) → Step s (forget ref s)
  look : (listing : Option (List Task)) → AllTrimmed listing → Step s (current_task_id s listing).0
  look_task :
      (listing : Option (List Task)) (get : Option (String → Option Task))
      → AllTrimmed listing
      → Step s (current_task s listing get).0
  prune : (get : Option (String → Option Task)) → Step s (paused_tasks s get).0

pub data Reach : SessionState → Type 0 where
  start : Reach fresh_session
  next : {s t : SessionState} → Reach s → Step s t → Reach t

set-IsConsistent : (ref : String) (s t : SessionState) → set_current ref s ≡ ok t → IsConsistent t
set-IsConsistent ref s t h uid e =
    let (now, ids) = paused_task_ids-set_current ref s t h in
    let same : strip ref ≡ uid = cc in
    rw (ids, ← same) (contains-without_self (strip ref) (paused_task_ids s))

contains-without :
    (ref : String) (xs : List String) (uid : String)
    → contains xs uid ≡ false
    → contains (without ref xs) uid ≡ false
unfolding without
contains-without ref xs uid h = contains-filter _ xs uid h

clear_kept :
    (ref : Option String) (s : SessionState) (uid : String)
    → (clear_current ref s).current ≡ some uid
    → s.current ≡ some uid
unfolding clear_current
clear_kept none s uid e = cc
clear_kept (some ref) s uid e = ground arith

clear-IsConsistent :
    (ref : Option String) (s : SessionState) → IsConsistent s → IsConsistent (clear_current ref s)
clear-IsConsistent ref s c uid e = rw (paused_task_ids-clear ref s) (c uid (clear_kept ref s uid e))

held-other :
    (p : String) (c : Option String) (uid : String)
    → (if holds_other p c then c else none) ≡ some uid
    → (c ≡ some uid) × (p ≢ uid)
held-other p none uid e = absurd (cc)
held-other p (some v) uid e = ground (arith, eq_iff v p, eq_iff p uid)

contains-cons_ne :
    (x uid : String) (xs : List String)
    → x ≢ uid
    → contains xs uid ≡ false
    → contains (x ∷ xs) uid ≡ false
unfolding any
contains-cons_ne x uid xs ne h = ground (arith, eq_iff x uid)

unpause-IsConsistent :
    (ref : String) (s : SessionState) → IsConsistent s → IsConsistent (unpause ref s)
unfolding unpause
unpause-IsConsistent ref s c uid e =
    rw (paused_task_ids-unpause ref s) (contains-without (strip ref) _ uid (c uid e))

pause-IsConsistent :
    (ref : String) (s t : SessionState) → mark_paused ref s ≡ ok t → IsConsistent s → IsConsistent t
pause-IsConsistent ref s t h c uid e =
    let (ids, now) = paused_task_ids-mark_paused ref s t h in
    let (was, other) = held-other (strip ref) s.current uid (sym now ∙ e) in
    rw ids
      (contains-cons_ne (strip ref) uid _ other (contains-without (strip ref) _ uid (c uid was)))

-- The candidates that recovery may pick.
recover_from-IsConsistent :
    (s : SessionState) (tasks : List Task)
    → IsConsistent s
    → All (λ t. (strip t.id ≡ t.id) × (contains (paused_task_ids s) t.id ≡ false)) tasks
    → IsConsistent (recover_from s tasks).0
unfolding recover_from paused_task_ids
recover_from-IsConsistent s [] c h = c
recover_from-IsConsistent s (t ∷ []) c ((trimmed, free), _) =
    elim (Bool-cases (is_blank (strip t.id))) [
      | inl e ↦ rw e c
      | inr e ↦ rw e (λ uid now. let same : strip t.id ≡ uid = cc in rw (← same, trimmed) free)
    ]
recover_from-IsConsistent s (t ∷ u ∷ rest) c h = c

recoverable-free :
    (paused : List String) (tasks : List Task)
    → IsTrimmed tasks
    → All
        (λ t. (strip t.id ≡ t.id) × (contains paused t.id ≡ false))
        (filter (recoverable paused) tasks)
unfolding recoverable filter
recoverable-free paused [] h = tt
recoverable-free paused (t ∷ ts) (trimmed, h) = elim (Bool-cases (recoverable paused t)) [
  | inl e ↦ rw e ((trimmed, ground arith), recoverable-free paused ts h)
  | inr e ↦ rw e (recoverable-free paused ts h)
]

recover-IsConsistent :
    (s : SessionState) (listing : Option (List Task))
    → AllTrimmed listing
    → IsConsistent s
    → IsConsistent (recover_legacy_current_task_id s listing).0
unfolding recover_legacy_current_task_id
recover-IsConsistent s none h c = c
recover-IsConsistent s (some tasks) h c =
    recover_from-IsConsistent s _ c (recoverable-free (paused_task_ids s) tasks h)

look-IsConsistent :
    (s : SessionState) (listing : Option (List Task))
    → AllTrimmed listing
    → IsConsistent s
    → IsConsistent (current_task_id s listing).0
unfolding current_task_id
look-IsConsistent s listing h c = on (stored s.current)
  where
    on :
        (o : Option String)
        → IsConsistent
            (elim o as (λ x. SessionState × Option String) [
              | some value ↦ (s, some value)
              | none ↦ recover_legacy_current_task_id s listing
            ]).0
    on none = recover-IsConsistent s listing h c
    on (some v) = c

keep_live-IsConsistent :
    (s : SessionState) (o : Option Task) → IsConsistent s → IsConsistent (keep_live s o).0
keep_live-IsConsistent s none c = clear-IsConsistent none s c
keep_live-IsConsistent s (some t) c = elim (Bool-cases (is_over t)) [
  | inl e ↦ rw e (clear-IsConsistent none s c)
  | inr e ↦ rw e c
]

look_task-IsConsistent :
    (s : SessionState) (listing : Option (List Task)) (get : Option (String → Option Task))
    → AllTrimmed listing
    → IsConsistent s
    → IsConsistent (current_task s listing get).0
unfolding current_task
look_task-IsConsistent s listing none h c = look-IsConsistent s listing h c
look_task-IsConsistent s listing (some get) h c = on (current_task_id s listing).1
  where
    s' : SessionState
    s' = (current_task_id s listing).0

    on :
        (o : Option String)
        → IsConsistent
            (elim o as (λ x. SessionState × Option Task) [
              | none ↦ (s', none)
              | some uid ↦ keep_live s' (get uid)
            ]).0
    on none = look-IsConsistent s listing h c
    on (some uid) = keep_live-IsConsistent s' (get uid) (look-IsConsistent s listing h c)

filter-IsConsistent :
    (s : SessionState) (p : String → Bool)
    → IsConsistent s
    → IsConsistent (record s { paused = some (filter p (paused_task_ids s)) })
filter-IsConsistent s p c uid now =
    let ids = filter-IsClean p (paused_task_ids s) (paused_task_ids-IsClean s) in
    rw
      (paused_task_ids-of_clean (record s { paused = some (filter p (paused_task_ids s)) }) _ refl
        ids)
      (contains-filter p (paused_task_ids s) uid (c uid now))

prune-IsConsistent :
    (s : SessionState) (get : Option (String → Option Task))
    → IsConsistent s
    → IsConsistent (paused_tasks s get).0
unfolding paused_tasks valid_ids
prune-IsConsistent s none c = c
prune-IsConsistent s (some get) c =
    elim (Bool-cases (same_ids (valid_ids get (paused_task_ids s)) (paused_task_ids s))) [
      | inl e ↦ rw e c
      | inr e ↦ rw e (filter-IsConsistent s (λ uid. is_some (live_task (get uid))) c)
    ]

Step-IsConsistent : {s t : SessionState} → Step s t → IsConsistent s → IsConsistent t
unfolding forget
Step-IsConsistent {s = s} {t = t} (set ref h) c = set-IsConsistent ref s t h
Step-IsConsistent {s = s} {t = t} (pause ref h) c = pause-IsConsistent ref s t h c
Step-IsConsistent {s = s} (clear ref) c = clear-IsConsistent ref s c
Step-IsConsistent {s = s} (drop ref) c = unpause-IsConsistent ref s c
Step-IsConsistent {s = s} (forget_task ref) c =
    unpause-IsConsistent (strip ref) _ (clear-IsConsistent (some (strip ref)) s c)
Step-IsConsistent {s = s} (look listing h) c = look-IsConsistent s listing h c
Step-IsConsistent {s = s} (look_task listing get h) c = look_task-IsConsistent s listing get h c
Step-IsConsistent {s = s} (prune get) c = prune-IsConsistent s get c

-- In every session state that calls of the methods reach from the empty one, with trimmed ids from
-- the CalDAV side, the id stored as current is not among the paused ids.
pub Reach-IsConsistent : {s : SessionState} → Reach s → IsConsistent s
Reach-IsConsistent start = λ uid e. absurd (cc)
Reach-IsConsistent (next r st) = Step-IsConsistent st (Reach-IsConsistent r)
