-- ===== src/Session/Transitions.antt =====
-- What pausing, resuming and forgetting a task do to the session.
use caldav_assistant_skeleto.Prelude.{
  ◌≡◌, ◌≢◌, refl, ap, ◌∙◌, String, false, Option, none, some, List, ◌∷◌, if◌then◌else◌, is_blank,
  strip, strip-strip, filter, filter-filter, eq_iff, arith, eq_refl,
}
use caldav_assistant_skeleto.Api.{ok}
use caldav_assistant_skeleto.Session.{
  SessionState, contains, paused_task_ids, without, set_current, clear_current, holds_other,
  mark_paused, unpause, forget,
}
use caldav_assistant_skeleto.Session.Clean.{
  IsClean, paused_task_ids-IsClean, paused_task_ids-of_clean, filter-IsClean, contains-filter-false,
  contains-filter-true,
}

pub paused_task_ids-clear :
    (ref : Option String) (s : SessionState)
    → paused_task_ids (clear_current ref s) ≡ paused_task_ids s
unfolding clear_current paused_task_ids
paused_task_ids-clear none s = refl
paused_task_ids-clear (some ref) s = ground arith

pub current-clear :
    (ref : String) (s : SessionState)
    → (clear_current (some ref) s).current
      ≡ (if holds_other (strip ref) s.current then s.current else none)
unfolding clear_current
current-clear ref s = ground arith

held-ne : (uid : String) (c : Option String) → (if holds_other uid c then c else none) ≢ some uid
held-ne uid none = cc
held-ne uid (some v) = ground (arith, eq_iff v uid)

held_other :
    (uid other : String)
    → is_blank uid ≡ false
    → is_blank other ≡ false
    → other ≢ uid
    → (if holds_other uid (some other) then some other else none) ≡ some other
held_other uid other h k ne = ground (arith, eq_iff other uid)

without-IsClean : (uid : String) (s : SessionState) → IsClean (without uid (paused_task_ids s))
unfolding without
without-IsClean uid s = filter-IsClean _ (paused_task_ids s) (paused_task_ids-IsClean s)

pub contains-without_self :
    (uid : String) (xs : List String) → contains (without uid xs) uid ≡ false
unfolding without
contains-without_self uid xs = contains-filter-false _ xs uid (rw (eq_refl uid))

pub contains-without_ne :
    (uid other : String) (xs : List String)
    → other ≢ uid
    → contains (without uid xs) other ≡ contains xs other
unfolding without
contains-without_ne uid other xs h =
    contains-filter-true _ xs other (ground (arith, eq_iff other uid))

pub paused_task_ids-set_current :
    (ref : String) (s t : SessionState)
    → set_current ref s ≡ ok t
    → (t.current ≡ some (strip ref)) × (paused_task_ids t ≡ without (strip ref) (paused_task_ids s))
unfolding set_current
paused_task_ids-set_current ref s t h =
    let kept = without (strip ref) (paused_task_ids s) in
    let stored : t.paused ≡ some kept = ground arith in
    (ground arith, paused_task_ids-of_clean t kept stored (without-IsClean (strip ref) s))

without_cons :
    (uid : String) (xs : List String) → without uid (uid ∷ without uid xs) ≡ without uid xs
unfolding without filter
without_cons uid xs = rw (eq_refl uid) (filter-filter _ xs)

current-unpause : (ref : String) (s : SessionState) → (unpause ref s).current ≡ s.current
unfolding unpause
current-unpause ref s = refl

pub paused_task_ids-unpause :
    (ref : String) (s : SessionState)
    → paused_task_ids (unpause ref s) ≡ without (strip ref) (paused_task_ids s)
unfolding unpause
paused_task_ids-unpause ref s = paused_task_ids-of_clean _ _ refl (without-IsClean (strip ref) s)

-- Marking a task paused puts its id at the head of the paused ids, with no second copy behind it,
-- and leaves a different current task in place.
pub paused_task_ids-mark_paused :
    (ref : String) (s t : SessionState)
    → mark_paused ref s ≡ ok t
    → (paused_task_ids t ≡ strip ref ∷ without (strip ref) (paused_task_ids s))
      × (t.current ≡ (if holds_other (strip ref) s.current then s.current else none))
unfolding mark_paused
paused_task_ids-mark_paused ref s t h =
    let uid = strip ref in
    let cleared = clear_current (some uid) s in
    let filled : is_blank uid ≡ false = ground arith in
    let ids : t.paused ≡ some (uid ∷ without uid (paused_task_ids cleared)) = ground arith in
    let kept : t.current ≡ cleared.current = ground arith in
    (
      paused_task_ids-of_clean t _ ids
            (strip-strip ref, filled, contains-without_self uid _, without-IsClean uid cleared)
          ∙ rw (paused_task_ids-clear (some uid) s),
      kept ∙ current-clear uid s ∙ rw (strip-strip ref),
    )

-- Pausing a task and resuming it makes it the current one, and its id is gone from the paused ids,
-- whose others keep their order.
pub set_current-mark_paused :
    (ref : String) (s t u : SessionState)
    → mark_paused ref s ≡ ok t
    → set_current ref t ≡ ok u
    → (u.current ≡ some (strip ref)) × (paused_task_ids u ≡ without (strip ref) (paused_task_ids s))
set_current-mark_paused ref s t u h k =
    let uid = strip ref in
    let (resumed, ids) = paused_task_ids-set_current ref t u k in
    let (paused, _) = paused_task_ids-mark_paused ref s t h in
    (resumed, ids ∙ ap (without uid) paused ∙ without_cons uid (paused_task_ids s))

-- A forgotten task is neither current nor paused; the current task and the paused ids that are
-- other tasks' stay.
pub forget_lem :
    (ref : String) (s : SessionState)
    → is_blank (strip ref) ≡ false
    → ((forget ref s).current ≢ some (strip ref))
      × (paused_task_ids (forget ref s) ≡ without (strip ref) (paused_task_ids s))
      × ((other : String)
          → is_blank other ≡ false
          → other ≢ strip ref
          → s.current ≡ some other
          → (forget ref s).current ≡ some other)
unfolding forget
forget_lem ref s h =
    let uid = strip ref in
    let cleared = clear_current (some uid) s in
    let same : (forget ref s).current ≡ (if holds_other uid s.current then s.current else none) =
      current-unpause uid cleared ∙ current-clear uid s ∙ rw (strip-strip ref) in
    (
      rw same (held-ne uid s.current),
      paused_task_ids-unpause uid cleared
          ∙ rw (strip-strip ref, paused_task_ids-clear (some uid) s),
      λ other filled ne now. same ∙ rw now (held_other uid other h filled ne),
    )

-- The first two, for a reference that may be blank.
pub forget-Gone :
    (ref : String) (s : SessionState)
    → ((forget ref s).current ≢ some (strip ref))
      × (contains (paused_task_ids (forget ref s)) (strip ref) ≡ false)
unfolding forget
forget-Gone ref s =
    let uid = strip ref in
    let cleared = clear_current (some uid) s in
    let same : (forget ref s).current ≡ (if holds_other uid s.current then s.current else none) =
      current-unpause uid cleared ∙ current-clear uid s ∙ rw (strip-strip ref) in
    (
      rw same (held-ne uid s.current),
      rw (paused_task_ids-unpause uid cleared, strip-strip ref) (contains-without_self uid _),
    )
