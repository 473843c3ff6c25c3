-- ===== src/Session/Clean.antt =====
-- Lists of ids that `paused_task_ids` returns: stripped, not empty, without repetition.
use caldav_assistant_skeleto.Prelude.{
  ◌≡◌, refl, sym, ◌∙◌, String, Bool, true, false, ◌||◌, Option, none, some, List, [], ◌∷◌, ◌++◌,
  inl, inr, if◌then◌else◌, is_blank, strip, strip-strip, filter, any, eq_iff, arith, Bool-cases,
}
use mathlib.Core.List.{append_assoc, append-nil}
use caldav_assistant_skeleto.Session.{SessionState, contains, collect, paused_task_ids, without}

abbrev pub IsClean : List String → Type 0
IsClean [] = Unit
IsClean (x ∷ xs) = (strip x ≡ x) × (is_blank x ≡ false) × (contains xs x ≡ false) × IsClean xs

contains-append :
    (xs ys : List String) (a : String) → contains (xs ++ ys) a ≡ (contains xs a || contains ys a)
unfolding any
contains-append [] ys a = refl
contains-append (x ∷ xs) ys a = ground (arith, contains-append xs ys a)

IsClean-snoc :
    (xs : List String) (x : String)
    → IsClean xs
    → strip x ≡ x
    → is_blank x ≡ false
    → contains xs x ≡ false
    → IsClean (xs ++ x ∷ [])
unfolding any
IsClean-snoc [] x c s b k = (s, b, refl, tt)
IsClean-snoc (y ∷ ys) x (sy, by, ky, c) s b k = (
  sy,
  by,
  ground (arith, contains-append ys (x ∷ []) y, eq_iff x y, eq_iff y x),
  IsClean-snoc ys x c s b (ground arith),
)

collect-IsClean : (acc values : List String) → IsClean acc → IsClean (collect acc values)
unfolding collect
collect-IsClean acc [] c = c
collect-IsClean acc (v ∷ vs) c =
    collect-IsClean
      (if is_blank (strip v) || contains acc (strip v) then acc else acc ++ strip v ∷ []) vs
      (next (is_blank (strip v)) (contains acc (strip v)) refl refl)
  where
    next :
        (b k : Bool)
        → is_blank (strip v) ≡ b
        → contains acc (strip v) ≡ k
        → IsClean (if b || k then acc else acc ++ strip v ∷ [])
    next true k p q = c
    next false true p q = c
    next false false p q = IsClean-snoc acc (strip v) c (strip-strip v) p q

pub paused_task_ids-IsClean : (s : SessionState) → IsClean (paused_task_ids s)
unfolding paused_task_ids
paused_task_ids-IsClean s = on s.paused
  where
    on : (raw : Option (List String)) → IsClean (elim raw [ none ↦ [] | some l ↦ collect [] l ])
    on none = tt
    on (some l) = collect-IsClean [] l tt

IsClean-middle :
    (xs : List String) (x : String) (ys : List String)
    → IsClean (xs ++ x ∷ ys)
    → (strip x ≡ x) × (is_blank x ≡ false) × (contains xs x ≡ false)
unfolding any
IsClean-middle [] x ys (s, b, k, c) = (s, b, refl)
IsClean-middle (z ∷ zs) x ys (sz, bz, kz, c) =
    let (s, b, k) = IsClean-middle zs x ys c in
    (s, b, ground (arith, contains-append zs (x ∷ ys) z, eq_iff z x, eq_iff x z))

collect_clean : (acc l : List String) → IsClean (acc ++ l) → collect acc l ≡ acc ++ l
unfolding collect
collect_clean acc [] c = sym (append-nil acc)
collect_clean acc (x ∷ l) c =
    let (s, b, k) = IsClean-middle acc x l c in
    rw (s, b, k) (collect_clean (acc ++ x ∷ []) l (rw append_assoc c) ∙ append_assoc acc (x ∷ []) l)

-- A clean list is read back as it was written.
pub paused_task_ids-of_clean :
    (s : SessionState) (l : List String) → s.paused ≡ some l → IsClean l → paused_task_ids s ≡ l
unfolding paused_task_ids
paused_task_ids-of_clean s l e c = rw (e, paused_task_ids) (collect_clean [] l c)

pub contains-filter :
    (p : String → Bool) (xs : List String) (a : String)
    → contains xs a ≡ false
    → contains (filter p xs) a ≡ false
unfolding any filter
contains-filter p [] a h = refl
contains-filter p (x ∷ xs) a h = ground (arith, contains-filter p xs a)

pub filter-IsClean : (p : String → Bool) (xs : List String) → IsClean xs → IsClean (filter p xs)
unfolding filter
filter-IsClean p [] c = tt
filter-IsClean p (x ∷ xs) (s, b, k, c) = elim (Bool-cases (p x)) [
  | inl e ↦ rw e (s, b, contains-filter p xs x k, filter-IsClean p xs c)
  | inr e ↦ rw e (filter-IsClean p xs c)
]

pub contains-filter-false :
    (p : String → Bool) (xs : List String) (a : String)
    → p a ≡ false
    → contains (filter p xs) a ≡ false
unfolding any filter
contains-filter-false p [] a h = refl
contains-filter-false p (x ∷ xs) a h = ground (arith, contains-filter-false p xs a, eq_iff x a)

pub contains-filter-true :
    (p : String → Bool) (xs : List String) (a : String)
    → p a ≡ true
    → contains (filter p xs) a ≡ contains xs a
unfolding any filter
contains-filter-true p [] a h = refl
contains-filter-true p (x ∷ xs) a h = ground (arith, contains-filter-true p xs a, eq_iff x a)

-- Removing what is not there changes nothing.
pub without_absent :
    (uid : String) (xs : List String) → contains xs uid ≡ false → without uid xs ≡ xs
unfolding any filter without
without_absent uid [] h = refl
without_absent uid (x ∷ xs) h = ground (arith, without_absent uid xs)
