-- ===== src/Tasks/Service/Find.antt =====
-- `TaskService.find`. `str.casefold` maps the letters of every script: a parameter.
mod Tests
use caldav_assistant_skeleto.Prelude.{
  occurs_in, ℕ, ◌≡◌, refl, sym, ap, ◌⊎◌, inl, inr, String, Bool, true, false, ◌&&◌, ◌||◌, Option,
  none, some, List, [], ◌∷◌, codes, is_blank, strip, filter, eqb, if◌then◌else◌, ◌==◌, In,
  In-filter, In-filter_of, arith, Bool-cases,
}
use caldav_assistant_skeleto.Temporal.{Zones}
use caldav_assistant_skeleto.Api.{
  Task, Result, ok, err, validation, empty_query, not_found, ambiguous,
}
use caldav_assistant_skeleto.Tasks.World.{Adapter, World}
use caldav_assistant_skeleto.Tasks.Service.{list}

-- `exact or [task for task in items if …]`
abbrev pub or_those : List Task → List Task → List Task
or_those [] others = others
or_those (t ∷ ts) others = t ∷ ts

-- No match, one match, or more than one.
abbrev pub sole : List Task → Result Task
sole [] = err not_found
sole (t ∷ []) = ok t
sole (t ∷ u ∷ ts) = err ambiguous

module _ (casefold : String → String) (query : String) where
  abbrev pub needle : String
  needle = casefold (strip query)

  pub is_exact : Task → Bool
  is_exact t = casefold t.summary == needle

  pub is_partial : Task → Bool
  is_partial t = occurs_in (codes needle) (codes (casefold t.summary))

  pub matches : List Task → List Task
  matches items = or_those (filter is_exact items) (filter is_partial items)

  abbrev pub find_in : Result (List Task) → Result Task
  find_in (err e) = err e
  find_in (ok items) = sole (matches items)

  pub find :
      {Store : Type 0}
      → Zones
      → Adapter Store
      → (String → String)
      → Bool
      → Option String
      → World Store
      → Result Task
  find z a upper actionable status w =
      if is_blank (strip query)
      then err (validation empty_query)
      else find_in (list z a upper actionable status w)

  -- The task is the only one of the list that passes the test.
  abbrev pub IsOnly : (Task → Bool) → List Task → Task → Type 0
  IsOnly test items t =
      In t items × (test t ≡ true) × ((u : Task) → In u items → test u ≡ true → u ≡ t)

  sole_filter :
      (test : Task → Bool) (items : List Task) (t : Task)
      → filter test items ≡ t ∷ []
      → IsOnly test items t
  sole_filter test items t e =
      let (listed, pass) = In-filter test items t (rw e (inl refl)) in
      (listed, pass, λ u i p. only u (rw e at (In-filter_of test items u i p)))
    where
      only : (u : Task) → In u (t ∷ []) → u ≡ t
      only u (inl same) = sym same
      only u (inr none_left) = absurd none_left

  none_pass :
      (test : Task → Bool) (items : List Task)
      → filter test items ≡ []
      → (u : Task) → In u items
      → test u ≡ false
  none_pass test items e u i = elim (Bool-cases (test u)) [
    | inl p ↦ let kept : In u [] = rw e at (In-filter_of test items u i p) in absurd kept
    | inr p ↦ p
  ]

  -- The found task: the only exact match, or, if nothing matches exactly, the only partial one.
  abbrev pub IsMatch : List Task → Task → Type 0
  IsMatch items t =
      IsOnly is_exact items t
      ⊎ (((u : Task) → In u items → is_exact u ≡ false) × IsOnly is_partial items t)

  sole-IsMatch :
      (items : List Task) (t : Task) (exact partial : List Task)
      → filter is_exact items ≡ exact
      → filter is_partial items ≡ partial
      → sole (or_those exact partial) ≡ ok t
      → IsMatch items t
  sole-IsMatch items t (x ∷ []) partial e p h =
      let same : x ≡ t = cc in inl (sole_filter is_exact items t (rw (← same) e))
  sole-IsMatch items t (x ∷ y ∷ ys) partial e p h = absurd (cc)
  sole-IsMatch items t [] (x ∷ []) e p h =
      let same : x ≡ t = cc in
      inr (none_pass is_exact items e, sole_filter is_partial items t (rw (← same) p))
  sole-IsMatch items t [] [] e p h = absurd (cc)
  sole-IsMatch items t [] (x ∷ y ∷ ys) e p h = absurd (cc)

  find_in-IsMatch :
      (r : Result (List Task)) (t : Task)
      → find_in r ≡ ok t
      → (items : List Task) × (r ≡ ok items) × IsMatch items t
  unfolding matches
  find_in-IsMatch (err e) t h = absurd (cc)
  find_in-IsMatch (ok items) t h = (items, refl, sole-IsMatch items t _ _ refl refl h)

  -- A search that returns a task found it in the list, as the only task whose folded summary is the
  -- folded query, or, when no summary in the list is, as the only one whose summary contains it.
  pub find-IsMatch :
      {Store : Type 0} (z : Zones) (a : Adapter Store) (upper : String → String) (actionable : Bool)
      (status : Option String) (w : World Store) (t : Task)
      → find z a upper actionable status w ≡ ok t
      → (items : List Task) × (list z a upper actionable status w ≡ ok items) × IsMatch items t
  unfolding find
  find-IsMatch z a upper actionable status w t h =
      find_in-IsMatch (list z a upper actionable status w) t (ground arith)
