-- ===== src/Agenda/Next/Choice.antt =====
-- What `choose` answers: a candidate of least rank, or nothing if there is no candidate.
use caldav_assistant_skeleto.Prelude.{
  ℕ, ◌≡◌, refl, inl, inr, String, Bool, true, false, Option, none, some, List, [], ◌∷◌, arith,
  filter, In, All-In, In-filter, In-filter_of, Bool-cases,
}
use caldav_assistant_skeleto.Prelude.Sort.{min_from, min_from-In, min_from-Before, Before}
use caldav_assistant_skeleto.Temporal.{Datetime, Zones}
use caldav_assistant_skeleto.Api.{AgendaItem, ok}
use caldav_assistant_skeleto.Agenda.Next.{
  NextEngine, is_candidate, rank, best, choose, skipped_set, valid_kind,
}

-- A right answer among the items that pass the test, by the ranks.
abbrev pub IsChoice :
    (AgendaItem → Bool) → (AgendaItem → List ℕ) → List AgendaItem → Option AgendaItem → Type 0
IsChoice test key items none = (x : AgendaItem) → In x items → test x ≡ false
IsChoice test key items (some item) =
    In item items
    × (test item ≡ true)
    × ((x : AgendaItem) → In x items → test x ≡ true → Before key item x)

no_pass :
    (test : AgendaItem → Bool) (items : List AgendaItem) (x : AgendaItem)
    → filter test items ≡ []
    → In x items
    → test x ≡ false
no_pass test items x none_kept i = elim (Bool-cases (test x)) [
  | inl e ↦ let kept : In x [] = rw none_kept at (In-filter_of test items x i e) in absurd kept
  | inr e ↦ e
]

-- The minimum of a list of kept items is a right answer.
best-IsChoice :
    (test : AgendaItem → Bool) (key : AgendaItem → List ℕ) (items kept : List AgendaItem)
    → filter test items ≡ kept
    → IsChoice test key items (best key kept)
unfolding best
best-IsChoice test key items [] e = λ x. no_pass test items x e
best-IsChoice test key items (y ∷ ys) e =
    let least = min_from key y ys in
    let found = In-filter test items least (rw e (min_from-In key y ys)) in
    (
      found.0,
      found.1,
      λ x i pass.
          All-In (Before key least) (y ∷ ys) x (min_from-Before key y ys)
            (rw e at (In-filter_of test items x i pass)),
    )

module _ (self : NextEngine) (z : Zones) (items : List AgendaItem) (now : Datetime)
    (current : Option String) (skipped : List String) (kind : Option String) where
  abbrev pub candidate : AgendaItem → Bool
  candidate = is_candidate z now (skipped_set skipped) kind

  -- With a kind that the code knows, `choose` returns; it returns nothing exactly when no item of
  -- the agenda is a candidate, and else a candidate of the agenda whose rank is at most that of
  -- every candidate.
  pub choose-IsChoice :
      valid_kind kind ≡ true
      → (r : Option AgendaItem) × (choose self z items now current skipped kind ≡ ok r)
        × IsChoice candidate (rank self z now current) items r
  unfolding choose
  choose-IsChoice h = (
    best (rank self z now current) (filter candidate items),
    rw h,
    best-IsChoice candidate (rank self z now current) items (filter candidate items) refl,
  )

  -- The answer is a right one.
  pub IsChoice-of_choose :
      (item : AgendaItem)
      → choose self z items now current skipped kind ≡ ok (some item)
      → IsChoice candidate (rank self z now current) items (some item)
  unfolding choose
  IsChoice-of_choose item h = elim (Bool-cases (valid_kind kind)) [
    | inl e ↦
        let (r, returned, right) = choose-IsChoice e in
        let same : r ≡ some item = cc in rw same at right
    | inr e ↦ absurd (ground arith)
  ]
