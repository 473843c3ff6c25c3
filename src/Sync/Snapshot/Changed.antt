-- ===== src/Sync/Snapshot/Changed.antt =====
-- What `_delta` reports of two snapshots.
use caldav_assistant_skeleto.Prelude.{
  ◌≡◌, refl, ◌≢◌, ◌↔◌, inl, inr, subst, String, Bool, true, Option, none, some, List, map, filter,
  is_none, codes, arith, In, In-filter, In-filter_of, In-map, In-map_of, Bool-cases,
}
use caldav_assistant_skeleto.Prelude.Sort.{
  sorted, IsSorted, sorted-IsSorted, In-sorted, In-sorted_of,
}
use caldav_assistant_skeleto.Sync.Dict.{find, find-In, find-none}
use caldav_assistant_skeleto.Sync.Snapshot.{Kind, index, delta, changed}

module _ {A : Type 0} (kind : Kind A) where
  In-sorted_keys :
      (k : String) (p : String → Bool) (d : List A)
      → In k (sorted codes (filter p (map (λ x. kind.id x) d)))
      → (p k ≡ true) × (find kind.id k d ≢ none)
  In-sorted_keys k p d i =
      let (j, h) = In-filter p _ k (In-sorted codes _ k i) in
      let (x, m, e) = In-map (λ x. kind.id x) d k j in (h, λ f. find-none kind.id k d x f m e)

  In-sorted_keys_of :
      (k : String) (p : String → Bool) (d : List A) (x : A)
      → p k ≡ true
      → find kind.id k d ≡ some x
      → In k (sorted codes (filter p (map (λ x. kind.id x) d)))
  In-sorted_keys_of k p d x h f =
      let (m, e) = find-In kind.id k d x f in
      let j : In k (map (λ x. kind.id x) d) =
        subst (λ v. In v (map (λ x. kind.id x) d)) e (In-map_of (λ x. kind.id x) d x m) in
      In-sorted_of codes _ k (In-filter_of p _ k j h)

  abbrev pub IsAt : List A → String → A → Type 0
  IsAt rows k x = find kind.id k (index kind rows) ≡ some x

  abbrev pub IsAbsent : List A → String → Type 0
  IsAbsent rows k = find kind.id k (index kind rows) ≡ none

  is_none_iff : (o : Option A) → (is_none o ≡ true) ↔ (o ≡ none)
  is_none_iff none = (λ h. refl, λ h. refl)
  is_none_iff (some x) = (λ h. absurd (cc), λ h. absurd (cc))

  exists : (o : Option A) → o ≢ none → (x : A) × (o ≡ some x)
  exists none h = absurd (h refl)
  exists (some x) h = (x, refl)

  abbrev Differ : Option A → Option A → Type 0
  Differ o p = (x : A) × (y : A) × (o ≡ some x) × (p ≡ some y) × (x ≢ y)

  changed-Differ : (o p : Option A) → changed kind o p ≡ true → Differ o p
  changed-Differ none p h = absurd (cc)
  changed-Differ (some x) none h = absurd (cc)
  changed-Differ (some x) (some y) h =
      (x, y, refl, refl, λ e. let t = (kind.equality.says x y).1 e in ground arith)

  changed_of-Differ : (o p : Option A) → Differ o p → changed kind o p ≡ true
  changed_of-Differ none p (x, y, e, f, ne) = absurd (cc)
  changed_of-Differ (some a) none (x, y, e, f, ne) = absurd (cc)
  changed_of-Differ (some a) (some b) (x, y, e, f, ne) =
      elim (Bool-cases (kind.equality.test a b)) [
        | inl t ↦ let same = (kind.equality.says a b).0 t in absurd (ne (cc))
        | inr t ↦ rw t refl
      ]

  -- The three lists of a comparison are sorted, and hold exactly the UIDs that only the new values
  -- have, that both have with different rows, and that only the old values have.
  pub In-delta :
      (previous current : List A) (k : String)
      → (In k (delta kind previous current).added
          ↔ (IsAbsent previous k × ((y : A) × IsAt current k y)))
        × (In k (delta kind previous current).updated
            ↔ ((x : A) × (y : A) × IsAt previous k x × IsAt current k y × (x ≢ y)))
        × (In k (delta kind previous current).removed
            ↔ (((x : A) × IsAt previous k x) × IsAbsent current k))
        × IsSorted codes (delta kind previous current).added
        × IsSorted codes (delta kind previous current).updated
        × IsSorted codes (delta kind previous current).removed
  unfolding delta
  In-delta previous current k =
      let old = index kind previous in
      let new = index kind current in
      let missing : String → Bool = λ v. is_none (find kind.id v old) in
      let missed : String → Bool = λ v. is_none (find kind.id v new) in
      let other : String → Bool = λ v. changed kind (find kind.id v old) (find kind.id v new) in
      (
        (
          λ i. let (h, e) = In-sorted_keys k missing new i in ((is_none_iff _).0 h, exists _ e),
          λ (h, (y, e)). In-sorted_keys_of k missing new y ((is_none_iff _).1 h) e,
        ),
        (
          λ i. let (h, e) = In-sorted_keys k other old i in changed-Differ _ _ h,
          λ (x, y, e, f, ne).
              In-sorted_keys_of k other old x (changed_of-Differ _ _ (x, y, e, f, ne)) e,
        ),
        (
          λ i. let (h, e) = In-sorted_keys k missed old i in (exists _ e, (is_none_iff _).0 h),
          λ ((x, e), h). In-sorted_keys_of k missed old x ((is_none_iff _).1 h) e,
        ),
        sorted-IsSorted codes (filter missing (map (λ x. kind.id x) new)),
        sorted-IsSorted codes (filter other (map (λ x. kind.id x) old)),
        sorted-IsSorted codes (filter missed (map (λ x. kind.id x) old)),
      )
