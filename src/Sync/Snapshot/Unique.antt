-- ===== src/Sync/Snapshot/Unique.antt =====
-- What `_check_unique` accepts.
use caldav_assistant_skeleto.Prelude.{
  elem, ◌≡◌, refl, ◌≢◌, sym, inl, inr, String, false, List, [], ◌∷◌, any, is_blank, ◌==◌, eq_iff,
  arith, All, Bool-cases,
}
use caldav_assistant_skeleto.Api.{ok}
use caldav_assistant_skeleto.Sync.Dict.{IsUnique}
use caldav_assistant_skeleto.Sync.Snapshot.{Kind, check_from, check_unique}

module _ {A : Type 0} (kind : Kind A) where
  abbrev Apart : List String → A → Type 0
  Apart seen x = elem (kind.id x) seen ≡ false

  All-Apart_cons :
      (k : String) (seen : List String) (xs : List A)
      → All (Apart (k ∷ seen)) xs
      → All (λ y. kind.id y ≢ k) xs × All (Apart seen) xs
  unfolding any
  All-Apart_cons k seen [] h = (tt, tt)
  All-Apart_cons k seen (x ∷ xs) (h, hs) =
      let rest = All-Apart_cons k seen xs hs in
      (((λ q. ground (arith, eq_iff k (kind.id x), sym q)), rest.0), (ground arith, rest.1))

  All-Apart_of_cons :
      (k : String) (seen : List String) (xs : List A)
      → All (λ y. kind.id y ≢ k) xs
      → All (Apart seen) xs
      → All (Apart (k ∷ seen)) xs
  unfolding any
  All-Apart_of_cons k seen [] h g = tt
  All-Apart_of_cons k seen (x ∷ xs) (h, hs) (g, gs) = elim (Bool-cases (k == kind.id x)) [
    | inl e ↦ absurd (h (sym ((eq_iff k (kind.id x)).0 e)))
    | inr e ↦ (rw e g, All-Apart_of_cons k seen xs hs gs)
  ]

  check_from-IsUnique :
      (seen : List String) (xs : List A)
      → check_from kind seen xs ≡ ok tt
      → IsUnique kind.id xs × All (Apart seen) xs
  unfolding check_from
  check_from-IsUnique seen [] h = (tt, tt)
  check_from-IsUnique seen (x ∷ xs) h = elim (Bool-cases (is_blank (kind.id x))) [
    | inl e ↦ absurd (ground arith)
    | inr e ↦ elim (Bool-cases (elem (kind.id x) seen)) [
      | inl f ↦ absurd (ground arith)
      | inr f ↦
          let h' : check_from kind (kind.id x ∷ seen) xs ≡ ok tt = rw (e, f) at h in
          let (u, apart) = check_from-IsUnique (kind.id x ∷ seen) xs h' in
          let (ne, rest) = All-Apart_cons (kind.id x) seen xs apart in ((e, ne, u), (f, rest))
    ]
  ]

  check_from_of-IsUnique :
      (seen : List String) (xs : List A)
      → IsUnique kind.id xs
      → All (Apart seen) xs
      → check_from kind seen xs ≡ ok tt
  unfolding check_from
  check_from_of-IsUnique seen [] u a = refl
  check_from_of-IsUnique seen (x ∷ xs) (e, ne, u) (f, a) =
      rw (e, f)
        (check_from_of-IsUnique (kind.id x ∷ seen) xs u
          (All-Apart_of_cons (kind.id x) seen xs ne a))

  pub check_unique-IsUnique : (xs : List A) → check_unique kind xs ≡ ok tt → IsUnique kind.id xs
  check_unique-IsUnique xs h = (check_from-IsUnique [] xs h).0

  All-Apart_nil : (xs : List A) → All (Apart []) xs
  unfolding any
  All-Apart_nil [] = tt
  All-Apart_nil (x ∷ xs) = (refl, All-Apart_nil xs)

  pub check_unique_of-IsUnique : (xs : List A) → IsUnique kind.id xs → check_unique kind xs ≡ ok tt
  check_unique_of-IsUnique xs u = check_from_of-IsUnique [] xs u (All-Apart_nil xs)
