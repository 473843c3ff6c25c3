-- ===== src/Prelude/Lists.antt =====
-- Lists with Boolean tests, and predicates on lists by recursion, which the tactics read.
use Prim.Native.Nat.{ℕ, suc, ◌+◌}
use mathlib.Core.Path.{◌≡◌, refl, ap}
use mathlib.Core.Option.{Option, none, some}
use mathlib.Core.Logic.{◌⊎◌, inl, inr}
use mathlib.Core.Bool.{Bool, true, false, ◌||◌}
use mathlib.Core.List.{List, [], ◌∷◌, ◌++◌, map}
use native.Mathlib.Omega.{arith}
use caldav_assistant_skeleto.Prelude.Tests.{if◌then◌else◌, Bool-cases}

module _ {ℓ} {A : Type ℓ} where
  abbrev pub length : List A → ℕ
  length [] = 0
  length (x ∷ xs) = suc (length xs)

  pub length-append : (xs ys : List A) → length (xs ++ ys) ≡ length xs + length ys
  length-append [] ys = omega arith
  length-append (x ∷ xs) ys = omega (arith, length-append xs ys)

  -- `[x for x in xs if p x]`
  unfoldable pub filter : (A → Bool) → List A → List A
  filter p [] = []
  filter p (x ∷ xs) = if p x then x ∷ filter p xs else filter p xs

  -- `any(p x for x in xs)`
  unfoldable pub any : (A → Bool) → List A → Bool
  any p [] = false
  any p (x ∷ xs) = p x || any p xs

  abbrev pub All {κ} : (A → Type κ) → List A → Type κ
  All P [] = Unit
  All P (x ∷ xs) = P x × All P xs

module _ {A : Type 0} where
  -- `a` is an item of the list, at a place that the proof names.
  abbrev pub In : A → List A → Type 0
  In a [] = ⊥
  In a (x ∷ xs) = (x ≡ a) ⊎ In a xs

  pub All-In : (P : A → Type 0) (xs : List A) (a : A) → All P xs → In a xs → P a
  All-In P [] a h i = absurd i
  All-In P (x ∷ xs) a h (inl e) = rw e at h.0
  All-In P (x ∷ xs) a h (inr i) = All-In P xs a h.1 i

  pub All-of_In : (P : A → Type 0) (xs : List A) → ((a : A) → In a xs → P a) → All P xs
  All-of_In P [] h = tt
  All-of_In P (x ∷ xs) h = (h x (inl refl), All-of_In P xs (λ a i. h a (inr i)))

  pub All-filter : (P : A → Type 0) (p : A → Bool) (xs : List A) → All P xs → All P (filter p xs)
  unfolding filter
  All-filter P p [] h = tt
  All-filter P p (x ∷ xs) (hx, h) = elim (Bool-cases (p x)) [
    | inl e ↦ rw e (hx, All-filter P p xs h)
    | inr e ↦ rw e (All-filter P p xs h)
  ]

  -- The items that a filter keeps are those of the list that pass its test.
  pub In-filter : (p : A → Bool) (xs : List A) (a : A) → In a (filter p xs) → In a xs × (p a ≡ true)
  unfolding filter
  In-filter p [] a i = absurd i
  In-filter p (x ∷ xs) a i = elim (Bool-cases (p x)) [
    | inl e ↦
        let j : (x ≡ a) ⊎ In a (filter p xs) = rw e at i in
        elim j [
          | inl same ↦ (inl same, rw same at e)
          | inr k ↦ let found = In-filter p xs a k in (inr found.0, found.1)
        ]
    | inr e ↦
        let j : In a (filter p xs) = rw e at i in
        let found = In-filter p xs a j in (inr found.0, found.1)
  ]

  pub In-filter_of :
      (p : A → Bool) (xs : List A) (a : A) → In a xs → p a ≡ true → In a (filter p xs)
  unfolding filter
  In-filter_of p [] a i h = absurd i
  In-filter_of p (x ∷ xs) a (inl e) h = rw (e, h) (inl refl)
  In-filter_of p (x ∷ xs) a (inr i) h = elim (Bool-cases (p x)) [
    | inl e ↦ rw e (inr (In-filter_of p xs a i h))
    | inr e ↦ rw e (In-filter_of p xs a i h)
  ]

  pub filter-filter : (p : A → Bool) (xs : List A) → filter p (filter p xs) ≡ filter p xs
  unfolding filter
  filter-filter p [] = refl
  filter-filter p (x ∷ xs) = elim (Bool-cases (p x)) [
    | inl e ↦ rw e (rw (e, filter-filter p xs))
    | inr e ↦ rw e (filter-filter p xs)
  ]

  pub In-append : (xs ys : List A) (a : A) → In a (xs ++ ys) → In a xs ⊎ In a ys
  In-append [] ys a i = inr i
  In-append (x ∷ xs) ys a (inl e) = inl (inl e)
  In-append (x ∷ xs) ys a (inr i) = elim (In-append xs ys a i) [
    | inl j ↦ inl (inr j)
    | inr j ↦ inr j
  ]

  pub In-append_left : (xs ys : List A) (a : A) → In a xs → In a (xs ++ ys)
  In-append_left [] ys a i = absurd i
  In-append_left (x ∷ xs) ys a (inl e) = inl e
  In-append_left (x ∷ xs) ys a (inr i) = inr (In-append_left xs ys a i)

  pub In-append_right : (xs ys : List A) (a : A) → In a ys → In a (xs ++ ys)
  In-append_right [] ys a i = i
  In-append_right (x ∷ xs) ys a i = inr (In-append_right xs ys a i)

module _ {A B : Type 0} (f : A → B) where
  pub In-map : (xs : List A) (b : B) → In b (map f xs) → (a : A) × In a xs × (f a ≡ b)
  In-map [] b i = absurd i
  In-map (x ∷ xs) b (inl e) = (x, inl refl, e)
  In-map (x ∷ xs) b (inr i) = let (a, j, e) = In-map xs b i in (a, inr j, e)

  pub In-map_of : (xs : List A) (a : A) → In a xs → In (f a) (map f xs)
  In-map_of [] a i = absurd i
  In-map_of (x ∷ xs) a (inl e) = inl (rw e)
  In-map_of (x ∷ xs) a (inr i) = inr (In-map_of xs a i)

module _ {B : Type 0} where
  abbrev prepend : Option B → List B → List B
  prepend none ys = ys
  prepend (some y) ys = y ∷ ys

  In-prepend : (o : Option B) (ys : List B) (b : B) → In b (prepend o ys) → (o ≡ some b) ⊎ In b ys
  In-prepend none ys b i = inr i
  In-prepend (some y) ys b (inl e) = inl (ap some e)
  In-prepend (some y) ys b (inr i) = inr i

  In-prepend_of :
      (o : Option B) (ys : List B) (b : B) → (o ≡ some b) ⊎ In b ys → In b (prepend o ys)
  In-prepend_of none ys b (inl e) = cc
  In-prepend_of none ys b (inr i) = i
  In-prepend_of (some y) ys b (inl e) = inl (cc)
  In-prepend_of (some y) ys b (inr i) = inr i

module _ {A B : Type 0} where
  -- The values that `f` gives, in order.
  unfoldable pub filter_map : (A → Option B) → List A → List B
  filter_map f [] = []
  filter_map f (x ∷ xs) = prepend (f x) (filter_map f xs)

  pub In-filter_map :
      (f : A → Option B) (xs : List A) (b : B)
      → In b (filter_map f xs)
      → (a : A) × In a xs × (f a ≡ some b)
  unfolding filter_map
  In-filter_map f [] b i = absurd i
  In-filter_map f (x ∷ xs) b i = elim (In-prepend (f x) (filter_map f xs) b i) [
    | inl e ↦ (x, inl refl, e)
    | inr j ↦ let (a, k, e) = In-filter_map f xs b j in (a, inr k, e)
  ]

  pub In-filter_map_of :
      (f : A → Option B) (xs : List A) (a : A) (b : B)
      → In a xs
      → f a ≡ some b
      → In b (filter_map f xs)
  unfolding filter_map
  In-filter_map_of f [] a b i e = absurd i
  In-filter_map_of f (x ∷ xs) a b (inl same) e =
      In-prepend_of (f x) (filter_map f xs) b (inl (rw same e))
  In-filter_map_of f (x ∷ xs) a b (inr i) e =
      In-prepend_of (f x) (filter_map f xs) b (inr (In-filter_map_of f xs a b i e))
