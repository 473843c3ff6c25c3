-- ===== src/Prelude/Sort.antt =====
-- Python's `sorted` and `min` with a key. A key is a list of numbers, compared as tuples and
-- texts are: item by item, a proper prefix first.
use caldav_assistant_skeleto.Prelude.Tests.{ltb, eqb, if◌then◌else◌, Bool-cases}
use caldav_assistant_skeleto.Prelude.Lists.{All, In, All-filter, filter}
use Prim.Native.Nat.{ℕ}
use mathlib.Core.Path.{◌≡◌, refl}
use mathlib.Core.Logic.{◌⊎◌, inl, inr}
use mathlib.Core.Bool.{Bool, true, false}
use mathlib.Core.List.{List, [], ◌∷◌}
use native.Mathlib.Omega.{arith}

unfoldable pub tuple_leb : List ℕ → List ℕ → Bool
tuple_leb [] ys = true
tuple_leb (x ∷ xs) [] = false
tuple_leb (x ∷ xs) (y ∷ ys) = if ltb x y then true else if eqb x y then tuple_leb xs ys else false

pub tuple_leb_refl : (xs : List ℕ) → tuple_leb xs xs ≡ true
unfolding tuple_leb
tuple_leb_refl [] = refl
tuple_leb_refl (x ∷ xs) = ground (arith, tuple_leb_refl xs)

pub tuple_leb_total : (xs ys : List ℕ) → tuple_leb xs ys ≡ false → tuple_leb ys xs ≡ true
unfolding tuple_leb
tuple_leb_total [] ys h = ground arith
tuple_leb_total (x ∷ xs) [] h = refl
tuple_leb_total (x ∷ xs) (y ∷ ys) h = ground (arith, tuple_leb_total xs ys)

pub tuple_leb_trans :
    (xs ys zs : List ℕ) → tuple_leb xs ys ≡ true → tuple_leb ys zs ≡ true → tuple_leb xs zs ≡ true
unfolding tuple_leb
tuple_leb_trans [] ys zs h k = refl
tuple_leb_trans (x ∷ xs) [] zs h k = ground arith
tuple_leb_trans (x ∷ xs) (y ∷ ys) [] h k = ground arith
tuple_leb_trans (x ∷ xs) (y ∷ ys) (z ∷ zs) h k = ground (arith, tuple_leb_trans xs ys zs)

module _ {A : Type 0} (key : A → List ℕ) where
  abbrev pub Before : A → A → Type 0
  Before a b = tuple_leb (key a) (key b) ≡ true

  -- Each item comes before all that follow it.
  abbrev pub IsSorted : List A → Type 0
  IsSorted [] = Unit
  IsSorted (x ∷ xs) = All (Before x) xs × IsSorted xs

  unfoldable pub insert : A → List A → List A
  insert a [] = a ∷ []
  insert a (x ∷ xs) = if tuple_leb (key a) (key x) then a ∷ x ∷ xs else x ∷ insert a xs

  -- `sorted(xs, key=key)`: stable.
  unfoldable pub sorted : List A → List A
  unfolding insert tuple_leb
  sorted [] = []
  sorted (x ∷ xs) = insert x (sorted xs)

  -- `min(a, *xs, key=key)`: the first of the least items.
  unfoldable pub min_from : A → List A → A
  unfolding tuple_leb
  min_from a [] = a
  min_from a (x ∷ xs) = min_from (if tuple_leb (key a) (key x) then a else x) xs

  All-Before_trans : (a b : A) (xs : List A) → Before a b → All (Before b) xs → All (Before a) xs
  All-Before_trans a b [] h k = tt
  All-Before_trans a b (x ∷ xs) h (kx, k) =
      (tuple_leb_trans (key a) (key b) (key x) h kx, All-Before_trans a b xs h k)

  All-insert : (P : A → Type 0) (a : A) (xs : List A) → P a → All P xs → All P (insert a xs)
  unfolding insert
  All-insert P a [] h k = (h, tt)
  All-insert P a (x ∷ xs) h (kx, k) = elim (Bool-cases (tuple_leb (key a) (key x))) [
    | inl e ↦ rw e (h, (kx, k))
    | inr e ↦ rw e (kx, All-insert P a xs h k)
  ]

  insert-IsSorted : (a : A) (xs : List A) → IsSorted xs → IsSorted (insert a xs)
  unfolding insert
  insert-IsSorted a [] s = (tt, tt)
  insert-IsSorted a (x ∷ xs) (b, s) = elim (Bool-cases (tuple_leb (key a) (key x))) [
    | inl e ↦ rw e ((e, All-Before_trans a x xs e b), (b, s))
    | inr e ↦
        rw e
          (All-insert (Before x) a xs (tuple_leb_total (key a) (key x) e) b, insert-IsSorted a xs s)
  ]

  pub sorted-IsSorted : (xs : List A) → IsSorted (sorted xs)
  unfolding sorted
  sorted-IsSorted [] = tt
  sorted-IsSorted (x ∷ xs) = insert-IsSorted x (sorted xs) (sorted-IsSorted xs)

  In-insert : (a : A) (xs : List A) (b : A) → In b (insert a xs) → (a ≡ b) ⊎ In b xs
  unfolding insert
  In-insert a [] b i = i
  In-insert a (x ∷ xs) b i = elim (Bool-cases (tuple_leb (key a) (key x))) [
    | inl e ↦ rw e at i
    | inr e ↦
        let j : (x ≡ b) ⊎ In b (insert a xs) = rw e at i in
        elim j [
          | inl same ↦ inr (inl same)
          | inr k ↦ elim (In-insert a xs b k) [ inl same ↦ inl same | inr m ↦ inr (inr m) ]
        ]
  ]

  In-insert_of : (a : A) (xs : List A) (b : A) → (a ≡ b) ⊎ In b xs → In b (insert a xs)
  unfolding insert
  In-insert_of a [] b i = i
  In-insert_of a (x ∷ xs) b i = elim (Bool-cases (tuple_leb (key a) (key x))) [
    | inl e ↦ rw e i
    | inr e ↦ rw e (elim i [
      | inl same ↦ inr (In-insert_of a xs b (inl same))
      | inr (inl same) ↦ inl same
      | inr (inr m) ↦ inr (In-insert_of a xs b (inr m))
    ])
  ]

  -- Sorting keeps the items.
  pub In-sorted : (xs : List A) (b : A) → In b (sorted xs) → In b xs
  unfolding sorted
  In-sorted [] b i = i
  In-sorted (x ∷ xs) b i = elim (In-insert x (sorted xs) b i) [
    | inl same ↦ inl same
    | inr j ↦ inr (In-sorted xs b j)
  ]

  pub In-sorted_of : (xs : List A) (b : A) → In b xs → In b (sorted xs)
  unfolding sorted
  In-sorted_of [] b i = i
  In-sorted_of (x ∷ xs) b (inl same) = In-insert_of x (sorted xs) b (inl same)
  In-sorted_of (x ∷ xs) b (inr i) = In-insert_of x (sorted xs) b (inr (In-sorted_of xs b i))

  In-of_pick :
      (b : Bool) (a x r : A) (xs : List A) → In r ((if b then a else x) ∷ xs) → In r (a ∷ x ∷ xs)
  In-of_pick true a x r xs (inl same) = inl same
  In-of_pick true a x r xs (inr i) = inr (inr i)
  In-of_pick false a x r xs i = inr i

  pub min_from-In : (a : A) (xs : List A) → In (min_from a xs) (a ∷ xs)
  unfolding min_from
  min_from-In a [] = inl refl
  min_from-In a (x ∷ xs) =
      let first = tuple_leb (key a) (key x) in
      In-of_pick first a x _ xs (min_from-In (if first then a else x) xs)

  Before-of_pick :
      (b : Bool) (a x r : A)
      → tuple_leb (key a) (key x) ≡ b
      → Before r (if b then a else x)
      → Before r a × Before r x
  Before-of_pick true a x r e h = (h, tuple_leb_trans (key r) (key a) (key x) h e)
  Before-of_pick false a x r e h =
      (tuple_leb_trans (key r) (key x) (key a) h (tuple_leb_total (key a) (key x) e), h)

  -- The item that `min` returns comes before each item.
  pub min_from-Before : (a : A) (xs : List A) → All (Before (min_from a xs)) (a ∷ xs)
  unfolding min_from
  min_from-Before a [] = (tuple_leb_refl (key a), tt)
  min_from-Before a (x ∷ xs) =
      let first = tuple_leb (key a) (key x) in
      let (here, rest) = min_from-Before (if first then a else x) xs in
      let (low, high) = Before-of_pick first a x _ refl here in (low, (high, rest))

  -- What a test keeps of a sorted list is sorted.
  pub filter-IsSorted : (p : A → Bool) (xs : List A) → IsSorted xs → IsSorted (filter p xs)
  unfolding filter
  filter-IsSorted p [] s = tt
  filter-IsSorted p (x ∷ xs) (b, s) = elim (Bool-cases (p x)) [
    | inl e ↦ rw e (All-filter (Before x) p xs b, filter-IsSorted p xs s)
    | inr e ↦ rw e (filter-IsSorted p xs s)
  ]
