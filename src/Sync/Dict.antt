-- ===== src/Sync/Dict.antt =====
-- The dictionaries by UID of internal/caldav/sync.py. Each is kept as the list of its values, in
-- the order of `dict.values`; the key of a value is its `id`.
use caldav_assistant_skeleto.Prelude.{
  ◌≡◌, refl, ◌≢◌, ◌⊎◌, inl, inr, sym, ◌∙◌, ap, String, false, Option, none, some, List, [], ◌∷◌,
  is_blank, if◌then◌else◌, ◌==◌, eq_iff, eq_refl, arith, All, In, All-In, Bool-cases,
}

module _ {A : Type 0} (id : A → String) where
  -- `d[id] = x`: in the place of the old value, if there is one.
  unfoldable pub put : A → List A → List A
  put x [] = x ∷ []
  put x (y ∷ ys) = if id y == id x then x ∷ ys else y ∷ put x ys

  -- `d.get(key)`
  unfoldable pub find : String → List A → Option A
  find k [] = none
  find k (y ∷ ys) = if id y == k then some y else find k ys

  -- `for x in xs: if x.id: d[x.id] = x`
  unfoldable pub put_all : List A → List A → List A
  unfolding put
  put_all d [] = d
  put_all d (x ∷ xs) = put_all (if is_blank (id x) then d else put x d) xs

  -- No key is blank, and no two values have one key.
  abbrev pub IsUnique : List A → Type 0
  IsUnique [] = Unit
  IsUnique (x ∷ xs) = (is_blank (id x) ≡ false) × All (λ y. id y ≢ id x) xs × IsUnique xs

module _ {A : Type 0} (id : A → String) where
  find-put : (k : String) (x : A) (d : List A) → id x ≡ k → find id k (put id x d) ≡ some x
  unfolding find put
  find-put k x [] e = rw (e, eq_refl k)
  find-put k x (y ∷ ys) e = elim (Bool-cases (id y == id x)) [
    | inl h ↦ rw (h, e, eq_refl k)
    | inr h ↦ let h' : (id y == k) ≡ false = rw (← e) h in rw (h, h') (find-put k x ys e)
  ]

  find-put_other :
      (k : String) (x : A) (d : List A) → id x ≢ k → find id k (put id x d) ≡ find id k d
  unfolding find put
  find-put_other k x [] ne = ground (arith, eq_iff (id x) k)
  find-put_other k x (y ∷ ys) ne = elim (Bool-cases (id y == id x)) [
    | inl h ↦
        let e : id y ≡ id x = (eq_iff (id y) (id x)).0 h in
        rw h (rw e (ground (arith, eq_iff (id x) k)))
    | inr h ↦ rw (h, find-put_other k x ys ne)
  ]

  pub find-In : (k : String) (d : List A) (x : A) → find id k d ≡ some x → In x d × (id x ≡ k)
  unfolding find
  find-In k [] x e = absurd (cc)
  find-In k (y ∷ ys) x e = elim (Bool-cases (id y == k)) [
    | inl h ↦
        let e' : some y ≡ some x = rw h at e in
        let same : y ≡ x = cc in (inl same, sym (ap id same) ∙ (eq_iff (id y) k).0 h)
    | inr h ↦
        let e' : find id k ys ≡ some x = rw h at e in
        let found = find-In k ys x e' in (inr found.0, found.1)
  ]

  pub find-none : (k : String) (d : List A) (x : A) → find id k d ≡ none → In x d → id x ≢ k
  unfolding find
  find-none k [] x e i = absurd i
  find-none k (y ∷ ys) x e i = elim (Bool-cases (id y == k)) [
    | inl h ↦ let e' : some y ≡ none = rw h at e in absurd (cc)
    | inr h ↦
        let e' : find id k ys ≡ none = rw h at e in
        elim i [
          | inl same ↦ λ q. let e'' : id y ≡ k = ap id same ∙ q in ground (arith, eq_iff (id y) k)
          | inr j ↦ find-none k ys x e' j
        ]
  ]

  pub find_of-In : (d : List A) (x : A) → IsUnique id d → In x d → find id (id x) d ≡ some x
  unfolding find
  find_of-In [] x u i = absurd i
  find_of-In (y ∷ ys) x u (inl same) = rw same (rw (eq_refl (id x)))
  find_of-In (y ∷ ys) x u (inr i) =
      let ne : id x ≢ id y = All-In _ ys x u.1 i in
      elim (Bool-cases (id y == id x)) [
        | inl h ↦ absurd (ne (sym ((eq_iff (id y) (id x)).0 h)))
        | inr h ↦ rw h (find_of-In ys x u.2 i)
      ]

  -- The values of a dictionary with one key are one value.
  pub unique-In : (d : List A) (x y : A) → IsUnique id d → In x d → In y d → id x ≡ id y → x ≡ y
  unique-In d x y u i j e =
      let p : find id (id x) d ≡ some x = find_of-In d x u i in
      let q : find id (id x) d ≡ some y = rw e (find_of-In d y u j) in cc

  pub nonblank-In : (d : List A) (x : A) → IsUnique id d → In x d → is_blank (id x) ≡ false
  nonblank-In [] x u i = absurd i
  nonblank-In (y ∷ ys) x u (inl same) = rw same at u.0
  nonblank-In (y ∷ ys) x u (inr i) = nonblank-In ys x u.2 i

  All-put : (P : A → Type 0) (x : A) (d : List A) → P x → All P d → All P (put id x d)
  unfolding put
  All-put P x [] h k = (h, tt)
  All-put P x (y ∷ ys) h k = elim (Bool-cases (id y == id x)) [
    | inl e ↦ rw e (h, k.1)
    | inr e ↦ rw e (k.0, All-put P x ys h k.1)
  ]

  put-IsUnique :
      (x : A) (d : List A) → is_blank (id x) ≡ false → IsUnique id d → IsUnique id (put id x d)
  unfolding put
  put-IsUnique x [] h u = (h, tt, tt)
  put-IsUnique x (y ∷ ys) h (b, fresh, u) = elim (Bool-cases (id y == id x)) [
    | inl e ↦ let same : id y ≡ id x = (eq_iff (id y) (id x)).0 e in rw e (h, rw same at fresh, u)
    | inr e ↦
        let ne : id x ≢ id y = λ q. ground (arith, eq_iff (id y) (id x), sym q) in
        rw e (b, All-put (λ v. id v ≢ id y) x ys ne fresh, put-IsUnique x ys h u)
  ]

  -- A dictionary that is filled from a list has no blank key and no key twice.
  pub put_all-IsUnique : (d xs : List A) → IsUnique id d → IsUnique id (put_all id d xs)
  unfolding put_all
  put_all-IsUnique d [] u = u
  put_all-IsUnique d (x ∷ xs) u = elim (Bool-cases (is_blank (id x))) [
    | inl e ↦ rw e (put_all-IsUnique d xs u)
    | inr e ↦ rw e (put_all-IsUnique (put id x d) xs (put-IsUnique x d e u))
  ]

  -- What a key leads to afterwards: an item of the list with that key, or, when there is none, what
  -- it led to before.
  pub find-put_all :
      (k : String) (d xs : List A)
      → is_blank k ≡ false
      → ((r : A) × In r xs × (id r ≡ k) × (find id k (put_all id d xs) ≡ some r))
        ⊎ (All (λ x. id x ≢ k) xs × (find id k (put_all id d xs) ≡ find id k d))
  unfolding put_all
  find-put_all k d [] b = inr (tt, refl)
  find-put_all k d (x ∷ xs) b =
      let d' = if is_blank (id x) then d else put id x d in
      elim (find-put_all k d' xs b) [
        | inl (r, i, e, f) ↦ inl (r, inr i, e, f)
        | inr (h, f) ↦ elim (Bool-cases (id x == k)) [
          | inl e ↦
              let same : id x ≡ k = (eq_iff (id x) k).0 e in
              let shows : is_blank (id x) ≡ false = rw same b in
              inl (x, inl refl, same, f ∙ rw shows (find-put k x d same))
          | inr e ↦
              let ne : id x ≢ k = λ q. ground (arith, eq_iff (id x) k) in
              inr (
                (ne, h),
                f ∙ elim (Bool-cases (is_blank (id x))) [
                  | inl c ↦ rw c
                  | inr c ↦ rw c (find-put_other k x d ne)
                ],
              )
        ]
      ]

  In-put : (x : A) (d : List A) (r : A) → In r (put id x d) → (x ≡ r) ⊎ In r d
  unfolding put
  In-put x [] r (inl e) = inl e
  In-put x [] r (inr i) = inr i
  In-put x (y ∷ ys) r i = elim (Bool-cases (id y == id x)) [
    | inl e ↦
        let j : (x ≡ r) ⊎ In r ys = rw e at i in
        elim j [ inl same ↦ inl same | inr k ↦ inr (inr k) ]
    | inr e ↦
        let j : (y ≡ r) ⊎ In r (put id x ys) = rw e at i in
        elim j [
          | inl same ↦ inr (inl same)
          | inr k ↦ elim (In-put x ys r k) [ inl same ↦ inl same | inr m ↦ inr (inr m) ]
        ]
  ]

  pub In-put_all : (d xs : List A) (r : A) → In r (put_all id d xs) → In r d ⊎ In r xs
  unfolding put_all
  In-put_all d [] r i = inl i
  In-put_all d (x ∷ xs) r i = elim (Bool-cases (is_blank (id x))) [
    | inl e ↦
        let j : In r (put_all id d xs) = rw e at i in
        elim (In-put_all d xs r j) [ inl k ↦ inl k | inr k ↦ inr (inr k) ]
    | inr e ↦
        let j : In r (put_all id (put id x d) xs) = rw e at i in
        elim (In-put_all (put id x d) xs r j) [
          | inl k ↦ elim (In-put x d r k) [ inl same ↦ inr (inl same) | inr m ↦ inl m ]
          | inr k ↦ inr (inr k)
        ]
  ]

  -- From a list without a key twice, each item is found.
  pub find-put_all_unique :
      (xs : List A) (x : A) → IsUnique id xs → In x xs → find id (id x) (put_all id [] xs) ≡ some x
  find-put_all_unique xs x u i = elim (find-put_all (id x) [] xs (nonblank-In xs x u i)) [
    | inl (r, j, e, f) ↦ f ∙ ap some (unique-In xs r x u j i e)
    | inr (h, f) ↦ absurd (All-In _ xs x h i refl)
  ]
