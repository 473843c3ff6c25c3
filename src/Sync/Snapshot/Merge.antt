-- ===== src/Sync/Snapshot/Merge.antt =====
-- What `_merge_kind` makes of a report of changes.
use caldav_assistant_skeleto.Prelude.{
  elem, ◌≡◌, refl, ◌≢◌, ◌⊎◌, inl, inr, sym, ◌∙◌, ap, String, Bool, true, false, not, none, some,
  List, [], ◌∷◌, filter, any, map, is_blank, ◌==◌, eq_iff, arith, All, All-In, In, In-filter,
  In-filter_of, In-map, Bool-cases, Option-cases,
}
use caldav_assistant_skeleto.Api.{ok}
use caldav_assistant_skeleto.Sync.Dict.{
  find, IsUnique, find-In, find-none, find_of-In, unique-In, nonblank-In, find-put_all,
  put_all-IsUnique,
}
use caldav_assistant_skeleto.Sync.Snapshot.{Kind, check_unique, item_url, index, merge_kind}
use caldav_assistant_skeleto.Sync.Snapshot.Unique.{check_unique-IsUnique, check_unique_of-IsUnique}

pub In-elem : (k : String) (ks : List String) → elem k ks ≡ true → In k ks
unfolding any
In-elem k [] h = absurd (cc)
In-elem k (x ∷ ks) h = elim (Bool-cases (x == k)) [
  | inl e ↦ inl ((eq_iff x k).0 e)
  | inr e ↦ inr (In-elem k ks (rw e at h))
]

pub In-elem_of : (k : String) (ks : List String) → In k ks → elem k ks ≡ true
unfolding any
In-elem_of k [] i = absurd i
In-elem_of k (x ∷ ks) (inl e) = let t = (eq_iff x k).1 e in rw t refl
In-elem_of k (x ∷ ks) (inr i) = ground (arith, In-elem_of k ks i)

module _ {A : Type 0} (kind : Kind A) where
  find-blank :
      (k : String) (d : List A) → IsUnique kind.id d → is_blank k ≡ true → find kind.id k d ≡ none
  find-blank k d u b = elim (Option-cases (find kind.id k d)) [
    | inl e ↦ e
    | inr (x, e) ↦
        let (i, same) = find-In kind.id k d x e in
        let full : is_blank (kind.id x) ≡ false = nonblank-In kind.id d x u i in
        let full' : is_blank k ≡ false = rw (← same) full in absurd (cc)
  ]

  -- The rows that are still there, of those that are cached
  abbrev survives : List String → A → Bool
  survives deleted x = not (elem (item_url kind x) deleted)

  merge_kind-IsUnique :
      (previous upserts : List A) (deleted : List String)
      → IsUnique kind.id (merge_kind kind previous upserts deleted)
  unfolding merge_kind
  merge_kind-IsUnique previous upserts deleted =
      let kept = filter (survives deleted) previous in
      put_all-IsUnique kind.id (index kind kept) upserts (put_all-IsUnique kind.id [] kept tt)

  -- Whatever is cached and whatever is reported, the merged values of a kind pass `_check_unique`:
  -- the merge raises no conflict.
  pub check_unique-merge_kind :
      (previous upserts : List A) (deleted : List String)
      → check_unique kind (merge_kind kind previous upserts deleted) ≡ ok tt
  check_unique-merge_kind previous upserts deleted =
      check_unique_of-IsUnique kind _ (merge_kind-IsUnique previous upserts deleted)

  module _ (previous current upserts : List A) (deleted : List String)
      (u : IsUnique kind.id current) (p : IsUnique kind.id previous)
      (gone : All (λ url. All (λ x. item_url kind x ≢ url) current) deleted)
      (reported : All
        (λ x. In (item_url kind x) (map (item_url kind) current) ⊎ In (item_url kind x) deleted)
        previous)
      (present : All (λ x. In x current) upserts)
      (covered : All (λ x. In x previous ⊎ In x upserts) current)
      (stable : All
        (λ x. All (λ y. item_url kind x ≡ item_url kind y → kind.id x ≡ kind.id y) current)
        previous) where
    -- A row that was cached and is still current survives.
    survives-current : (x : A) → In x current → survives deleted x ≡ true
    survives-current x i = elim (Bool-cases (elem (item_url kind x) deleted)) [
      | inl e ↦
          let j = In-elem (item_url kind x) deleted e in
          absurd (All-In _ current x (All-In _ deleted (item_url kind x) gone j) i refl)
      | inr e ↦ rw e refl
    ]

    -- The UID of a row that survives is that of a current row.
    current-survives :
        (x : A)
        → In x previous
        → survives deleted x ≡ true
        → find kind.id (kind.id x) current ≢ none
    current-survives x i h e = elim (All-In _ previous x reported i) [
      | inl m ↦
          let (y, j, same) = In-map (item_url kind) current (item_url kind x) m in
          let key = All-In _ current y (All-In _ previous x stable i) j (sym same) in
          find-none kind.id (kind.id x) current y e j (sym key)
      | inr j ↦ let t = In-elem_of (item_url kind x) deleted j in ground arith
    ]

    find-kept :
        (k : String)
        → is_blank k ≡ false
        → (x : A) → find kind.id k (index kind (filter (survives deleted) previous)) ≡ some x
        → In x previous × (survives deleted x ≡ true) × (kind.id x ≡ k)
    unfolding find
    find-kept k b x e = elim (find-put_all kind.id k [] (filter (survives deleted) previous) b) [
      | inl (r, i, key, f) ↦
          let same : r ≡ x = cc in
          let (j, s) = In-filter (survives deleted) previous r i in
          (rw (← same) j, rw (← same) s, rw (← same) key)
      | inr (h, f) ↦ absurd (cc)
    ]

    find_of-kept :
        (x : A)
        → In x previous
        → survives deleted x ≡ true
        → find kind.id (kind.id x) (index kind (filter (survives deleted) previous)) ≡ some x
    find_of-kept x i s =
        let b = nonblank-In kind.id previous x p i in
        let j = In-filter_of (survives deleted) previous x i s in
        elim (find-put_all kind.id (kind.id x) [] (filter (survives deleted) previous) b) [
          | inl (r, m, key, f) ↦
              let (n, s') = In-filter (survives deleted) previous r m in
              f ∙ ap some (unique-In kind.id previous r x p n i key)
          | inr (h, f) ↦ absurd (All-In _ _ x h j refl)
        ]

    find-merge :
        (k : String)
        → is_blank k ≡ false
        → find kind.id k (merge_kind kind previous upserts deleted) ≡ find kind.id k current
    unfolding merge_kind
    find-merge k b =
        elim (find-put_all kind.id k (index kind (filter (survives deleted) previous)) upserts b) [
          | inl (r, i, key, f) ↦
              let j = All-In _ upserts r present i in
              let g : find kind.id (kind.id r) current ≡ some r =
                find_of-In kind.id current r u j in
              f ∙ sym g ∙ ap (λ v. find kind.id v current) key
          | inr (h, f) ↦ f ∙ elim (Option-cases (find kind.id k current)) [
            | inl e ↦
                elim (Option-cases
                  (find kind.id k (index kind (filter (survives deleted) previous)))) [
                    | inl e' ↦ e' ∙ sym e
                    | inr (x, e') ↦
                        let (i, s, key) = find-kept k b x e' in
                        let e'' : find kind.id (kind.id x) current ≡ none = rw key e in
                        absurd (current-survives x i s e'')
                  ]
            | inr (x, e) ↦
                let (i, key) = find-In kind.id k current x e in
                elim (All-In _ current x covered i) [
                  | inl j ↦
                      let g = find_of-kept x j (survives-current x i) in
                      ap (λ v. find kind.id v (index kind (filter (survives deleted) previous)))
                        (sym key)
                      ∙ g
                      ∙ sym e
                  | inr j ↦ absurd (All-In _ upserts x h j key)
                ]
          ]
        ]

  -- What a report says is true: a resource that it calls deleted is gone, a cached one that is gone
  -- is called deleted, the rows that it sends are current, and the current rows that it does not
  -- send are cached; and a resource has kept its UID.
  abbrev pub IsTrueReport : (previous current upserts : List A) (deleted : List String) → Type 0
  IsTrueReport previous current upserts deleted =
      All (λ url. All (λ x. item_url kind x ≢ url) current) deleted
      × All (λ x. In (item_url kind x) (map (item_url kind) current) ⊎ In (item_url kind x) deleted)
          previous
      × All (λ x. In x current) upserts
      × All (λ x. In x previous ⊎ In x upserts) current
      × All (λ x. All (λ y. item_url kind x ≡ item_url kind y → kind.id x ≡ kind.id y) current)
          previous

  -- The merge of a true report leads each UID to the row that a full scan of the server gives it,
  -- and to none where a full scan gives none, when the cached values and those of the scan have no
  -- UID twice or blank.
  pub find-merge_kind :
      (previous current upserts : List A) (deleted : List String)
      → check_unique kind previous ≡ ok tt
      → check_unique kind current ≡ ok tt
      → IsTrueReport previous current upserts deleted
      → (k : String)
      → find kind.id k (merge_kind kind previous upserts deleted) ≡ find kind.id k current
  find-merge_kind previous current upserts deleted p c (gone, reported, present, covered, stable)
        k =
      let u = check_unique-IsUnique kind current c in
      let v = check_unique-IsUnique kind previous p in
      elim (Bool-cases (is_blank k)) [
        | inl b ↦
            find-blank k _ (merge_kind-IsUnique previous upserts deleted) b
            ∙ sym (find-blank k current u b)
        | inr b ↦
            find-merge previous current upserts deleted u v gone reported present covered stable k b
      ]
