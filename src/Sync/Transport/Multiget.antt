-- ===== src/Sync/Transport/Multiget.antt =====
-- Reading the changed objects in one request, against reading them one by one.
use caldav_assistant_skeleto.Prelude.{
  ◌≡◌, refl, sym, subst, ◌∙◌, ap, ◌↔◌, ◌⊎◌, inl, inr, String, Bool, Option, none, some, List, [],
  ◌∷◌, ◌++◌, map, filter, is_none, All, All-In, All-of_In, In, In-append, In-append_left,
  In-append_right, In-filter, In-filter_of, In-map, Option-cases,
}
use caldav_assistant_skeleto.Api.{Result, ok, err}
use caldav_assistant_skeleto.Sync.Dict.{
  put_all, find, IsUnique, find-In, unique-In, In-put_all, find-put_all_unique,
}
use caldav_assistant_skeleto.Sync.Transport.{Resource, Calendar, Answer, answered, and_then}
use caldav_assistant_skeleto.Sync.Transport.Load.{
  Loaded, resource_key, prepend, inherit_from, inherit_report_props, load_one, load_each,
  load_missing, after_multiget, load_by, load_changed, load_changed_resources, reported_changes,
  reported_deletions, adding,
}

module _ {A : Type 0} where
  In-prepend : (o : Option A) (xs : List A) (x : A) → In x (prepend o xs) → (o ≡ some x) ⊎ In x xs
  In-prepend none xs x i = inr i
  In-prepend (some y) xs x (inl e) = inl (ap some e)
  In-prepend (some y) xs x (inr i) = inr i

  In-prepend_of :
      (o : Option A) (xs : List A) (x : A) → (o ≡ some x) ⊎ In x xs → In x (prepend o xs)
  In-prepend_of none xs x (inl e) = absurd (cc)
  In-prepend_of none xs x (inr i) = i
  In-prepend_of (some y) xs x (inl e) = inl (cc)
  In-prepend_of (some y) xs x (inr i) = inr i

module _ {D : Type 0} where
  abbrev pub SameItems : List (Resource D) × List String → List (Resource D) × List String → Type 0
  SameItems p q =
      ((x : Resource D) → In x p.0 ↔ In x q.0) × ((url : String) → In url p.1 ↔ In url q.1)

module _ {D : Type 0} (c : Calendar D) where
  -- the objects, and the URLs, that the single loads of a list give
  abbrev Gives : List (Resource D) → Resource D → Type 0
  Gives rs x = (r : Resource D) × In r rs × ((d : Option String) × (load_one c r ≡ ok (some x, d)))

  abbrev Loses : List (Resource D) → String → Type 0
  Loses rs u =
      (r : Resource D) × In r rs × ((v : Option (Resource D)) × (load_one c r ≡ ok (v, some u)))

  abbrev Loadable : Resource D → Type 0
  Loadable r = (v : Loaded D) × (load_one c r ≡ ok v)

  -- The lists hold what the single loads give, and these all return.
  abbrev Collects : List (Resource D) → List (Resource D) × List String → Type 0
  Collects rs (values, urls) =
      All Loadable rs
      × ((x : Resource D) → In x values ↔ Gives rs x)
      × ((u : String) → In u urls ↔ Loses rs u)

  Collects-cons :
      (r : Resource D) (rs : List (Resource D)) (v : Option (Resource D)) (d : Option String)
      (values : List (Resource D)) (urls : List String)
      → load_one c r ≡ ok (v, d)
      → Collects rs (values, urls)
      → Collects (r ∷ rs) (prepend v values, prepend d urls)
  Collects-cons r rs v d values urls e (l, g, h) = (
    (((v, d), e), l),
    λ x. (
      λ i. elim (In-prepend v values x i) [
        | inl s ↦ (r, inl refl, (d, rw s at e))
        | inr j ↦ let (r', k, q) = (g x).0 j in (r', inr k, q)
      ],
      λ (r', k, (d', q)). In-prepend_of v values x (elim k [
        | inl s ↦ let q' : load_one c r ≡ ok (some x, d') = ap (load_one c) s ∙ q in inl (cc)
        | inr m ↦ inr ((g x).1 (r', m, (d', q)))
      ]),
    ),
    λ u. (
      λ i. elim (In-prepend d urls u i) [
        | inl s ↦ (r, inl refl, (v, rw s at e))
        | inr j ↦ let (r', k, q) = (h u).0 j in (r', inr k, q)
      ],
      λ (r', k, (v', q)). In-prepend_of d urls u (elim k [
        | inl s ↦ let q' : load_one c r ≡ ok (v', some u) = ap (load_one c) s ∙ q in inl (cc)
        | inr m ↦ inr ((h u).1 (r', m, (v', q)))
      ]),
    ),
  )

  load_each-Collects :
      (rs : List (Resource D)) (p : List (Resource D) × List String)
      → load_each c rs ≡ ok p
      → Collects rs p
  unfolding load_each
  load_each-Collects [] p h =
      let e : ([], []) ≡ p = cc in
      subst (Collects []) e
        (tt, (λ x. (λ i. absurd i, λ t. absurd (t.1))), (λ u. (λ i. absurd i, λ t. absurd (t.1))))
  load_each-Collects (r ∷ rs) p h =
      step (load_one c r) (load_each c rs) refl (load_each-Collects rs) h
    where
      step :
          (a : Result (Loaded D)) (b : Result (List (Resource D) × List String))
          → load_one c r ≡ a
          → ((q : List (Resource D) × List String) → b ≡ ok q → Collects rs q)
          → and_then a (λ (value, deleted).
            and_then b λ (values, urls). ok (prepend value values, prepend deleted urls))
            ≡ ok p
          → Collects (r ∷ rs) p
      step (ok (v, d)) (ok (values, urls)) e f h =
          let same : (prepend v values, prepend d urls) ≡ p = cc in
          subst (Collects (r ∷ rs)) same
            (Collects-cons r rs v d values urls e (f (values, urls) refl))
      step (ok (v, d)) (err q) e f h = absurd (cc)
      step (err q) b e f h = absurd (cc)

  load_each_ok :
      (rs : List (Resource D))
      → All Loadable rs
      → (p : List (Resource D) × List String) × (load_each c rs ≡ ok p)
  unfolding load_each
  load_each_ok [] l = (_, refl)
  load_each_ok (r ∷ rs) ((v, e), l) =
      let (p, f) = load_each_ok rs l in ((prepend v.0 p.0, prepend v.1 p.1), rw (e, f) refl)

  -- Each object of a batch is what a single read of a changed resource gives, with the properties
  -- that the report gives it.
  abbrev pub IsBatch : (changed loaded : List (Resource D)) → Type 0
  IsBatch changed loaded =
      All
        (λ r.
          (report : Resource D) × In report changed
          × (resource_key r ≡ resource_key report)
          × (load_one c report ≡ ok (some (inherit_report_props r report), none)))
        loaded

  module _ (changed loaded : List (Resource D)) (u : IsUnique resource_key changed)
      (batch : IsBatch changed loaded) where
    abbrev by_url : List (Resource D)
    by_url = put_all resource_key [] changed

    abbrev inherited : List (Resource D)
    inherited = map (λ r. inherit_from (find resource_key (resource_key r) by_url) r) loaded

    abbrev loaded_by_url : List (Resource D)
    loaded_by_url = put_all resource_key [] inherited

    abbrev is_missing : Resource D → Bool
    is_missing r = is_none (find resource_key (resource_key r) loaded_by_url)

    abbrev missing : List (Resource D)
    missing = filter is_missing by_url

    abbrev Single : Resource D → Type 0
    Single x =
        (report : Resource D) × In report changed
        × (resource_key x ≡ resource_key report)
        × (load_one c report ≡ ok (some x, none))

    Single-inherited : (x : Resource D) → In x inherited → Single x
    Single-inherited x i =
        let (r, j, e) =
          In-map (λ r. inherit_from (find resource_key (resource_key r) by_url) r) loaded x i in
        let (report, k, key, l) = All-In _ loaded r batch j in
        let f : find resource_key (resource_key r) by_url ≡ some report =
          ap (λ v. find resource_key v by_url) key
          ∙ find-put_all_unique resource_key changed report u k in
        let same : inherit_report_props r report ≡ x = ap (λ o. inherit_from o r) (sym f) ∙ e in
        (report, k, sym (ap resource_key same) ∙ key, l ∙ ap (λ v. ok (some v, none)) same)

    Single-loaded : (x : Resource D) → In x loaded_by_url → Single x
    Single-loaded x i = elim (In-put_all resource_key [] inherited x i) [
      | inl j ↦ absurd j
      | inr j ↦ Single-inherited x j
    ]

    changed-missing : (r : Resource D) → In r missing → In r changed
    changed-missing r i =
        elim (In-put_all resource_key [] changed r (In-filter is_missing by_url r i).0) [
          | inl j ↦ absurd j
          | inr j ↦ j
        ]

    -- A changed resource is missing from the batch, or the batch holds what a single read gives.
    missing_or_single :
        (r : Resource D)
        → In r changed
        → In r missing
          ⊎ ((y : Resource D) × In y loaded_by_url × (load_one c r ≡ ok (some y, none)))
    missing_or_single r i = elim (Option-cases (find resource_key (resource_key r) loaded_by_url)) [
      | inl e ↦
          let j =
            (find-In resource_key (resource_key r) by_url r
              (find-put_all_unique resource_key changed r u i)).0 in
          inl (In-filter_of is_missing by_url r j (rw e refl))
      | inr (y, e) ↦
          let (j, key) = find-In resource_key (resource_key r) loaded_by_url y e in
          let (report, k, key', l) = Single-loaded y j in
          let same : report ≡ r = unique-In resource_key changed report r u k i (sym key' ∙ key) in
          inr (y, j, ap (load_one c) (sym same) ∙ l)
    ]

    same-load_missing :
        (p q : List (Resource D) × List String)
        → Collects changed p
        → Collects missing q
        → SameItems p (loaded_by_url ++ q.0, q.1)
    same-load_missing p q (l, g, h) (l', g', h') = (
      λ x. (
        λ i.
            let (r, j, (d, e)) = (g x).0 i in
            elim (missing_or_single r j) [
              | inl m ↦ In-append_right loaded_by_url q.0 x ((g' x).1 (r, m, (d, e)))
              | inr (y, k, e') ↦
                  let same : y ≡ x = cc in
                  In-append_left loaded_by_url q.0 x (subst (λ v. In v loaded_by_url) same k)
            ],
        λ i. elim (In-append loaded_by_url q.0 x i) [
          | inl k ↦ let (report, j, key, e) = Single-loaded x k in (g x).1 (report, j, (none, e))
          | inr k ↦ let (r, j, e) = (g' x).0 k in (g x).1 (r, changed-missing r j, e)
        ],
      ),
      λ url. (
        λ i.
            let (r, j, (v, e)) = (h url).0 i in
            elim (missing_or_single r j) [
              | inl m ↦ (h' url).1 (r, m, (v, e))
              | inr (y, k, e') ↦ absurd (cc)
            ],
        λ i. let (r, j, e) = (h' url).0 i in (h url).1 (r, changed-missing r j, e),
      ),
    )

    load_missing_ok :
        (p : List (Resource D) × List String)
        → load_each c changed ≡ ok p
        → (q : List (Resource D) × List String) × (load_missing c changed loaded ≡ ok q)
          × SameItems p q
    unfolding load_missing
    load_missing_ok p e =
        let all = load_each-Collects changed p e in
        let some_ok : All Loadable missing =
          All-of_In _ missing (λ r i. All-In _ changed r all.0 (changed-missing r i)) in
        let (q, f) = load_each_ok missing some_ok in
        (
          (loaded_by_url ++ q.0, q.1),
          rw f refl,
          same-load_missing p q all (load_each-Collects missing q f),
        )

module _ {D : Type 0} (c : Calendar D) where
  abbrev pub one_by_one : Calendar D
  one_by_one = record c { multiget = none }

  load_changed_ok :
      (changed loaded : List (Resource D)) (get : List String → Answer (List (Resource D)))
      → c.multiget ≡ some get
      → get (map (λ r. r.url) changed) ≡ answered loaded
      → IsUnique resource_key changed
      → IsBatch c changed loaded
      → (p : List (Resource D) × List String) → load_changed one_by_one changed ≡ ok p
      → (q : List (Resource D) × List String) × (load_changed c changed ≡ ok q) × SameItems p q
  unfolding load_each load_one
  load_changed_ok [] loaded get m a u b p e =
      (p, e, ((λ x. (λ i. i, λ i. i)), (λ x. (λ i. i, λ i. i))))
  load_changed_ok (r ∷ rs) loaded get m a u b p e =
      let (q, f, same) = load_missing_ok c (r ∷ rs) loaded u b p e in
      (q, ap (λ get. load_by c get (r ∷ rs)) m ∙ ap (after_multiget c (r ∷ rs)) a ∙ f, same)

  SameItems-adding :
      (urls : List String) (p q : List (Resource D) × List String)
      → SameItems p q
      → SameItems (adding [] urls p) (adding [] urls q)
  SameItems-adding urls p q (g, h) = (
    g,
    λ u. (
      λ i. elim (In-append urls p.1 u i) [
        | inl j ↦ In-append_left urls q.1 u j
        | inr j ↦ In-append_right urls q.1 u ((h u).0 j)
      ],
      λ i. elim (In-append urls q.1 u i) [
        | inl j ↦ In-append_left urls p.1 u j
        | inr j ↦ In-append_right urls p.1 u ((h u).1 j)
      ],
    ),
  )

  then_adding :
      (urls : List String) (a b : Result (List (Resource D) × List String))
      → ((p : List (Resource D) × List String)
          → a ≡ ok p
          → (q : List (Resource D) × List String) × (b ≡ ok q) × SameItems p q)
      → (p : List (Resource D) × List String) → and_then a (λ m. ok (adding [] urls m)) ≡ ok p
      → (q : List (Resource D) × List String) × (and_then b (λ m. ok (adding [] urls m)) ≡ ok q)
        × SameItems p q
  then_adding urls (err e) b k p h = absurd (cc)
  then_adding urls (ok m) b k p h =
      let (q, f, same) = k m refl in
      let e : adding [] urls m ≡ p = cc in
      (
        adding [] urls q,
        rw f refl,
        subst (λ v. SameItems v (adding [] urls q)) e (SameItems-adding urls m q same),
      )

  -- When a report names each changed resource once, and the calendar answers a request for many with
  -- a batch of objects, each the one that a single read of a changed resource gives: if reading the
  -- changed resources one by one returns, reading them with the batch returns too, with the same
  -- objects and the same deleted URLs, whatever the batch leaves out.
  pub load_changed_resources_lem :
      (reports loaded : List (Resource D)) (get : List String → Answer (List (Resource D)))
      → c.multiget ≡ some get
      → get (map (λ r. r.url) (reported_changes reports)) ≡ answered loaded
      → IsUnique resource_key (reported_changes reports)
      → IsBatch c (reported_changes reports) loaded
      → (p : List (Resource D) × List String) → load_changed_resources one_by_one reports ≡ ok p
      → (q : List (Resource D) × List String) × (load_changed_resources c reports ≡ ok q)
        × SameItems p q
  unfolding load_changed_resources
  load_changed_resources_lem reports loaded get m a u b p h =
      then_adding (reported_deletions reports) (load_changed one_by_one (reported_changes reports))
        (load_changed c (reported_changes reports))
        (load_changed_ok (reported_changes reports) loaded get m a u b) p h
