-- ===== src/WorkLog/Intervals.antt =====
-- An adapter that keeps a work-log collection, and the open intervals of it.
use caldav_assistant_skeleto.Prelude.{
  ◌≡◌, refl, ◌∙◌, ap, inl, inr, String, Bool, true, false, ◌&&◌, Option, none, some, List, [], ◌∷◌,
  ◌++◌, map, filter, elem, is_blank, strip, In, In-filter, Bool-cases, if◌then◌else◌, ◌==◌, arith,
}
use caldav_assistant_skeleto.Api.{Event, ok}
use caldav_assistant_skeleto.Effect.{continue, ◌>>=◌}
use caldav_assistant_skeleto.Sync.Rows.{Fetched}
use caldav_assistant_skeleto.WorkLog.{
  WorkAdapter, EventChanges, Segments, by_category, open_category, is_open, is_work_event,
  task_id_from_event, id_under, id_in, behind, task_prefix, in_collection, collection_url,
  query_from, work_events, query_work_events, open_events, current_of, current_task_id,
}
use caldav_assistant_skeleto.Prelude.{splitlines}

abbrev pub or_old : {A : Type 0} → Option A → A → A
or_old none old = old
or_old (some new) old = new

-- An update sets the keys that it has.
abbrev pub applied : EventChanges → Fetched Event → Fetched Event
applied c e = record e {
  value = record e.value {
    end = or_old c.end e.value.end;
    categories = or_old c.categories e.value.categories;
    description = or_old c.description e.value.description;
  };
}

-- The adapter keeps the events of the collection: a query by category reads those that have it, a
-- created event stands there with what it was created with, and an update changes those of its id.
pub record IsCollection {Store : Type 0} (a : WorkAdapter Store) (target : String)
    (rows : Store → Segments) : Type 0 where
  pub reads :
      (c : String) (s : Store)
      → a.query_events target (by_category c) (by_category c) s
        ≡ ok (filter (λ e. elem c e.value.categories) (rows s))
  pub homes : (s : Store) (e : Fetched Event) → In e (rows s) → in_collection target e ≡ true
  pub creates :
      (e : Fetched Event) (s : Store) (e' : Fetched Event) (s' : Store)
      → a.create_event e s ≡ (ok e', s')
      → (rows s' ≡ rows s ++ e' ∷ [])
        × (e'.value.description ≡ e.value.description)
        × (e'.value.categories ≡ e.value.categories)
        × (e'.value.end ≡ e.value.end)
  pub updates :
      (id : String) (c : EventChanges) (s : Store) (e' : Fetched Event) (s' : Store)
      → a.update_event target id c s ≡ (ok e', s')
      → rows s' ≡ map (λ r. if r.value.id == id then applied c r else r) (rows s)

module _ {A : Type 0} where
  -- A filter behind one that lets through what it does.
  filter-filter_of :
      (p q : A → Bool) (xs : List A)
      → ((x : A) → In x xs → p x ≡ true → q x ≡ true)
      → filter p (filter q xs) ≡ filter p xs
  unfolding filter
  filter-filter_of p q [] h = refl
  filter-filter_of p q (x ∷ xs) h = elim (Bool-cases (q x)) [
    | inl e ↦ elim (Bool-cases (p x)) [
      | inl f ↦ rw (e, f) (ap (λ v. x ∷ v) (filter-filter_of p q xs (λ y i. h y (inr i))))
      | inr f ↦ rw (e, f) (filter-filter_of p q xs (λ y i. h y (inr i)))
    ]
    | inr e ↦ elim (Bool-cases (p x)) [
      | inl f ↦ let g = h x (inl refl) f in absurd (cc)
      | inr f ↦ rw (e, f) (filter-filter_of p q xs (λ y i. h y (inr i)))
    ]
  ]

  pub filter-append :
      (p : A → Bool) (xs ys : List A) → filter p (xs ++ ys) ≡ filter p xs ++ filter p ys
  unfolding filter
  filter-append p [] ys = refl
  filter-append p (x ∷ xs) ys = elim (Bool-cases (p x)) [
    | inl e ↦ rw e (ap (λ v. x ∷ v) (filter-append p xs ys))
    | inr e ↦ rw e (filter-append p xs ys)
  ]

  pub filter-none :
      (p : A → Bool) (xs : List A) → ((x : A) → In x xs → p x ≡ false) → filter p xs ≡ []
  unfolding filter
  filter-none p [] h = refl
  filter-none p (x ∷ xs) h = rw (h x (inl refl)) (filter-none p xs (λ y i. h y (inr i)))

id_in-full : (ls : List String) (v : String) → id_in ls ≡ some v → is_blank v ≡ false
id_in-full [] v h = absurd (cc)
id_in-full (l ∷ ls) v h = step (behind task_prefix l) (id_in-full ls v) h
  where
    step :
        (o : Option String)
        → (id_in ls ≡ some v → is_blank v ≡ false)
        → (elim o [
          | some value ↦ if is_blank (strip value) then none else some (strip value)
          | none ↦ id_in ls
        ])
          ≡ some v
        → is_blank v ≡ false
    step none k h = k h
    step (some value) k h = elim (Bool-cases (is_blank (strip value))) [
      | inl e ↦ let h' : none ≡ some v = rw e at h in absurd (cc)
      | inr e ↦
          let h' : some (strip value) ≡ some v = rw e at h in
          let same : strip value ≡ v = cc in rw (← same) e
    ]

id_under-full : (ls : List String) (v : String) → id_under ls ≡ some v → is_blank v ≡ false
id_under-full [] v h = absurd (cc)
id_under-full (l ∷ ls) v h = elim (Bool-cases (strip l == "CalDAV Assistant Work Segment")) [
  | inl e ↦ id_in-full ls v (rw e at h)
  | inr e ↦ let h' : none ≡ some v = rw e at h in absurd (cc)
]

-- An id that is read from an event is not empty.
pub task_id_from_event-full :
    (e : Fetched Event) (v : String) → task_id_from_event e ≡ some v → is_blank v ≡ false
unfolding task_id_from_event
task_id_from_event-full e v h = id_under-full (splitlines e.value.description) v h

module _ {Store : Type 0} (a : WorkAdapter Store) (url : Option String) (target : String)
    (rows : Store → Segments) (laws : IsCollection a target rows)
    (configured : collection_url a url ≡ some target) where
  -- The open intervals, for the service, are those of the collection.
  pub open_events_lem : (s : Store) → open_events a url none s ≡ (ok (filter is_open (rows s)), s)
  unfolding open_events query_work_events is_open ◌>>=◌
  open_events_lem s =
      let tagged = filter (λ e. elem open_category e.value.categories) (rows s) in
      let r = laws.reads open_category s in
      let by = by_category open_category in
      let found : query_work_events a url by by s
          ≡ ok (filter (λ e. is_work_event e && in_collection target e) tagged) =
        ap (λ o. query_from a url o by by s) configured ∙ ap (work_events target) r in
      ap (λ q. continue q (λ es s. (ok (filter is_open es), s)) s) found
      ∙ ap (λ v. (ok v, s))
          (filter-filter_of is_open (λ e. is_work_event e && in_collection target e) tagged
              (λ x i h. let home = laws.homes s x (In-filter _ (rows s) x i).0 in ground arith)
            ∙ filter-filter_of is_open (λ e. elem open_category e.value.categories) (rows s)
                (λ x i h. ground arith))

  pub current_task_id_lem :
      (s : Store) → current_task_id a url none s ≡ (current_of (filter is_open (rows s)), s)
  unfolding current_task_id ◌>>=◌
  current_task_id_lem s = rw (open_events_lem s) refl
