-- ===== src/WorkLog/Sample.antt =====
-- A work-log collection in memory.
use caldav_assistant_skeleto.Prelude.{
  ◌≡◌, refl, sym, ◌∙◌, ap, inl, inr, String, not, Option, none, some, List, [], ◌∷◌, ◌++◌, map,
  filter, elem, strip, In-map, Bool-cases, if◌then◌else◌, ◌==◌,
}
use caldav_assistant_skeleto.Temporal.{datetime}
use caldav_assistant_skeleto.Api.{Event, Result, ok, err, not_found}
use caldav_assistant_skeleto.Sync.Rows.{Fetched}
use caldav_assistant_skeleto.Sync.Urls.{rstrip_slash}
use caldav_assistant_skeleto.Tasks.Sample.{noon, named}
use caldav_assistant_skeleto.WorkLog.{
  WorkAdapter, EventChanges, Segments, in_collection, collection_url, opened,
}
use caldav_assistant_skeleto.WorkLog.Intervals.{IsCollection, applied, or_old}

abbrev pub home : Event → Fetched Event
home v = record {
  value = v;
  attributes = record { etag = none; url = none; collection_url = some "w" };
}

abbrev pub rows : List Event → Segments
rows s = map home s

abbrev pub numbered : Event → Event
numbered v = record v { id = "new" }

abbrev pub changed_event : EventChanges → Event → Event
changed_event c v = record v {
  end = or_old c.end v.end;
  categories = or_old c.categories v.categories;
  description = or_old c.description v.description;
}

abbrev pub having : Option String → Segments → Segments
having none es = es
having (some c) es = filter (λ e. elem c e.value.categories) es

abbrev sole_row : Segments → Result (Fetched Event)
sole_row [] = err not_found
sole_row (e ∷ es) = ok e

abbrev pub log : WorkAdapter (List Event)
log = record {
  query_events = λ target server filters s. ok (having filters.category (rows s));
  create_event = λ e s. (ok (home (numbered e.value)), s ++ numbered e.value ∷ []);
  update_event = λ target id c s. (
    ok (home (changed_event c (opened "w" (named "a" "NEEDS-ACTION") (datetime noon)).value)),
    map (λ v. if v.id == id then changed_event c v else v) s,
  );
  delete_event = λ target id s. (ok tt, filter (λ v. not (v.id == id)) s);
  get_event = λ target id s. sole_row (filter (λ r. r.value.id == id) (rows s));
  update_references = none;
}

pub rows-append : (s : List Event) (v : Event) → rows (s ++ v ∷ []) ≡ rows s ++ home v ∷ []
rows-append [] v = refl
rows-append (w ∷ s) v = ap (λ r. home w ∷ r) (rows-append s v)

pub rows-update :
    (id : String) (c : EventChanges) (s : List Event)
    → rows (map (λ v. if v.id == id then changed_event c v else v) s)
      ≡ map (λ r. if r.value.id == id then applied c r else r) (rows s)
rows-update id c [] = refl
rows-update id c (v ∷ s) = elim (Bool-cases (v.id == id)) [
  | inl e ↦ rw e (ap (λ r. home (changed_event c v) ∷ r) (rows-update id c s))
  | inr e ↦ rw e (ap (λ r. home v ∷ r) (rows-update id c s))
]

pub log-IsCollection : IsCollection log "w" rows
unfolding rstrip_slash
log-IsCollection = record {
  reads = λ c s. refl;
  homes = λ s e i. let (v, j, same) = In-map home s e i in ap (in_collection "w") (sym same);
  creates = λ e s e' s' h.
      let last : home (numbered e.value) ≡ e' = cc in
      let next : s ++ numbered e.value ∷ [] ≡ s' = cc in
      (
        ap rows (sym next) ∙ rows-append s (numbered e.value) ∙ ap (λ x. rows s ++ x ∷ []) last,
        ap (λ x. x.value.description) (sym last),
        ap (λ x. x.value.categories) (sym last),
        ap (λ x. x.value.end) (sym last),
      );
  updates = λ id c s e' s' h.
      let next : map (λ v. if v.id == id then changed_event c v else v) s ≡ s' = cc in
      ap rows (sym next) ∙ rows-update id c s;
}

pub w_configured : collection_url log (some "w") ≡ some "w"
unfolding collection_url strip
w_configured = refl
