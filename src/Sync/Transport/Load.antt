-- ===== src/Sync/Transport/Load.antt =====
-- internal/caldav/sync_token.py: how the transport reads the objects that a report names.
use caldav_assistant_skeleto.Prelude.{
  String, Bool, true, not, ◌&&◌, Option, none, some, List, [], ◌∷◌, ◌++◌, map, filter, is_none,
  or_else, is_blank, if◌then◌else◌, ◌==◌,
}
use caldav_assistant_skeleto.Api.{Result, ok, err, token_unavailable}
use caldav_assistant_skeleto.Sync.Dict.{put_all, find}
use caldav_assistant_skeleto.Sync.Urls.{url_of}
use caldav_assistant_skeleto.Sync.Transport.{
  Resource, Calendar, Answer, answered, failed, and_then, app_error,
}

abbrev pub prepend : {A : Type 0} → Option A → List A → List A
prepend none xs = xs
prepend (some x) xs = x ∷ xs

-- The object, or the URL of one that is gone.
abbrev pub Loaded : Type 0 → Type 0
Loaded D = Option (Resource D) × Option String

module _ {D : Type 0} where
  -- `_is_reported_deletion`
  abbrev pub is_reported_deletion : Resource D → Bool
  is_reported_deletion r = elim r.etag [ none ↦ true | some e ↦ is_blank e ]

  abbrev pub resource_key : Resource D → String
  resource_key r = url_of r.url

  -- `_inherit_report_props`
  abbrev pub inherit_report_props : Resource D → Resource D → Resource D
  inherit_report_props r report = record r { etag = or_else report.etag r.etag }

  -- `_load_one`
  unfoldable pub load_one : Calendar D → Resource D → Result (Loaded D)
  unfolding app_error url_of
  load_one c r = elim c.load [
    | none ↦ err (token_unavailable "changed CalDAV resource cannot be loaded")
    | some load ↦ elim (load r) [
      | answered loaded ↦ ok (some loaded, none)
      | failed f ↦
          if f.name == "NotFoundError"
          then ok (none, if is_blank (resource_key r) then none else some (resource_key r))
          else err (app_error f)
    ]
  ]

  -- the loops over `_load_one`
  unfoldable pub load_each :
      Calendar D → List (Resource D) → Result (List (Resource D) × List String)
  unfolding load_one
  load_each c [] = ok ([], [])
  load_each c (r ∷ rs) = and_then (load_one c r) λ (value, deleted).
      and_then (load_each c rs) λ (values, urls). ok (prepend value values, prepend deleted urls)

  abbrev has_url : Resource D → Bool
  has_url r = not (is_blank (resource_key r))

  abbrev pub reported_deletions : List (Resource D) → List String
  reported_deletions rs = map resource_key (filter (λ r. is_reported_deletion r && has_url r) rs)

  abbrev pub reported_changes : List (Resource D) → List (Resource D)
  reported_changes rs = filter (λ r. not (is_reported_deletion r) && has_url r) rs

  abbrev pub inherit_from : Option (Resource D) → Resource D → Resource D
  inherit_from none r = r
  inherit_from (some report) r = inherit_report_props r report

  abbrev pub adding :
      List (Resource D)
      → List String
      → List (Resource D) × List String
      → List (Resource D) × List String
  adding loaded deleted (values, urls) = (loaded ++ values, deleted ++ urls)

  -- the part of `_load_changed_resources` behind a `multiget` that answered
  unfoldable pub load_missing :
      Calendar D → List (Resource D) → List (Resource D) → Result (List (Resource D) × List String)
  unfolding load_each put_all find url_of filter
  load_missing c changed loaded =
      let by_url = put_all resource_key [] changed in
      let inherited =
        map (λ r. inherit_from (find resource_key (resource_key r) by_url) r) loaded in
      let loaded_by_url = put_all resource_key [] inherited in
      let missing =
        filter (λ r. is_none (find resource_key (resource_key r) loaded_by_url)) by_url in
      and_then (load_each c missing) λ more. ok (adding loaded_by_url [] more)

  abbrev pub after_multiget :
      Calendar D
      → List (Resource D)
      → Answer (List (Resource D))
      → Result (List (Resource D) × List String)
  after_multiget c rs (answered loaded) = load_missing c rs loaded
  after_multiget c rs (failed f) = load_each c rs

  abbrev pub load_by :
      Calendar D
      → Option (List String → Answer (List (Resource D)))
      → List (Resource D)
      → Result (List (Resource D) × List String)
  load_by c none rs = load_each c rs
  load_by c (some get) rs = after_multiget c rs (get (map (λ r. r.url) rs))

  abbrev pub load_changed :
      Calendar D → List (Resource D) → Result (List (Resource D) × List String)
  load_changed c [] = ok ([], [])
  load_changed c (r ∷ rs) = load_by c c.multiget (r ∷ rs)

  -- `_load_changed_resources`
  unfoldable pub load_changed_resources :
      Calendar D → List (Resource D) → Result (List (Resource D) × List String)
  unfolding load_missing load_each filter url_of
  load_changed_resources c reports =
      and_then (load_changed c (reported_changes reports))
        λ more. ok (adding [] (reported_deletions reports) more)
