-- ===== src/Sync/Transport.antt =====
-- internal/caldav/sync_token.py: `SyncTokenTransport`, and `_app_error` of
-- internal/caldav/library_adapter.py.
-- python-caldav and the server behind it are a parameter: what each call answers. An exception of
-- its is its class name and text, with the application error that it is, if it is one.
pub mod Load
pub mod Report
pub mod Multiget
use caldav_assistant_skeleto.Prelude.{
  elem, ◌≡◌, String, Bool, true, false, not, ◌&&◌, ◌||◌, Option, none, some, List, [], ◌∷◌, ◌++◌,
  map, filter, any, is_some, is_none, or_else, codes, starts_with, occurs_in, is_blank,
  if◌then◌else◌, ◌==◌,
}
use caldav_assistant_skeleto.Prelude.Sort.{sorted}
use caldav_assistant_skeleto.Api.{
  Task, Event, Error, Result, ok, err, not_found, permission, conflict, unavailable, validation,
  bad_value, token_stale, token_unavailable,
}
use caldav_assistant_skeleto.Sync.Dict.{put_all, find}
use caldav_assistant_skeleto.Sync.Rows.{Fetched}
use caldav_assistant_skeleto.Sync.Urls.{url_of, url_or_empty}

-- `list(dict.fromkeys(xs))`, after the keys `seen`
unfoldable pub fromkeys : List String → List String → List String
unfolding any
fromkeys seen [] = []
fromkeys seen (x ∷ xs) = if elem x seen then fromkeys seen xs else x ∷ fromkeys (x ∷ seen) xs

abbrev pub and_then : {A B : Type 0} → Result A → (A → Result B) → Result B
and_then (ok a) f = f a
and_then (err e) f = err e

pub record Failure : Type 0 where
  pub application : Option Error
  pub name : String
  pub text : String
  -- a `TypeError` or a `ValueError`
  pub is_bad_value : Bool

pub data Answer (A : Type 0) : Type 0 where
  answered : A → Answer A
  failed : Failure → Answer A

-- `str(exc) or name`
abbrev pub text_of : Failure → String
text_of f = if is_blank f.text then f.name else f.text

-- `_app_error`
pub app_error : Failure → Error
app_error f = elim f.application [
  | some e ↦ e
  | none ↦
      if occurs_in (codes "NotFound") (codes f.name)
      then not_found
      else if elem f.name (
          "AuthorizationError" ∷ "AuthenticationError" ∷ "ForbiddenError" ∷ "UnauthorizedError"
          ∷ [])
      then permission
      else if elem f.name
          ("ETagMismatchError" ∷ "ScheduleTagMismatchError" ∷ "ConsistencyError" ∷ [])
      then conflict
      else if f.is_bad_value
      then validation bad_value
      else unavailable
]

-- `_protocol_error`
unfoldable pub protocol_error : Bool → Failure → Error
unfolding app_error
protocol_error has_old_token f =
    if f.name == "ReportError"
    then (if has_old_token then token_stale (text_of f) else token_unavailable (text_of f))
    else if has_old_token && (f.name == "AuthorizationError")
    then token_stale (text_of f)
    else app_error f

-- An object of a calendar, with the property `getetag` that a report gives it.
pub record Resource (D : Type 0) : Type 0 where
  pub url : String
  pub etag : Option String
  pub content : D

-- A python-caldav calendar. `load` reads an object, `report` is `get_objects_by_sync_token` without
-- its objects, and `multiget` reads many; each may be missing.
pub record Calendar (D : Type 0) : Type 0 where
  pub load : Option (Resource D → Answer (Resource D))
  pub report : Option (Option String → Answer (Option String × List (Resource D)))
  pub multiget : Option (List String → Answer (List (Resource D)))

-- The token of a collection, by its URL.
pub record Token : Type 0 where
  pub collection : String
  pub token : String

pub record Roles : Type 0 where
  pub tasks : String
  pub events : String

-- The routing adapter: the URLs of the two roles, if it has them, the selector of calendars, and the
-- mappers of the adapter behind it with the name of the component of an object.
pub record Routed (D : Type 0) : Type 0 where
  pub collection_urls : Option (Option String × Option String)
  pub selector : Option (String → Result (Option (Calendar D)))
  pub mappers :
      Option ((Resource D → Answer (Fetched Task)) × (Resource D → Answer (Fetched Event)))
  pub component : Resource D → Answer String

-- What `seed` and `changes` return.
pub record Seeded : Type 0 where
  pub role_urls : Roles
  pub tokens : List Token

pub record ReportedChanges : Type 0 where
  pub role_urls : Roles
  pub tokens : List Token
  pub tasks : List (Fetched Task)
  pub events : List (Fetched Event)
  pub deleted_urls : List String

abbrev pub urls_of : Roles → List String
urls_of r = fromkeys [] (r.tasks ∷ r.events ∷ [])

-- `token in (None, "")`, and a token of its own that python-caldav makes up
abbrev pub token_of : (missing emulated : Error) → Option String → Result String
token_of missing emulated none = err missing
token_of missing emulated (some t) =
    if is_blank t
    then err missing
    else if starts_with (codes "fake-") (codes t)
    then err emulated
    else ok t

abbrev roles_from : String → String → Option Roles
roles_from tasks events =
    if is_blank tasks || is_blank events
    then none
    else some (record { tasks = tasks; events = events })

abbrev no_token : Error
no_token = token_unavailable "server returned no sync-token"

abbrev emulated_token : Error
emulated_token = token_unavailable "server returned an emulated sync-token"

module _ {D : Type 0} where
  -- `role_urls`; the empty dictionary is `none`.
  unfoldable pub role_urls : Routed D → Option Roles
  unfolding url_of
  role_urls routed = elim routed.collection_urls [
    | none ↦ none
    | some (tasks, events) ↦ roles_from (url_or_empty tasks) (url_or_empty events)
  ]

  -- `available`
  unfoldable pub available : Routed D → Bool
  unfolding role_urls
  available routed = is_some (role_urls routed) && is_some routed.selector && is_some routed.mappers

  abbrev with_report : Option (Calendar D) → Result (Calendar D)
  with_report none = err (token_unavailable "configured collection cannot be resolved")
  with_report (some c) =
      if is_some c.report
      then ok c
      else err (token_unavailable "CalDAV library has no sync-token API")

  -- `_calendar`
  unfoldable pub calendar_of : Routed D → String → Result (Calendar D)
  calendar_of routed url = elim routed.selector [
    | none ↦ err (token_unavailable "collection routing has no direct calendar selector")
    | some select ↦ and_then (select url) with_report
  ]

  -- `get_objects_by_sync_token` of a calendar that `_calendar` returned, its errors mapped
  abbrev pub ask : Calendar D → Option String → Result (Option String × List (Resource D))
  ask c old = elim c.report [
    | none ↦ err (token_unavailable "CalDAV library has no sync-token API")
    | some get ↦ elim (get old) [
      | answered a ↦ ok a
      | failed f ↦ err (protocol_error (is_some old) f)
    ]
  ]

  -- the loop of `seed`
  unfoldable pub seed_tokens : Routed D → List String → Result (List Token)
  unfolding calendar_of protocol_error
  seed_tokens routed [] = ok []
  seed_tokens routed (url ∷ urls) = and_then (calendar_of routed url) λ c.
      and_then (ask c none) λ (token, resources).
        and_then (token_of no_token emulated_token token) λ text.
          and_then (seed_tokens routed urls)
            λ rest. ok (record { collection = url; token = text } ∷ rest)

  -- `seed`
  unfoldable pub seed : Routed D → Result Seeded
  unfolding role_urls seed_tokens fromkeys
  seed routed = elim (role_urls routed) [
    | none ↦ err (token_unavailable "Task/Event collection roles are not configured")
    | some roles ↦
        and_then (seed_tokens routed (urls_of roles))
          λ tokens. ok (record { role_urls = roles; tokens = tokens })
  ]
