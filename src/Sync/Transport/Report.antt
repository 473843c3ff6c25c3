-- ===== src/Sync/Transport/Report.antt =====
-- internal/caldav/sync_token.py: `changes`, what the collections report since the stored tokens.
use caldav_assistant_skeleto.Prelude.{
  String, Bool, Option, none, some, List, [], ◌∷◌, ◌++◌, codes, is_blank, if◌then◌else◌, ◌==◌, ◌&&◌,
}
use caldav_assistant_skeleto.Prelude.Sort.{sorted}
use caldav_assistant_skeleto.Api.{
  Task, Event, Error, Result, ok, err, token_stale, token_unavailable,
}
use caldav_assistant_skeleto.Sync.Dict.{find}
use caldav_assistant_skeleto.Sync.Rows.{Fetched}
use caldav_assistant_skeleto.Sync.Transport.{
  Resource, Answer, answered, failed, Routed, Roles, Token, ReportedChanges, and_then, app_error,
  protocol_error, role_urls, urls_of, calendar_of, ask, token_of, fromkeys,
}
use caldav_assistant_skeleto.Sync.Transport.Load.{load_changed_resources}

abbrev pub same_roles : Roles → Roles → Bool
same_roles r s = (r.tasks == s.tasks) && (r.events == s.events)

-- What one object of a calendar is: a task, an event, or something else.
pub data Mapped : Type 0 where
  mapped_task : Fetched Task → Mapped
  mapped_event : Fetched Event → Mapped
  mapped_other : Mapped

-- What the collections that are read so far have reported.
pub record Part : Type 0 where
  pub tokens : List Token
  pub tasks : List (Fetched Task)
  pub events : List (Fetched Event)
  pub removed : List String

abbrev no_part : Part
no_part = record { tokens = []; tasks = []; events = []; removed = [] }

abbrev pub joined : Part → Part → Part
joined p q = record {
  tokens = p.tokens ++ q.tokens;
  tasks = p.tasks ++ q.tasks;
  events = p.events ++ q.events;
  removed = p.removed ++ q.removed;
}

abbrev pub part_of : Mapped → Part
part_of (mapped_task t) = record no_part { tasks = t ∷ [] }
part_of (mapped_event e) = record no_part { events = e ∷ [] }
part_of mapped_other = no_part

abbrev mapped : {A : Type 0} → (A → Mapped) → Answer A → Result Mapped
mapped f (answered a) = ok (f a)
mapped f (failed e) = err (app_error e)

-- `stored_tokens.get(url)`, where a missing or empty one is stale
abbrev stored_token : List Token → String → Result String
stored_token tokens url =
    let missing =
      err (token_stale (Prim.Native.String.◌++◌ "stored sync-token missing for " url)) in
    elim (find (λ t. t.collection) url tokens) [
      | none ↦ missing
      | some t ↦ if is_blank t.token then missing else ok t.token
    ]

abbrev no_replacement : Error
no_replacement = token_stale "server returned no replacement sync-token"

abbrev fell_back : Error
fell_back = token_unavailable "server fell back to an emulated sync-token"

module _ {D : Type 0} (upper : String → String) where
  abbrev by_name :
      (Resource D → Answer (Fetched Task))
      → (Resource D → Answer (Fetched Event))
      → Resource D
      → String
      → Result Mapped
  by_name to_task to_event r name =
      if name == "VTODO"
      then mapped mapped_task (to_task r)
      else if name == "VEVENT"
      then mapped mapped_event (to_event r)
      else ok mapped_other

  abbrev map_named :
      (Resource D → Answer (Fetched Task))
      → (Resource D → Answer (Fetched Event))
      → Resource D
      → Answer String
      → Result Mapped
  map_named to_task to_event r (answered name) = by_name to_task to_event r (upper name)
  map_named to_task to_event r (failed f) = err (app_error f)

  module _ (routed : Routed D) (to_task : Resource D → Answer (Fetched Task))
      (to_event : Resource D → Answer (Fetched Event)) where
    -- the loop over the loaded objects of a collection
    unfoldable pub map_resources : List (Resource D) → Result Part
    unfolding app_error
    map_resources [] = ok no_part
    map_resources (r ∷ rs) =
        and_then (map_named to_task to_event r (routed.component r))
          λ m. and_then (map_resources rs) λ rest. ok (joined (part_of m) rest)

    -- one collection: its report, its new token, and the objects that the report names
    unfoldable pub read_collection : List Token → String → Result Part
    unfolding map_resources calendar_of protocol_error load_changed_resources find
    read_collection stored url = and_then (stored_token stored url) λ old.
        and_then (calendar_of routed url) λ c.
          and_then (ask c (some old)) λ (replacement, resources).
            and_then (token_of no_replacement fell_back replacement) λ text.
              and_then (load_changed_resources c resources) λ (loaded, removed).
                and_then (map_resources loaded) λ part. ok (record part {
                  tokens = record { collection = url; token = text } ∷ [];
                  removed = removed;
                })

    -- the loop over the collections
    unfoldable pub read_collections : List Token → List String → Result Part
    unfolding read_collection
    read_collections stored [] = ok no_part
    read_collections stored (url ∷ urls) =
        and_then (read_collection stored url)
          λ part. and_then (read_collections stored urls) λ rest. ok (joined part rest)

    -- the end of `changes`, for roles that are those of the stored state
    unfoldable pub changes_for : Roles → List Token → Result ReportedChanges
    unfolding read_collections fromkeys sorted
    changes_for roles stored = and_then (read_collections stored (urls_of roles)) λ part.
        ok (record {
          role_urls = roles;
          tokens = part.tokens;
          tasks = part.tasks;
          events = part.events;
          deleted_urls = sorted codes (fromkeys [] part.removed);
        })

  abbrev changes_as :
      Routed D
      → Option ((Resource D → Answer (Fetched Task)) × (Resource D → Answer (Fetched Event)))
      → Roles
      → List Token
      → Result ReportedChanges
  changes_as routed none roles stored =
      err (token_unavailable "concrete CalDAV mappers are unavailable")
  changes_as routed (some (to_task, to_event)) roles stored =
      changes_for routed to_task to_event roles stored

  abbrev with_roles : Routed D → Roles → List Token → Option Roles → Result ReportedChanges
  with_roles routed stored_urls tokens none =
      err (token_stale "configured collection roles changed")
  with_roles routed stored_urls tokens (some roles) =
      if same_roles stored_urls roles
      then changes_as routed routed.mappers roles tokens
      else err (token_stale "configured collection roles changed")

  -- `changes`, with the role URLs and the tokens of the stored state
  unfoldable pub changes : Routed D → Roles → List Token → Result ReportedChanges
  unfolding changes_for role_urls
  changes routed stored_urls tokens = with_roles routed stored_urls tokens (role_urls routed)
