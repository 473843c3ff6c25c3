-- ===== src/WorkLog.antt =====
-- internal/worklog/service.py: `WorkLogService`. A work interval is an event of the work-log
-- collection; an open one has no end and the open category. The adapter and its store are
-- parameters; where an adapter lacks a call for one collection, its call for all of them stands in.
pub mod Description
pub mod Intervals
pub mod Current
pub mod References
pub mod Sample
mod Tests
use caldav_assistant_skeleto.Prelude.{
  ◌≡◌, ℕ, String, Bool, true, false, not, ◌&&◌, Option, none, some, List, [], ◌∷◌, ◌++◌, map,
  filter, is_none, is_some, elem, append, codes, starts_with, splitlines, strip, is_blank,
  if◌then◌else◌, ltb, ◌==◌,
}
use caldav_assistant_skeleto.Prelude.Sort.{sorted}
use caldav_assistant_skeleto.Temporal.{Datetime, When, date, datetime, Zones, astimezone}
use caldav_assistant_skeleto.Api.{
  Task, Event, Error, Reason, Result, ok, err, validation, not_found, ambiguous, empty_id,
  no_collection, already_current, other_current, no_open_interval, end_before_start,
}
use caldav_assistant_skeleto.Effect.{Exec, pure, raise, lift, gets, require, catch, ◌>>=◌, ◌>>◌}
use caldav_assistant_skeleto.Sync.Rows.{Fetched, Metadata, no_metadata}
use caldav_assistant_skeleto.Sync.Urls.{rstrip_slash}
use caldav_assistant_skeleto.Tasks.World.{at_or_now}

abbrev pub category : String
category = "caldav-assistant-work"

abbrev pub open_category : String
open_category = "caldav-assistant-work-open"

abbrev pub description_header : String
description_header = "CalDAV Assistant Work Segment"

abbrev pub task_prefix : String
task_prefix = "Task-UID: "

-- The filters of a query, and the changes of an update, by their keys.
pub record Filters : Type 0 where
  pub category : Option String
  pub description_contains : Option String
  pub description : Option String

pub record EventChanges : Type 0 where
  pub end : Option (Option When)
  pub categories : Option (List String)
  pub description : Option String

-- What the service asks of the adapter, for the collection of a URL. A query has the filters for
-- the server and those for an adapter without such queries.
pub record WorkAdapter (Store : Type 0) : Type 0 where
  pub query_events : String → Filters → Filters → Store → Result (List (Fetched Event))
  pub create_event : Fetched Event → Store → Result (Fetched Event) × Store
  pub update_event : String → String → EventChanges → Store → Result (Fetched Event) × Store
  pub delete_event : String → String → Store → Result (Unit {0}) × Store
  pub get_event : String → String → Store → Result (Fetched Event)
  -- of an adapter that writes references in a way of its own: the description, the page, and the
  -- attachments
  pub update_references : Option (
      String
      → String
      → String
      → Option String
      → List String
      → Store
      → Result (Fetched Event) × Store)

abbrev pub by_category : String → Filters
by_category c = record { category = some c; description_contains = none; description = none }

-- `_description`
unfoldable pub description_of : String → String
description_of id = append "CalDAV Assistant Work Segment\nTask-UID: " id

-- the part of a line behind a prefix, if it has the prefix
abbrev pub behind : String → String → Option String
behind String.[] text = some text
behind (String.◌∷◌ c s) String.[] = none
behind (String.◌∷◌ c s) (String.◌∷◌ d t) =
    if String.◌∷◌ c String.[] == String.◌∷◌ d String.[] then behind s t else none

abbrev pub id_in : List String → Option String
id_in [] = none
id_in (line ∷ lines) = elim (behind task_prefix line) [
  | some value ↦ if is_blank (strip value) then none else some (strip value)
  | none ↦ id_in lines
]

abbrev pub id_under : List String → Option String
id_under [] = none
id_under (first ∷ lines) = if strip first == description_header then id_in lines else none

-- `_task_id_from_event`
unfoldable pub task_id_from_event : Fetched Event → Option String
unfolding splitlines strip
task_id_from_event e = id_under (splitlines e.value.description)

-- `_is_work_event`
unfoldable pub is_work_event : Fetched Event → Bool
unfolding task_id_from_event
is_work_event e = elem category e.value.categories && is_some (task_id_from_event e)

-- `_is_open`
unfoldable pub is_open : Fetched Event → Bool
unfolding is_work_event
is_open e = is_work_event e && elem open_category e.value.categories && is_none e.value.end

abbrev pub is_for : String → Fetched Event → Bool
is_for id e = elim (task_id_from_event e) [ none ↦ false | some v ↦ v == id ]

abbrev pub url_of_event : Fetched Event → String
url_of_event e = elim e.attributes.collection_url [ none ↦ "" | some u ↦ u ]

abbrev pub Segments : Type 0
Segments = List (Fetched Event)

abbrev pub wanted_url : Option String → Result String
wanted_url none = err (validation no_collection)
wanted_url (some u) = ok u

abbrev pub target_of : Option String → Option String
target_of none = none
target_of (some u) = if is_blank (strip u) then none else some (strip u)

abbrev pub in_collection : String → Fetched Event → Bool
in_collection target e = rstrip_slash (url_of_event e) == rstrip_slash target

abbrev pub work_events : String → Result Segments → Result Segments
work_events target (ok items) = ok (filter (λ e. is_work_event e && in_collection target e) items)
work_events target (err e) = err e

abbrev pub sole_current : Option String → Result (Option String)
sole_current none = err ambiguous
sole_current (some id) = ok (some id)

abbrev pub current_of : Segments → Result (Option String)
current_of [] = ok none
current_of (e ∷ []) = sole_current (task_id_from_event e)
current_of (e ∷ f ∷ es) = err ambiguous

abbrev pub sole_of : Segments → Result (Option (Fetched Event))
sole_of [] = ok none
sole_of (e ∷ []) = ok (some e)
sole_of (e ∷ f ∷ es) = err ambiguous

-- `if current: raise …`
abbrev pub free : String → Option String → Result Unit
free id none = ok tt
free id (some current) =
    if is_blank current
    then ok tt
    else if current == id
    then err (validation already_current)
    else err (validation other_current)

-- the event of a new interval
abbrev pub opened : String → Task → When → Fetched Event
opened target t start = record {
  value = record {
    id = "";
    summary = append "Work — " t.summary;
    start = some start;
    end = none;
    location = "";
    description = description_of (strip t.id);
    categories = category ∷ open_category ∷ [];
    stale = false;
  };
  attributes = record no_metadata { collection_url = some target };
}

abbrev pub closing : Datetime → EventChanges
closing closed_at = record {
  end = some (some (datetime closed_at));
  categories = some (category ∷ []);
  description = none;
}

abbrev pub reopening : EventChanges
reopening = record {
  end = some none;
  categories = some (category ∷ open_category ∷ []);
  description = none;
}

-- `url` is the configured collection.
module _ {Store : Type 0} (a : WorkAdapter Store) (url : Option String) where
  abbrev pub Call : Type 0 → Type 0
  Call A = Exec Store A

  -- `_collection_url(required=False)`
  unfoldable pub collection_url : Option String
  unfolding strip
  collection_url = target_of url

  -- `_collection_url(required=True)`
  abbrev pub required_url : Result String
  required_url = wanted_url collection_url

  abbrev pub query_from : Option String → Filters → Filters → Store → Result Segments
  query_from none server filters s = ok []
  query_from (some target) server filters s =
      work_events target (a.query_events target server filters s)

  -- `_query_work_events`, with the filters for both kinds of query
  unfoldable pub query_work_events : Filters → Filters → Store → Result Segments
  unfolding collection_url rstrip_slash is_work_event filter
  query_work_events = query_from collection_url

  abbrev pub read : Filters → Call Segments
  read filters s = (query_work_events filters filters s, s)

  -- `snapshot` and `open_snapshot`
  abbrev pub work_snapshot : Call Segments
  work_snapshot = read (by_category category)

  abbrev pub open_snapshot : Call Segments
  open_snapshot = read (by_category open_category)

  abbrev pub open_values : Option Segments → Call Segments
  open_values none = open_snapshot
  open_values (some values) = pure values

  -- `open_events`
  unfoldable pub open_events : Option Segments → Call Segments
  unfolding query_work_events is_open filter
  open_events given = do values ← open_values given; pure (filter is_open values)

  -- `current_task_id`
  unfoldable pub current_task_id : Option Segments → Call (Option String)
  unfolding open_events task_id_from_event
  current_task_id given = do intervals ← open_events given; lift (current_of intervals)

  -- `open_for`
  unfoldable pub open_for : String → Option Segments → Call (Option (Fetched Event))
  unfolding open_events task_id_from_event strip filter
  open_for id given = do
    require (not (is_blank (strip id))) empty_id
    intervals ← open_events given
    lift (sole_of (filter (is_for (strip id)) intervals))

  -- `segments_for` without a snapshot, before it sorts the intervals by their start
  unfoldable pub segments_for : String → Call Segments
  unfolding query_work_events task_id_from_event description_of strip filter
  segments_for id = do
    require (not (is_blank (strip id))) empty_id
    values ← λ s. (
      query_work_events
          (record {
            category = none;
            description_contains = some (append task_prefix (strip id));
            description = none;
          })
          (record {
            category = some category;
            description_contains = none;
            description = some (description_of (strip id));
          })
          s,
      s,
    )
    pure (filter (is_for (strip id)) values)

  -- `_update_work_event`
  unfoldable pub update_work_event : String → EventChanges → Call (Fetched Event)
  unfolding collection_url
  update_work_event id changes = do target ← lift required_url; a.update_event target id changes

  -- `reopen_segment`
  unfoldable pub reopen_segment : Fetched Event → Call (Fetched Event)
  unfolding update_work_event
  reopen_segment e = update_work_event e.value.id reopening

  abbrev pub unless_missing : Error → Call (Unit {0})
  unless_missing not_found = pure tt
  unless_missing e = raise e

  -- `_delete_work_event`
  unfoldable pub delete_work_event : String → Call (Unit {0})
  unfolding collection_url
  delete_work_event id = do target ← lift required_url; a.delete_event target id

  -- `discard_segment`
  unfoldable pub discard_segment : Fetched Event → Call (Unit {0})
  unfolding delete_work_event catch
  discard_segment e = catch (delete_work_event e.value.id) unless_missing

  module _ (z : Zones) (now : Datetime) where
    -- `start_segment`
    unfoldable pub start_segment : Task → Option Datetime → Option Segments → Call (Fetched Event)
    unfolding current_task_id collection_url strip description_of
    start_segment t at given = do
      require (not (is_blank (strip t.id))) empty_id
      target ← lift required_url
      current ← current_task_id given
      lift (free (strip t.id) current)
      a.create_event (opened target t (datetime (at_or_now z at now)))

    abbrev pub is_early : Datetime → Option When → Bool
    is_early closed_at (some (datetime start)) = ltb closed_at.wall (astimezone z z.utc start).wall
    is_early closed_at _ = false

    abbrev pub close_event :
        Bool → Datetime → Option (Fetched Event) → Call (Option (Fetched Event))
    close_event required closed_at none =
        if required then raise (validation no_open_interval) else pure none
    close_event required closed_at (some e) = do
      require (not (is_early closed_at e.value.start)) end_before_start
      updated ← update_work_event e.value.id (closing closed_at)
      pure (some updated)

    -- `close_segment`
    unfoldable pub close_segment :
        String → Option Datetime → Bool → Option Segments → Call (Option (Fetched Event))
    unfolding open_for update_work_event astimezone
    close_segment id at required given = do
      event ← open_for id given
      close_event required (at_or_now z at now) event
