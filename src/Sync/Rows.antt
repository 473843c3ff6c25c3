-- ===== src/Sync/Rows.antt =====
-- internal/caldav/sync.py: the dictionaries that a snapshot keeps of tasks and events.
-- The texts of `isoformat`, and what `fromisoformat` reads of a text, are parameters.
pub mod RoundTrip
use caldav_assistant_skeleto.Prelude.{
  ◌≡◌, refl, ℕ, String, Bool, false, Option, none, some, List, is_blank, if◌then◌else◌, ◌||◌, codes,
  occurs_in,
}
use mathlib.Core.Option.{map as map_option}
use caldav_assistant_skeleto.Temporal.{Datetime, When, date, datetime}
use caldav_assistant_skeleto.Api.{Task, Event}
use caldav_assistant_skeleto.Sync.Equality.{
  Equality, text_equality, number_equality, flag_equality, option_equality, list_equality,
  pair_equality, fields_equality,
}

-- `date.isoformat` and `datetime.isoformat`, and the two `fromisoformat`, which are `none` where they
-- raise ValueError.
pub record IsoTexts : Type 0 where
  pub date_text : ℕ → String
  pub datetime_text : Datetime → String
  pub date_of_text : String → Option ℕ
  pub datetime_of_text : String → Option Datetime

-- The attributes `_caldav_etag`, `_caldav_url` and `_caldav_collection_url` of a fetched object, and
-- the dictionary `_caldav` of them; one without an item is left out of its row.
pub record Metadata : Type 0 where
  pub etag : Option String
  pub url : Option String
  pub collection_url : Option String

abbrev pub no_metadata : Metadata
no_metadata = record { etag = none; url = none; collection_url = none }

pub record Fetched (A : Type 0) : Type 0 where
  pub value : A
  pub attributes : Metadata

pub record TaskRow : Type 0 where
  pub id : String
  pub summary : String
  pub description : String
  pub start : Option String
  pub due : Option String
  pub status : String
  pub completed : Bool
  pub completed_at : Option String
  pub priority : Option ℕ
  pub categories : List String
  pub overdue : Bool
  pub caldav : Metadata

pub record EventRow : Type 0 where
  pub id : String
  pub summary : String
  pub start : Option String
  pub end : Option String
  pub location : String
  pub description : String
  pub categories : List String
  pub caldav : Metadata

-- A text that is not empty.
abbrev pub kept_text : Option String → Option String
kept_text none = none
kept_text (some s) = if is_blank s then none else some s

-- `_transport_metadata`
unfoldable pub transport_metadata : Metadata → Metadata
transport_metadata m = record {
  etag = m.etag;
  url = kept_text m.url;
  collection_url = kept_text m.collection_url;
}

module _ (z : IsoTexts) where
  -- `_time_value`
  abbrev pub time_value : When → String
  time_value (date d) = z.date_text d
  time_value (datetime d) = z.datetime_text d

  -- `_task_to_dict`
  unfoldable pub task_to_dict : Fetched Task → TaskRow
  task_to_dict f = record {
    id = f.value.id;
    summary = f.value.summary;
    description = f.value.description;
    start = map_option time_value f.value.start;
    due = map_option time_value f.value.due;
    status = f.value.status;
    completed = f.value.completed;
    completed_at = map_option z.datetime_text f.value.completed_at;
    priority = f.value.priority;
    categories = f.value.categories;
    overdue = f.value.overdue;
    caldav = transport_metadata f.attributes;
  }

  -- `_event_to_dict`
  unfoldable pub event_to_dict : Fetched Event → EventRow
  event_to_dict f = record {
    id = f.value.id;
    summary = f.value.summary;
    start = map_option time_value f.value.start;
    end = map_option time_value f.value.end;
    location = f.value.location;
    description = f.value.description;
    categories = f.value.categories;
    caldav = transport_metadata f.attributes;
  }

-- `"T" in text or " " in text`
unfoldable pub has_time : String → Bool
unfolding occurs_in
has_time text = occurs_in (codes "T") (codes text) || occurs_in (codes " ") (codes text)

-- `value if isinstance(value, datetime) else None`
abbrev pub only_datetime : Option When → Option Datetime
only_datetime none = none
only_datetime (some (date d)) = none
only_datetime (some (datetime d)) = some d

module _ (z : IsoTexts) where
  -- `_cached_time`, of a text
  unfoldable pub cached_time : String → Option When
  unfolding has_time
  cached_time text =
      if is_blank text
      then none
      else if has_time text
      then map_option datetime (z.datetime_of_text text)
      else map_option date (z.date_of_text text)

  -- of an item of a row, which may be None
  abbrev pub cached_when : Option String → Option When
  cached_when none = none
  cached_when (some text) = cached_time text

  -- `_cached_task`
  unfoldable pub cached_task : TaskRow → Task
  unfolding cached_time
  cached_task r = record {
    id = r.id;
    summary = r.summary;
    description = r.description;
    start = cached_when r.start;
    due = cached_when r.due;
    status = if is_blank r.status then "NEEDS-ACTION" else r.status;
    completed = r.completed;
    completed_at = only_datetime (cached_when r.completed_at);
    priority = r.priority;
    categories = r.categories;
    overdue = r.overdue;
    stale = false;
  }

  -- `_cached_event`
  unfoldable pub cached_event : EventRow → Event
  unfolding cached_time
  cached_event r = record {
    id = r.id;
    summary = r.summary;
    start = cached_when r.start;
    end = cached_when r.end;
    location = r.location;
    description = r.description;
    categories = r.categories;
    stale = false;
  }

abbrev metadata_equality : Equality Metadata
metadata_equality =
    let optional = option_equality text_equality in
    fields_equality (λ m. (m.etag, (m.url, m.collection_url)))
      (λ (e, (u, c)). record { etag = e; url = u; collection_url = c }) (λ m. refl)
      (pair_equality optional (pair_equality optional optional))

-- `old[uid] != new[uid]` on two rows is the negation of these tests.
pub task_equality : Equality TaskRow
task_equality =
    let text = text_equality in
    let time = option_equality text_equality in
    fields_equality
      (λ r. (
        (r.id, (r.summary, (r.description, (r.start, r.due)))),
        (
          (r.status, (r.completed, (r.completed_at, r.priority))),
          (r.categories, (r.overdue, r.caldav)),
        ),
      ))
      (λ ((i, (s, (d, (b, e)))), ((t, (c, (a, p))), (g, (o, m)))). record {
        id = i;
        summary = s;
        description = d;
        start = b;
        due = e;
        status = t;
        completed = c;
        completed_at = a;
        priority = p;
        categories = g;
        overdue = o;
        caldav = m;
      })
      (λ r. refl)
      (pair_equality
        (pair_equality text (pair_equality text (pair_equality text (pair_equality time time))))
        (pair_equality
          (pair_equality text
            (pair_equality flag_equality (pair_equality time (option_equality number_equality))))
          (pair_equality (list_equality text) (pair_equality flag_equality metadata_equality))))

pub event_equality : Equality EventRow
event_equality =
    let text = text_equality in
    let time = option_equality text_equality in
    fields_equality
      (λ r. (
        (r.id, (r.summary, (r.start, r.end))),
        (r.location, (r.description, (r.categories, r.caldav))),
      ))
      (λ ((i, (s, (b, e))), (l, (d, (g, m)))). record {
        id = i;
        summary = s;
        start = b;
        end = e;
        location = l;
        description = d;
        categories = g;
        caldav = m;
      })
      (λ r. refl)
      (pair_equality (pair_equality text (pair_equality text (pair_equality time time))) (
        pair_equality text
          (pair_equality text (pair_equality (list_equality text) metadata_equality))))
