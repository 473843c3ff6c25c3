-- ===== src/Sync/Tests.antt =====
-- A server with two collections: task 1 has changed since the last synchronisation, and task 2 is
-- gone.
use caldav_assistant_skeleto.Prelude.{
  ◌≡◌, refl, ◌≢◌, ◌↔◌, inl, inr, ℕ, String, true, false, Option, none, some, List, [], ◌∷◌, filter,
  any, strip, ◌==◌, eq_iff, if◌then◌else◌, occurs_in, In, ap, zero, suc, append, codes,
}
use caldav_assistant_skeleto.Prelude.Sort.{IsSorted, sorted, insert, tuple_leb}
use caldav_assistant_skeleto.Api.{Task, Event, ok, err, token_unavailable, unavailable}
use caldav_assistant_skeleto.Temporal.{date}
use caldav_assistant_skeleto.Tasks.Sample.{named}
use caldav_assistant_skeleto.Sync.Dict.{find, put, put_all}
use caldav_assistant_skeleto.Sync.Rows.{
  IsoTexts, has_time, TaskRow, Fetched, Metadata, task_to_dict, event_to_dict, transport_metadata,
  no_metadata, cached_task, cached_event,
}
use caldav_assistant_skeleto.Sync.Rows.RoundTrip.{IsIso, cache_again}
use caldav_assistant_skeleto.Sync.Urls.{url_of}
use caldav_assistant_skeleto.Sync.Transport.{
  Resource, Calendar, answered, failed, Routed, Roles, Token, ReportedChanges, role_urls, available,
  seed, calendar_of, protocol_error, seed_tokens, fromkeys,
}
use caldav_assistant_skeleto.Sync.Transport.Load.{
  load_one, load_each, load_missing, load_changed_resources,
}
use caldav_assistant_skeleto.Sync.Transport.Report.{
  changes, changes_for, read_collections, read_collection, map_resources,
}
use caldav_assistant_skeleto.Sync.Transport.Multiget.{
  SameItems, one_by_one, load_changed_resources_lem,
}
use caldav_assistant_skeleto.Sync.Snapshot.{
  Snapshot, task_kind, event_kind, delta, check_unique, check_from, merge_kind, deleted_of,
}
use caldav_assistant_skeleto.Sync.Snapshot.Merge.{check_unique-merge_kind}
use caldav_assistant_skeleto.Sync.Snapshot.Changed.{IsAt, IsAbsent, In-delta}
use caldav_assistant_skeleto.Sync.Engine.{
  Cache, Remote, supported, read_remote, seed_token_state, refresh, incremental_sync,
}
use caldav_assistant_skeleto.Sync.Engine.Outcome.{Syncs, sync_keeps}
use caldav_assistant_skeleto.Sync.Engine.Failure.{Records, sync-Records}
use caldav_assistant_skeleto.Sync.Engine.Agrees.{SameRows, incremental_sync-read_remote}
use caldav_assistant_skeleto.Sync.Engine.Retry.{seed_token_state_refused}

-- Texts for dates and datetimes: as many strokes as the number, behind an "x" for a date and a "T" for a
-- datetime.
abbrev tally : ℕ → String
tally zero = ""
tally (suc n) = append "x" (tally n)

abbrev count : String → ℕ
count String.[] = 0
count (String.◌∷◌ c s) = suc (count s)

abbrev without_mark : String → String
without_mark String.[] = ""
without_mark (String.◌∷◌ c s) = s

abbrev texts : IsoTexts
texts = record {
  date_text = λ d. append "x" (tally d);
  datetime_text = λ d. append "T" (tally d.wall);
  date_of_text = λ s. some (count (without_mark s));
  datetime_of_text = λ s. some (record { wall = count (without_mark s); zone = none });
}

abbrev same : String → String
same s = s

abbrev at : String → Metadata
at url = record { etag = some "v"; url = some url; collection_url = some "t" }

abbrev task_at : String → String → String → Fetched Task
task_at id summary url = record {
  value = record (named id "NEEDS-ACTION") { summary = summary };
  attributes = at url;
}

-- An object's content is its UID.
abbrev reported : String → Option String → String → Resource String
reported url etag uid = record { url = url; etag = etag; content = uid }

abbrev tasks_calendar : Calendar String
tasks_calendar = record {
  load = some (λ r. answered r);
  report =
      some
        (λ old. answered (some "t2", reported "t/1" (some "v") "1" ∷ reported "t/2" none "" ∷ []));
  multiget = some (λ urls. answered (reported "t/1" none "1" ∷ []));
}

-- `load` keeps the content of the report's resource.
abbrev batch_calendar : Calendar String
batch_calendar = record tasks_calendar {
  multiget = some (λ urls. answered (reported "t/1" none "" ∷ []));
}

abbrev events_calendar : Calendar String
events_calendar = record {
  load = some (λ r. answered r);
  report = some (λ old. answered (some "e2", []));
  multiget = none;
}

abbrev routed : Routed String
routed = record {
  collection_urls = some (some "t/", some "e/");
  selector = some (λ url. ok (some (if url == "t" then tasks_calendar else events_calendar)));
  mappers = some (
    λ r. answered (task_at r.content "New" r.url),
    λ r.
        failed (record { application = none; name = "ValueError"; text = ""; is_bad_value = true }),
  );
  component = λ r. answered "VTODO";
}

abbrev server : Remote String
server = record {
  list_tasks = ok (task_at "1" "New" "t/1" ∷ []);
  list_events = ok [];
  routed = routed;
}

abbrev roles : Roles
roles = record { tasks = "t"; events = "e" }

abbrev tokens : List Token
tokens = record { collection = "t"; token = "t1" } ∷ record { collection = "e"; token = "e1" } ∷ []

abbrev row : Fetched Task → TaskRow
row f = record {
  id = f.value.id;
  summary = f.value.summary;
  description = "";
  start = none;
  due = none;
  status = "NEEDS-ACTION";
  completed = false;
  completed_at = none;
  priority = none;
  categories = [];
  overdue = false;
  caldav = f.attributes;
}

abbrev yesterday : Snapshot
yesterday = record {
  synced_at = 1;
  tasks = row (task_at "1" "Old" "t/1") ∷ row (task_at "2" "Old" "t/2") ∷ [];
  events = [];
}

abbrev today : Snapshot
today = record { synced_at = 2; tasks = row (task_at "1" "New" "t/1") ∷ []; events = [] }

abbrev cached : Cache
cached = record {
  snapshot = some yesterday;
  tokens = some (supported roles tokens 1);
  status = none;
}

abbrev answer : ReportedChanges
answer = record {
  role_urls = roles;
  tokens =
      record { collection = "t"; token = "t2" } ∷ record { collection = "e"; token = "e2" } ∷ [];
  tasks = task_at "1" "New" "t/1" ∷ [];
  events = [];
  deleted_urls = "t/2" ∷ [];
}

ne : (s t : String) → (s == t) ≡ false → s ≢ t
ne s t h e = let h' = (eq_iff s t).1 e in absurd (cc)

routed_roles : role_urls routed ≡ some roles
unfolding role_urls url_of strip
routed_roles = refl

routed_changes : changes same routed roles tokens ≡ ok answer
unfolding changes changes_for read_collections read_collection map_resources load_changed_resources
    load_missing load_each load_one role_urls url_of strip calendar_of protocol_error fromkeys
    sorted insert tuple_leb find put put_all filter any occurs_in
routed_changes = refl

scan : read_remote texts same server 2 ≡ ok today
unfolding read_remote check_from task_to_dict event_to_dict transport_metadata any
scan = refl

yesterday_checked :
    (check_from task_kind [] yesterday.tasks ≡ ok tt)
    × (check_from event_kind [] yesterday.events ≡ ok tt)
unfolding check_from any
yesterday_checked = (refl, refl)

deleted_only : deleted_of answer.deleted_urls ≡ "t/2" ∷ []
unfolding deleted_of filter strip url_of
deleted_only = refl

incremental_sync-read_remote_example :
    (s : Snapshot) × ((incremental_sync texts same server 2 cached).1.snapshot ≡ some s)
    × SameRows s today
unfolding task_to_dict event_to_dict transport_metadata deleted_of filter strip url_of
incremental_sync-read_remote_example =
    incremental_sync-read_remote texts same server 2 cached yesterday today roles tokens 1 answer
      refl yesterday_checked refl routed_roles routed_changes scan
      (
        ((ne "t/1" "t/2" refl, tt), tt),
        (inl (inl refl), (inr (inl refl), tt)),
        (inl refl, tt),
        (inr (inl refl), tt),
        (((λ e. refl), tt), (((λ e. absurd (ne "t/2" "t/1" refl e)), tt), tt)),
      )
      ((tt, tt), tt, tt, tt, tt)

-- The incremental run returns; with an adapter that cannot list, it raises.
abbrev broken : Remote String
broken = record server { list_tasks = err unavailable }

sync_keeps_example :
    Syncs (some yesterday) (refresh texts same server 2) cached
    × Syncs (some yesterday) (incremental_sync texts same server 2) cached
sync_keeps_example = sync_keeps texts same server 2 cached

sync-Records_example :
    Records texts same broken 2 "full" (refresh texts same broken 2)
    × Records texts same broken 2 "incremental" (incremental_sync texts same broken 2)
sync-Records_example = sync-Records texts same broken 2

In-delta_example :
    (In "2" (delta task_kind yesterday.tasks today.tasks).added ↔ (
      IsAbsent task_kind yesterday.tasks "2" × ((y : TaskRow) × IsAt task_kind today.tasks "2" y)))
    × (In "2" (delta task_kind yesterday.tasks today.tasks).updated ↔ (
        (x : TaskRow) × (y : TaskRow) × IsAt task_kind yesterday.tasks "2" x
        × IsAt task_kind today.tasks "2" y
        × (x ≢ y)))
    × (In "2" (delta task_kind yesterday.tasks today.tasks).removed ↔ (
        ((x : TaskRow) × IsAt task_kind yesterday.tasks "2" x)
        × IsAbsent task_kind today.tasks "2"))
    × IsSorted codes (delta task_kind yesterday.tasks today.tasks).added
    × IsSorted codes (delta task_kind yesterday.tasks today.tasks).updated
    × IsSorted codes (delta task_kind yesterday.tasks today.tasks).removed
In-delta_example = In-delta task_kind yesterday.tasks today.tasks "2"

abbrev standup : Fetched Event
standup = record {
  value = record {
    id = "e";
    summary = "Standup";
    start = some (date 5);
    end = none;
    location = "";
    description = "";
    categories = [];
    stale = false;
  };
  attributes = at "e/1";
}

has_time-tally : (n : ℕ) → has_time (tally n) ≡ false
unfolding has_time
has_time-tally zero = refl
has_time-tally (suc n) = has_time-tally n

count-tally : (n : ℕ) → count (tally n) ≡ n
count-tally zero = refl
count-tally (suc n) = ap suc (count-tally n)

texts-IsIso : IsIso texts
unfolding has_time
texts-IsIso = record {
  date_filled = λ d. refl;
  date_plain = has_time-tally;
  date_back = λ d. ap some (count-tally d);
  datetime_marked = λ d. refl;
  datetime_back = λ d. (
    record { wall = d.wall; zone = none },
    ap (λ n. some (record { wall = n; zone = none })) (count-tally d.wall),
    refl,
  );
}

-- A task with a date and a time of completion.
abbrev dated : Fetched Task
dated = record {
  value = record (named "1" "COMPLETED") {
    due = some (date 4);
    completed_at = some (record { wall = 3; zone = none });
  };
  attributes = at "t/1";
}

cache_again_example :
    (task_to_dict texts
        (record { value = cached_task texts (task_to_dict texts dated); attributes = no_metadata })
      ≡ record (task_to_dict texts dated) { caldav = no_metadata })
    × (event_to_dict texts (record {
      value = cached_event texts (event_to_dict texts standup);
      attributes = no_metadata;
    })
        ≡ record (event_to_dict texts standup) { caldav = no_metadata })
cache_again_example = cache_again texts texts-IsIso dated standup refl

-- A server without sync-tokens.
abbrev refusing : Remote String
refusing = record server {
  routed = record routed {
    selector = some (λ url. ok (some (record events_calendar { report = none })));
  };
}

abbrev empty_cache : Cache
empty_cache = record { snapshot = none; tokens = none; status = none }

refused : seed refusing.routed ≡ err (token_unavailable "CalDAV library has no sync-token API")
unfolding seed seed_tokens role_urls url_of strip calendar_of fromkeys any
refused = refl

is_available : (available routed ≡ true) × (available refusing.routed ≡ true)
unfolding available role_urls url_of strip
is_available = (refl, refl)

seed_token_state_refused_example :
    seed_token_state texts same server 6 false
      (seed_token_state texts same refusing 5 false empty_cache).1
    ≡ (
      ok (none, some "CalDAV library has no sync-token API"),
      (seed_token_state texts same refusing 5 false empty_cache).1,
    )
unfolding role_urls url_of strip
seed_token_state_refused_example =
    seed_token_state_refused texts same refusing 5 false roles
      "CalDAV library has no sync-token API" empty_cache refl is_available.1 refused refl server 6
      routed_roles is_available.0

abbrev a_report : List (Resource String)
a_report = reported "t/1" (some "v") "" ∷ reported "t/2" none "" ∷ []

abbrev one_read : List (Resource String) × List String
one_read = (reported "t/1" (some "v") "" ∷ [], "t/2" ∷ [])

reads_one : load_changed_resources (one_by_one batch_calendar) a_report ≡ ok one_read
unfolding load_changed_resources load_each load_one filter url_of strip
reads_one = refl

load_changed_resources_example :
    (q : List (Resource String) × List String) × (load_changed_resources batch_calendar a_report
      ≡ ok q)
    × SameItems one_read q
unfolding filter url_of strip load_one
load_changed_resources_example =
    load_changed_resources_lem batch_calendar a_report (reported "t/1" none "" ∷ [])
      (λ urls. answered (reported "t/1" none "" ∷ [])) refl refl (refl, tt, tt)
      ((reported "t/1" (some "v") "", inl refl, refl, refl), tt) one_read reads_one

-- Two reported rows with one UID, and one without: the last of the two is kept.
check_unique-merge_kind_example :
    check_unique task_kind (
      merge_kind task_kind yesterday.tasks
        (row (task_at "1" "A" "t/3")
          ∷ row (task_at "1" "B" "t/4")
          ∷ row (task_at "" "C" "t/5")
          ∷ [])
        [])
    ≡ ok tt
check_unique-merge_kind_example =
    check_unique-merge_kind task_kind yesterday.tasks
      (row (task_at "1" "A" "t/3") ∷ row (task_at "1" "B" "t/4") ∷ row (task_at "" "C" "t/5") ∷ [])
      []
