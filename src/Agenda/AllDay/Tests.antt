-- ===== src/Agenda/AllDay/Tests.antt =====
-- A trip of two days, seen on the day after.
use caldav_assistant_skeleto.Prelude.{
  ◌+◌, ◌*◌, ◌≡◌, ◌≢◌, refl, inl, String, true, false, arith, Option, none, some, List, [], ◌∷◌, In,
  filter_map,
}
use caldav_assistant_skeleto.Prelude.Sort.{sorted}
use caldav_assistant_skeleto.Temporal.{Datetime, date, Zones, day_us}
use caldav_assistant_skeleto.Api.{Event, AgendaItem, ok}
use caldav_assistant_skeleto.Agenda.Next.{NextEngine, event_past, choose}
use caldav_assistant_skeleto.Agenda.Build.{
  build, event_item, ordered, entries, number_rows, row_key, event_entry, when_sort_key,
  event_overlaps_range, current_task_uid,
}
use caldav_assistant_skeleto.Agenda.AllDay.{all_day_end}

abbrev clocks : Zones
clocks = record { instant = λ z w. w; wall_at = λ z i. i; local = 1; utc = 0 }

abbrev morning : Datetime
morning = record { wall = 738002 * day_us + 36000000000; zone = some 0 }

abbrev engine : NextEngine
engine = record { event_horizon = 7200000000; due_horizon = 86400000000 }

abbrev trip : Event
trip = record {
  id = "trip";
  summary = "Trip";
  start = some (date 738000);
  end = some (date 738002);
  location = "";
  description = "";
  categories = [];
  stale = false;
}

abbrev same : String → String
same s = s

abbrev agenda : List AgendaItem
agenda = event_item trip ∷ []

builds : build same clocks [] (trip ∷ []) 1 morning none ≡ ok agenda
unfolding build ordered entries number_rows row_key event_entry when_sort_key event_overlaps_range
    current_task_uid sorted filter_map
builds = refl

all_day_end_example :
    In (event_item trip) agenda
    × (event_past clocks (event_item trip) trip morning ≡ true)
    × ((skipped : List String) (kind : Option String)
        → choose engine clocks agenda morning none skipped kind ≢ ok (some (event_item trip)))
all_day_end_example =
    all_day_end same engine clocks [] (trip ∷ []) 0 morning none none agenda trip 738000 738002
      builds (inl refl) refl refl (omega arith) refl
