-- ===== src/Agenda/Build/Tests.antt =====
-- An agenda of one day with an overdue task and a meeting.
use caldav_assistant_skeleto.Prelude.{
  ℕ, ◌+◌, ◌*◌, ◌≡◌, refl, String, false, none, some, List, [], ◌∷◌, ◌↔◌, filter, strip, filter_map,
  In,
}
use caldav_assistant_skeleto.Prelude.Sort.{sorted, min_from, tuple_leb}
use caldav_assistant_skeleto.Temporal.{Datetime, datetime, Zones, day_us, astimezone}
use caldav_assistant_skeleto.Api.{Task, Event, AgendaItem, ok}
use caldav_assistant_skeleto.Agenda.Build.{
  Request, request, build, ordered, entries, number_rows, row_key, task_entry, event_entry,
  task_group, task_in_range, task_is_overdue, task_is_current, task_is_inactive, current_task_uid,
  when_sort_key, event_overlaps_range, day_in_range, is_before, local_datetime, task_item,
  event_item,
}
use caldav_assistant_skeleto.Agenda.Build.Members.{IsShown, IsHeld, build-task_iff, build-event_iff}
use caldav_assistant_skeleto.Agenda.Build.Order.{InOrder, build-InOrder}

abbrev clocks : Zones
clocks = record { instant = λ z w. w; wall_at = λ z i. i; local = 1; utc = 0 }

abbrev at_hour : ℕ → Datetime
at_hour h = record { wall = 738000 * day_us + h * 3600000000; zone = some 0 }

abbrev report : Task
report = record {
  id = "report";
  summary = "Report";
  description = "";
  start = none;
  due = some (datetime (at_hour 8));
  status = "NEEDS-ACTION";
  completed = false;
  completed_at = none;
  priority = none;
  categories = [];
  overdue = false;
  stale = false;
}

abbrev meeting : Event
meeting = record {
  id = "meeting";
  summary = "Meeting";
  start = some (datetime (at_hour 9));
  end = some (datetime (at_hour 11));
  location = "";
  description = "";
  categories = [];
  stale = false;
}

-- Every status of the test stands in capitals.
abbrev same : String → String
same s = s

abbrev agenda : List AgendaItem
agenda = task_item report ∷ event_item meeting ∷ []

builds : build same clocks (report ∷ []) (meeting ∷ []) 1 (at_hour 10) none ≡ ok agenda
unfolding build ordered entries number_rows row_key task_entry event_entry task_group task_in_range
    task_is_overdue task_is_current task_is_inactive current_task_uid when_sort_key
    event_overlaps_range day_in_range is_before local_datetime sorted min_from tuple_leb filter
    filter_map astimezone strip
builds = refl

abbrev asked : Request
asked = request same clocks 1 (at_hour 10) none

build-task_iff_example :
    In (task_item report) agenda ↔ In report (report ∷ []) × IsShown asked report
build-task_iff_example =
    build-task_iff same clocks (report ∷ []) (meeting ∷ []) 0 (at_hour 10) none agenda builds report

build-event_iff_example :
    In (event_item meeting) agenda ↔ In meeting (meeting ∷ []) × IsHeld asked meeting
build-event_iff_example =
    build-event_iff same clocks (report ∷ []) (meeting ∷ []) 0 (at_hour 10) none agenda builds
      meeting

build-InOrder_example : InOrder asked agenda
build-InOrder_example =
    build-InOrder same clocks (report ∷ []) (meeting ∷ []) 0 (at_hour 10) none agenda builds
