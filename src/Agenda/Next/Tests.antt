-- ===== src/Agenda/Next/Tests.antt =====
-- A choice among a paused task, a closed task and a meeting that is going on.
use caldav_assistant_skeleto.Prelude.{
  ℕ, ◌+◌, ◌*◌, ◌≡◌, ◌≤◌, ◌⊎◌, ◌↔◌, refl, inl, inr, true, false, Option, none, some, List, [], ◌∷◌,
  filter, any, In,
}
use caldav_assistant_skeleto.Prelude.Sort.{min_from, tuple_leb}
use caldav_assistant_skeleto.Temporal.{Datetime, datetime, Zones, day_us, astimezone}
use caldav_assistant_skeleto.Api.{Task, Event, task, event, AgendaItem, ok}
use caldav_assistant_skeleto.Agenda.Next.{
  NextEngine, kind_of, uid_of, stable_id, as_datetime, time_key, priority_of, task_overdue,
  task_due_soon, task_available, event_start, event_ongoing, event_past, eligible, task_rank,
  event_rank, rank, is_candidate, skipped_set, best, choose, skipped_uid, wanted_kind, is_current,
}
use caldav_assistant_skeleto.Agenda.Next.Choice.{candidate}
use caldav_assistant_skeleto.Agenda.Next.Policy.{
  IsOpen, IsWanted, choose-IsOpen, choose-none_iff, choose_current, choose_ongoing,
}

abbrev clocks : Zones
clocks = record { instant = λ z w. w; wall_at = λ z i. i; local = 1; utc = 0 }

abbrev at_hour : ℕ → Datetime
at_hour h = record { wall = 738000 * day_us + h * 3600000000; zone = some 0 }

abbrev engine : NextEngine
engine = record { event_horizon = 7200000000; due_horizon = 86400000000 }

abbrev report : Task
report = record {
  id = "report";
  summary = "Report";
  description = "";
  start = none;
  due = some (datetime (at_hour 8));
  status = "IN-PROCESS";
  completed = false;
  completed_at = none;
  priority = some 1;
  categories = [];
  overdue = false;
  stale = false;
}

abbrev meeting : Event
meeting = record {
  id = "meeting";
  summary = "Meeting";
  start = some (datetime (at_hour 9));
  end = some (datetime (at_hour 11));
  location = "";
  description = "";
  categories = [];
  stale = false;
}

abbrev report_item : AgendaItem
report_item = record { value = task report; when = report.due; kind = "task" }

abbrev closed_item : AgendaItem
closed_item = record {
  value = task (record report { id = "old"; status = "CANCELLED" });
  when = none;
  kind = "task";
}

abbrev meeting_item : AgendaItem
meeting_item = record { value = event meeting; when = meeting.start; kind = "event" }

abbrev items : List AgendaItem
items = closed_item ∷ report_item ∷ meeting_item ∷ []

-- With a current task, that task; without one, the meeting.
choices :
    (choose engine clocks items (at_hour 10) (some "report") [] none ≡ ok (some report_item))
    × (choose engine clocks items (at_hour 10) none [] none ≡ ok (some meeting_item))
    × (candidate engine clocks items (at_hour 10) none [] none report_item ≡ true)
    × (candidate engine clocks items (at_hour 10) none [] none meeting_item ≡ true)
unfolding choose best rank task_rank event_rank is_candidate skipped_set eligible task_available
    task_due_soon task_overdue event_start priority_of time_key as_datetime stable_id uid_of kind_of
    filter any min_from tuple_leb astimezone event_past event_ongoing
choices = (refl, refl, refl, refl)

mine : (uid_of report_item ≡ some "report")
unfolding uid_of
mine = refl

choose-none_iff_example :
    (r : Option AgendaItem) × (choose engine clocks items (at_hour 10) none [] none ≡ ok r)
    × (r ≡ none ↔ (
        (x : AgendaItem) → In x items → ¬ IsWanted engine clocks items (at_hour 10) none [] none x))
choose-none_iff_example = choose-none_iff engine clocks items (at_hour 10) none [] none refl

choose-IsOpen_example :
    In report_item items
    × (wanted_kind none (kind_of report_item) ≡ true)
    × (skipped_uid (skipped_set []) (uid_of report_item) ≡ false)
    × IsOpen clocks (at_hour 10) report_item
choose-IsOpen_example =
    choose-IsOpen engine clocks items (at_hour 10) (some "report") [] none report_item choices.0

is_mine : is_current (some "report") (uid_of report_item) ≡ true
unfolding uid_of
is_mine = refl

same_candidate :
    candidate engine clocks items (at_hour 10) (some "report") [] none report_item ≡ true
same_candidate = choices.2

choose_current_example :
    (u : Task) × (report_item.value ≡ task u) × (uid_of report_item ≡ some "report")
choose_current_example =
    choose_current engine clocks items (at_hour 10) (some "report") [] none report_item report_item
      report choices.0 (inr (inl refl)) same_candidate refl is_mine

going_on : event_ongoing clocks meeting_item meeting (at_hour 10) ≡ true
unfolding event_start astimezone event_ongoing
going_on = refl

choose_ongoing_example :
    ((t : Task) × (meeting_item.value ≡ task t) × (uid_of meeting_item ≡ none))
    ⊎ ((f : Event) × (meeting_item.value ≡ event f)
        × (event_ongoing clocks meeting_item f (at_hour 10) ≡ true)
        × ((time_key clocks (event_start meeting_item f) (at_hour 10)).wall
            ≤ (time_key clocks (event_start meeting_item meeting) (at_hour 10)).wall))
choose_ongoing_example =
    choose_ongoing engine clocks items (at_hour 10) none [] none meeting_item meeting_item meeting
      choices.1 (inr (inr (inl refl))) choices.3 refl going_on
