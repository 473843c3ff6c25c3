-- ===== src/Reminders/Schedule/Tests.antt =====
-- A report with an alarm an hour before its due time, and a snoozed reminder.
use caldav_assistant_skeleto.Prelude.{
  ℕ, ◌*◌, ◌≤◌, ◌≡◌, ◌↔◌, refl, String, true, false, none, some, List, [], ◌∷◌, strip, filter,
  filter_map, any, In,
}
use caldav_assistant_skeleto.Prelude.Sort.{IsSorted, sorted, min_from, tuple_leb}
use caldav_assistant_skeleto.Temporal.{Datetime, datetime, Zones, astimezone}
use caldav_assistant_skeleto.Api.{Task}
use caldav_assistant_skeleto.Reminders.{
  NotificationRequest, Reminder, Alarm, earlier, relative, Host, clock_of, zone_of, instant_of,
  datetime_of, has_same_time, decimal,
}
use caldav_assistant_skeleto.Reminders.Requests.{
  active_task, key_of, request_at, from_reminder, from_item, valarm_requests, alarm_requests,
  alarm_request, resolve_trigger, own_request,
}
use caldav_assistant_skeleto.Reminders.Schedule.{
  unique, requests_of, evaluate, schedule_key, undelivered, is_due, due, earliest, next_due,
}
use caldav_assistant_skeleto.Reminders.Schedule.Unique.{KeyUnique, made, evaluate_lem}
use caldav_assistant_skeleto.Reminders.Schedule.Due.{
  tz_of, instant_at, IsNext, due_iff, next_due_lem,
}

abbrev clocks : Zones
clocks = record { instant = λ z w. w; wall_at = λ z i. i; local = 1; utc = 0 }

abbrev at_hour : ℕ → Datetime
at_hour h = record { wall = h * 3600000000; zone = some 0 }

abbrev report : Task
report = record {
  id = "report";
  summary = "Report";
  description = "";
  start = none;
  due = some (datetime (at_hour 10));
  status = "NEEDS-ACTION";
  completed = false;
  completed_at = none;
  priority = none;
  categories = [];
  overdue = false;
  stale = false;
}

abbrev hour_before : Alarm
hour_before = record {
  action = "DISPLAY";
  trigger = relative (earlier 3600000000);
  from_end = true;
  description = "soon";
  repeat = 0;
  duration = none;
}

abbrev host : Host
host = record {
  zones = clocks;
  isoformat = λ d. "T";
  upper = λ s. s;
  alarms = λ item. hour_before ∷ [];
}

abbrev tea : Reminder
tea = record {
  id = "tea";
  title = "Tea";
  when = some (datetime (at_hour 8));
  cancelled = false;
  snoozed = true;
  own_key = "";
  body = "";
  actions = [];
}

abbrev request : String → ℕ → String → String → String → NotificationRequest
request key h title body source = record {
  key = key;
  when = at_hour h;
  title = title;
  body = body;
  actions = [];
  source = source;
  object_id = some "report";
}

abbrev tea_request : NotificationRequest
tea_request = record (request "snooze:tea:T" 8 "Tea" "" "snooze") { object_id = some "tea" }

abbrev plan : List NotificationRequest
plan =
    tea_request
    ∷ request "valarm:report:T:0:0" 9 "Report" "soon" "valarm"
    ∷ request "task_due:report:T" 10 "Report" "Task due" "task_due"
    ∷ []

evaluates : evaluate host (report ∷ []) [] (tea ∷ []) (at_hour 7) [] ≡ plan
unfolding evaluate requests_of unique active_task key_of request_at from_reminder from_item
    valarm_requests alarm_requests alarm_request resolve_trigger own_request clock_of zone_of
    instant_of datetime_of has_same_time decimal strip filter filter_map any sorted tuple_leb
    astimezone
evaluates = refl

-- At nine the tea is delivered and the alarm is due.
nine :
    (due clocks plan (at_hour 9) ("snooze:tea:T" ∷ [])
      ≡ request "valarm:report:T:0:0" 9 "Report" "soon" "valarm" ∷ [])
    × (next_due clocks plan (at_hour 7) [] ≡ some (at_hour 8))
unfolding due is_due next_due earliest clock_of zone_of instant_of filter any sorted min_from
    tuple_leb astimezone
nine = (refl, refl)

evaluate_lem_example :
    IsSorted
      (schedule_key clocks (tz_of clocks (at_hour 7)))
      (evaluate host (report ∷ []) [] (tea ∷ []) (at_hour 7) [])
    × KeyUnique (evaluate host (report ∷ []) [] (tea ∷ []) (at_hour 7) [])
    × ((q : NotificationRequest)
        → In q (evaluate host (report ∷ []) [] (tea ∷ []) (at_hour 7) [])
        → In q (made host (report ∷ []) [] (tea ∷ []) (at_hour 7) []))
    × ((r : NotificationRequest)
        → In r (made host (report ∷ []) [] (tea ∷ []) (at_hour 7) [])
        → (q : NotificationRequest) × In q
            (evaluate host (report ∷ []) [] (tea ∷ []) (at_hour 7) [])
          × (q.key ≡ r.key))
evaluate_lem_example = evaluate_lem host (report ∷ []) [] (tea ∷ []) (at_hour 7) []

due_iff_example :
    IsSorted (schedule_key clocks (tz_of clocks (at_hour 9))) (due clocks plan (at_hour 9) [])
    × ((r : NotificationRequest)
        → In r (due clocks plan (at_hour 9) [])
          ↔ In r plan
            × (undelivered [] r ≡ true)
            × (instant_of clocks (tz_of clocks (at_hour 9)) r.when ≤ instant_at clocks (at_hour 9)))
due_iff_example = due_iff clocks plan [] (at_hour 9)

same_zone : tz_of clocks (at_hour 9) ≡ tz_of clocks (at_hour 7)
unfolding zone_of clock_of
same_zone = refl

next_due_lem_example : IsNext clocks plan [] (at_hour 9) (next_due clocks plan (at_hour 7) [])
next_due_lem_example = next_due_lem clocks plan [] (at_hour 7) (at_hour 9) same_zone
