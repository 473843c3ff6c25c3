-- ===== src/Reminders/Schedule.antt =====
-- `evaluate`, `due` and `next_due` of `ReminderEngine`.
mod Unique
mod Due
mod Tests
use caldav_assistant_skeleto.Prelude.{
  ℕ, String, Bool, true, false, not, ◌&&◌, Option, none, some, List, [], ◌∷◌, ◌++◌, map, codes,
  filter, filter_map, any, leb, if◌then◌else◌, ◌==◌,
}
use caldav_assistant_skeleto.Prelude.Sort.{sorted, min_from}
use caldav_assistant_skeleto.Temporal.{Datetime, Zones}
use caldav_assistant_skeleto.Api.{Task, Event, Item, task, event}
use caldav_assistant_skeleto.Reminders.{
  NotificationRequest, Reminder, Rule, Host, gather, clock_of, zone_of, instant_of,
}
use caldav_assistant_skeleto.Reminders.Requests.{active_task, from_reminder, from_item, run_rule}

abbrev pub has_key : List NotificationRequest → String → Bool
has_key requests key = any (λ (r : NotificationRequest). r.key == key) requests

-- The loop with `unique.setdefault(request.key, request)`.
pub unique : List NotificationRequest → List NotificationRequest → List NotificationRequest
unique kept [] = kept
unique kept (r ∷ rs) = unique (if has_key kept r.key then kept else kept ++ r ∷ []) rs

-- What requests are sorted by: the instant, then the key.
abbrev pub schedule_key : Zones → ℕ → NotificationRequest → List ℕ
schedule_key z tz r = instant_of z tz r.when ∷ codes r.key

module _ (host : Host) where
  -- The list `requests` of `evaluate`, before the keys are made unique.
  pub requests_of :
      List Task → List Event → List Reminder → Datetime → List Rule → List NotificationRequest
  requests_of tasks events reminders clock rules =
      let tz = zone_of host.zones clock in
      let items = map task (filter (active_task host) tasks) ++ map event events in
      filter_map (from_reminder host tz) reminders
      ++ gather (from_item host tz) items
      ++ gather (λ item. gather (run_rule host clock tz item) rules) items

  pub evaluate :
      List Task → List Event → List Reminder → Datetime → List Rule → List NotificationRequest
  evaluate tasks events reminders now rules =
      let clock = clock_of host.zones now in
      sorted (schedule_key host.zones (zone_of host.zones clock))
        (unique [] (requests_of tasks events reminders clock rules))

-- `request.key not in delivered_keys`
abbrev pub undelivered : List String → NotificationRequest → Bool
undelivered delivered r = not (any (λ key. key == r.key) delivered)

pub is_due : Zones → List String → Datetime → NotificationRequest → Bool
is_due z delivered now r =
    let clock = clock_of z now in
    let tz = zone_of z clock in
    undelivered delivered r && leb (instant_of z tz r.when) (instant_of z tz clock)

pub due : Zones → List NotificationRequest → Datetime → List String → List NotificationRequest
due z requests now delivered =
    filter (is_due z delivered now) (sorted (schedule_key z (zone_of z (clock_of z now))) requests)

abbrev pub instant_key : Zones → ℕ → NotificationRequest → List ℕ
instant_key z tz r = instant_of z tz r.when ∷ []

pub earliest : Zones → ℕ → List NotificationRequest → Option Datetime
earliest z tz [] = none
earliest z tz (r ∷ rs) = some (min_from (instant_key z tz) r rs).when

pub next_due : Zones → List NotificationRequest → Datetime → List String → Option Datetime
next_due z requests now delivered =
    earliest z (zone_of z (clock_of z now)) (filter (undelivered delivered) requests)
