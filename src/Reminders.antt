-- ===== src/Reminders.antt =====
-- internal/reminders/engine.py: `ReminderEngine`.
-- `isoformat` and `str.upper` are parameters, and so is what decodes the alarms of an item from its
-- raw object (`_alarm_components`, `_property`, `_decode`, `_related`, `_repeat_count`). Of a
-- dict of metadata only the keys that the engine reads are modelled.
pub mod Requests
pub mod Schedule
use Prim.Native.String as Text
use caldav_assistant_skeleto.Prelude.{
  ℕ, zero, suc, ◌+◌, ◌-◌, ◌*◌, ◌/◌, ◌%◌, String, Bool, true, false, not, ◌&&◌, ◌||◌, Option, none,
  some, List, [], ◌∷◌, ◌++◌, map, codes, is_blank, strip, filter, filter_map, any, ltb, leb, eqb,
  if◌then◌else◌, ◌==◌,
}
use caldav_assistant_skeleto.Prelude.Sort.{sorted, min_from}
use caldav_assistant_skeleto.Temporal.{Datetime, When, date, datetime, Zones, astimezone}
use caldav_assistant_skeleto.Api.{Task, Event, Item, task, event}

pub record NotificationRequest : Type 0 where
  pub key : String
  pub when : Datetime
  pub title : String
  pub body : String
  pub actions : List String
  pub source : String
  pub object_id : Option String

-- The metadata that the engine reads stand beside the fields of the class. `cancelled` is
-- `metadata.get("cancelled") is True`.
pub record Reminder : Type 0 where
  pub id : String
  pub title : String
  pub when : Option When
  pub cancelled : Bool
  pub snoozed : Bool
  pub own_key : String
  pub body : String
  pub actions : List String

-- A `timedelta`, in microseconds.
pub data Timedelta : Type 0 where
  later earlier : ℕ → Timedelta

pub data Trigger : Type 0 where
  absolute : When → Trigger
  relative : Timedelta → Trigger
  untimed : Trigger

-- A decoded alarm.
pub record Alarm : Type 0 where
  pub action : String
  pub trigger : Trigger
  pub from_end : Bool
  pub description : String
  pub repeat : ℕ
  pub duration : Option Timedelta

-- A user rule: its name, and what it produces for an item at a time.
pub record Rule : Type 0 where
  pub name : String
  pub produce : Item → Datetime → Option (List NotificationRequest)

pub record Host : Type 0 where
  pub zones : Zones
  pub isoformat : Datetime → String
  pub upper : String → String
  pub alarms : Item → List Alarm

-- `a or b`
abbrev pub or_text : String → String → String
or_text a b = if is_blank a then b else a

abbrev pub or_none : String → Option String
or_none a = if is_blank a then none else some a

infixr 5 ◌<>◌
abbrev pub ◌<>◌ : String → String → String
a <> b = Text.◌++◌ a b

abbrev pub gather : {A B : Type 0} → (A → List B) → List A → List B
gather f [] = []
gather f (x ∷ xs) = f x ++ gather f xs

-- `enumerate(xs, n)`
abbrev pub enumerate : {A : Type 0} → ℕ → List A → List (ℕ × A)
enumerate n [] = []
enumerate n (x ∷ xs) = (n, x) ∷ enumerate (n + 1) xs

abbrev nth_digit : ℕ → List String → String
nth_digit n [] = ""
nth_digit zero (d ∷ ds) = d
nth_digit (suc n) (d ∷ ds) = nth_digit n ds

abbrev digit : ℕ → String
digit n = nth_digit n ("0" ∷ "1" ∷ "2" ∷ "3" ∷ "4" ∷ "5" ∷ "6" ∷ "7" ∷ "8" ∷ "9" ∷ [])

-- The digits of a number, of which there are no more than the number and one.
abbrev decimal_in : ℕ → ℕ → String
decimal_in zero n = ""
decimal_in (suc fuel) n =
    let front = decimal_in fuel (n / 10) in if ltb n 10 then digit n else front <> digit (n % 10)

pub decimal : ℕ → String
decimal n = decimal_in (n + 1) n

-- Temporal helpers

-- `_clock` of a given datetime, and the zone of the clock.
pub clock_of : Zones → Datetime → Datetime
clock_of z now = elim now.zone [ some zone ↦ now | none ↦ record now { zone = some z.utc } ]

abbrev pub zone_or : Option ℕ → ℕ → ℕ
zone_or none default = default
zone_or (some zone) default = zone

pub zone_of : Zones → Datetime → ℕ
zone_of z clock = zone_or clock.zone z.utc

abbrev pub aware_in : ℕ → Datetime → Option ℕ → Datetime
aware_in tz d none = record d { zone = some tz }
aware_in tz d (some own) = d

-- `_datetime`
pub datetime_of : When → ℕ → Option Datetime
datetime_of (date n) tz = none
datetime_of (datetime d) tz = some (aware_in tz d d.zone)

abbrev pub datetime_if : Option When → ℕ → Option Datetime
datetime_if none tz = none
datetime_if (some w) tz = datetime_of w tz

-- `_instant`, as the wall clock in UTC.
pub instant_of : Zones → ℕ → Datetime → ℕ
instant_of z tz d = (astimezone z z.utc (aware_in tz d d.zone)).wall

pub has_same_time : Zones → ℕ → List NotificationRequest → Datetime → Bool
has_same_time z tz requests when =
    any (λ (r : NotificationRequest). eqb (instant_of z tz r.when) (instant_of z tz when)) requests

abbrev pub shift : Datetime → Timedelta → Datetime
shift d (later n) = record d { wall = d.wall + n }
shift d (earlier n) = record d { wall = d.wall - n }

abbrev pub scale : Timedelta → ℕ → Timedelta
scale (later n) index = later (n * index)
scale (earlier n) index = earlier (n * index)
