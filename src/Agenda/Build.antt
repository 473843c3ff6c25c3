-- ===== src/Agenda/Build.antt =====
-- internal/agenda/engine.py: `AgendaEngine`. Its theorems are in the modules below.
-- Values are compared in the frame of `now`, where Python compares the wall clocks.
pub mod Members
mod Sorted
mod Moment
mod Order
mod Tests
use caldav_assistant_skeleto.Prelude.{
  ℕ, zero, suc, ◌+◌, ◌/◌, ◌%◌, String, Bool, true, false, ◌&&◌, ◌||◌, Option, none, some, List, [],
  ◌∷◌, ◌++◌, map, ltb, leb, is_blank, is_some, if◌then◌else◌, strip, filter_map, or_else, ◌==◌,
}
use caldav_assistant_skeleto.Prelude.Sort.{sorted}
use caldav_assistant_skeleto.Temporal.{
  Datetime, When, date, datetime, Zones, day_us, day_of, astimezone,
}
use caldav_assistant_skeleto.Api.{
  Task, Event, task, event, AgendaItem, Result, ok, err, validation, bad_days,
}

-- `candidates`: the broad projection, with no range.
pub candidates : List Task → List Event → List AgendaItem
candidates tasks events =
    map (λ t. record { value = task t; when = or_else t.due t.start; kind = "task" }) tasks
    ++ map (λ e. record { value = event e; when = e.start; kind = "event" }) events

-- Python's `str.upper` maps the letters of every script; the statuses that the code compares with
-- are ASCII, and the whole mapping is a parameter.
abbrev pub Upper : Type 0
Upper = String → String

pub task_is_inactive : Upper → Task → Bool
task_is_inactive upper t =
    if t.completed
    then true
    else (let status = upper (strip t.status) in status == "COMPLETED" || status == "CANCELLED")

-- The text of `current_task_uid` in the user state, if it has one.
unfoldable pub current_task_uid : Option String → Option String
current_task_uid none = none
current_task_uid (some value) = let text = strip value in if is_blank text then none else some text

abbrev pub frame : Zones → Datetime → Option ℕ → Option ℕ → Datetime
frame z d (some own) (some zone) = astimezone z zone d
frame z d (some own) none = record (astimezone z z.local d) { zone = none }
frame z d none (some zone) = record d { zone = some zone }
frame z d none none = d

pub local_datetime : Zones → Datetime → Datetime → Datetime
local_datetime z value now = frame z value value.zone now.zone

abbrev pub date_of : Zones → When → Datetime → ℕ
date_of z (datetime d) now = day_of (local_datetime z d now)
date_of z (date n) now = n

-- The two `replace` calls that follow `_local_datetime` in `_is_before`.
abbrev pub align : Datetime → Option ℕ → Option ℕ → Datetime
align d none (some zone) = record d { zone = some zone }
align d (some own) none = record d { zone = none }
align d _ _ = d

pub is_before : Zones → When → Datetime → Bool
is_before z (date n) now = ltb n (day_of now)
is_before z (datetime d) now =
    let local = local_datetime z d now in ltb (align local local.zone now.zone).wall now.wall

pub day_in_range : Zones → When → ℕ → ℕ → Datetime → Bool
day_in_range z value start_day end_day now =
    let day = date_of z value now in leb start_day day && ltb day end_day

abbrev pub overlaps : Zones → Option When → Option When → ℕ → ℕ → Datetime → Bool
overlaps z none end start_day end_day now = false
overlaps z (some s) none start_day end_day now =
    let event_start_day = date_of z s now in
    leb start_day event_start_day && ltb event_start_day end_day
overlaps z (some s) (some e) start_day end_day now =
    ltb (date_of z s now) end_day && leb start_day (date_of z e now)

unfoldable pub event_overlaps_range : Zones → Event → ℕ → ℕ → Datetime → Bool
event_overlaps_range z e start_day end_day now = overlaps z e.start e.end start_day end_day now

abbrev pub second_us : ℕ
second_us = 1000000

-- The ordinal of `date.min` is 1. The seconds of the day are hours, minutes and seconds summed.
unfoldable pub when_sort_key : Zones → Option When → Datetime → List ℕ
when_sort_key z none now = 1 ∷ 0 ∷ 0 ∷ 0 ∷ []
when_sort_key z (some (datetime d)) now =
    let local = local_datetime z d now in
    let seconds = (local.wall % day_us) / second_us in
    day_of local ∷ 1 ∷ seconds ∷ local.wall % second_us ∷ []
when_sort_key z (some (date n)) now = n ∷ 0 ∷ 0 ∷ 0 ∷ []

-- What the loops over tasks and events share.
pub record Request : Type 0 where
  pub upper : Upper
  pub zones : Zones
  pub now : Datetime
  pub start_day : ℕ
  pub end_day : ℕ
  pub current : Option String

pub record Entry : Type 0 where
  pub group : ℕ
  pub when_key : List ℕ
  pub item : AgendaItem

abbrev pub scheduled_when : Task → Option When
scheduled_when t = or_else t.due t.start

pub task_is_current : Request → Task → Bool
task_is_current q t = elim q.current [ some uid ↦ t.id == uid | none ↦ false ]

pub task_is_overdue : Request → Task → Bool
task_is_overdue q t = elim t.due [ some due ↦ is_before q.zones due q.now | none ↦ false ]

pub task_in_range : Request → Task → Bool
task_in_range q t = elim (scheduled_when t) [
  | some when ↦ day_in_range q.zones when q.start_day q.end_day q.now
  | none ↦ false
]

pub task_group : Request → Task → ℕ
task_group q t = if task_is_current q t then 0 else if task_is_overdue q t then 1 else 2

abbrev pub task_item : Task → AgendaItem
task_item t = record { value = task t; when = scheduled_when t; kind = "task" }

-- The body of the loop over the tasks: the row to append, or `continue`.
pub task_entry : Request → Task → Option Entry
task_entry q t =
    if task_is_inactive q.upper t
    then none
    else if task_is_current q t || task_is_overdue q t || task_in_range q t
    then some (record {
      group = task_group q t;
      when_key = when_sort_key q.zones (scheduled_when t) q.now;
      item = task_item t;
    })
    else none

abbrev pub event_item : Event → AgendaItem
event_item e = record { value = event e; when = e.start; kind = "event" }

-- The body of the loop over the events.
unfoldable pub event_entry : Request → Event → Option Entry
event_entry q e =
    if is_some e.start
    then (if event_overlaps_range q.zones e q.start_day q.end_day q.now
        then some (record {
          group = 2;
          when_key = when_sort_key q.zones e.start q.now;
          item = event_item e;
        })
        else none)
    else none

-- A row is an entry with its sequence number, which counts the rows appended so far.
pub record Row : Type 0 where
  pub entry : Entry
  pub sequence : ℕ

unfoldable pub number_rows : ℕ → List Entry → List Row
number_rows sequence [] = []
number_rows sequence (e ∷ es) =
    record { entry = e; sequence = sequence } ∷ number_rows (sequence + 1) es

unfoldable pub row_key : Row → List ℕ
row_key r = r.entry.group ∷ r.entry.when_key ++ r.sequence ∷ []

unfoldable pub entries : Request → List Task → List Event → List Entry
entries q tasks events = filter_map (task_entry q) tasks ++ filter_map (event_entry q) events

abbrev pub request : Upper → Zones → ℕ → Datetime → Option String → Request
request upper z days now user_state = record {
  upper = upper;
  zones = z;
  now = now;
  start_day = day_of now;
  end_day = day_of now + days;
  current = current_task_uid user_state;
}

unfoldable pub ordered : List Entry → List AgendaItem
ordered es = map (λ r. r.entry.item) (sorted row_key (number_rows 0 es))

unfoldable pub build :
    Upper → Zones → List Task → List Event → ℕ → Datetime → Option String → Result (List AgendaItem)
build upper z tasks events zero now user_state = err (validation bad_days)
build upper z tasks events (suc n) now user_state =
    ok (ordered (entries (request upper z (suc n) now user_state) tasks events))
