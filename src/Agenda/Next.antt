-- ===== src/Agenda/Next.antt =====
-- internal/agenda/next_engine.py: `NextEngine`. Its theorems are in the modules below.
-- Horizons are microseconds. All values that are compared stand in the frame of `now`, where
-- Python compares the wall clocks.
mod Choice
pub mod Policy
mod Tests
use caldav_assistant_skeleto.Prelude.{
  ℕ, ◌+◌, ◌*◌, String, Bool, true, false, not, ◌&&◌, ◌||◌, Option, none, some, List, [], ◌∷◌, ltb,
  leb, eqb, if◌then◌else◌, is_blank, codes, filter, any, ◌==◌,
}
use caldav_assistant_skeleto.Prelude.Sort.{min_from}
use caldav_assistant_skeleto.Temporal.{
  Datetime, When, date, datetime, Zones, day_us, day_of, datetime_max, astimezone,
}
use caldav_assistant_skeleto.Api.{
  Task, Event, Item, task, event, AgendaItem, Result, ok, err, validation, bad_kind,
}

pub record NextEngine : Type 0 where
  pub event_horizon : ℕ
  pub due_horizon : ℕ

-- Identity

pub kind_of : AgendaItem → String
kind_of item = elim item.value [ task t ↦ "task" | event e ↦ "event" ]

abbrev pub item_id : Item → String
item_id (task t) = t.id
item_id (event e) = e.id

abbrev pub item_summary : Item → String
item_summary (task t) = t.summary
item_summary (event e) = e.summary

pub uid_of : AgendaItem → Option String
uid_of item = let id = item_id item.value in if is_blank id then none else some id

pub stable_id : AgendaItem → String
stable_id item = elim (uid_of item) [ some uid ↦ uid | none ↦ item_summary item.value ]

-- Time normalisation

-- The four cases of `tzinfo` on the two sides.
abbrev pub in_frame : Zones → Datetime → Option ℕ → Option ℕ → Datetime
in_frame z d none (some frame) = record d { zone = some frame }
in_frame z d (some own) none = record d { zone = none }
in_frame z d (some own) (some frame) = astimezone z frame d
in_frame z d none none = d

abbrev pub as_datetime_value : Zones → When → Datetime → Datetime
as_datetime_value z (datetime d) now = in_frame z d d.zone now.zone
as_datetime_value z (date n) now = record { wall = n * day_us; zone = now.zone }

pub as_datetime : Zones → Option When → Datetime → Option Datetime
as_datetime z none now = none
as_datetime z (some value) now = some (as_datetime_value z value now)

abbrev pub far_future : Datetime → Datetime
far_future now = datetime_max now.zone

pub time_key : Zones → Option When → Datetime → Datetime
time_key z value now = elim (as_datetime z value now) [ some d ↦ d | none ↦ far_future now ]

-- Task policy

pub priority_of : Task → ℕ
priority_of t = elim t.priority [ some p ↦ if leb 1 p && leb p 9 then p else 10 | none ↦ 10 ]

abbrev pub past_due : Zones → Option When → Datetime → Bool
past_due z none now = false
past_due z (some (date d)) now = ltb d (day_of now)
past_due z (some (datetime d)) now = ltb (as_datetime_value z (datetime d) now).wall now.wall

pub task_overdue : Zones → Task → Datetime → Bool
task_overdue z t now = t.overdue || past_due z t.due now

abbrev pub within_horizon : Zones → ℕ → Option When → Datetime → Bool
within_horizon z h none now = false
within_horizon z h (some (date d)) now =
    leb (day_of now) d && leb d (day_of (record now { wall = now.wall + h }))
within_horizon z h (some (datetime d)) now =
    let normalized = as_datetime_value z (datetime d) now in
    leb now.wall normalized.wall && leb normalized.wall (now.wall + h)

pub task_due_soon : NextEngine → Zones → Task → Datetime → Bool
task_due_soon self z t now =
    if task_overdue z t now then false else within_horizon z self.due_horizon t.due now

abbrev pub has_begun : Zones → Option When → Datetime → Bool
has_begun z none now = true
has_begun z (some (date d)) now = leb d (day_of now)
has_begun z (some (datetime d)) now = leb (as_datetime_value z (datetime d) now).wall now.wall

pub task_available : Zones → Task → Datetime → Bool
task_available z t now = has_begun z t.start now

-- Event policy

unfoldable pub event_start : AgendaItem → Event → Option When
event_start item e = elim e.start [ some s ↦ some s | none ↦ item.when ]

-- `start <= now < end` over the normalised values
abbrev pub spans_now : Zones → When → When → Datetime → Bool
spans_now z start end now =
    leb (as_datetime_value z start now).wall now.wall
    && ltb now.wall (as_datetime_value z end now).wall

abbrev pub ongoing_between : Zones → Option When → Option When → Datetime → Bool
ongoing_between z none end now = false
ongoing_between z (some (date s)) none now = eqb s (day_of now)
ongoing_between z (some (date s)) (some (date e)) now = leb s (day_of now) && ltb (day_of now) e
ongoing_between z (some (datetime s)) none now = false
ongoing_between z (some start) (some end) now = spans_now z start end now

pub event_ongoing : Zones → AgendaItem → Event → Datetime → Bool
event_ongoing z item e now = ongoing_between z (event_start item e) e.end now

abbrev pub past_between : Zones → Option When → Option When → Datetime → Bool
past_between z none end now = false
past_between z (some (date s)) (some (date e)) now = leb e (day_of now)
past_between z (some (date s)) none now = ltb s (day_of now)
past_between z (some start) (some end) now = leb (as_datetime_value z end now).wall now.wall
past_between z (some start) none now = ltb (as_datetime_value z start now).wall now.wall

unfoldable pub event_past : Zones → AgendaItem → Event → Datetime → Bool
event_past z item e now = past_between z (event_start item e) e.end now

abbrev pub starts_within : Zones → ℕ → Option When → Datetime → Bool
starts_within z h none now = false
starts_within z h (some start) now =
    let start_dt = as_datetime_value z start now in
    leb now.wall start_dt.wall && leb start_dt.wall (now.wall + h)

pub event_imminent : NextEngine → Zones → AgendaItem → Event → Datetime → Bool
event_imminent self z item e now =
    if event_ongoing z item e now
    then false
    else starts_within z self.event_horizon (event_start item e) now

-- Eligibility and rank

abbrev pub is_closed_status : String → Bool
is_closed_status status = status == "COMPLETED" || status == "CANCELLED"

pub eligible : Zones → AgendaItem → Datetime → Bool
eligible z item now = elim item.value [
  | task t ↦ if t.completed then false else not (is_closed_status t.status)
  | event e ↦ not (event_past z item e now)
]

abbrev pub is_current : Option String → Option String → Bool
is_current none uid = false
is_current (some current) none = false
is_current (some current) (some uid) = uid == current

-- The tuple that Python compares; the code points of the stable id stand at its end.
pub task_rank : NextEngine → Zones → Datetime → Option String → AgendaItem → Task → List ℕ
task_rank self z now current item t =
    let priority = priority_of t in
    let due_key = (time_key z t.due now).wall in
    let start_key = (time_key z t.start now).wall in
    let id = codes (stable_id item) in
    if is_current current (uid_of item)
    then 0 ∷ priority ∷ due_key ∷ id
    else if task_overdue z t now
    then 3 ∷ due_key ∷ priority ∷ id
    else if task_due_soon self z t now
    then 4 ∷ due_key ∷ priority ∷ id
    else if task_available z t now
    then 5 ∷ priority ∷ due_key ∷ id
    else 6 ∷ start_key ∷ priority ∷ due_key ∷ id

pub event_rank : NextEngine → Zones → Datetime → AgendaItem → Event → List ℕ
event_rank self z now item e =
    let start_key = (time_key z (event_start item e) now).wall in
    let id = codes (stable_id item) in
    if event_ongoing z item e now
    then 1 ∷ start_key ∷ id
    else if event_imminent self z item e now
    then 2 ∷ start_key ∷ id
    else 7 ∷ start_key ∷ id

pub rank : NextEngine → Zones → Datetime → Option String → AgendaItem → List ℕ
rank self z now current item = elim item.value [
  | task t ↦ task_rank self z now current item t
  | event e ↦ event_rank self z now item e
]

abbrev pub skipped_uid : List String → Option String → Bool
skipped_uid skipped none = false
skipped_uid skipped (some uid) = any (λ s. s == uid) skipped

abbrev pub wanted_kind : Option String → String → Bool
wanted_kind none own = true
wanted_kind (some kind) own = own == kind

-- The body of the loop over `agenda.items`: the item becomes a candidate.
pub is_candidate : Zones → Datetime → List String → Option String → AgendaItem → Bool
is_candidate z now skipped kind item =
    wanted_kind kind (kind_of item)
    && not (skipped_uid skipped (uid_of item))
    && eligible z item now

abbrev pub valid_kind : Option String → Bool
valid_kind none = true
valid_kind (some kind) = kind == "task" || kind == "event"

-- `skipped_uids` drops empty texts.
pub skipped_set : List String → List String
skipped_set uids = filter (λ uid. not (is_blank uid)) uids

pub best : (AgendaItem → List ℕ) → List AgendaItem → Option AgendaItem
best key [] = none
best key (item ∷ items) = some (min_from key item items)

pub choose :
    NextEngine
    → Zones
    → List AgendaItem
    → Datetime
    → Option String
    → List String
    → Option String
    → Result (Option AgendaItem)
choose self z items now current skipped_uids kind =
    if valid_kind kind
    then (let skipped = skipped_set skipped_uids in
        ok (best (rank self z now current) (filter (is_candidate z now skipped kind) items)))
    else err (validation bad_kind)
