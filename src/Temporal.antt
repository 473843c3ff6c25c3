-- ===== src/Temporal.antt =====
-- Dates, datetimes and time zones as Python's `datetime` module has them.
-- A date is its ordinal. A datetime is its wall clock, in microseconds since the day of
-- ordinal 0, and its `tzinfo`, a number that names a zone. What a zone does to a wall clock is the
-- zone database's: a parameter. The limits of `datetime` (years 1 to 9999) are not modelled.
use caldav_assistant_skeleto.Prelude.{ℕ, ◌-◌, ◌*◌, ◌/◌, Option, none, some, eqb, if◌then◌else◌}

pub record Datetime : Type 0 where
  pub wall : ℕ
  pub zone : Option ℕ

-- `date | datetime`
pub data When : Type 0 where
  date : ℕ → When
  datetime : Datetime → When

pub record Zones : Type 0 where
  -- the instant at which a clock in the zone shows the wall clock, and back
  pub instant : ℕ → ℕ → ℕ
  pub wall_at : ℕ → ℕ → ℕ
  -- the system's zone, and `timezone.utc`
  pub local : ℕ
  pub utc : ℕ

abbrev pub day_us : ℕ
day_us = 86400000000

-- `value.date()`
abbrev pub day_of : Datetime → ℕ
day_of d = d.wall / day_us

-- `datetime.max` in a zone
abbrev pub datetime_max : Option ℕ → Datetime
datetime_max zone = record { wall = 3652060 * day_us - 1; zone = zone }

abbrev source_zone : Zones → Option ℕ → ℕ
source_zone z none = z.local
source_zone z (some s) = s

-- `value.astimezone(zone)`; a naive value is read in the system's zone.
unfoldable pub astimezone : Zones → ℕ → Datetime → Datetime
astimezone z target d =
    let source = source_zone z d.zone in
    if eqb source target
    then record { wall = d.wall; zone = some target }
    else record { wall = z.wall_at target (z.instant source d.wall); zone = some target }
