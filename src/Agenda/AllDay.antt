-- ===== src/Agenda/AllDay.antt =====
-- The day on which the end date of an all-day event falls, in the two engines of internal/agenda:
-- `AgendaEngine._event_overlaps_range` and `NextEngine._event_past`.
mod Tests
use caldav_assistant_skeleto.Prelude.{
  ℕ, suc, ◌+◌, ◌≤◌, ◌≡◌, ◌≢◌, ◌<◌, refl, String, Bool, true, false, ◌&&◌, Option, none, some, List,
  In, arith, ltb, leb,
}
use caldav_assistant_skeleto.Temporal.{Datetime, date, Zones, day_of}
use caldav_assistant_skeleto.Api.{Task, Event, AgendaItem, event, ok}
use caldav_assistant_skeleto.Agenda.Next.{NextEngine, event_past, event_start, choose}
use caldav_assistant_skeleto.Agenda.Next.Policy.{choose-IsOpen}
use caldav_assistant_skeleto.Agenda.Build.{Upper, build, request, event_item}
use caldav_assistant_skeleto.Agenda.Build.Members.{IsHeld, build-event_iff}

module _ (z : Zones) (v : Event) (s d n : ℕ) (now : Datetime) (starts : v.start ≡ some (date s))
    (ends : v.end ≡ some (date d)) (today : day_of now ≡ d) where
  IsHeld-end :
      (upper : Upper) (state : Option String) → s ≤ d → IsHeld (request upper z (suc n) now state) v
  IsHeld-end upper state le = rw (starts, ends) (omega arith, omega arith)

  past_end : event_past z (event_item v) v now ≡ true
  unfolding event_past event_start
  past_end = rw (starts, ends) (ground arith)

-- On the day of its end date, an all-day event that stands among the events is still shown by the
-- agenda, and the engine that chooses the next item counts it as past and does not choose it.
pub all_day_end :
    (upper : Upper) (self : NextEngine) (z : Zones) (tasks : List Task) (events : List Event)
    (n : ℕ) (now : Datetime) (state current : Option String) (agenda : List AgendaItem) (v : Event)
    (s d : ℕ)
    → build upper z tasks events (suc n) now state ≡ ok agenda
    → In v events
    → v.start ≡ some (date s)
    → v.end ≡ some (date d)
    → s ≤ d
    → day_of now ≡ d
    → In (event_item v) agenda
      × (event_past z (event_item v) v now ≡ true)
      × ((skipped : List String) (kind : Option String)
          → choose self z agenda now current skipped kind ≢ ok (some (event_item v)))
all_day_end upper self z tasks events n now state current agenda v s d built i starts ends le
      today =
    let past = past_end z v s d n now starts ends today in
    (
      (build-event_iff upper z tasks events n now state agenda built v).1
          (i, IsHeld-end z v s d n now starts ends today upper state le),
      past,
      λ skipped kind chosen.
          let (_, _, _, (_, open_event)) =
            choose-IsOpen self z agenda now current skipped kind (event_item v) chosen in
          let still : event_past z (event_item v) v now ≡ false = open_event v refl in absurd (cc),
    )
