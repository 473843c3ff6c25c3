-- ===== src/Reminders/Schedule/Due.antt =====
-- What is due now, and when the next request is due.
use caldav_assistant_skeleto.Prelude.{
  ℕ, ◌≤◌, ◌<◌, ◌≡◌, refl, ◌↔◌, String, true, Option, none, some, List, [], ◌∷◌, filter, arith, In,
  In-filter, In-filter_of, All-In,
}
use caldav_assistant_skeleto.Prelude.Sort.{
  tuple_leb, IsSorted, sorted, sorted-IsSorted, filter-IsSorted, In-sorted, In-sorted_of, min_from,
  min_from-In, min_from-Before,
}
use caldav_assistant_skeleto.Temporal.{Datetime, Zones}
use caldav_assistant_skeleto.Reminders.{NotificationRequest, clock_of, zone_of, instant_of}
use caldav_assistant_skeleto.Reminders.Schedule.{
  undelivered, is_due, due, schedule_key, earliest, instant_key, next_due,
}

-- The zone in which a call reads naive times, and the instant of its clock.
abbrev pub tz_of : Zones → Datetime → ℕ
tz_of z now = zone_of z (clock_of z now)

abbrev pub instant_at : Zones → Datetime → ℕ
instant_at z now = instant_of z (tz_of z now) (clock_of z now)

module _ (z : Zones) (requests : List NotificationRequest) (delivered : List String) where
  is_due_iff :
      (now : Datetime) (r : NotificationRequest)
      → is_due z delivered now r ≡ true
        ↔ (undelivered delivered r ≡ true) × (instant_of z (tz_of z now) r.when ≤ instant_at z now)
  unfolding is_due
  is_due_iff now r = (λ h. (ground arith, ground arith), λ (h, k). ground arith)

  -- The due requests are those of the list that are not delivered and whose instant has come, in
  -- the order of instants and keys.
  pub due_iff :
      (now : Datetime)
      → IsSorted (schedule_key z (tz_of z now)) (due z requests now delivered)
        × ((r : NotificationRequest)
            → In r (due z requests now delivered)
              ↔ In r requests
                × (undelivered delivered r ≡ true)
                × (instant_of z (tz_of z now) r.when ≤ instant_at z now))
  unfolding due
  due_iff now =
      let key = schedule_key z (tz_of z now) in
      (
        filter-IsSorted key (is_due z delivered now) _ (sorted-IsSorted key requests),
        λ r. (
          λ i.
              let (j, h) = In-filter (is_due z delivered now) (sorted key requests) r i in
              let (k, l) = (is_due_iff now r).0 h in (In-sorted key requests r j, k, l),
          λ (i, k, l).
              In-filter_of (is_due z delivered now) (sorted key requests) r
                (In-sorted_of key requests r i) ((is_due_iff now r).1 (k, l)),
        ),
      )

  -- Among the pending requests.
  abbrev IsEarliest : ℕ → List NotificationRequest → Option Datetime → Type 0
  IsEarliest tz pending none = (r : NotificationRequest) → In r pending → ⊥
  IsEarliest tz pending (some d) =
      ((r : NotificationRequest) → In r pending → instant_of z tz d ≤ instant_of z tz r.when)
      × ((r : NotificationRequest) × In r pending × (r.when ≡ d))

  before_instant :
      (tz : ℕ) (q r : NotificationRequest)
      → tuple_leb (instant_key z tz q) (instant_key z tz r) ≡ true
      → instant_of z tz q.when ≤ instant_of z tz r.when
  unfolding tuple_leb
  before_instant tz q r h = ground arith

  earliest-IsEarliest :
      (tz : ℕ) (pending : List NotificationRequest) → IsEarliest tz pending (earliest z tz pending)
  unfolding earliest
  earliest-IsEarliest tz [] = λ r i. i
  earliest-IsEarliest tz (p ∷ ps) =
      let first = min_from (instant_key z tz) p ps in
      (
        λ r i.
            before_instant tz first r
              (All-In _ (p ∷ ps) r (min_from-Before (instant_key z tz) p ps) i),
        (first, min_from-In (instant_key z tz) p ps, refl),
      )

  -- The answers of `next_due`, by what is due at a later look in the same zone.
  abbrev pub IsNext : Datetime → Option Datetime → Type 0
  IsNext look none = (r : NotificationRequest) → In r (due z requests look delivered) → ⊥
  IsNext look (some d) =
      (instant_at z look < instant_of z (tz_of z look) d
        → (r : NotificationRequest) → In r (due z requests look delivered)
        → ⊥)
      × (instant_of z (tz_of z look) d ≤ instant_at z look
          → (r : NotificationRequest) × In r (due z requests look delivered) × (r.when ≡ d))

  pending_of :
      (look : Datetime) (r : NotificationRequest)
      → In r (due z requests look delivered)
      → In r (filter (undelivered delivered) requests)
        × (instant_of z (tz_of z look) r.when ≤ instant_at z look)
  pending_of look r i =
      let (j, k, l) = ((due_iff look).1 r).0 i in
      (In-filter_of (undelivered delivered) requests r j k, l)

  earliest-IsNext :
      (look : Datetime) (o : Option Datetime)
      → IsEarliest (tz_of z look) (filter (undelivered delivered) requests) o
      → IsNext look o
  earliest-IsNext look none h = λ r i. h r (pending_of look r i).0
  earliest-IsNext look (some d) (least, (q, j, w)) = (
    λ before r i.
        let (k, l) = pending_of look r i in
        let m = least r k in absurd (omega (arith, before, l, m)),
    λ come.
        let (k, l) = In-filter (undelivered delivered) requests q j in
        (q, ((due_iff look).1 q).1 (k, l, rw w come), w),
  )

  -- A wait until the time that `next_due` gives misses nothing: with no such time, nothing is due at
  -- any look; before it, nothing is due; from its instant on, a request for that time is due. The
  -- looks are in the zone of the call.
  pub next_due_lem :
      (now look : Datetime)
      → tz_of z look ≡ tz_of z now
      → IsNext look (next_due z requests now delivered)
  unfolding next_due
  next_due_lem now look same =
      let pending = filter (undelivered delivered) requests in
      earliest-IsNext look _ (rw same (earliest-IsEarliest (tz_of z now) pending))
