-- ===== src/Agenda/Build/Moment.antt =====
-- The sort key of a date or a time, as one number.
use caldav_assistant_skeleto.Prelude.{
  ℕ, ◌+◌, ◌*◌, ◌/◌, ◌%◌, ◌≤◌, ◌<◌, ◌≡◌, refl, true, Option, none, some, List, [], ◌∷◌, arith,
}
use caldav_assistant_skeleto.Prelude.Sort.{tuple_leb}
use caldav_assistant_skeleto.Temporal.{Datetime, When, date, datetime, Zones, day_us}
use caldav_assistant_skeleto.Agenda.Build.{when_sort_key, local_datetime, second_us}

-- Twice the wall clock in microseconds, in the frame of `now`: an odd number for a time, an even one
-- for the start of a day. An item without a date stands at the start of `date.min`.
abbrev pub moment : Zones → Option When → Datetime → ℕ
moment z none now = 2 * day_us
moment z (some (date n)) now = 2 * (n * day_us)
moment z (some (datetime d)) now = 2 * (local_datetime z d now).wall + 1

-- The key of a moment: its day, timed or not, the second of the day, and the microsecond.
pub record IsMoment (k : List ℕ) (m : ℕ) : Type 0 where
  day : ℕ
  timed : ℕ
  seconds : ℕ
  rest : ℕ
  shape : k ≡ day ∷ timed ∷ seconds ∷ rest ∷ []
  sum : m ≡ 2 * (day * day_us + seconds * second_us + rest) + timed
  in_day : seconds * second_us + rest < day_us
  in_second : rest < second_us
  flag : timed ≤ 1
  untimed : timed ≡ 0 → seconds * second_us + rest ≡ 0

pub when_sort_key-IsMoment :
    (z : Zones) (w : Option When) (now : Datetime)
    → IsMoment (when_sort_key z w now) (moment z w now)
unfolding when_sort_key
when_sort_key-IsMoment z none now = record {
  day = 1;
  timed = 0;
  seconds = 0;
  rest = 0;
  shape = refl;
  sum = refl;
  in_day = omega arith;
  in_second = omega arith;
  flag = omega arith;
  untimed = λ h. refl;
}
when_sort_key-IsMoment z (some (date n)) now = record {
  day = n;
  timed = 0;
  seconds = 0;
  rest = 0;
  shape = refl;
  sum = omega arith;
  in_day = omega arith;
  in_second = omega arith;
  flag = omega arith;
  untimed = λ h. refl;
}
when_sort_key-IsMoment z (some (datetime d)) now =
    let wall = (local_datetime z d now).wall in
    record {
      day = wall / day_us;
      timed = 1;
      seconds = (wall % day_us) / second_us;
      rest = wall % second_us;
      shape = refl;
      sum = omega arith;
      in_day = omega arith;
      in_second = omega arith;
      flag = omega arith;
      untimed = λ h. absurd (omega arith);
    }

moment_le_parts :
    (d f s r d' f' s' r' m n : ℕ)
    → m ≡ 2 * (d * day_us + s * second_us + r) + f
    → n ≡ 2 * (d' * day_us + s' * second_us + r') + f'
    → s * second_us + r < day_us
    → s' * second_us + r' < day_us
    → r < second_us
    → r' < second_us
    → f ≤ 1
    → f' ≤ 1
    → (f ≡ 0 → s * second_us + r ≡ 0)
    → (f' ≡ 0 → s' * second_us + r' ≡ 0)
    → tuple_leb (d ∷ f ∷ s ∷ r ∷ []) (d' ∷ f' ∷ s' ∷ r' ∷ []) ≡ true
    → m ≤ n
unfolding tuple_leb
moment_le_parts d f s r d' f' s' r' m n em en a a' b b' c c' u u' h = ground arith

-- Keys are compared item by item as the moments are.
pub moment_le :
    (k l : List ℕ) (m n : ℕ) → IsMoment k m → IsMoment l n → tuple_leb k l ≡ true → m ≤ n
moment_le k l m n p q h =
    moment_le_parts p.day p.timed p.seconds p.rest q.day q.timed q.seconds q.rest m n p.sum q.sum
      p.in_day q.in_day p.in_second q.in_second p.flag q.flag p.untimed q.untimed
      (rw (p.shape, q.shape) at h)
