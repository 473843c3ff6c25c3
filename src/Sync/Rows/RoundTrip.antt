-- ===== src/Sync/Rows/RoundTrip.antt =====
-- A value that is read back from the cache.
use caldav_assistant_skeleto.Prelude.{
  ◌≡◌, refl, ℕ, String, true, false, Option, none, some, is_blank,
}
use mathlib.Core.Option.{map as map_option}
use caldav_assistant_skeleto.Temporal.{Datetime, When, date, datetime}
use caldav_assistant_skeleto.Api.{Task, Event}
use caldav_assistant_skeleto.Sync.Rows.{
  IsoTexts, Fetched, no_metadata, time_value, transport_metadata, has_time, cached_time,
  cached_when, only_datetime, task_to_dict, event_to_dict, cached_task, cached_event,
}

-- What Python documents of these texts: that of a date is read back and has neither a "T" nor a
-- space; that of a datetime has one of them, and is read back as a value with the same text.
pub record IsIso (z : IsoTexts) : Type 0 where
  pub date_filled : (d : ℕ) → is_blank (z.date_text d) ≡ false
  pub date_plain : (d : ℕ) → has_time (z.date_text d) ≡ false
  pub date_back : (d : ℕ) → z.date_of_text (z.date_text d) ≡ some d
  pub datetime_marked : (d : Datetime) → has_time (z.datetime_text d) ≡ true
  pub datetime_back :
      (d : Datetime)
      → (e : Datetime) × (z.datetime_of_text (z.datetime_text d) ≡ some e)
        × (z.datetime_text e ≡ z.datetime_text d)

has_time-is_blank : (s : String) → has_time s ≡ true → is_blank s ≡ false
unfolding has_time
has_time-is_blank String.[] h = absurd (cc)
has_time-is_blank (String.◌∷◌ c s) h = refl

module _ (z : IsoTexts) (iso : IsIso z) where
  -- A datetime is read back as a datetime with the same text.
  datetime_again :
      (d : Datetime)
      → (e : Datetime) × (cached_time z (z.datetime_text d) ≡ some (datetime e))
        × (z.datetime_text e ≡ z.datetime_text d)
  unfolding cached_time
  datetime_again d =
      let (e, read, same) = iso.datetime_back d in
      let marked = iso.datetime_marked d in
      (e, rw (has_time-is_blank (z.datetime_text d) marked, marked, read) refl, same)

  date_again : (d : ℕ) → cached_time z (z.date_text d) ≡ some (date d)
  unfolding cached_time
  date_again d = rw (iso.date_filled d, iso.date_plain d, iso.date_back d) refl

  time_again :
      (t : Option When)
      → map_option (time_value z) (cached_when z (map_option (time_value z) t))
        ≡ map_option (time_value z) t
  time_again none = refl
  time_again (some (date d)) = rw (date_again d) refl
  time_again (some (datetime d)) = let (e, read, same) = datetime_again d in rw (read, same) refl

  stamp_again :
      (t : Option Datetime)
      → map_option z.datetime_text (only_datetime (cached_when z (map_option z.datetime_text t)))
        ≡ map_option z.datetime_text t
  stamp_again none = refl
  stamp_again (some d) = let (e, read, same) = datetime_again d in rw (read, same) refl

  -- With `isoformat` and `fromisoformat` as Python documents them (the text of a date is not empty,
  -- has neither a "T" nor a space, and is read back; that of a datetime has one of them, and is read
  -- back as a value with the same text): a task with a status, and an event, that go to the cache
  -- and are read back from it go to the cache as the same dictionary, less the metadata of the
  -- transport.
  pub cache_again :
      (t : Fetched Task) (e : Fetched Event)
      → is_blank t.value.status ≡ false
      → (task_to_dict z
            (record { value = cached_task z (task_to_dict z t); attributes = no_metadata })
          ≡ record (task_to_dict z t) { caldav = no_metadata })
        × (event_to_dict z
              (record { value = cached_event z (event_to_dict z e); attributes = no_metadata })
            ≡ record (event_to_dict z e) { caldav = no_metadata })
  unfolding task_to_dict event_to_dict cached_task cached_event transport_metadata
  cache_again t e h = (
    rw (h, time_again t.value.start, time_again t.value.due, stamp_again t.value.completed_at) refl,
    rw (time_again e.value.start, time_again e.value.end) refl,
  )
