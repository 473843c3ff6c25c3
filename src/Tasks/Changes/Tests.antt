-- ===== src/Tasks/Changes/Tests.antt =====
-- A dict of changes that completes a task.
use caldav_assistant_skeleto.Prelude.{◌≡◌, refl, true, false, none, some}
use caldav_assistant_skeleto.Temporal.{Datetime, datetime}
use caldav_assistant_skeleto.Api.{ok}
use caldav_assistant_skeleto.Tasks.Changes.{
  Changes, text, bool, when, normalize_changes, validate, fill, is_empty,
}
use caldav_assistant_skeleto.Tasks.Changes.Normal.{IsCoherent, normalize_changes_idempotent}

abbrev monday : Datetime
monday = record { wall = 5000; zone = some 0 }

abbrev tuesday : Datetime
tuesday = record { wall = 90000; zone = some 0 }

abbrev as_completed : Changes
as_completed = record {
  summary = none;
  description = none;
  start = none;
  due = none;
  status = some (text "COMPLETED");
  completed = none;
  completed_at = none;
  priority = none;
  categories = none;
  unknown = false;
}

abbrev filled : Changes
filled = record as_completed {
  completed = some (bool true);
  completed_at = some (when (datetime monday));
}

fills : normalize_changes monday as_completed ≡ ok filled
unfolding normalize_changes validate fill is_empty
fills = refl

normalize_changes_idempotent_example :
    IsCoherent filled × (normalize_changes tuesday filled ≡ ok filled)
normalize_changes_idempotent_example =
    normalize_changes_idempotent monday tuesday as_completed filled fills
