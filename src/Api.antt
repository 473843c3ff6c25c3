-- ===== src/Api.antt =====
-- api/v1/models.py and api/v1/errors.py: the public data objects and the errors.
-- A field that only carries a Python object along (`raw`, `_service`) is left out.
use caldav_assistant_skeleto.Prelude.{ℕ, String, Bool, Option, List}
use caldav_assistant_skeleto.Temporal.{Datetime, When}

pub record Task : Type 0 where
  pub id : String
  pub summary : String
  pub description : String
  pub start : Option When
  pub due : Option When
  pub status : String
  pub completed : Bool
  pub completed_at : Option Datetime
  pub priority : Option ℕ
  pub categories : List String
  pub overdue : Bool
  pub stale : Bool

pub record Event : Type 0 where
  pub id : String
  pub summary : String
  pub start : Option When
  pub end : Option When
  pub location : String
  pub description : String
  pub categories : List String
  pub stale : Bool

-- What an agenda item shows: an instance of one of the two classes.
pub data Item : Type 0 where
  task : Task → Item
  event : Event → Item

pub record AgendaItem : Type 0 where
  pub value : Item
  pub when : Option When
  pub kind : String

-- The messages of the validation errors, by what they reject.
pub data Reason : Type 0 where
  no_id empty_summary no_changes unsupported_fields bad_date bad_completed_at bad_completed : Reason
  bad_priority bad_categories unsupported_status completed_status_conflict : Reason
  completed_needs_status empty_id fields_with_object summary_not_text : Reason
  finished already_current other_current not_running not_current not_paused : Reason
  no_object_id bad_days bad_kind empty_query bad_value : Reason
  no_collection no_open_interval end_before_start not_a_segment : Reason

pub data Error : Type 0 where
  validation : Reason → Error
  not_found ambiguous unavailable conflict permission : Error
  key_error value_error type_error runtime_error remote : Error
  -- `SyncTokenStale` and `SyncTokenUnavailable` of internal/caldav/sync_token.py, with their text
  token_stale token_unavailable : String → Error

pub data Result (A : Type 0) : Type 0 where
  ok : A → Result A
  err : Error → Result A
