-- ===== src/Tasks/Changes.antt =====
-- `_normalize_changes` of internal/tasks/service.py.
-- A dict of changes is a record with an optional value for each mutable field; `unknown` says that
-- it has a key that is none of these. The order of the keys is not modelled.
pub mod Normal
pub mod Full
mod Tests
use caldav_assistant_skeleto.Prelude.{
  ℕ, String, Bool, true, false, not, ◌&&◌, ◌||◌, Option, none, some, List, leb, is_none, is_blank,
  strip, or_else, if◌then◌else◌, ◌==◌,
}
use caldav_assistant_skeleto.Temporal.{Datetime, When, date, datetime}
use caldav_assistant_skeleto.Api.{
  Error, Reason, Result, ok, err, validation, empty_summary, no_changes, unsupported_fields,
  bad_date, bad_completed_at, bad_completed, bad_priority, bad_categories, unsupported_status,
  completed_status_conflict, completed_needs_status,
}

-- A Python value, as far as the checks tell values apart: `negative n` is the integer -(n + 1),
-- `texts` a list or tuple of texts, `other` any value that is of none of these types.
pub data Value : Type 0 where
  null : Value
  bool : Bool → Value
  int negative : ℕ → Value
  text : String → Value
  when : When → Value
  texts : List String → Value
  other : Value

pub record Changes : Type 0 where
  pub summary : Option Value
  pub description : Option Value
  pub start : Option Value
  pub due : Option Value
  pub status : Option Value
  pub completed : Option Value
  pub completed_at : Option Value
  pub priority : Option Value
  pub categories : Option Value
  pub unknown : Bool

-- `not changes`
unfoldable pub is_empty : Changes → Bool
is_empty c =
    is_none c.summary
    && is_none c.description
    && is_none c.start
    && is_none c.due
    && is_none c.status
    && is_none c.completed
    && is_none c.completed_at
    && is_none c.priority
    && is_none c.categories
    && not c.unknown

-- `_validate_summary`
unfoldable pub validate_summary : Value → Result String
validate_summary (text s) =
    if is_blank (strip s) then err (validation empty_summary) else ok (strip s)
validate_summary _ = err (validation empty_summary)

abbrev pub valid_date : Option Value → Bool
valid_date none = true
valid_date (some null) = true
valid_date (some (when w)) = true
valid_date (some _) = false

abbrev pub valid_completed_at : Option Value → Bool
valid_completed_at none = true
valid_completed_at (some null) = true
valid_completed_at (some (when (datetime d))) = true
valid_completed_at (some _) = false

abbrev pub valid_completed : Option Value → Bool
valid_completed none = true
valid_completed (some (bool b)) = true
valid_completed (some _) = false

abbrev pub valid_priority : Option Value → Bool
valid_priority none = true
valid_priority (some null) = true
valid_priority (some (int n)) = leb n 9
valid_priority (some _) = false

abbrev pub valid_categories : Option Value → Bool
valid_categories none = true
valid_categories (some (texts ts)) = true
valid_categories (some _) = false

-- `_STATUSES`
abbrev pub is_status : String → Bool
is_status s = s == "NEEDS-ACTION" || s == "IN-PROCESS" || s == "COMPLETED" || s == "CANCELLED"

abbrev pub valid_status : Option Value → Bool
valid_status none = true
valid_status (some (text s)) = is_status s
valid_status (some _) = false

-- `status == "COMPLETED"`
abbrev pub says_completed : Value → Bool
says_completed (text s) = s == "COMPLETED"
says_completed _ = false

-- Completed by its status, and `completed is False`.
abbrev pub denies : Option Value → Option Value → Bool
denies (some status) (some (bool false)) = says_completed status
denies _ _ = false

-- Not completed by its status, and `completed is True`.
abbrev pub overclaims : Option Value → Option Value → Bool
overclaims (some status) (some (bool true)) = not (says_completed status)
overclaims _ _ = false

infixl 5 ◌>>=◌ ◌>>◌
abbrev pub ◌>>=◌ : {A B : Type 0} → Result A → (A → Result B) → Result B
ok a >>= f = f a
err e >>= f = err e

abbrev pub ◌>>◌ : {B : Type 0} → Result (Unit {0}) → Result B → Result B
m >> k = m >>= λ _. k

-- `if not test: raise ValidationError(reason)`
abbrev pub check : Bool → Reason → Result (Unit {0})
check true reason = ok tt
check false reason = err (validation reason)

abbrev pub normal_summary : Option Value → Result (Option Value)
normal_summary none = ok none
normal_summary (some value) = do stripped ← validate_summary value; ok (some (text stripped))

-- The checks, in the order of the source; only the summary is rewritten.
unfoldable pub validate : Changes → Result Changes
validate c = do
  check (not (is_empty c)) no_changes
  check (not c.unknown) unsupported_fields
  summary ← normal_summary c.summary
  check (valid_date c.start) bad_date
  check (valid_date c.due) bad_date
  check (valid_completed_at c.completed_at) bad_completed_at
  check (valid_completed c.completed) bad_completed
  check (valid_priority c.priority) bad_priority
  check (valid_categories c.categories) bad_categories
  check (valid_status c.status) unsupported_status
  check (not (denies c.status c.completed)) completed_status_conflict
  check (not (overclaims c.status c.completed)) completed_needs_status
  ok (record c { summary = summary })

-- `normalized.setdefault(key, value)`
abbrev pub set_default : Option Value → Value → Option Value
set_default v default = or_else v (some default)

abbrev pub is_true : Option Value → Bool
is_true (some (bool b)) = b
is_true _ = false

-- The defaults that the status and the completed flag bring. `now` is `datetime.now(timezone.utc)`.
abbrev pub fill_status : Datetime → Changes → Option Value → Changes
fill_status now c (some status) =
    if says_completed status
    then record c {
      completed = set_default c.completed (bool true);
      completed_at = set_default c.completed_at (when (datetime now));
    }
    else record c {
      completed = set_default c.completed (bool false);
      completed_at = set_default c.completed_at null;
    }
fill_status now c none =
    if is_true c.completed
    then record c {
      status = some (text "COMPLETED");
      completed_at = set_default c.completed_at (when (datetime now));
    }
    else c

unfoldable pub fill : Datetime → Changes → Changes
fill now c = fill_status now c c.status

unfoldable pub normalize_changes : Datetime → Changes → Result Changes
normalize_changes now c = do valid ← validate c; ok (fill now valid)
