-- ===== src/Sync/Engine.antt =====
-- internal/caldav/sync.py: `SyncEngine`. Its state is what it keeps in the cache repository, under
-- three keys. The clock is read once for a call, and a time that it writes is an instant.
-- A token state has one of the two forms that the engine writes.
pub mod Outcome
pub mod Failure
pub mod Agrees
pub mod Retry
use caldav_assistant_skeleto.Prelude.{
  ◌≡◌, ℕ, ◌+◌, String, Bool, true, false, not, ◌&&◌, Option, none, some, List, [], ◌∷◌, map,
  is_blank, is_some, length, if◌then◌else◌, ◌==◌, ltb, or_else,
}
use caldav_assistant_skeleto.Api.{
  Task, Event, Error, Result, ok, err, token_stale, token_unavailable,
}
use caldav_assistant_skeleto.Effect.{
  Exec, pure, raise, lift, gets, modify, continue, catch, ◌>>=◌, ◌>>◌,
}
use caldav_assistant_skeleto.Sync.Rows.{
  IsoTexts, TaskRow, EventRow, Fetched, task_to_dict, event_to_dict,
}
use caldav_assistant_skeleto.Sync.Transport.{
  Routed, Roles, Token, Seeded, ReportedChanges, and_then, role_urls, available, seed,
}
use caldav_assistant_skeleto.Sync.Transport.Report.{same_roles, changes}
use caldav_assistant_skeleto.Sync.Snapshot.{
  Snapshot, Delta, task_kind, event_kind, delta, check_from, verified, merge_incremental,
}

pub data TokenState : Type 0 where
  -- with `checked_at`; an unsupported one with `retry_at` and `reason` too
  supported : Roles → List Token → ℕ → TokenState
  unsupported : Roles → ℕ → ℕ → String → TokenState

pub record Report : Type 0 where
  pub synced_at : ℕ
  pub requested_mode : String
  pub effective_mode : String
  pub task_count : ℕ
  pub event_count : ℕ
  pub task_changes : Delta
  pub event_changes : Delta
  pub fallback_reason : Option String

pub data Status : Type 0 where
  -- `"state": "ok"`
  synced : Report → Status
  -- `"state": "error"`, with `failed_at` and `requested_mode`
  sync_failed : ℕ → String → Error → Status

pub record Cache : Type 0 where
  pub snapshot : Option Snapshot
  pub tokens : Option TokenState
  pub status : Option Status

-- What the adapter answers during a call.
pub record Remote (D : Type 0) : Type 0 where
  pub list_tasks : Result (List (Fetched Task))
  pub list_events : Result (List (Fetched Event))
  pub routed : Routed D

abbrev pub retry_us : ℕ
retry_us = 21600000000

-- `_index` takes a missing snapshot for an empty one.
abbrev pub tasks_of : Option Snapshot → List TaskRow
tasks_of none = []
tasks_of (some s) = s.tasks

abbrev pub events_of : Option Snapshot → List EventRow
events_of none = []
events_of (some s) = s.events

-- `text or default`
abbrev pub text_or : String → String → String
text_or default text = if is_blank text then default else text

-- `except (SyncTokenStale, SyncTokenUnavailable)`, with the fallback reason that it makes
abbrev pub token_reason : Error → Option String
token_reason (token_stale text) = some (Prim.Native.String.◌++◌ "SyncTokenStale: " text)
token_reason (token_unavailable text) = some (Prim.Native.String.◌++◌ "SyncTokenUnavailable: " text)
token_reason _ = none

-- `except SyncTokenUnavailable`, with the text of the exception
abbrev pub unavailable_text : Error → Option String
unavailable_text (token_unavailable text) = some text
unavailable_text _ = none

-- `supported is False`, the same roles, and the time of the next try not reached
abbrev pub token_retry_blocked : ℕ → Option TokenState → Roles → Bool
token_retry_blocked now (some (unsupported stored checked retry_at reason)) roles =
    same_roles stored roles && ltb now retry_at
token_retry_blocked now _ roles = false

abbrev pub reason_of : Option TokenState → String
reason_of (some (unsupported stored checked retry_at reason)) =
    text_or "sync-token retry deferred" reason
reason_of _ = "sync-token retry deferred"

-- `_unsupported_token_state`
abbrev pub unsupported_token_state : ℕ → Roles → String → TokenState
unsupported_token_state now roles reason =
    unsupported roles now (now + retry_us) (text_or "sync-token unavailable" reason)

-- `_report`
abbrev pub report_of : String → String → Snapshot → Delta → Delta → Option String → Report
report_of requested effective current tasks events reason = record {
  synced_at = current.synced_at;
  requested_mode = requested;
  effective_mode = effective;
  task_count = length current.tasks;
  event_count = length current.events;
  task_changes = tasks;
  event_changes = events;
  fallback_reason = elim reason [ none ↦ none | some t ↦ if is_blank t then none else some t ];
}

abbrev pub Seed : Type 0
Seed = Option TokenState × Option String

module _ {D : Type 0} (z : IsoTexts) (upper : String → String) (remote : Remote D) (now : ℕ) where
  -- `_read_remote`
  unfoldable pub read_remote : Result Snapshot
  unfolding check_from
  read_remote = and_then remote.list_tasks λ tasks.
      and_then remote.list_events
        λ events. verified now (map (task_to_dict z) tasks) (map (event_to_dict z) events)

  -- `_record_error`
  abbrev pub record_error : String → Error → Exec Cache Unit
  record_error mode e = modify (λ c. record c { status = some (sync_failed now mode e) })

  abbrev pub fail : {A : Type 0} → String → Error → Exec Cache A
  fail mode e = record_error mode e >> raise e

  abbrev pub seeded_as : Roles → Result Seeded → Exec Cache Seed
  seeded_as roles (ok s) = pure (some (supported s.role_urls s.tokens now), none)
  seeded_as roles (err e) = elim (unavailable_text e) [
    | some text ↦
        modify (λ c. record c { tokens = some (unsupported_token_state now roles text) })
        >> pure (none, some text)
    | none ↦ raise e
  ]

  abbrev pub seed_for : Bool → Option Roles → Option TokenState → Exec Cache Seed
  seed_for force none old = pure (none, some "sync-token capability unavailable")
  seed_for force (some roles) old =
      if not (available remote.routed)
      then pure (none, some "sync-token capability unavailable")
      else if not force && token_retry_blocked now old roles
      then pure (none, some (reason_of old))
      else seeded_as roles (seed remote.routed)

  -- `_seed_token_state`
  unfoldable pub seed_token_state : Bool → Exec Cache Seed
  unfolding role_urls available seed
  seed_token_state force = do
    old ← gets (λ c. c.tokens)
    seed_for force (role_urls remote.routed) old

  abbrev pub set_tokens : Option TokenState → Exec Cache Unit
  set_tokens none = pure tt
  set_tokens (some s) = modify (λ c. record c { tokens = some s })

  abbrev pub set_snapshot : Snapshot → Exec Cache Unit
  set_snapshot s = modify (λ c. record c { snapshot = some s })

  abbrev pub set_report : Report → Exec Cache Report
  set_report r = modify (λ c. record c { status = some (synced r) }) >> pure r

  -- the effective mode of a full scan, and the reason that its report shows
  abbrev pub full_mode : String → String
  full_mode requested = if requested == "full" then "full" else "full-scan"

  abbrev pub shown_reason : String → Option String → Option String
  shown_reason requested reason = if requested == "incremental" then reason else none

  -- `_full_sync`, behind its read of the previous snapshot
  unfoldable pub full_from : Option Snapshot → String → Bool → Option String → Exec Cache Report
  unfolding seed_token_state read_remote delta
  full_from previous requested force reason = do
    seeded ← seed_token_state force
    current ← lift read_remote
    set_snapshot current
    set_tokens seeded.0
    set_report (
        report_of requested (full_mode requested) current
          (delta task_kind (tasks_of previous) current.tasks)
          (delta event_kind (events_of previous) current.events)
          (shown_reason requested (or_else reason seeded.1)))

  -- `_full_sync`
  unfoldable pub full_sync : String → Bool → Option String → Exec Cache Report
  unfolding full_from
  full_sync requested force reason = do
    previous ← gets (λ c. c.snapshot)
    full_from previous requested force reason

  -- `refresh`
  unfoldable pub refresh : Exec Cache Report
  unfolding full_sync catch
  refresh = catch (full_sync "full" false none) (fail "full")

  abbrev pub scan_or_fail : Bool → Option String → Exec Cache Report
  scan_or_fail force reason = catch (full_sync "incremental" force reason) (fail "incremental")

  -- the body of the `try` with the sync-token
  unfoldable pub sync_changes : Snapshot → Roles → List Token → Exec Cache Report
  unfolding merge_incremental changes delta
  sync_changes previous roles tokens = do
    reported ← lift (changes upper remote.routed roles tokens)
    current ← lift (merge_incremental z now previous reported)
    set_snapshot current
    set_tokens (some (supported reported.role_urls reported.tokens now))
    set_report (
        report_of "incremental" "sync-token" current (delta task_kind previous.tasks current.tasks)
          (delta event_kind previous.events current.events) none)

  abbrev pub on_error : Error → Exec Cache Report
  on_error e = elim (token_reason e) [
    | some reason ↦ scan_or_fail true (some reason)
    | none ↦ fail "incremental" e
  ]

  abbrev pub scan_reason : Option TokenState → Option Roles → Option String
  scan_reason (some (unsupported stored checked retry_at reason)) roles =
      some (text_or "sync-token unavailable" reason)
  scan_reason (some (supported stored tokens checked)) (some roles) =
      if same_roles stored roles then none else some "configured collection roles changed"
  scan_reason _ _ = none

  abbrev pub is_supported : Option TokenState → Bool
  is_supported (some (supported stored tokens checked)) = true
  is_supported _ = false

  abbrev pub scan : Option TokenState → Option Roles → Exec Cache Report
  scan state roles = scan_or_fail (is_supported state) (scan_reason state roles)

  abbrev pub sync_from : Option Snapshot → Option TokenState → Option Roles → Exec Cache Report
  sync_from (some previous) (some (supported stored tokens checked)) (some roles) =
      if same_roles stored roles
      then catch (sync_changes previous stored tokens) on_error
      else scan (some (supported stored tokens checked)) (some roles)
  sync_from _ state roles = scan state roles

  -- `incremental_sync`
  unfoldable pub incremental_sync : Exec Cache Report
  unfolding sync_changes full_sync catch role_urls
  incremental_sync = do
    previous ← gets (λ c. c.snapshot)
    state ← gets (λ c. c.tokens)
    sync_from previous state (role_urls remote.routed)
