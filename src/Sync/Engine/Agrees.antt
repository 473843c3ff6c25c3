-- ===== src/Sync/Engine/Agrees.antt =====
-- A synchronisation by a sync-token against a full scan.
use caldav_assistant_skeleto.Prelude.{◌≡◌, refl, ℕ, String, true, Option, some, List, map, eq_refl}
use caldav_assistant_skeleto.Api.{ok}
use caldav_assistant_skeleto.Effect.{catch, ◌>>=◌}
use caldav_assistant_skeleto.Sync.Dict.{find}
use caldav_assistant_skeleto.Sync.Rows.{IsoTexts, TaskRow, EventRow, task_to_dict, event_to_dict}
use caldav_assistant_skeleto.Sync.Transport.{Roles, Token, ReportedChanges, role_urls}
use caldav_assistant_skeleto.Sync.Transport.Report.{same_roles, changes}
use caldav_assistant_skeleto.Sync.Snapshot.{
  Snapshot, task_kind, event_kind, check_unique, verified, merge_kind, deleted_of,
  merge_incremental,
}
use caldav_assistant_skeleto.Sync.Snapshot.Merge.{
  IsTrueReport, find-merge_kind, check_unique-merge_kind,
}
use caldav_assistant_skeleto.Sync.Engine.{
  Cache, TokenState, Remote, supported, sync_changes, sync_from, on_error, incremental_sync,
  read_remote,
}
use caldav_assistant_skeleto.Sync.Engine.Outcome.{IsChecked, read_remote-IsChecked}

pub same_roles_refl : (r : Roles) → same_roles r r ≡ true
same_roles_refl r = rw (eq_refl r.tasks, eq_refl r.events) refl

verified_ok :
    (now : ℕ) (ts : List TaskRow) (es : List EventRow)
    → check_unique task_kind ts ≡ ok tt
    → check_unique event_kind es ≡ ok tt
    → verified now ts es ≡ ok (record { synced_at = now; tasks = ts; events = es })
verified_ok now ts es a b = rw (a, b) refl

-- The snapshots lead each UID to the same row.
abbrev pub SameRows : Snapshot → Snapshot → Type 0
SameRows s t =
    ((k : String) → find task_kind.id k s.tasks ≡ find task_kind.id k t.tasks)
    × ((k : String) → find event_kind.id k s.events ≡ find event_kind.id k t.events)

module _ {D : Type 0} (z : IsoTexts) (upper : String → String) (remote : Remote D) (now : ℕ) where
  abbrev merged : Snapshot → ReportedChanges → Snapshot
  merged previous reported = record {
    synced_at = now;
    tasks =
        merge_kind task_kind previous.tasks (map (task_to_dict z) reported.tasks)
          (deleted_of reported.deleted_urls);
    events =
        merge_kind event_kind previous.events (map (event_to_dict z) reported.events)
          (deleted_of reported.deleted_urls);
  }

  merge_incremental_ok :
      (previous : Snapshot) (reported : ReportedChanges)
      → merge_incremental z now previous reported ≡ ok (merged previous reported)
  unfolding merge_incremental
  merge_incremental_ok previous reported =
      let gone = deleted_of reported.deleted_urls in
      let tasks = map (task_to_dict z) reported.tasks in
      let events = map (event_to_dict z) reported.events in
      verified_ok now _ _ (check_unique-merge_kind task_kind previous.tasks tasks gone)
        (check_unique-merge_kind event_kind previous.events events gone)

  sync_changes_ok :
      (previous : Snapshot) (roles : Roles) (tokens : List Token) (reported : ReportedChanges)
      (c : Cache)
      → changes upper remote.routed roles tokens ≡ ok reported
      → (catch
          (sync_changes z upper remote now previous roles tokens)
          (on_error z upper remote now)
          c).1.snapshot
        ≡ some (merged previous reported)
  unfolding sync_changes catch ◌>>=◌
  sync_changes_ok previous roles tokens reported c h =
      rw (h, merge_incremental_ok previous reported) refl

  sync_from_ok :
      (c : Cache) (p : Option Snapshot) (state : Option TokenState) (configured : Option Roles)
      (previous : Snapshot) (roles : Roles) (tokens : List Token) (checked : ℕ)
      (reported : ReportedChanges)
      → p ≡ some previous
      → state ≡ some (supported roles tokens checked)
      → configured ≡ some roles
      → changes upper remote.routed roles tokens ≡ ok reported
      → (sync_from z upper remote now p state configured c).1.snapshot
        ≡ some (merged previous reported)
  sync_from_ok c p state configured previous roles tokens checked reported e t r h =
      rw (e, t, r, same_roles_refl roles) (sync_changes_ok previous roles tokens reported c h)

  incremental_sync_ok :
      (c : Cache) (previous : Snapshot) (roles : Roles) (tokens : List Token) (checked : ℕ)
      (reported : ReportedChanges)
      → c.snapshot ≡ some previous
      → c.tokens ≡ some (supported roles tokens checked)
      → role_urls remote.routed ≡ some roles
      → changes upper remote.routed roles tokens ≡ ok reported
      → (incremental_sync z upper remote now c).1.snapshot ≡ some (merged previous reported)
  unfolding incremental_sync ◌>>=◌
  incremental_sync_ok c previous roles tokens checked reported p t r h =
      sync_from_ok c c.snapshot c.tokens (role_urls remote.routed) previous roles tokens checked
        reported p t r h

  -- With a cached snapshot that has no UID twice or blank, sync-tokens for the configured
  -- collections, and a transport that answers with changes: if what it reports is true of the
  -- snapshot and of what a full scan reads, an incremental synchronisation leaves a snapshot that
  -- leads each UID to the same row as the full scan's, and to none where that has none.
  pub incremental_sync-read_remote :
      (c : Cache) (previous current : Snapshot) (roles : Roles) (tokens : List Token) (checked : ℕ)
      (reported : ReportedChanges)
      → c.snapshot ≡ some previous
      → IsChecked previous
      → c.tokens ≡ some (supported roles tokens checked)
      → role_urls remote.routed ≡ some roles
      → changes upper remote.routed roles tokens ≡ ok reported
      → read_remote z upper remote now ≡ ok current
      → IsTrueReport task_kind previous.tasks current.tasks
          (map (task_to_dict z) reported.tasks)
          (deleted_of reported.deleted_urls)
      → IsTrueReport event_kind previous.events current.events
          (map (event_to_dict z) reported.events)
          (deleted_of reported.deleted_urls)
      → (s : Snapshot) × ((incremental_sync z upper remote now c).1.snapshot ≡ some s)
        × SameRows s current
  incremental_sync-read_remote c previous current roles tokens checked reported p ch t r h f a b =
      let scanned = read_remote-IsChecked z upper remote now current f in
      (
        merged previous reported,
        incremental_sync_ok c previous roles tokens checked reported p t r h,
        (
          find-merge_kind task_kind previous.tasks current.tasks _ _ ch.0 scanned.0 a,
          find-merge_kind event_kind previous.events current.events _ _ ch.1 scanned.1 b,
        ),
      )
