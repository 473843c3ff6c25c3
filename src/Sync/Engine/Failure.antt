-- ===== src/Sync/Engine/Failure.antt =====
-- The status that a failed synchronisation leaves.
use caldav_assistant_skeleto.Sync.Rows.{IsoTexts}
use caldav_assistant_skeleto.Prelude.{
  ◌≡◌, inl, inr, ℕ, true, String, Bool, Option, none, some, Bool-cases,
}
use caldav_assistant_skeleto.Api.{Error, Result, ok, err}
use caldav_assistant_skeleto.Effect.{Exec, recover, catch, ◌>>=◌}
use caldav_assistant_skeleto.Sync.Transport.{Roles, role_urls}
use caldav_assistant_skeleto.Sync.Transport.Report.{same_roles}
use caldav_assistant_skeleto.Sync.Snapshot.{Snapshot}
use caldav_assistant_skeleto.Sync.Engine.{
  Cache, Report, sync_failed, TokenState, supported, unsupported, Remote, fail, full_sync, refresh,
  sync_from, incremental_sync, scan_or_fail, on_error, token_reason,
}

module _ {D : Type 0} (z : IsoTexts) (upper : String → String) (remote : Remote D) (now : ℕ)
    (mode : String) where
  -- A call that raises an error leaves that error as the status.
  pub record Records (m : Exec Cache Report) : Type 0 where
    pub at :
        (c : Cache) (e : Error) → (m c).0 ≡ err e → (m c).1.status ≡ some (sync_failed now mode e)

  Records-fail : (e : Error) → Records (fail z upper remote now mode e)
  unfolding ◌>>=◌
  Records-fail e = record { at = λ c e' h. cc }

  recover-Records :
      (r : Result Report) (h : Error → Exec Cache Report) (c : Cache) (e : Error)
      → ((e : Error) → Records (h e))
      → (recover r h c).0 ≡ err e
      → (recover r h c).1.status ≡ some (sync_failed now mode e)
  recover-Records (ok q) h c e k i = absurd (cc)
  recover-Records (err e') h c e k i = (k e').at c e i

  Records-catch :
      (m : Exec Cache Report) (h : Error → Exec Cache Report)
      → ((e : Error) → Records (h e))
      → Records (catch m h)
  unfolding catch
  Records-catch m h k = record { at = λ c e i. recover-Records (m c).0 h (m c).1 e k i }

module _ {D : Type 0} (z : IsoTexts) (upper : String → String) (remote : Remote D) (now : ℕ) where
  Records-refresh : Records z upper remote now "full" (refresh z upper remote now)
  unfolding refresh
  Records-refresh =
      Records-catch z upper remote now "full" _ _ (Records-fail z upper remote now "full")

  abbrev Recorded : Exec Cache Report → Type 0
  Recorded = Records z upper remote now "incremental"

  Recorded-scan :
      (force : Bool) (reason : Option String)
      → Recorded (scan_or_fail z upper remote now force reason)
  Recorded-scan force reason =
      Records-catch z upper remote now "incremental"
        (full_sync z upper remote now "incremental" force reason) _
        (Records-fail z upper remote now "incremental")

  Recorded-on_error : (e : Error) → Recorded (on_error z upper remote now e)
  Recorded-on_error e = at_reason (token_reason e)
    where
      at_reason :
          (o : Option String)
          → Recorded (elim o [
            | some reason ↦ scan_or_fail z upper remote now true (some reason)
            | none ↦ fail z upper remote now "incremental" e
          ])
      at_reason none = Records-fail z upper remote now "incremental" e
      at_reason (some reason) = Recorded-scan true (some reason)

  Recorded-sync_from :
      (p : Option Snapshot) (state : Option TokenState) (roles : Option Roles)
      → Recorded (sync_from z upper remote now p state roles)
  Recorded-sync_from (some previous) (some (supported stored tokens checked)) (some roles) =
      elim (Bool-cases (same_roles stored roles)) [
        | inl e ↦ rw e (Records-catch z upper remote now "incremental" _ _ Recorded-on_error)
        | inr e ↦ rw e (Recorded-scan _ _)
      ]
  Recorded-sync_from none state roles = Recorded-scan _ _
  Recorded-sync_from (some previous) none roles = Recorded-scan _ _
  Recorded-sync_from (some previous) (some (unsupported stored checked retry_at reason)) roles =
      Recorded-scan _ _
  Recorded-sync_from (some previous) (some (supported stored tokens checked)) none =
      Recorded-scan _ _

  Recorded-incremental_sync : Recorded (incremental_sync z upper remote now)
  unfolding incremental_sync ◌>>=◌
  Recorded-incremental_sync = record {
    at = λ c e h. (Recorded-sync_from c.snapshot c.tokens (role_urls remote.routed)).at c e h;
  }

  -- A synchronisation that raises leaves the error that it raises as the status, with the mode that
  -- was asked for: of an incremental one whose fallback fails too, the error of the fallback.
  pub sync-Records :
      Records z upper remote now "full" (refresh z upper remote now)
      × Records z upper remote now "incremental" (incremental_sync z upper remote now)
  sync-Records = (Records-refresh, Recorded-incremental_sync)
