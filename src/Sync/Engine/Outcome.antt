-- ===== src/Sync/Engine/Outcome.antt =====
-- What a synchronisation leaves in the cache, when it returns and when it raises.
use caldav_assistant_skeleto.Prelude.{
  ◌≡◌, refl, sym, ◌∙◌, ap, inl, inr, ℕ, String, Bool, true, false, Option, none, some, List, length,
  map, subst, subst₂, not, ◌&&◌, Bool-cases,
}
use caldav_assistant_skeleto.Api.{Task, Event, Error, Result, ok, err}
use caldav_assistant_skeleto.Effect.{
  Exec, pure, raise, modify, continue, recover, catch, ◌>>=◌, ◌>>◌,
}
use caldav_assistant_skeleto.Effect.Fixes.{Fixes, Fixes-pure, Fixes-gets, Fixes-lift, Fixes-bind}
use caldav_assistant_skeleto.Sync.Rows.{
  IsoTexts, TaskRow, EventRow, Fetched, task_to_dict, event_to_dict,
}
use caldav_assistant_skeleto.Sync.Transport.{
  Roles, Token, ReportedChanges, Seeded, and_then, role_urls, available, seed,
}
use caldav_assistant_skeleto.Sync.Transport.Report.{same_roles}
use caldav_assistant_skeleto.Sync.Snapshot.{
  Snapshot, task_kind, event_kind, delta, check_unique, verified, merge_kind, deleted_of,
  merge_incremental,
}
use caldav_assistant_skeleto.Sync.Engine.{
  Cache, Report, synced, TokenState, supported, unsupported, Remote, Seed, tasks_of, events_of,
  read_remote, fail, unavailable_text, unsupported_token_state, token_retry_blocked, seeded_as,
  seed_for, seed_token_state, set_snapshot, set_tokens, set_report, full_from, full_sync, refresh,
  sync_changes, sync_from, incremental_sync, scan_or_fail, on_error, token_reason,
}

abbrev pub IsChecked : Snapshot → Type 0
IsChecked s = (check_unique task_kind s.tasks ≡ ok tt) × (check_unique event_kind s.events ≡ ok tt)

-- The cache after a synchronisation that reports `r`, from the snapshot `p`: its status is the
-- report, its snapshot has no UID twice or blank, and the report counts and compares it.
abbrev pub IsSynced : Option Snapshot → Report → Cache → Type 0
IsSynced p r c =
    (s : Snapshot) × (c.snapshot ≡ some s)
    × (c.status ≡ some (synced r))
    × IsChecked s
    × (r.task_count ≡ length s.tasks)
    × (r.event_count ≡ length s.events)
    × (r.task_changes ≡ delta task_kind (tasks_of p) s.tasks)
    × (r.event_changes ≡ delta event_kind (events_of p) s.events)

pub record Syncs (p : Option Snapshot) (m : Exec Cache Report) (c : Cache) : Type 0 where
  pub on_err : (e : Error) → (m c).0 ≡ err e → (m c).1.snapshot ≡ p
  pub on_ok : (r : Report) → (m c).0 ≡ ok r → IsSynced p r (m c).1

IsChecked-verified :
    (now : ℕ) (ts : List TaskRow) (es : List EventRow) (s : Snapshot)
    → verified now ts es ≡ ok s
    → IsChecked s
IsChecked-verified now ts es s h =
    split (check_unique task_kind ts) (check_unique event_kind es) refl refl h
  where
    split :
        (a b : Result Unit)
        → check_unique task_kind ts ≡ a
        → check_unique event_kind es ≡ b
        → and_then a (λ _. and_then b λ _. ok (record { synced_at = now; tasks = ts; events = es }))
          ≡ ok s
        → IsChecked s
    split (ok u) (ok v) f g h =
        let same : Path Snapshot (record { synced_at = now; tasks = ts; events = es }) s = cc in
        (
          ap (λ v. check_unique task_kind v.tasks) (sym same) ∙ f,
          ap (λ v. check_unique event_kind v.events) (sym same) ∙ g,
        )
    split (ok u) (err e) f g h = absurd (cc)
    split (err e) b f g h = absurd (cc)

module _ {A : Type 0} {p : Option Snapshot} where
  Syncs-continue :
      (r : Result A) (f : A → Exec Cache Report) (c : Cache)
      → c.snapshot ≡ p
      → ((a : A) → r ≡ ok a → Syncs p (f a) c)
      → Syncs p (continue r f) c
  Syncs-continue (ok a) f c h k = k a refl
  Syncs-continue (err e) f c h k = record { on_err = λ e' q. h; on_ok = λ r q. absurd (cc) }

  Syncs-bind :
      (m : Exec Cache A) (f : A → Exec Cache Report) (c : Cache)
      → Fixes (λ w. w.snapshot) m
      → c.snapshot ≡ p
      → ((a : A) (c' : Cache) → (m c).0 ≡ ok a → c'.snapshot ≡ p → Syncs p (f a) c')
      → Syncs p (m >>= f) c
  unfolding ◌>>=◌
  Syncs-bind m f c fixed h k =
      let h' : (m c).1.snapshot ≡ p = fixed.at c ∙ h in
      let s = Syncs-continue (m c).0 f (m c).1 h' (λ a q. k a (m c).1 q h') in
      record { on_err = s.on_err; on_ok = s.on_ok }

module _ {p : Option Snapshot} where
  Syncs-recover :
      (r : Result Report) (h : Error → Exec Cache Report) (c : Cache)
      → ((e : Error) → r ≡ err e → c.snapshot ≡ p)
      → ((q : Report) → r ≡ ok q → IsSynced p q c)
      → ((e : Error) → c.snapshot ≡ p → Syncs p (h e) c)
      → Syncs p (recover r h) c
  Syncs-recover (ok q) h c f g k = record { on_err = λ e i. absurd (cc); on_ok = λ r i. g r i }
  Syncs-recover (err e) h c f g k = k e (f e refl)

  Syncs-catch :
      (m : Exec Cache Report) (h : Error → Exec Cache Report) (c : Cache)
      → Syncs p m c
      → ((e : Error) (c' : Cache) → c'.snapshot ≡ p → Syncs p (h e) c')
      → Syncs p (catch m h) c
  unfolding catch
  Syncs-catch m h c s k =
      let t = Syncs-recover (m c).0 h (m c).1 s.on_err s.on_ok (λ e. k e (m c).1) in
      record { on_err = t.on_err; on_ok = t.on_ok }

module _ {p : Option Snapshot} where
  Syncs-return :
      (m : Exec Cache Report) (c : Cache) (r : Report) (c' : Cache)
      → m c ≡ (ok r, c')
      → IsSynced p r c'
      → Syncs p m c
  Syncs-return m c r c' h k = record {
    on_err = λ e q. absurd (cc);
    on_ok = λ r' q.
        let same : r ≡ r' = cc in
        let last : c' ≡ (m c).1 = sym (ap (λ t. t.1) h) in
        subst₂ (λ v c. IsSynced p v c) same last k;
  }

module _ {D : Type 0} (z : IsoTexts) (upper : String → String) (remote : Remote D) (now : ℕ) where
  merged-IsChecked :
      (previous : Snapshot) (reported : ReportedChanges) (s : Snapshot)
      → merge_incremental z now previous reported ≡ ok s
      → IsChecked s
  unfolding merge_incremental
  merged-IsChecked previous reported s h =
      let deleted = deleted_of reported.deleted_urls in
      IsChecked-verified now
        (merge_kind task_kind previous.tasks (map (task_to_dict z) reported.tasks) deleted)
        (merge_kind event_kind previous.events (map (event_to_dict z) reported.events) deleted) s h

  Syncs-fail :
      (p : Option Snapshot) (mode : String) (e : Error) (c : Cache)
      → c.snapshot ≡ p
      → Syncs p (fail z upper remote now mode e) c
  unfolding ◌>>=◌
  Syncs-fail p mode e c h = record { on_err = λ e' q. h; on_ok = λ r q. absurd (cc) }

  Fixes-seeded_as :
      (roles : Roles) (r : Result Seeded)
      → Fixes (λ c. c.snapshot) (seeded_as z upper remote now roles r)
  unfolding ◌>>=◌
  Fixes-seeded_as roles (ok s) = Fixes-pure _
  Fixes-seeded_as roles (err e) = at_text (unavailable_text e)
    where
      at_text :
          (o : Option String)
          → Fixes
              (λ (c : Cache). c.snapshot)
              {A = Seed}
              (elim o [
                | some text ↦
                    modify
                      (λ c. record c { tokens = some (unsupported_token_state now roles text) })
                    >> pure {A = Seed} (none, some text)
                | none ↦ raise e
              ])
      at_text none = record { at = λ (c : Cache). refl }
      at_text (some text) = record { at = λ (c : Cache). refl }

  Fixes-seed_for :
      (force : Bool) (roles : Option Roles) (old : Option TokenState)
      → Fixes (λ c. c.snapshot) (seed_for z upper remote now force roles old)
  Fixes-seed_for force none old = Fixes-pure _
  Fixes-seed_for force (some roles) old = elim (Bool-cases (available remote.routed)) [
    | inl a ↦ elim (Bool-cases (not force && token_retry_blocked now old roles)) [
      | inl b ↦ rw (a, b) (Fixes-pure {W = Cache} _)
      | inr b ↦ rw (a, b) (Fixes-seeded_as roles (seed remote.routed))
    ]
    | inr a ↦ rw a (Fixes-pure {W = Cache} _)
  ]

  Fixes-seed_token_state :
      (force : Bool) → Fixes (λ c. c.snapshot) (seed_token_state z upper remote now force)
  unfolding seed_token_state
  Fixes-seed_token_state force =
      Fixes-bind _ _ (Fixes-gets _) λ old. Fixes-seed_for force (role_urls remote.routed) old

  pub read_remote-IsChecked : (s : Snapshot) → read_remote z upper remote now ≡ ok s → IsChecked s
  unfolding read_remote
  read_remote-IsChecked s h = split remote.list_tasks remote.list_events h
    where
      split :
          (a : Result (List (Fetched Task))) (b : Result (List (Fetched Event)))
          → and_then a (λ ts.
            and_then b λ es. verified now (map (task_to_dict z) ts) (map (event_to_dict z) es))
            ≡ ok s
          → IsChecked s
      split (ok ts) (ok es) h =
          IsChecked-verified now (map (task_to_dict z) ts) (map (event_to_dict z) es) s h
      split (ok ts) (err e) h = absurd (cc)
      split (err e) b h = absurd (cc)

  -- The three writes at the end, snapshot first and token second.
  Syncs-write :
      (p : Option Snapshot) (s : Snapshot) (t : Option TokenState) (r : Report) (c : Cache)
      → IsChecked s
      → r.task_count ≡ length s.tasks
      → r.event_count ≡ length s.events
      → r.task_changes ≡ delta task_kind (tasks_of p) s.tasks
      → r.event_changes ≡ delta event_kind (events_of p) s.events
      → Syncs p
          (do
            set_snapshot z upper remote now s
            set_tokens z upper remote now t
            set_report z upper remote now r)
          c
  unfolding ◌>>=◌
  Syncs-write p s none r c k a b d e =
      Syncs-return _ c r (record { snapshot = some s; tokens = c.tokens; status = some (synced r) })
        refl (s, refl, refl, k, a, b, d, e)
  Syncs-write p s (some t) r c k a b d e =
      Syncs-return _ c r (record { snapshot = some s; tokens = some t; status = some (synced r) })
        refl (s, refl, refl, k, a, b, d, e)

  Syncs-full_from :
      (p : Option Snapshot) (requested : String) (force : Bool) (reason : Option String) (c : Cache)
      → c.snapshot ≡ p
      → Syncs p (full_from z upper remote now p requested force reason) c
  unfolding full_from
  Syncs-full_from p requested force reason c h =
      Syncs-bind _ _ c (Fixes-seed_token_state force) h λ seeded c' q h'.
        Syncs-bind _ _ c' (Fixes-lift _) h' λ current c'' f h''.
          Syncs-write _ current seeded.0 _ c'' (read_remote-IsChecked current f) refl refl refl refl

  Syncs-full_sync :
      (requested : String) (force : Bool) (reason : Option String) (c : Cache)
      → Syncs c.snapshot (full_sync z upper remote now requested force reason) c
  unfolding full_sync ◌>>=◌
  Syncs-full_sync requested force reason c =
      let s = Syncs-full_from c.snapshot requested force reason c refl in
      record { on_err = s.on_err; on_ok = s.on_ok }

  Syncs-scan :
      (p : Option Snapshot) (force : Bool) (reason : Option String) (c : Cache)
      → c.snapshot ≡ p
      → Syncs p (scan_or_fail z upper remote now force reason) c
  Syncs-scan p force reason c h =
      let all = full_sync z upper remote now "incremental" force reason in
      Syncs-catch all _ c
        (subst (λ v. Syncs v all c) h (Syncs-full_sync "incremental" force reason c))
        λ e c' h'. Syncs-fail p "incremental" e c' h'

  Syncs-refresh : (c : Cache) → Syncs c.snapshot (refresh z upper remote now) c
  unfolding refresh
  Syncs-refresh c =
      Syncs-catch _ _ c (Syncs-full_sync "full" false none c) λ e c' h. Syncs-fail _ "full" e c' h

  Syncs-sync_changes :
      (previous : Snapshot) (roles : Roles) (tokens : List Token) (c : Cache)
      → c.snapshot ≡ some previous
      → Syncs (some previous) (sync_changes z upper remote now previous roles tokens) c
  unfolding sync_changes
  Syncs-sync_changes previous roles tokens c h =
      Syncs-bind _ _ c (Fixes-lift _) h λ reported c' q h'.
        Syncs-bind _ _ c' (Fixes-lift _) h' λ current c'' f h''.
          Syncs-write _ current (some (supported reported.role_urls reported.tokens now)) _ c''
            (merged-IsChecked previous reported current f) refl refl refl refl

  Syncs-on_error :
      (p : Option Snapshot) (e : Error) (c : Cache)
      → c.snapshot ≡ p
      → Syncs p (on_error z upper remote now e) c
  Syncs-on_error p e c h = at_reason (token_reason e)
    where
      at_reason :
          (o : Option String)
          → Syncs p
              (elim o [
                | some reason ↦ scan_or_fail z upper remote now true (some reason)
                | none ↦ fail z upper remote now "incremental" e
              ])
              c
      at_reason none = Syncs-fail p "incremental" e c h
      at_reason (some reason) = Syncs-scan p true (some reason) c h

  Syncs-sync_from :
      (p : Option Snapshot) (state : Option TokenState) (roles : Option Roles) (c : Cache)
      → c.snapshot ≡ p
      → Syncs p (sync_from z upper remote now p state roles) c
  Syncs-sync_from (some previous) (some (supported stored tokens checked)) (some roles) c h =
      elim (Bool-cases (same_roles stored roles)) [
        | inl e ↦ rw e (
            Syncs-catch _ _ c (Syncs-sync_changes previous stored tokens c h)
              λ e c' h'. Syncs-on_error _ e c' h')
        | inr e ↦ rw e (Syncs-scan _ _ _ c h)
      ]
  Syncs-sync_from none state roles c h = Syncs-scan _ _ _ c h
  Syncs-sync_from (some previous) none roles c h = Syncs-scan _ _ _ c h
  Syncs-sync_from (some previous) (some (unsupported stored checked retry_at reason)) roles c h =
      Syncs-scan _ _ _ c h
  Syncs-sync_from (some previous) (some (supported stored tokens checked)) none c h =
      Syncs-scan _ _ _ c h

  Syncs-incremental_sync : (c : Cache) → Syncs c.snapshot (incremental_sync z upper remote now) c
  unfolding incremental_sync ◌>>=◌
  Syncs-incremental_sync c =
      let s = Syncs-sync_from c.snapshot c.tokens (role_urls remote.routed) c refl in
      record { on_err = s.on_err; on_ok = s.on_ok }

  -- A synchronisation, full or incremental, that returns leaves its report as the status and a
  -- snapshot in which no UID is blank or stands twice; the report counts the snapshot's values and
  -- compares them with the snapshot before. One that raises leaves the snapshot before.
  pub sync_keeps :
      (c : Cache)
      → Syncs c.snapshot (refresh z upper remote now) c
        × Syncs c.snapshot (incremental_sync z upper remote now) c
  sync_keeps c = (Syncs-refresh c, Syncs-incremental_sync c)
