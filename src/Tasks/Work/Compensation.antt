-- ===== src/Tasks/Work/Compensation.antt =====
-- A start with a work log that fails.
use caldav_assistant_skeleto.Prelude.{
  ◌≡◌, refl, sym, ◌∙◌, ap, subst, ◌≢◌, inl, inr, String, Bool, true, false, not, Option, none, some,
  List, [], ◌∷◌, ◌++◌, filter, is_blank, strip, In, In-append_right, In-filter, In-filter_of,
  Bool-cases, ◌==◌, eq_refl, arith,
}
use caldav_assistant_skeleto.Temporal.{Datetime, Zones}
use caldav_assistant_skeleto.Api.{Task, Event, Error, Result, ok, err, validation, no_object_id}
use caldav_assistant_skeleto.Effect.{Exec, pure, raise, continue, recover, catch, ◌>>=◌, ◌>>◌}
use caldav_assistant_skeleto.Effect.Fixes.{
  Fixes, Fixes-bind, Fixes-pure, Fixes-lift, Fixes-if, Fixes-require,
}
use caldav_assistant_skeleto.Sync.Rows.{Fetched}
use caldav_assistant_skeleto.WorkLog.{
  WorkAdapter, Segments, is_open, collection_url, wanted_url, open_snapshot, open_events,
  current_task_id, start_segment, delete_work_event, discard_segment,
}
use caldav_assistant_skeleto.WorkLog.Intervals.{IsCollection, filter-append, filter-none}
use caldav_assistant_skeleto.Tasks.Changes.{Changes, null}
use caldav_assistant_skeleto.Tasks.World.{
  Adapter, World, Metadata, Activity, record_activity, record_in, on_store,
}
use caldav_assistant_skeleto.Tasks.Service.{
  Ref, object, ActionResult, status_changes, transition, Call, write, fast_or_slow, update_task,
}
use caldav_assistant_skeleto.Tasks.Service.Lifecycle.Frames.{
  Fixes-require_id, Fixes-get, Fixes-normalized, Fixes-remember_if,
}
use caldav_assistant_skeleto.Tasks.Work.{
  at_now, task_and_open_snapshot, quietly, or_undo, require_live, log_current, start_logged,
}

-- The calls for tasks leave the events of the work-log collection alone; a creation that is refused
-- leaves them too, and a deletion of one of them removes those of its id.
pub record IsSeparate {Store : Type 0} (a : Adapter Store) (l : WorkAdapter Store) (target : String)
    (rows : Store → Segments) : Type 0 where
  pub updates_task :
      (id : String) (c : Changes) (s : Store) → rows (a.update_task id c s).1 ≡ rows s
  pub updates_snapshot :
      (t : Task) (c : Changes) (s : Store) → rows (a.update_task_from_snapshot t c s).1 ≡ rows s
  pub refuses :
      (e : Fetched Event) (s : Store) (x : Error)
      → (l.create_event e s).0 ≡ err x
      → rows (l.create_event e s).1 ≡ rows s
  pub deletes :
      (e : Fetched Event) (s : Store)
      → In e (rows s)
      → (s' : Store) × (l.delete_event target e.value.id s ≡ (ok tt, s'))
        × (rows s' ≡ filter (λ r. not (r.value.id == e.value.id)) (rows s))

module _ {Store : Type 0} (z : Zones) (a : Adapter Store) (l : WorkAdapter Store)
    (url : Option String) (target : String) (rows : Store → Segments)
    (laws : IsCollection l target rows) (separate : IsSeparate a l target rows)
    (set : collection_url l url ≡ some target) where
  abbrev rows_of : World Store → Segments
  rows_of w = rows w.store

  abbrev NoneOpen : Segments → Type 0
  NoneOpen es = filter is_open es ≡ []

  -- A call that raises, but for a task without an id in the journal, leaves no open interval.
  record Undoes {A : Type 0} (m : Call z a A) (w : World Store) : Type 0 where
    pub at :
        (e : Error) → e ≢ validation no_object_id → (m w).0 ≡ err e → NoneOpen (rows_of (m w).1)

  Undoes-continue :
      {A B : Type 0} (r : Result A) (f : A → Call z a B) (w : World Store)
      → ((e : Error) → e ≢ validation no_object_id → r ≡ err e → NoneOpen (rows_of w))
      → ((v : A) → r ≡ ok v → Undoes (f v) w)
      → (e : Error) → e ≢ validation no_object_id
      → (continue r f w).0 ≡ err e
      → NoneOpen (rows_of (continue r f w).1)
  Undoes-continue (ok v) f w g k e ne h = (k v refl).at e ne h
  Undoes-continue (err x) f w g k e ne h =
      let same : x ≡ e = cc in g x (λ q. ne (sym same ∙ q)) refl

  Undoes-bind :
      {A B : Type 0} (m : Call z a A) (f : A → Call z a B) (w : World Store)
      → ((e : Error) → e ≢ validation no_object_id → (m w).0 ≡ err e → NoneOpen (rows_of (m w).1))
      → ((v : A) → (m w).0 ≡ ok v → Undoes (f v) (m w).1)
      → Undoes (m >>= f) w
  unfolding ◌>>=◌
  Undoes-bind m f w g k = record { at = Undoes-continue (m w).0 f (m w).1 g k }

  -- A first call that leaves the work log alone.
  Undoes-fixed :
      {A B : Type 0} (m : Call z a A) (f : A → Call z a B) (w : World Store)
      → Fixes rows_of m
      → NoneOpen (rows_of w)
      → ((v : A) (w' : World Store) → NoneOpen (rows_of w') → Undoes (f v) w')
      → Undoes (m >>= f) w
  Undoes-fixed m f w fixed h k =
      let h' = subst NoneOpen (sym (fixed.at w)) h in
      Undoes-bind m f w (λ e ne q. h') (λ v q. k v (m w).1 h')

  rows-on_store :
      {A : Type 0} (f : Store → Result A × Store)
      → ((s : Store) → rows (f s).1 ≡ rows s)
      → Fixes rows_of (on_store f)
  unfolding on_store
  rows-on_store f h = record { at = λ w. h w.store }

  Fixes-open_snapshot : Fixes rows_of (on_store (open_snapshot l url))
  Fixes-open_snapshot = rows-on_store _ (λ s. refl)

  Fixes-task_and_open_snapshot : (ref : Ref) → Fixes rows_of (task_and_open_snapshot z a l url ref)
  unfolding task_and_open_snapshot
  Fixes-task_and_open_snapshot ref = Fixes-bind _ _ (Fixes-get z a ref) λ obj.
      Fixes-bind _ _ Fixes-open_snapshot
        λ values. Fixes-bind _ _ (Fixes-require_id obj) λ id. Fixes-pure _

  Fixes-require_live : (t : Task) → Fixes rows_of (require_live z a l url t)
  Fixes-require_live t = Fixes-if t.stale _ _ (record { at = λ w. refl }) (Fixes-pure tt)

  Fixes-log_current : (values : Segments) → Fixes rows_of (log_current z a l url values)
  unfolding current_task_id open_events ◌>>=◌
  Fixes-log_current values = rows-on_store _ (λ s. refl)

  Fixes-update :
      (ref : Ref) (c : Changes) (undo : Bool) → Fixes rows_of (update_task z a ref c none true undo)
  unfolding update_task write
  Fixes-update ref c undo = Fixes-bind _ _ (Fixes-get z a ref) λ obj.
      Fixes-bind _ _ (Fixes-require_id obj) λ id. Fixes-bind _ _ (Fixes-normalized z a true c) λ c'.
        Fixes-bind _ _ (writes obj id c') λ updated.
          Fixes-bind _ _ (Fixes-remember_if z a undo _ (λ w u. refl))
            λ remembered. Fixes-bind _ _ (Fixes-pure tt) λ _. Fixes-pure _
    where
      slow :
          (id : String) (c : Changes) (o : Option Task)
          → Fixes rows_of (fast_or_slow o (on_store (a.update_task id c)))
      slow id c none = rows-on_store _ (separate.updates_task id c)
      slow id c (some t) = Fixes-pure t

      writes : (t : Task) (id : String) (c : Changes) → Fixes rows_of (write z a t id c)
      writes t id c =
          Fixes-bind _ _ (rows-on_store _ (separate.updates_snapshot t c)) λ o. slow id c o

  -- A call that creates one event of the collection, or raises and leaves it.
  record Creates (m : Exec Store (Fetched Event)) (s : Store) : Type 0 where
    pub on_err : (x : Error) → (m s).0 ≡ err x → rows (m s).1 ≡ rows s
    pub on_ok : (e : Fetched Event) → (m s).0 ≡ ok e → rows (m s).1 ≡ rows s ++ e ∷ []

  Creates-continue :
      {A : Type 0} (r : Result A) (f : A → Exec Store (Fetched Event)) (s : Store)
      → ((v : A) → Creates (f v) s)
      → Creates (continue r f) s
  Creates-continue (ok v) f s k = record { on_err = (k v).on_err; on_ok = (k v).on_ok }
  Creates-continue (err x) f s k = record { on_err = λ y h. refl; on_ok = λ e h. absurd (cc) }

  Creates-fixed :
      {A : Type 0} (m : Exec Store A) (f : A → Exec Store (Fetched Event)) (s : Store)
      → Fixes (λ v. v) m
      → ((v : A) → Creates (f v) s)
      → Creates (m >>= f) s
  unfolding ◌>>=◌
  Creates-fixed m f s fixed k =
      let c = Creates-continue (m s).0 f s k in
      let same = fixed.at s in
      record {
        on_err = λ x h.
            ap (λ v. rows (continue (m s).0 f v).1) same
            ∙ c.on_err x (ap (λ v. (continue (m s).0 f v).0) (sym same) ∙ h);
        on_ok = λ e h.
            ap (λ v. rows (continue (m s).0 f v).1) same
            ∙ c.on_ok e (ap (λ v. (continue (m s).0 f v).0) (sym same) ∙ h);
      }

  Creates-create : (e : Fetched Event) (s : Store) → Creates (l.create_event e) s
  Creates-create e s = record {
    on_err = λ x h. separate.refuses e s x h;
    on_ok =
        λ e' h. (laws.creates e s e' (l.create_event e s).1 (λ i. (h i, (l.create_event e s).1))).0;
  }

  Fixes-current :
      (values : Segments) → Fixes (λ (v : Store). v) (current_task_id l url (some values))
  unfolding current_task_id open_events ◌>>=◌
  Fixes-current values = record { at = λ v. refl }

  Creates-start_segment :
      (now : Datetime) (t : Task) (at : Option Datetime) (values : Segments) (s : Store)
      → Creates (start_segment l url z now t at (some values)) s
  unfolding start_segment
  Creates-start_segment now t at values s = Creates-fixed _ _ s (Fixes-require _ _) λ _.
      Creates-fixed _ _ s (Fixes-lift _) λ wanted.
        Creates-fixed _ _ s (Fixes-current values)
          λ current. Creates-fixed _ _ s (Fixes-lift _) λ _. Creates-create _ s

  delete_ok : (id : String) (s : Store) → delete_work_event l url id s ≡ l.delete_event target id s
  unfolding delete_work_event ◌>>=◌
  delete_ok id s = ap (λ r. continue r (λ t. l.delete_event t id) s) (ap wanted_url set)

  discarded :
      (e : Fetched Event) (s : Store)
      → In e (rows s)
      → (s' : Store) × (discard_segment l url e s ≡ (ok tt, s'))
        × (rows s' ≡ filter (λ r. not (r.value.id == e.value.id)) (rows s))
  unfolding discard_segment catch
  discarded e s i =
      let (s', h, k) = separate.deletes e s i in (s', rw (delete_ok e.value.id s, h) refl, k)

  filter-only :
      (p q : Fetched Event → Bool) (es : Segments) → filter p es ≡ [] → filter p (filter q es) ≡ []
  filter-only p q es h = filter-none p (filter q es) λ x i.
      let (j, k) = In-filter q es x i in
      elim (Bool-cases (p x)) [
        | inl y ↦ absurd (subst (In x) h (In-filter_of p es x j y))
        | inr n ↦ n
      ]

  none_left :
      (before : Segments) (e : Fetched Event)
      → NoneOpen before
      → NoneOpen (filter (λ r. not (r.value.id == e.value.id)) (before ++ e ∷ []))
  unfolding filter
  none_left before e h =
      let keep : Fetched Event → Bool = λ r. not (r.value.id == e.value.id) in
      let last : filter keep (e ∷ []) ≡ [] = rw (eq_refl e.value.id) refl in
      ap (filter is_open) (filter-append keep before (e ∷ []))
      ∙ ap (λ es. filter is_open (filter keep before ++ es)) last
      ∙ filter-append is_open (filter keep before) []
      ∙ ap (λ es. es ++ []) (filter-only is_open keep before h)

  undone :
      (e : Fetched Event) (x : Error) (w : World Store) (before : Segments)
      → NoneOpen before
      → rows_of w ≡ before ++ e ∷ []
      → NoneOpen (
          rows_of
            ((quietly z a l url (on_store (discard_segment l url e)) >> raise {A = ActionResult} x)
              w).1)
  unfolding quietly catch on_store ◌>>=◌
  undone e x w before h r =
      let i : In e (rows w.store) =
        subst (In e) (sym r) (In-append_right before (e ∷ []) e (inl refl)) in
      let (s', d, k) = discarded e w.store i in
      let gone : NoneOpen (rows s') =
        subst NoneOpen (sym (k ∙ ap (filter (λ v. not (v.value.id == e.value.id))) r))
          (none_left before e h) in
      rw d gone

  Undoes-recover :
      (r : Result ActionResult) (e : Fetched Event) (w : World Store) (before : Segments)
      → NoneOpen before
      → rows_of w ≡ before ++ e ∷ []
      → (x : Error)
      → (recover r (λ y. quietly z a l url (on_store (discard_segment l url e)) >> raise y) w).0
        ≡ err x
      → NoneOpen (
          rows_of
            (recover r
              (λ y. quietly z a l url (on_store (discard_segment l url e)) >> raise y)
              w).1)
  Undoes-recover (ok v) e w before h k x q = absurd (cc)
  Undoes-recover (err y) e w before h k x q = undone e y w before h k

  Undoes-update :
      (t : Task) (e : Fetched Event) (w : World Store) (before : Segments)
      → NoneOpen before
      → rows_of w ≡ before ++ e ∷ []
      → (x : Error)
      → (or_undo z a l url
          (update_task z a (object t) (status_changes "IN-PROCESS" false null) none true true)
          (quietly z a l url (on_store (discard_segment l url e)))
          w).0
        ≡ err x
      → NoneOpen (
          rows_of
            (or_undo z a l url
              (update_task z a (object t) (status_changes "IN-PROCESS" false null) none true true)
              (quietly z a l url (on_store (discard_segment l url e)))
              w).1)
  unfolding or_undo catch
  Undoes-update t e w before h k =
      let update =
        update_task z a (object t) (status_changes "IN-PROCESS" false null) none true true in
      let fixed = (Fixes-update (object t) (status_changes "IN-PROCESS" false null) true).at w in
      Undoes-recover (update w).0 e (update w).1 before h (fixed ∙ k)

  Undoes-record :
      (t : Task) (at : Option Datetime) (m : Metadata) (r : ActionResult) (w : World Store)
      → Undoes (record_activity z "task_started" t at m >> pure r) w
  unfolding record_activity ◌>>=◌
  Undoes-record t at m r w = record { at = step w.journal }
    where
      step :
          (o : Option (List Activity)) (e : Error)
          → e ≢ validation no_object_id
          → (continue
              (record_in z "task_started" t.id at m o w).0
              (λ _. pure r)
              (record_in z "task_started" t.id at m o w).1).0
            ≡ err e
          → NoneOpen (
              rows_of
                (continue
                  (record_in z "task_started" t.id at m o w).0
                  (λ _. pure r)
                  (record_in z "task_started" t.id at m o w).1).1)
      step none e ne h = absurd (cc)
      step (some log) e ne h = elim (Bool-cases (is_blank (strip t.id))) [
        | inl b ↦ absurd (ne (ground (arith)))
        | inr b ↦ absurd (ground arith)
      ]

  Creates-at_now :
      (t : Task) (at : Option Datetime) (values : Segments) (w : World Store)
      → ((x : Error)
          → (at_now z a l url (λ now. start_segment l url z now t at (some values)) w).0 ≡ err x
          → rows_of (at_now z a l url (λ now. start_segment l url z now t at (some values)) w).1
            ≡ rows_of w)
        × ((e : Fetched Event)
            → (at_now z a l url (λ now. start_segment l url z now t at (some values)) w).0 ≡ ok e
            → rows_of (at_now z a l url (λ now. start_segment l url z now t at (some values)) w).1
              ≡ rows_of w ++ e ∷ [])
  unfolding on_store ◌>>=◌
  Creates-at_now t at values w =
      let c = Creates-start_segment w.now t at values w.store in (c.on_err, c.on_ok)

  Undoes-start_logged :
      (ref : Ref) (at : Option Datetime) (w : World Store)
      → NoneOpen (rows_of w)
      → Undoes (start_logged z a l url ref at) w
  unfolding start_logged
  Undoes-start_logged ref at w h =
      Undoes-fixed _ _ w (Fixes-task_and_open_snapshot ref) h λ read w h.
        Undoes-fixed _ _ w (Fixes-require_live read.0) h λ _ w h.
          Undoes-fixed _ _ w (Fixes-require_id read.0) h λ id w h.
            Undoes-fixed _ _ w (Fixes-require _ _) h λ _ w h.
              Undoes-fixed _ _ w (Fixes-log_current read.1) h λ current w h.
                Undoes-fixed _ _ w (Fixes-require _ _) h λ _ w h.
                  Undoes-fixed _ _ w (Fixes-require _ _) h λ _ w h.
                    let c = Creates-at_now read.0 at read.1 w in
                    Undoes-bind _ _ w (λ e ne q. subst NoneOpen (sym (c.0 e q)) h)
                      λ segment q.
                        Undoes-bind _ _ _
                          (λ e ne q'.
                            Undoes-update read.0 segment _ (rows_of w) h (c.1 segment q) e q')
                          λ result q'.
                            Undoes-record result.affected at (transition "none" "current" read.0)
                              result _

  -- With an adapter that keeps the configured collection, whose calls for tasks leave it alone,
  -- whose refused creations leave it, and whose deletions remove: when no work interval is open and
  -- a start raises, for whatever reason but a task without an id in the journal, no interval is open
  -- afterwards; the one that it had opened is gone.
  pub start_logged_undone :
      (ref : Ref) (at : Option Datetime) (w : World Store) (e : Error)
      → filter is_open (rows w.store) ≡ []
      → e ≢ validation no_object_id
      → (start_logged z a l url ref at w).0 ≡ err e
      → filter is_open (rows (start_logged z a l url ref at w).1.store) ≡ []
  start_logged_undone ref at w e h ne q = (Undoes-start_logged ref at w h).at e ne q
