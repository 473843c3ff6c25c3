-- ===== src/WorkLog/Current.antt =====
-- The current task of the work log, through the calls that open and close intervals.
use caldav_assistant_skeleto.Prelude.{
  ◌≡◌, refl, sym, ◌∙◌, ap, subst, inl, inr, String, Bool, true, false, not, Option, none, some, [],
  ◌∷◌, ◌++◌, map, filter, is_blank, strip, strip-strip, In, In-filter, In-filter_of, In-map,
  Bool-cases, if◌then◌else◌, ◌==◌, eq_iff, arith,
}
use caldav_assistant_skeleto.Temporal.{Datetime, When, datetime, Zones}
use caldav_assistant_skeleto.Api.{Task, Event, Result, ok, err, validation, empty_id}
use caldav_assistant_skeleto.Effect.{Exec, pure, continue, ◌>>=◌}
use caldav_assistant_skeleto.Effect.Fixes.{Fixes-lift}
use caldav_assistant_skeleto.Effect.Runs.{
  Returns, Returns-pure, Returns-bind, Returns-fixed, Returns-require,
}
use caldav_assistant_skeleto.Sync.Rows.{Fetched}
use caldav_assistant_skeleto.Tasks.World.{at_or_now}
use caldav_assistant_skeleto.WorkLog.{
  WorkAdapter, EventChanges, Segments, is_open, is_work_event, is_for, task_id_from_event,
  collection_url, wanted_url, sole_current, current_of, current_task_id, sole_of, open_for, free,
  opened, start_segment, update_work_event, closing, close_event, close_segment,
}
use caldav_assistant_skeleto.WorkLog.Description.{is_one_line, task_id_from_event-description_of}
use caldav_assistant_skeleto.WorkLog.Intervals.{
  IsCollection, applied, filter-append, filter-none, task_id_from_event-full, open_events_lem,
  current_task_id_lem,
}

-- What a caller asks of the log.
pub data Command : Type 0 where
  start : Task → Option Datetime → Command
  close : String → Option Datetime → Command

-- The abstract log: at most one current task. One is started when there is none, and only the
-- current one is closed.
pub data Step : Option String → Command → Option String → Type 0 where
  starts : {t : Task} {at : Option Datetime} → Step none (start t at) (some (strip t.id))
  closes : {id : String} {at : Option Datetime} → Step (some (strip id)) (close id at) none

-- the task's id stands on one line
abbrev pub IsNamed : Command → Type 0
IsNamed (start t at) = is_one_line (strip t.id) ≡ true
IsNamed (close id at) = Unit

module _ {Store : Type 0} (a : WorkAdapter Store) (url : Option String) (z : Zones)
    (now : Datetime) where
  abbrev pub serve : Command → Exec Store (Option (Fetched Event))
  serve (start t at) = do e ← start_segment a url z now t at none; pure (some e)
  serve (close id at) = close_segment a url z now id at true none

sole_current-some :
    (o c : Option String) → sole_current o ≡ ok c → (v : String) × (o ≡ some v) × (c ≡ some v)
sole_current-some none c h = absurd (cc)
sole_current-some (some v) c h = (v, refl, cc)

current_of-none : (es : Segments) → current_of es ≡ ok none → es ≡ []
current_of-none [] h = refl
current_of-none (e ∷ []) h =
    let (v, f, g) = sole_current-some (task_id_from_event e) none h in absurd (cc)
current_of-none (e ∷ f ∷ es) h = absurd (cc)

current_of-some :
    (es : Segments) (v : String)
    → current_of es ≡ ok (some v)
    → (e : Fetched Event) × (es ≡ e ∷ []) × (task_id_from_event e ≡ some v)
current_of-some [] v h = absurd (cc)
current_of-some (e ∷ []) v h =
    let (w, f, g) = sole_current-some (task_id_from_event e) (some v) h in (e, refl, f ∙ sym g)
current_of-some (e ∷ f ∷ es) v h = absurd (cc)

free-none :
    (es : Segments) (id : String) (c : Option String)
    → current_of es ≡ ok c
    → free id c ≡ ok tt
    → es ≡ []
free-none es id none h f = current_of-none es h
free-none es id (some v) h f =
    let (e, one, from) = current_of-some es v h in
    let full = task_id_from_event-full e v from in
    elim (Bool-cases (v == id)) [ inl k ↦ absurd (ground arith) | inr k ↦ absurd (ground arith) ]

module _ {Store : Type 0} (a : WorkAdapter Store) (url : Option String) (target : String)
    (rows : Store → Segments) (laws : IsCollection a target rows)
    (configured : collection_url a url ≡ some target) (z : Zones) (now : Datetime) where
  opened-is_open :
      (t : Task) (w : When) (e : Fetched Event)
      → is_blank (strip t.id) ≡ false
      → is_one_line (strip t.id) ≡ true
      → e.value.description ≡ (opened target t w).value.description
      → e.value.categories ≡ (opened target t w).value.categories
      → e.value.end ≡ none
      → (task_id_from_event e ≡ some (strip t.id)) × (is_open e ≡ true)
  unfolding is_open is_work_event
  opened-is_open t w e b l d c n =
      let id = task_id_from_event-description_of e (strip t.id) d b (strip-strip t.id) l in
      (id, rw (id, c, n) refl)

  created :
      (t : Task) (w : When) (s : Store) (e : Fetched Event) (s' : Store)
      → is_blank (strip t.id) ≡ false
      → is_one_line (strip t.id) ≡ true
      → filter is_open (rows s) ≡ []
      → a.create_event (opened target t w) s ≡ (ok e, s')
      → current_task_id a url none s' ≡ (ok (some (strip t.id)), s')
  unfolding filter
  created t w s e s' b l none_open m =
      let (added, d, c, n) = laws.creates (opened target t w) s e s' m in
      let (id, is) = opened-is_open t w e b l d c n in
      let last : filter is_open (e ∷ []) ≡ e ∷ [] = rw is refl in
      let one : filter is_open (rows s') ≡ e ∷ [] =
        ap (filter is_open) added
        ∙ filter-append is_open (rows s) (e ∷ [])
        ∙ ap (λ xs. xs ++ filter is_open (e ∷ [])) none_open
        ∙ last in
      current_task_id_lem a url target rows laws configured s'
      ∙ ap (λ es. (current_of es, s')) one
      ∙ ap (λ o. (sole_current o, s')) id

  not_blank : (b : Bool) → not b ≡ true → b ≡ false
  not_blank true h = absurd (cc)
  not_blank false h = refl

  start_returns :
      (t : Task) (at : Option Datetime) (s : Store)
      → is_one_line (strip t.id) ≡ true
      → Returns (start_segment a url z now t at none) s (λ e s'.
        (filter is_open (rows s) ≡ [])
        × (current_task_id a url none s' ≡ (ok (some (strip t.id)), s')))
  unfolding start_segment
  start_returns t at s l =
      let w = datetime (at_or_now z at now) in
      Returns-require _ _ _ s _ λ b. Returns-fixed _ _ s _ (Fixes-lift _) λ wanted r.
        Returns-bind _ _ s _ λ current s1 c. Returns-bind _ _ s1 _ λ u s2 f. record {
          ends = λ e s' m.
              let lem = current_task_id_lem a url target rows laws configured s in
              let found : current_of (filter is_open (rows s)) ≡ ok current =
                ap (λ q. q.0) (sym lem ∙ c) in
              let same : s ≡ s2 = ap (λ q. q.1) (sym lem ∙ c) ∙ ap (λ q. q.1) f in
              let allowed : free (strip t.id) current ≡ ok tt = ap (λ q. q.0) f in
              let none_open =
                free-none (filter is_open (rows s)) (strip t.id) current found allowed in
              let at_target : wanted_url (some target) ≡ ok wanted =
                ap wanted_url (sym configured) ∙ ap (λ q. q.0) r in
              let same_target : wanted ≡ target = cc in
              let m' : a.create_event (opened target t w) s ≡ (ok e, s') =
                ap (λ v. a.create_event (opened v t w) s) (sym same_target)
                ∙ ap (a.create_event (opened wanted t w)) same
                ∙ m in
              (none_open, created t w s e s' (not_blank _ b) l none_open m');
        }

  open_for_eq :
      (id : String) (s : Store)
      → is_blank (strip id) ≡ false
      → open_for a url id none s
        ≡ (sole_of (filter (is_for (strip id)) (filter is_open (rows s))), s)
  unfolding open_for ◌>>=◌
  open_for_eq id s b =
      let lem = open_events_lem a url target rows laws configured s in
      rw b (ap (λ q. continue q.0 (λ es s. (sole_of (filter (is_for (strip id)) es), s)) q.1) lem)

  open_for_ok :
      (id : String) (s : Store) (e : Option (Fetched Event)) (s' : Store)
      → open_for a url id none s ≡ (ok e, s')
      → (s ≡ s') × (sole_of (filter (is_for (strip id)) (filter is_open (rows s))) ≡ ok e)
  unfolding open_for ◌>>=◌
  open_for_ok id s e s' h = elim (Bool-cases (is_blank (strip id))) [
    | inl b ↦
        let h' : Path (Result (Option (Fetched Event)) × Store) (err (validation empty_id), s)
            (ok e, s') =
          rw b at h in
        absurd (cc)
    | inr b ↦ let k = sym (open_for_eq id s b) ∙ h in (ap (λ q. q.1) k, ap (λ q. q.0) k)
  ]

  sole_of-some : (es : Segments) (e : Fetched Event) → sole_of es ≡ ok (some e) → In e es
  sole_of-some [] e h = absurd (cc)
  sole_of-some (x ∷ []) e h = inl (cc)
  sole_of-some (x ∷ y ∷ es) e h = absurd (cc)

  is_for-id :
      (id : String) (o : Option String)
      → (elim o [ none ↦ false | some v ↦ v == id ]) ≡ true
      → o ≡ some id
  is_for-id id none h = absurd (cc)
  is_for-id id (some v) h = ap some ((eq_iff v id).0 h)

  -- The only open interval is the one that is found for the task.
  found_only :
      (id : String) (s : Store) (c : Option String) (e : Fetched Event)
      → current_of (filter is_open (rows s)) ≡ ok c
      → sole_of (filter (is_for (strip id)) (filter is_open (rows s))) ≡ ok (some e)
      → (c ≡ some (strip id)) × (filter is_open (rows s) ≡ e ∷ [])
  found_only id s none e h f =
      let empty = current_of-none (filter is_open (rows s)) h in
      let (i, p) = In-filter (is_for (strip id)) (filter is_open (rows s)) e (sole_of-some _ e f) in
      absurd (subst (In e) empty i)
  found_only id s (some v) e h f =
      let (e0, one, from) = current_of-some (filter is_open (rows s)) v h in
      let (i, p) = In-filter (is_for (strip id)) (filter is_open (rows s)) e (sole_of-some _ e f) in
      elim (subst (In e) one i) [
        | inl same ↦
            let named = is_for-id (strip id) (task_id_from_event e) p in
            (sym from ∙ ap task_id_from_event same ∙ named, one ∙ ap (λ x. x ∷ []) same)
        | inr none_left ↦ absurd none_left
      ]

  update_ok :
      (id : String) (c : EventChanges) (s : Store)
      → update_work_event a url id c s ≡ a.update_event target id c s
  unfolding update_work_event ◌>>=◌
  update_ok id c s = ap (λ r. continue r (λ t. a.update_event t id c) s) (ap wanted_url configured)

  closed :
      (e : Fetched Event) (closed_at : Datetime) (s : Store) (e' : Fetched Event) (s' : Store)
      → filter is_open (rows s) ≡ e ∷ []
      → update_work_event a url e.value.id (closing closed_at) s ≡ (ok e', s')
      → current_task_id a url none s' ≡ (ok none, s')
  unfolding is_open
  closed e closed_at s e' s' one m =
      let c = closing closed_at in
      let f : Fetched Event → Fetched Event =
        λ r. if r.value.id == e.value.id then applied c r else r in
      let moved : rows s' ≡ map f (rows s) =
        laws.updates e.value.id c s e' s' (sym (update_ok e.value.id c s) ∙ m) in
      let all_closed : filter is_open (map f (rows s)) ≡ [] =
        filter-none is_open (map f (rows s)) λ y i.
          let (x, j, to) = In-map f (rows s) y i in
          elim (Bool-cases (x.value.id == e.value.id)) [
            | inl k ↦
                let to' : applied c x ≡ y = rw k at to in
                subst (λ v. is_open v ≡ false) to' (ground arith)
            | inr k ↦
                let to' : x ≡ y = rw k at to in
                subst (λ v. is_open v ≡ false) to'
                  (elim (Bool-cases (is_open x)) [
                    | inl o ↦ elim (subst (In x) one (In-filter_of is_open (rows s) x j o)) [
                      | inl same ↦
                          let t =
                            (eq_iff x.value.id e.value.id).1 (ap (λ v. v.value.id) (sym same)) in
                          absurd (cc)
                      | inr none_left ↦ absurd none_left
                    ]
                    | inr o ↦ o
                  ])
          ] in
      current_task_id_lem a url target rows laws configured s'
      ∙ ap (λ es. (current_of (filter is_open es), s')) moved
      ∙ ap (λ es. (current_of es, s')) all_closed

  close_returns :
      (id : String) (at : Option Datetime) (s : Store) (c : Option String)
      → current_task_id a url none s ≡ (ok c, s)
      → Returns
          (close_segment a url z now id at true none)
          s
          (λ r s'. (c ≡ some (strip id)) × (current_task_id a url none s' ≡ (ok none, s')))
  unfolding close_segment
  close_returns id at s c h =
      let lem = current_task_id_lem a url target rows laws configured s in
      let found : current_of (filter is_open (rows s)) ≡ ok c = ap (λ q. q.0) (sym lem ∙ h) in
      Returns-bind _ _ s _ λ event s1 f.
        let (same, sole) = open_for_ok id s event s1 f in after event s1 same sole found
    where
      after :
          (event : Option (Fetched Event)) (s1 : Store)
          → s ≡ s1
          → sole_of (filter (is_for (strip id)) (filter is_open (rows s))) ≡ ok event
          → current_of (filter is_open (rows s)) ≡ ok c
          → Returns
              (close_event a url z now true (at_or_now z at now) event)
              s1
              (λ r s'. (c ≡ some (strip id)) × (current_task_id a url none s' ≡ (ok none, s')))
      after none s1 same sole found = record { ends = λ r s' m. absurd (cc) }
      after (some e) s1 same sole found =
          let (is, one) = found_only id s c e found sole in
          let one' : filter is_open (rows s1) ≡ e ∷ [] =
            subst (λ v. filter is_open (rows v) ≡ e ∷ []) same one in
          Returns-require _ _ _ s1 _ λ ok_time.
            Returns-bind _ _ s1 _
              λ e' s' m. Returns-pure _ s' _ (is, closed e (at_or_now z at now) s1 e' s' one' m)

  steps :
      (cmd : Command) (s : Store) (c : Option String)
      → IsNamed cmd
      → current_task_id a url none s ≡ (ok c, s)
      → Returns (serve a url z now cmd) s (λ r s'.
        (c' : Option String) × (current_task_id a url none s' ≡ (ok c', s')) × Step c cmd c')
  steps (start t at) s c l h =
      let lem = current_task_id_lem a url target rows laws configured s in
      Returns-bind _ _ s _ λ e s' m.
        let (empty, now_current) = (start_returns t at s l).ends e s' m in
        let was : ok c ≡ ok none = ap (λ q. q.0) (sym h ∙ lem) ∙ ap current_of empty in
        let none_before : none ≡ c = cc in
        Returns-pure _ s' _ (
          some (strip t.id),
          now_current,
          subst (λ v. Step v (start t at) (some (strip t.id))) none_before starts,
        )
  steps (close id at) s c l h = record {
    ends = λ r s' m.
        let (is, after) = (close_returns id at s c h).ends r s' m in
        (none, after, subst (λ v. Step v (close id at) none) (sym is) closes);
  }

  -- With an adapter that keeps the configured collection, the calls that open and close a work
  -- interval refine the abstract log of one current task, as `current_task_id` reads it: from a log
  -- that is not ambiguous, an opening that returns was made when no task was current and makes the
  -- given one current, and a closing that returns was of the current task and leaves none. The id
  -- of an opened task stands on one line.
  pub serve_refines :
      (cmd : Command) (s : Store) (c : Option String) (r : Option (Fetched Event)) (s' : Store)
      → IsNamed cmd
      → current_task_id a url none s ≡ (ok c, s)
      → serve a url z now cmd s ≡ (ok r, s')
      → (c' : Option String) × (current_task_id a url none s' ≡ (ok c', s')) × Step c cmd c'
  serve_refines cmd s c r s' l h m = (steps cmd s c l h).ends r s' m
