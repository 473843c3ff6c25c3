-- ===== src/Agenda/Build/Members.antt =====
-- Which tasks and events an agenda shows.
use caldav_assistant_skeleto.Prelude.{
  ℕ, suc, ◌+◌, ◌≤◌, ◌<◌, ◌≡◌, refl, sym, subst, ◌⊎◌, inl, inr, ◌↔◌, String, true, false, ◌||◌,
  Option, none, some, List, [], ◌∷◌, filter_map, ◌∙◌, arith, In, In-map, In-map_of, In-append,
  In-append_left, In-append_right, In-filter_map, In-filter_map_of, is_some,
}
use caldav_assistant_skeleto.Prelude.Sort.{In-sorted, In-sorted_of}
use caldav_assistant_skeleto.Temporal.{Datetime, When, Zones}
use caldav_assistant_skeleto.Api.{Task, Event, AgendaItem, ok}
use caldav_assistant_skeleto.Agenda.Build.{
  task_group, when_sort_key, scheduled_when, Upper, Request, Entry, Row, request, entries, ordered,
  number_rows, row_key, build, task_entry, event_entry, task_item, event_item, task_is_inactive,
  task_is_current, task_is_overdue, task_in_range, event_overlaps_range, overlaps, date_of,
}

pub entry_of_row : (n : ℕ) (es : List Entry) (r : Row) → In r (number_rows n es) → In r.entry es
unfolding number_rows
entry_of_row n [] r i = absurd i
entry_of_row n (e ∷ es) r (inl same) = inl (cc)
entry_of_row n (e ∷ es) r (inr i) = inr (entry_of_row (n + 1) es r i)

row_of_entry :
    (n : ℕ) (es : List Entry) (e : Entry)
    → In e es
    → (r : Row) × In r (number_rows n es) × (r.entry ≡ e)
unfolding number_rows
row_of_entry n [] e i = absurd i
row_of_entry n (d ∷ es) e (inl same) = (record { entry = d; sequence = n }, inl refl, same)
row_of_entry n (d ∷ es) e (inr i) =
    let (r, j, same) = row_of_entry (n + 1) es e i in (r, inr j, same)

In-ordered :
    (es : List Entry) (x : AgendaItem) → In x (ordered es) → (e : Entry) × In e es × (e.item ≡ x)
unfolding ordered
In-ordered es x i =
    let (r, j, same) = In-map (λ (r : Row). r.entry.item) _ x i in
    (r.entry, entry_of_row 0 es r (In-sorted row_key (number_rows 0 es) r j), same)

In-ordered_of : (es : List Entry) (e : Entry) → In e es → In e.item (ordered es)
unfolding ordered
In-ordered_of es e i =
    let (r, j, same) = row_of_entry 0 es e i in
    rw (← same)
      (In-map_of (λ (r : Row). r.entry.item) _ r (In-sorted_of row_key (number_rows 0 es) r j))

-- The task is active, and is current, overdue or in the range.
abbrev pub IsShown : Request → Task → Type 0
IsShown q t =
    (task_is_inactive q.upper t ≡ false)
    × ((task_is_current q t || task_is_overdue q t || task_in_range q t) ≡ true)

task_entry-IsShown :
    (q : Request) (t : Task) (e : Entry)
    → task_entry q t ≡ some e
    → IsShown q t × (e.item ≡ task_item t)
unfolding task_entry
task_entry-IsShown q t e h = ground arith

task_entry_of :
    (q : Request) (t : Task)
    → IsShown q t
    → (e : Entry) × (task_entry q t ≡ some e) × (e.item ≡ task_item t)
unfolding task_entry
task_entry_of q t (active, shown) = (
  record {
    group = task_group q t;
    when_key = when_sort_key q.zones (scheduled_when t) q.now;
    item = task_item t;
  },
  rw (active, shown),
  refl,
)

-- The event has a start. With an end, it starts before the range is over, and its end day is not
-- before the first day of the range, also where that day is exclusive; without one, it starts on a
-- day of the range.
abbrev pub HeldFrom : Request → Option When → Option When → Type 0
HeldFrom q none end = ⊥
HeldFrom q (some s) none =
    (q.start_day ≤ date_of q.zones s q.now) × (date_of q.zones s q.now < q.end_day)
HeldFrom q (some s) (some e) =
    (date_of q.zones s q.now < q.end_day) × (q.start_day ≤ date_of q.zones e q.now)

abbrev pub IsHeld : Request → Event → Type 0
IsHeld q e = HeldFrom q e.start e.end

HeldFrom-of_overlaps :
    (q : Request) (start end : Option When)
    → overlaps q.zones start end q.start_day q.end_day q.now ≡ true
    → HeldFrom q start end
HeldFrom-of_overlaps q none end h = absurd (cc)
HeldFrom-of_overlaps q (some s) none h = ground arith
HeldFrom-of_overlaps q (some s) (some e) h = ground arith

overlaps-of_HeldFrom :
    (q : Request) (start end : Option When)
    → HeldFrom q start end
    → (is_some start ≡ true) × (overlaps q.zones start end q.start_day q.end_day q.now ≡ true)
overlaps-of_HeldFrom q none end h = absurd h
overlaps-of_HeldFrom q (some s) none h = (refl, ground arith)
overlaps-of_HeldFrom q (some s) (some e) h = (refl, ground arith)

event_entry-IsHeld :
    (q : Request) (v : Event) (e : Entry)
    → event_entry q v ≡ some e
    → IsHeld q v × (e.item ≡ event_item v)
unfolding event_entry event_overlaps_range
event_entry-IsHeld q v e h =
    let parts : (overlaps q.zones v.start v.end q.start_day q.end_day q.now ≡ true)
        × (e.item ≡ event_item v) =
      ground arith in
    (HeldFrom-of_overlaps q v.start v.end parts.0, parts.1)

event_entry_of :
    (q : Request) (v : Event)
    → IsHeld q v
    → (e : Entry) × (event_entry q v ≡ some e) × (e.item ≡ event_item v)
unfolding event_entry event_overlaps_range
event_entry_of q v h =
    let (dated, held) = overlaps-of_HeldFrom q v.start v.end h in
    (
      record { group = 2; when_key = when_sort_key q.zones v.start q.now; item = event_item v },
      rw (dated, held),
      refl,
    )

task_item_injective : (t u : Task) → task_item t ≡ task_item u → t ≡ u
task_item_injective t u h = cc

event_item_injective : (v w : Event) → event_item v ≡ event_item w → v ≡ w
event_item_injective v w h = cc

module _ (q : Request) (tasks : List Task) (events : List Event) where
  -- An entry comes from a task that is shown or from an event that is held.
  abbrev Source : AgendaItem → Type 0
  Source x =
      ((t : Task) × In t tasks × IsShown q t × (task_item t ≡ x))
      ⊎ ((v : Event) × In v events × IsHeld q v × (event_item v ≡ x))

  Source-of_In : (x : AgendaItem) → In x (ordered (entries q tasks events)) → Source x
  unfolding entries
  Source-of_In x i =
      let (e, j, same) = In-ordered _ x i in
      elim (In-append (filter_map (task_entry q) tasks) _ e j) [
        | inl k ↦
            let (t, l, made) = In-filter_map (task_entry q) tasks e k in
            let (shown, kept) = task_entry-IsShown q t e made in inl (t, l, shown, sym kept ∙ same)
        | inr k ↦
            let (v, l, made) = In-filter_map (event_entry q) events e k in
            let (held, kept) = event_entry-IsHeld q v e made in inr (v, l, held, sym kept ∙ same)
      ]

  In-of_Source : (x : AgendaItem) → Source x → In x (ordered (entries q tasks events))
  unfolding entries
  In-of_Source x (inl (t, l, shown, same)) =
      let (e, made, kept) = task_entry_of q t shown in
      let j = In-filter_map_of (task_entry q) tasks t e l made in
      rw (← same, ← kept)
        (In-ordered_of _ e (In-append_left _ (filter_map (event_entry q) events) e j))
  In-of_Source x (inr (v, l, held, same)) =
      let (e, made, kept) = event_entry_of q v held in
      let j = In-filter_map_of (event_entry q) events v e l made in
      rw (← same, ← kept)
        (In-ordered_of _ e (In-append_right (filter_map (task_entry q) tasks) _ e j))

module _ (upper : Upper) (z : Zones) (tasks : List Task) (events : List Event) (n : ℕ)
    (now : Datetime) (state : Option String) (agenda : List AgendaItem)
    (built : build upper z tasks events (suc n) now state ≡ ok agenda) where
  abbrev asked : Request
  asked = request upper z (suc n) now state

  agenda_eq : ordered (entries asked tasks events) ≡ agenda
  unfolding build
  agenda_eq = cc

  -- For a positive number of days the agenda shows a task exactly when the task is among those
  -- given, is not finished, and is the current task, overdue, or dated in the range.
  pub build-task_iff : (t : Task) → In (task_item t) agenda ↔ In t tasks × IsShown asked t
  build-task_iff t = (
    λ i. elim (Source-of_In asked tasks events (task_item t) (rw agenda_eq i)) [
      | inl (u, l, shown, same) ↦
          subst (λ x. In x tasks × IsShown asked x) (task_item_injective u t same) (l, shown)
      | inr (v, l, held, same) ↦ absurd (cc)
    ],
    λ (l, shown).
        rw agenda_eq at (In-of_Source asked tasks events (task_item t) (inl (t, l, shown, refl))),
  )

  -- For a positive number of days the agenda shows an event exactly when the event is among those
  -- given, has a start, and is held in the range: with an end, it starts before the range is over,
  -- and its end day is not before the first day of the range, also where that day is the exclusive
  -- end of an all-day event; without an end, it starts on a day of the range.
  pub build-event_iff : (v : Event) → In (event_item v) agenda ↔ In v events × IsHeld asked v
  build-event_iff v = (
    λ i. elim (Source-of_In asked tasks events (event_item v) (rw agenda_eq i)) [
      | inl (t, l, shown, same) ↦ absurd (cc)
      | inr (w, l, held, same) ↦
          subst (λ x. In x events × IsHeld asked x) (event_item_injective w v same) (l, held)
    ],
    λ (l, held).
        rw agenda_eq at (In-of_Source asked tasks events (event_item v) (inr (v, l, held, refl))),
  )
