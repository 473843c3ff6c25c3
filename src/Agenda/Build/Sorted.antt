-- ===== src/Agenda/Build/Sorted.antt =====
-- The sort key of an item that an agenda shows.
use caldav_assistant_skeleto.Prelude.{
  ℕ, ◌≡◌, refl, subst, subst₂, inl, inr, true, Option, none, some, List, [], ◌∷◌, ◌++◌, map,
  filter_map, arith, In, All, All-of_In, In-append, In-filter_map,
}
use caldav_assistant_skeleto.Prelude.Sort.{
  tuple_leb, Before, IsSorted, sorted, sorted-IsSorted, In-sorted,
}
use caldav_assistant_skeleto.Temporal.{Datetime, When, date, datetime, Zones}
use caldav_assistant_skeleto.Api.{Task, Event, AgendaItem, task, event}
use caldav_assistant_skeleto.Agenda.Build.{
  Request, Entry, Row, entries, ordered, number_rows, row_key, task_entry, event_entry,
  scheduled_when, task_group, when_sort_key, task_item, event_item,
}
use caldav_assistant_skeleto.Agenda.Build.Members.{entry_of_row}

-- Group, day, timed or not, second of the day, microsecond: what an item of an agenda sorts by.
abbrev pub agenda_key : Request → AgendaItem → List ℕ
agenda_key q x = elim x.value [
  | task t ↦ task_group q t ∷ when_sort_key q.zones x.when q.now
  | event e ↦ 2 ∷ when_sort_key q.zones x.when q.now
]

-- A key of four numbers.
record IsQuadruple (k : List ℕ) : Type 0 where
  a : ℕ
  b : ℕ
  c : ℕ
  d : ℕ
  shape : k ≡ a ∷ b ∷ c ∷ d ∷ []

when_sort_key-IsQuadruple :
    (z : Zones) (w : Option When) (now : Datetime) → IsQuadruple (when_sort_key z w now)
unfolding when_sort_key
when_sort_key-IsQuadruple z none now = record { a = _; b = _; c = _; d = _; shape = refl }
when_sort_key-IsQuadruple z (some (date n)) now = record {
  a = _;
  b = _;
  c = _;
  d = _;
  shape = refl;
}
when_sort_key-IsQuadruple z (some (datetime t)) now = record {
  a = _;
  b = _;
  c = _;
  d = _;
  shape = refl;
}

tuple_leb_init :
    (g a b c d s h a' b' c' d' t : ℕ)
    → tuple_leb (g ∷ a ∷ b ∷ c ∷ d ∷ s ∷ []) (h ∷ a' ∷ b' ∷ c' ∷ d' ∷ t ∷ []) ≡ true
    → tuple_leb (g ∷ a ∷ b ∷ c ∷ d ∷ []) (h ∷ a' ∷ b' ∷ c' ∷ d' ∷ []) ≡ true
unfolding tuple_leb
tuple_leb_init g a b c d s h a' b' c' d' t e = ground arith

tuple_leb_drop :
    (g h s t : ℕ) (k l : List ℕ)
    → IsQuadruple k
    → IsQuadruple l
    → tuple_leb (g ∷ k ++ s ∷ []) (h ∷ l ++ t ∷ []) ≡ true
    → tuple_leb (g ∷ k) (h ∷ l) ≡ true
tuple_leb_drop g h s t k l p q e =
    rw (p.shape, q.shape)
      (tuple_leb_init g p.a p.b p.c p.d s h q.a q.b q.c q.d t (rw (p.shape, q.shape) at e))

-- The entry sorts by what its item shows.
record IsKeyed (q : Request) (e : Entry) : Type 0 where
  quadruple : IsQuadruple e.when_key
  matches : e.group ∷ e.when_key ≡ agenda_key q e.item

Before-of_rows :
    (q : Request) (r s : Row)
    → IsKeyed q r.entry
    → IsKeyed q s.entry
    → Before row_key r s
    → Before (agenda_key q) r.entry.item s.entry.item
unfolding row_key
Before-of_rows q r s kr ks h =
    subst₂ (λ k l. tuple_leb k l ≡ true) kr.matches ks.matches
      (tuple_leb_drop r.entry.group s.entry.group r.sequence s.sequence r.entry.when_key
        s.entry.when_key kr.quadruple ks.quadruple h)

module _ (q : Request) where
  All-map-Before :
      (r : Row) (rows : List Row)
      → IsKeyed q r.entry
      → All (λ (s : Row). IsKeyed q s.entry) rows
      → All (Before row_key r) rows
      → All (Before (agenda_key q) r.entry.item) (map (λ (s : Row). s.entry.item) rows)
  All-map-Before r [] kr k b = tt
  All-map-Before r (s ∷ rows) kr (ks, k) (h, b) =
      (Before-of_rows q r s kr ks h, All-map-Before r rows kr k b)

  map-IsSorted :
      (rows : List Row)
      → All (λ (s : Row). IsKeyed q s.entry) rows
      → IsSorted row_key rows
      → IsSorted (agenda_key q) (map (λ (s : Row). s.entry.item) rows)
  map-IsSorted [] k s = tt
  map-IsSorted (r ∷ rows) (kr, k) (b, s) = (All-map-Before r rows kr k b, map-IsSorted rows k s)

  task_entry-IsKeyed : (t : Task) (e : Entry) → task_entry q t ≡ some e → IsKeyed q e
  unfolding task_entry
  task_entry-IsKeyed t e h =
      let made : Entry = record {
        group = task_group q t;
        when_key = when_sort_key q.zones (scheduled_when t) q.now;
        item = task_item t;
      } in
      let same : made ≡ e = ground arith in
      subst (IsKeyed q) same (record {
        quadruple = when_sort_key-IsQuadruple q.zones (scheduled_when t) q.now;
        matches = refl;
      })

  event_entry-IsKeyed : (v : Event) (e : Entry) → event_entry q v ≡ some e → IsKeyed q e
  unfolding event_entry
  event_entry-IsKeyed v e h =
      let made : Entry = record {
        group = 2;
        when_key = when_sort_key q.zones v.start q.now;
        item = event_item v;
      } in
      let same : made ≡ e = ground arith in
      subst (IsKeyed q) same
        (record { quadruple = when_sort_key-IsQuadruple q.zones v.start q.now; matches = refl })

  entries-IsKeyed :
      (tasks : List Task) (events : List Event) (e : Entry)
      → In e (entries q tasks events)
      → IsKeyed q e
  unfolding entries
  entries-IsKeyed tasks events e i = elim (In-append (filter_map (task_entry q) tasks) _ e i) [
    | inl k ↦
        let (t, _, made) = In-filter_map (task_entry q) tasks e k in task_entry-IsKeyed t e made
    | inr k ↦
        let (v, _, made) = In-filter_map (event_entry q) events e k in event_entry-IsKeyed v e made
  ]

  pub ordered-IsSorted :
      (tasks : List Task) (events : List Event)
      → IsSorted (agenda_key q) (ordered (entries q tasks events))
  unfolding ordered
  ordered-IsSorted tasks events =
      let es = entries q tasks events in
      let rows = sorted row_key (number_rows 0 es) in
      map-IsSorted rows
        (All-of_In (λ (s : Row). IsKeyed q s.entry) rows
          (λ r i.
            entries-IsKeyed tasks events r.entry
              (entry_of_row 0 es r (In-sorted row_key (number_rows 0 es) r i))))
        (sorted-IsSorted row_key (number_rows 0 es))
