-- ===== src/Agenda/Next/Policy.antt =====
-- The policy that the ranks state: closed tasks and past events are never chosen, the current
-- task wins, and an event that is going on wins against every other task.
use caldav_assistant_skeleto.Prelude.{
  ℕ, ◌≤◌, ◌≡◌, ◌≢◌, refl, ap, ◌⊎◌, ◌↔◌, inl, inr, codes, String, true, false, not, ◌||◌, Option,
  none, some, List, ◌∷◌, arith, In, eq_iff, if◌then◌else◌, ◌==◌,
}
use caldav_assistant_skeleto.Prelude.Sort.{tuple_leb}
use caldav_assistant_skeleto.Temporal.{Datetime, Zones}
use caldav_assistant_skeleto.Api.{AgendaItem, Item, task, event, ok, Task, Event}
use caldav_assistant_skeleto.Agenda.Next.{
  NextEngine, is_candidate, rank, task_rank, event_rank, choose, skipped_set, eligible, event_past,
  event_ongoing, kind_of, uid_of, is_current, priority_of, time_key, stable_id, event_start,
  skipped_uid, wanted_kind, valid_kind,
}
use caldav_assistant_skeleto.Agenda.Next.Choice.{
  IsChoice, choose-IsChoice, IsChoice-of_choose, candidate,
}

-- The item may still be acted on.
abbrev pub IsOpen : Zones → Datetime → AgendaItem → Type 0
IsOpen z now item =
    ((t : Task)
      → item.value ≡ task t
      → (t.completed ≡ false) × (t.status ≢ "COMPLETED") × (t.status ≢ "CANCELLED"))
    × ((e : Event) → item.value ≡ event e → event_past z item e now ≡ false)

eligible_task :
    (z : Zones) (now : Datetime) (item : AgendaItem) (t : Task)
    → eligible z item now ≡ true
    → item.value ≡ task t
    → (t.completed ≡ false) × (t.status ≢ "COMPLETED") × (t.status ≢ "CANCELLED")
unfolding eligible
eligible_task z now item t h v =
    let k : (if t.completed
          then false
          else not (t.status == "COMPLETED" || t.status == "CANCELLED"))
        ≡ true =
      rw (v, eligible) at h in
    ground (arith, eq_iff t.status "COMPLETED", eq_iff t.status "CANCELLED")

Item-cases : (v : Item) → ((t : Task) × (v ≡ task t)) ⊎ ((e : Event) × (v ≡ event e))
Item-cases (task t) = inl (t, refl)
Item-cases (event e) = inr (e, refl)

eligible-of_IsOpen :
    (z : Zones) (now : Datetime) (item : AgendaItem)
    → IsOpen z now item
    → eligible z item now ≡ true
unfolding eligible
eligible-of_IsOpen z now item (of_task, of_event) = elim (Item-cases item.value) [
  | inl (t, v) ↦
      let (running, not_done, not_cancelled) = of_task t v in
      rw v (ground (arith, eq_iff t.status "COMPLETED", eq_iff t.status "CANCELLED"))
  | inr (e, v) ↦ ground (arith, v, of_event e v)
]

eligible_event :
    (z : Zones) (now : Datetime) (item : AgendaItem) (e : Event)
    → eligible z item now ≡ true
    → item.value ≡ event e
    → event_past z item e now ≡ false
unfolding eligible
eligible_event z now item e h v = ground arith

uid-of_is_current : (current uid : Option String) → is_current current uid ≡ true → uid ≡ current
uid-of_is_current none uid h = cc
uid-of_is_current (some c) none h = cc
uid-of_is_current (some c) (some u) h = ap some ((eq_iff u c).0 h)

module _ (self : NextEngine) (z : Zones) (now : Datetime) (current : Option String) where
  rank_task :
      (x : AgendaItem) (t : Task)
      → x.value ≡ task t
      → rank self z now current x ≡ task_rank self z now current x t
  unfolding rank
  rank_task x t v = ground arith

  rank_event :
      (x : AgendaItem) (e : Event)
      → x.value ≡ event e
      → rank self z now current x ≡ event_rank self z now x e
  unfolding rank
  rank_event x e v = ground arith

  task_rank_zero :
      (x : AgendaItem) (t : Task) (rest : List ℕ)
      → tuple_leb (task_rank self z now current x t) (0 ∷ rest) ≡ true
      → is_current current (uid_of x) ≡ true
  unfolding task_rank tuple_leb
  task_rank_zero x t rest h = ground arith

  event_rank_pos :
      (x : AgendaItem) (e : Event) (rest : List ℕ)
      → tuple_leb (event_rank self z now x e) (0 ∷ rest) ≡ false
  unfolding event_rank tuple_leb
  event_rank_pos x e rest = ground arith

  -- A rank that comes before one that begins with 0 is that of the current task.
  rank_zero :
      (x : AgendaItem) (rest : List ℕ)
      → tuple_leb (rank self z now current x) (0 ∷ rest) ≡ true
      → (t : Task) × (x.value ≡ task t) × (is_current current (uid_of x) ≡ true)
  rank_zero x rest h = elim (Item-cases x.value) [
    | inl (t, v) ↦ (t, v, task_rank_zero x t rest (rw (rank_task x t v) at h))
    | inr (e, v) ↦ absurd (ground (arith, rank_event x e v, event_rank_pos x e rest))
  ]

  current_rank :
      (x : AgendaItem) (t : Task)
      → x.value ≡ task t
      → is_current current (uid_of x) ≡ true
      → (rest : List ℕ) × (rank self z now current x ≡ 0 ∷ rest)
  unfolding task_rank
  current_rank x t v c = (
    priority_of t ∷ (time_key z t.due now).wall ∷ codes (stable_id x),
    rw (rank_task x t v) (rw c),
  )

  event_rank_ongoing :
      (x : AgendaItem) (e : Event)
      → event_ongoing z x e now ≡ true
      → event_rank self z now x e
        ≡ 1 ∷ (time_key z (event_start x e) now).wall ∷ codes (stable_id x)
  unfolding event_rank
  event_rank_ongoing x e g = rw g

  task_rank_one :
      (x : AgendaItem) (t : Task) (rest : List ℕ)
      → tuple_leb (task_rank self z now current x t) (1 ∷ rest) ≡ true
      → is_current current (uid_of x) ≡ true
  unfolding task_rank tuple_leb
  task_rank_one x t rest h = ground arith

  event_rank_one :
      (x : AgendaItem) (e : Event) (k : ℕ) (rest : List ℕ)
      → tuple_leb (event_rank self z now x e) (1 ∷ k ∷ rest) ≡ true
      → (event_ongoing z x e now ≡ true) × ((time_key z (event_start x e) now).wall ≤ k)
  unfolding event_rank tuple_leb
  event_rank_one x e k rest h = ground arith

module _ (self : NextEngine) (z : Zones) (items : List AgendaItem) (now : Datetime)
    (current : Option String) (skipped : List String) (kind : Option String) where
  is_candidate-parts :
      (item : AgendaItem)
      → is_candidate z now (skipped_set skipped) kind item ≡ true
      → (wanted_kind kind (kind_of item) ≡ true)
        × (skipped_uid (skipped_set skipped) (uid_of item) ≡ false)
        × (eligible z item now ≡ true)
  unfolding is_candidate
  is_candidate-parts item h = ground arith

  -- The chosen item stands in the agenda, has the wanted kind, is not skipped, and is no finished
  -- task and no past event.
  pub choose-IsOpen :
      (item : AgendaItem)
      → choose self z items now current skipped kind ≡ ok (some item)
      → In item items
        × (wanted_kind kind (kind_of item) ≡ true)
        × (skipped_uid (skipped_set skipped) (uid_of item) ≡ false)
        × IsOpen z now item
  choose-IsOpen item h =
      let (listed, pass, _) = IsChoice-of_choose self z items now current skipped kind item h in
      let (wanted, kept, open_item) = is_candidate-parts item pass in
      (
        listed,
        wanted,
        kept,
        (λ t. eligible_task z now item t open_item, λ e. eligible_event z now item e open_item),
      )

  -- What may be chosen: an item of the wanted kind that is not skipped and may be acted on.
  abbrev pub IsWanted : AgendaItem → Type 0
  IsWanted item =
      (wanted_kind kind (kind_of item) ≡ true)
      × (skipped_uid (skipped_set skipped) (uid_of item) ≡ false)
      × IsOpen z now item

  candidate-of_IsWanted :
      (item : AgendaItem)
      → IsWanted item
      → candidate self z items now current skipped kind item ≡ true
  unfolding is_candidate
  candidate-of_IsWanted item (wanted, kept, may_act) =
      rw (wanted, kept, eligible-of_IsOpen z now item may_act) refl

  -- With a kind that the code knows, `choose` returns; it returns nothing exactly when no item of
  -- the agenda has the wanted kind, is not skipped, and is no finished task and no past event.
  pub choose-none_iff :
      valid_kind kind ≡ true
      → (r : Option AgendaItem) × (choose self z items now current skipped kind ≡ ok r)
        × (r ≡ none ↔ ((x : AgendaItem) → In x items → ¬ IsWanted x))
  choose-none_iff h =
      let (r, returned, right) = choose-IsChoice self z items now current skipped kind h in
      (r, returned, on r returned right)
    where
      on :
          (r : Option AgendaItem)
          → choose self z items now current skipped kind ≡ ok r
          → IsChoice
              (candidate self z items now current skipped kind)
              (rank self z now current)
              items
              r
          → (r ≡ none ↔ ((x : AgendaItem) → In x items → ¬ IsWanted x))
      on none returned right = (
        λ _ x i w. let pass = candidate-of_IsWanted x w in let fails = right x i in absurd (cc),
        λ _. refl,
      )
      on (some item) returned right = (
        λ e. absurd (cc),
        λ nobody.
            let (listed, wanted, kept, may_act) = choose-IsOpen item returned in
            absurd (nobody item listed (wanted, kept, may_act)),
      )

  -- If the current task is a candidate, the chosen item is a task with the current id.
  pub choose_current :
      (item mine : AgendaItem) (t : Task)
      → choose self z items now current skipped kind ≡ ok (some item)
      → In mine items
      → candidate self z items now current skipped kind mine ≡ true
      → mine.value ≡ task t
      → is_current current (uid_of mine) ≡ true
      → (u : Task) × (item.value ≡ task u) × (uid_of item ≡ current)
  choose_current item mine t h i pass v c =
      let (_, _, least) = IsChoice-of_choose self z items now current skipped kind item h in
      let (rest, zero_rank) = current_rank self z now current mine t v c in
      let (u, w, d) =
        rank_zero self z now current item rest (rw zero_rank at (least mine i pass)) in
      (u, w, uid-of_is_current current (uid_of item) d)

  -- If an event that is going on is a candidate, the chosen item is the current task, or an event
  -- that is going on and starts no later.
  pub choose_ongoing :
      (item other : AgendaItem) (e : Event)
      → choose self z items now current skipped kind ≡ ok (some item)
      → In other items
      → candidate self z items now current skipped kind other ≡ true
      → other.value ≡ event e
      → event_ongoing z other e now ≡ true
      → ((t : Task) × (item.value ≡ task t) × (uid_of item ≡ current))
        ⊎ ((f : Event) × (item.value ≡ event f)
            × (event_ongoing z item f now ≡ true)
            × ((time_key z (event_start item f) now).wall
                ≤ (time_key z (event_start other e) now).wall))
  choose_ongoing item other e h i pass v going =
      let (_, _, least) = IsChoice-of_choose self z items now current skipped kind item h in
      let below =
        rw
          (
            rank_event self z now current other e v,
            event_rank_ongoing self z now current other e going,
          )
          at (least other i pass) in
      elim (Item-cases item.value) [
        | inl (t, w) ↦ inl (
          t,
          w,
          uid-of_is_current current (uid_of item) (
              task_rank_one self z now current item t _
                (rw (rank_task self z now current item t w) at below)),
        )
        | inr (f, w) ↦
            let (g, k) =
              event_rank_one self z now current item f _ _
                (rw (rank_event self z now current item f w) at below) in
            inr (f, w, g, k)
      ]
