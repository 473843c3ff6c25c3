-- ===== src/Agenda/Build/Order.antt =====
-- The order of an agenda: current work, then overdue tasks, then the rest by day and time.
use caldav_assistant_skeleto.Prelude.{
  ℕ, suc, ◌≤◌, ◌≡◌, Bool, false, ◌||◌, if◌then◌else◌, refl, subst, subst₂, String, true, Option,
  List, [], ◌∷◌, All,
}
use caldav_assistant_skeleto.Prelude.Sort.{tuple_leb, Before, IsSorted}
use caldav_assistant_skeleto.Temporal.{Datetime, Zones}
use caldav_assistant_skeleto.Api.{Task, Event, Item, AgendaItem, task, event, ok}
use caldav_assistant_skeleto.Agenda.Build.{
  Upper, Request, request, entries, ordered, build, task_group, when_sort_key, task_is_current,
  task_is_overdue,
}
use caldav_assistant_skeleto.Agenda.Build.Sorted.{agenda_key, ordered-IsSorted}
use caldav_assistant_skeleto.Agenda.Build.Moment.{moment, when_sort_key-IsMoment, moment_le}

abbrev pub is_current_item : Request → AgendaItem → Bool
is_current_item q x = elim x.value [ task t ↦ task_is_current q t | event e ↦ false ]

abbrev pub is_overdue_item : Request → AgendaItem → Bool
is_overdue_item q x = elim x.value [ task t ↦ task_is_overdue q t | event e ↦ false ]

abbrev pub is_urgent : Request → AgendaItem → Bool
is_urgent q x = is_current_item q x || is_overdue_item q x

-- What it means that one item may stand above another: if the lower one is the current task, so is
-- the upper one; if the lower one is current or overdue, so is the upper one; and of two that are
-- alike in both, the upper one has no later moment.
abbrev pub Precedes : Request → AgendaItem → AgendaItem → Type 0
Precedes q x y =
    (is_current_item q y ≡ true → is_current_item q x ≡ true)
    × (is_urgent q y ≡ true → is_urgent q x ≡ true)
    × (is_current_item q x ≡ is_current_item q y
        → is_urgent q x ≡ is_urgent q y
        → moment q.zones x.when q.now ≤ moment q.zones y.when q.now)

-- Each item may stand above all that follow it.
abbrev pub InOrder : Request → List AgendaItem → Type 0
InOrder q [] = Unit
InOrder q (x ∷ xs) = All (Precedes q x) xs × InOrder q xs

-- The group of an item, by what it is.
abbrev group_of : Bool → Bool → ℕ
group_of current overdue = if current then 0 else if overdue then 1 else 2

agenda_key-group_of :
    (q : Request) (x : AgendaItem)
    → agenda_key q x
      ≡ group_of (is_current_item q x) (is_overdue_item q x) ∷ when_sort_key q.zones x.when q.now
unfolding task_group
agenda_key-group_of q x = on x.value
  where
    on :
        (v : Item)
        → elim v [
          | task t ↦ task_group q t ∷ when_sort_key q.zones x.when q.now
          | event e ↦ 2 ∷ when_sort_key q.zones x.when q.now
        ]
          ≡ group_of
              (elim v [ task t ↦ task_is_current q t | event e ↦ false ])
              (elim v [ task t ↦ task_is_overdue q t | event e ↦ false ])
            ∷ when_sort_key q.zones x.when q.now
    on (task t) = refl
    on (event e) = refl

group_of_lem :
    (c o c' o' : Bool) (k l : List ℕ)
    → tuple_leb (group_of c o ∷ k) (group_of c' o' ∷ l) ≡ true
    → (c' ≡ true → c ≡ true)
      × ((c' || o') ≡ true → (c || o) ≡ true)
      × (c ≡ c' → (c || o) ≡ (c' || o') → tuple_leb k l ≡ true)
unfolding tuple_leb
group_of_lem true o true o' k l h = (λ _. refl, λ _. refl, λ _ _. h)
group_of_lem true o false o' k l h = (λ _. refl, λ _. refl, λ e. absurd (cc))
group_of_lem false true true o' k l h = absurd (cc)
group_of_lem false false true o' k l h = absurd (cc)
group_of_lem false true false true k l h = (λ e. e, λ _. refl, λ _ _. h)
group_of_lem false true false false k l h = (λ e. e, λ _. refl, λ _ e. absurd (cc))
group_of_lem false false false true k l h = absurd (cc)
group_of_lem false false false false k l h = (λ e. e, λ e. e, λ _ _. h)

Precedes-of_Before : (q : Request) (x y : AgendaItem) → Before (agenda_key q) x y → Precedes q x y
Precedes-of_Before q x y h =
    let (current, urgent, later) =
      group_of_lem (is_current_item q x) (is_overdue_item q x) (is_current_item q y)
        (is_overdue_item q y) (when_sort_key q.zones x.when q.now)
        (when_sort_key q.zones y.when q.now)
        (subst₂ (λ k l. tuple_leb k l ≡ true) (agenda_key-group_of q x) (agenda_key-group_of q y)
          h) in
    (
      current,
      urgent,
      λ e f.
          moment_le _ _ _ _ (when_sort_key-IsMoment q.zones x.when q.now)
            (when_sort_key-IsMoment q.zones y.when q.now) (later e f),
    )

All-Precedes :
    (q : Request) (x : AgendaItem) (xs : List AgendaItem)
    → All (Before (agenda_key q) x) xs
    → All (Precedes q x) xs
All-Precedes q x [] h = tt
All-Precedes q x (y ∷ ys) (h, hs) = (Precedes-of_Before q x y h, All-Precedes q x ys hs)

InOrder-of_IsSorted :
    (q : Request) (xs : List AgendaItem) → IsSorted (agenda_key q) xs → InOrder q xs
InOrder-of_IsSorted q [] h = tt
InOrder-of_IsSorted q (x ∷ xs) (h, hs) = (All-Precedes q x xs h, InOrder-of_IsSorted q xs hs)

-- In an agenda no item stands above the current task but that task, and none above an overdue task
-- but the current task and overdue ones; items that are alike in both stand by day, on a day those
-- without a time first, and then by the time of day.
pub build-InOrder :
    (upper : Upper) (z : Zones) (tasks : List Task) (events : List Event) (n : ℕ) (now : Datetime)
    (state : Option String) (agenda : List AgendaItem)
    → build upper z tasks events (suc n) now state ≡ ok agenda
    → InOrder (request upper z (suc n) now state) agenda
unfolding build
build-InOrder upper z tasks events n now state agenda h =
    let q : Request = request upper z (suc n) now state in
    let same : ordered (entries q tasks events) ≡ agenda = cc in
    subst (InOrder q) same
      (InOrder-of_IsSorted q (ordered (entries q tasks events)) (ordered-IsSorted q tasks events))
