-- ===== src/Reminders/Schedule/Unique.antt =====
-- One request for each key: what `evaluate` keeps of the requests that it makes.
use caldav_assistant_skeleto.Prelude.{
  ◌≡◌, refl, ap, ◌∙◌, ◌⊎◌, inl, inr, String, true, false, List, [], ◌∷◌, ◌++◌, any, ◌||◌, ℕ,
  if◌then◌else◌, ◌==◌, eq_iff, arith, Bool-cases, In, In-append, In-append_left, In-append_right,
}
use caldav_assistant_skeleto.Prelude.Sort.{
  IsSorted, sorted, insert, tuple_leb, sorted-IsSorted, In-sorted, In-sorted_of,
}
use caldav_assistant_skeleto.Temporal.{Datetime}
use caldav_assistant_skeleto.Api.{Task, Event}
use caldav_assistant_skeleto.Reminders.{
  NotificationRequest, Reminder, Rule, Host, clock_of, zone_of,
}
use caldav_assistant_skeleto.Reminders.Schedule.{
  has_key, unique, schedule_key, requests_of, evaluate,
}

-- No key stands at two places of the list.
abbrev pub KeyUnique : List NotificationRequest → Type 0
KeyUnique [] = Unit
KeyUnique (r ∷ rs) = (has_key rs r.key ≡ false) × KeyUnique rs

In-has_key :
    (rs : List NotificationRequest) (key : String)
    → has_key rs key ≡ true
    → (q : NotificationRequest) × In q rs × (q.key ≡ key)
unfolding any
In-has_key [] key h = absurd (cc)
In-has_key (q ∷ rs) key h = elim (Bool-cases (q.key == key)) [
  | inl e ↦ (q, inl refl, (eq_iff q.key key).0 e)
  | inr e ↦ let (p, i, k) = In-has_key rs key (ground arith) in (p, inr i, k)
]

has_key-append :
    (rs : List NotificationRequest) (r : NotificationRequest) (key : String)
    → has_key (rs ++ r ∷ []) key ≡ (has_key rs key || r.key == key)
unfolding any
has_key-append [] r key = ground arith
has_key-append (q ∷ rs) r key = ground (arith, has_key-append rs r key)

KeyUnique-snoc :
    (rs : List NotificationRequest) (r : NotificationRequest)
    → KeyUnique rs
    → has_key rs r.key ≡ false
    → KeyUnique (rs ++ r ∷ [])
unfolding any
KeyUnique-snoc [] r u h = (refl, tt)
KeyUnique-snoc (q ∷ rs) r (alone, u) h = (
  ground (arith, has_key-append rs r q.key, eq_iff r.key q.key, eq_iff q.key r.key),
  KeyUnique-snoc rs r u (ground arith),
)

module _ (order : NotificationRequest → List ℕ) where
  has_key-insert :
      (r : NotificationRequest) (rs : List NotificationRequest) (key : String)
      → has_key (insert order r rs) key ≡ (r.key == key || has_key rs key)
  unfolding any insert
  has_key-insert r [] key = refl
  has_key-insert r (q ∷ rs) key = elim (Bool-cases (tuple_leb (order r) (order q))) [
    | inl e ↦ rw e refl
    | inr e ↦ rw (e, has_key-insert r rs key) (ground arith)
  ]

  KeyUnique-insert :
      (r : NotificationRequest) (rs : List NotificationRequest)
      → has_key rs r.key ≡ false
      → KeyUnique rs
      → KeyUnique (insert order r rs)
  unfolding any insert
  KeyUnique-insert r [] h u = (refl, tt)
  KeyUnique-insert r (q ∷ rs) h (alone, u) = elim (Bool-cases (tuple_leb (order r) (order q))) [
    | inl e ↦ rw e (h, (alone, u))
    | inr e ↦ rw e (
      ground (arith, has_key-insert r rs q.key, eq_iff r.key q.key, eq_iff q.key r.key),
      KeyUnique-insert r rs (ground arith) u,
    )
  ]

  has_key-sorted :
      (rs : List NotificationRequest) (key : String)
      → has_key (sorted order rs) key ≡ has_key rs key
  unfolding any sorted
  has_key-sorted [] key = refl
  has_key-sorted (r ∷ rs) key =
      has_key-insert r (sorted order rs) key ∙ ap (λ b. r.key == key || b) (has_key-sorted rs key)

  KeyUnique-sorted : (rs : List NotificationRequest) → KeyUnique rs → KeyUnique (sorted order rs)
  unfolding sorted
  KeyUnique-sorted [] u = tt
  KeyUnique-sorted (r ∷ rs) (alone, u) =
      KeyUnique-insert r (sorted order rs) (has_key-sorted rs r.key ∙ alone) (KeyUnique-sorted rs u)

unique-KeyUnique :
    (kept rs : List NotificationRequest) → KeyUnique kept → KeyUnique (unique kept rs)
unfolding unique
unique-KeyUnique kept [] u = u
unique-KeyUnique kept (r ∷ rs) u = elim (Bool-cases (has_key kept r.key)) [
  | inl e ↦ rw e (unique-KeyUnique kept rs u)
  | inr e ↦ rw e (unique-KeyUnique (kept ++ r ∷ []) rs (KeyUnique-snoc kept r u e))
]

In-unique :
    (kept rs : List NotificationRequest) (q : NotificationRequest)
    → In q (unique kept rs)
    → In q kept ⊎ In q rs
unfolding unique
In-unique kept [] q i = inl i
In-unique kept (r ∷ rs) q i = elim (Bool-cases (has_key kept r.key)) [
  | inl e ↦ elim (In-unique kept rs q (rw e at i)) [ inl k ↦ inl k | inr k ↦ inr (inr k) ]
  | inr e ↦ elim (In-unique (kept ++ r ∷ []) rs q (rw e at i)) [
    | inl k ↦ elim (In-append kept (r ∷ []) q k) [
      | inl l ↦ inl l
      | inr (inl same) ↦ inr (inl same)
      | inr (inr none_left) ↦ absurd none_left
    ]
    | inr k ↦ inr (inr k)
  ]
]

-- What is kept stays.
In-unique_kept :
    (kept rs : List NotificationRequest) (q : NotificationRequest)
    → In q kept
    → In q (unique kept rs)
unfolding unique
In-unique_kept kept [] q i = i
In-unique_kept kept (r ∷ rs) q i = elim (Bool-cases (has_key kept r.key)) [
  | inl e ↦ rw e (In-unique_kept kept rs q i)
  | inr e ↦ rw e (In-unique_kept (kept ++ r ∷ []) rs q (In-append_left kept (r ∷ []) q i))
]

-- No key is lost.
In-unique_of :
    (kept rs : List NotificationRequest) (r : NotificationRequest)
    → In r rs
    → (q : NotificationRequest) × In q (unique kept rs) × (q.key ≡ r.key)
unfolding unique
In-unique_of kept [] x i = absurd i
In-unique_of kept (r ∷ rs) x (inr i) =
    In-unique_of (if has_key kept r.key then kept else kept ++ r ∷ []) rs x i
In-unique_of kept (r ∷ rs) x (inl same) = elim (Bool-cases (has_key kept r.key)) [
  | inl e ↦
      let (q, i, k) = In-has_key kept r.key e in
      rw e (q, In-unique_kept kept rs q i, k ∙ ap (λ (y : NotificationRequest). y.key) same)
  | inr e ↦ rw e (
    r,
    In-unique_kept (kept ++ r ∷ []) rs r (In-append_right kept (r ∷ []) r (inl refl)),
    ap (λ (y : NotificationRequest). y.key) same,
  )
]

module _ (host : Host) (tasks : List Task) (events : List Event) (reminders : List Reminder)
    (now : Datetime) (rules : List Rule) where
  abbrev pub made : List NotificationRequest
  made = requests_of host tasks events reminders (clock_of host.zones now) rules

  -- The requests of an evaluation are sorted by instant and key, no key stands at two of its
  -- places, each is one that the reminders, tasks, events and rules make, and each key that these
  -- make is there.
  pub evaluate_lem :
      IsSorted
        (schedule_key host.zones (zone_of host.zones (clock_of host.zones now)))
        (evaluate host tasks events reminders now rules)
      × KeyUnique (evaluate host tasks events reminders now rules)
      × ((q : NotificationRequest)
          → In q (evaluate host tasks events reminders now rules)
          → In q made)
      × ((r : NotificationRequest)
          → In r made
          → (q : NotificationRequest) × In q (evaluate host tasks events reminders now rules)
            × (q.key ≡ r.key))
  unfolding evaluate
  evaluate_lem =
      let key = schedule_key host.zones (zone_of host.zones (clock_of host.zones now)) in
      let kept = unique [] made in
      let alone : KeyUnique kept = unique-KeyUnique [] made tt in
      (
        sorted-IsSorted key kept,
        KeyUnique-sorted key kept alone,
        λ q i. elim (In-unique [] made q (In-sorted key kept q i)) [
          | inl none_left ↦ absurd none_left
          | inr k ↦ k
        ],
        λ r i. let (q, j, k) = In-unique_of [] made r i in (q, In-sorted_of key kept q j, k),
      )
