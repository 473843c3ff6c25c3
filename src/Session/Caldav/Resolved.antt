-- ===== src/Session/Caldav/Resolved.antt =====
-- What `startup_snapshot` resolves.
use caldav_assistant_skeleto.Prelude.{
  ◌≡◌, refl, sym, ◌∙◌, inl, inr, String, Bool, true, false, not, ◌&&◌, Option, none, some, List, [],
  ◌∷◌, In, In-filter, subst, filter, elem, strip, is_blank, eq_iff, Bool-cases, ◌==◌, arith,
}
use caldav_assistant_skeleto.Api.{Task, Result, ok, err}
use caldav_assistant_skeleto.Sync.Transport.{and_then}
use caldav_assistant_skeleto.Session.Caldav.{
  Answers, WorkFacts, StartupSnapshot, latest_activity_action, starts, pauses, holds,
  is_in_progress, ids_where, sole_id, from_keys, facts_of, from_facts, is_not_current, paused_of,
  resolved, is_started, is_paused, startup_snapshot,
}

In-ids_where :
    (p : String → Bool) (ts : List Task) (id : String)
    → In id (ids_where p ts)
    → (p id ≡ true) × (t : Task) × In t ts × (strip t.id ≡ id)
unfolding ids_where
In-ids_where p [] id i = absurd i
In-ids_where p (t ∷ ts) id i = elim (Bool-cases (not (is_blank (strip t.id)) && p (strip t.id))) [
  | inl e ↦
      let j : In id (strip t.id ∷ ids_where p ts) = rw e at i in
      elim j [
        | inl same ↦
            (let here : p (strip t.id) ≡ true = ground arith in rw same at here, t, inl refl, same)
        | inr k ↦ let (h, u, l, eu) = In-ids_where p ts id k in (h, u, inr l, eu)
      ]
  | inr e ↦
      let j : In id (ids_where p ts) = rw e at i in
      let (h, u, l, eu) = In-ids_where p ts id j in (h, u, inr l, eu)
]

In-from_keys : (xs : List String) (x : String) → In x (from_keys xs) → In x xs
unfolding from_keys
In-from_keys [] x i = i
In-from_keys (y ∷ ys) x (inl e) = inl e
In-from_keys (y ∷ ys) x (inr i) =
    inr (In-from_keys ys x (In-filter (λ z. not (z == y)) (from_keys ys) x i).0)

-- No text stands twice in the list.
abbrev pub IsDistinct : List String → Type 0
IsDistinct [] = Unit
IsDistinct (x ∷ xs) = (elem x xs ≡ false) × IsDistinct xs

elem-filter :
    (p : String → Bool) (x : String) (xs : List String)
    → elem x xs ≡ false
    → elem x (filter p xs) ≡ false
unfolding filter
elem-filter p x [] h = refl
elem-filter p x (y ∷ ys) h = elim (Bool-cases (p y)) [
  | inl e ↦ rw e (ground (arith, elem-filter p x ys))
  | inr e ↦ rw e (elem-filter p x ys (ground arith))
]

IsDistinct-filter :
    (p : String → Bool) (xs : List String) → IsDistinct xs → IsDistinct (filter p xs)
unfolding filter
IsDistinct-filter p [] d = tt
IsDistinct-filter p (x ∷ xs) (h, d) = elim (Bool-cases (p x)) [
  | inl e ↦ rw e (elem-filter p x xs h, IsDistinct-filter p xs d)
  | inr e ↦ rw e (IsDistinct-filter p xs d)
]

elem-without : (x : String) (xs : List String) → elem x (filter (λ y. not (y == x)) xs) ≡ false
unfolding filter
elem-without x [] = refl
elem-without x (y ∷ ys) = elim (Bool-cases (y == x)) [
  | inl e ↦ rw e (elem-without x ys)
  | inr e ↦ rw e (rw e (elem-without x ys))
]

IsDistinct-from_keys : (xs : List String) → IsDistinct (from_keys xs)
unfolding from_keys
IsDistinct-from_keys [] = tt
IsDistinct-from_keys (x ∷ xs) = (
  elem-without x (from_keys xs),
  IsDistinct-filter (λ y. not (y == x)) (from_keys xs) (IsDistinct-from_keys xs),
)

-- A paused id is not the current one, and is the id of a task in progress.
abbrev pub IsPaused : List Task → Option String → String → Type 0
IsPaused tasks current id =
    (is_not_current current id ≡ true)
    × (t : Task) × In t tasks
    × (is_in_progress t ≡ true)
    × (strip t.id ≡ id)

abbrev pub IsResolved : List Task → StartupSnapshot → Type 0
IsResolved tasks s =
    IsDistinct s.paused_task_ids
    × ((id : String) → In id s.paused_task_ids → IsPaused tasks s.current_task_id id)

-- A list of ids that pass a test which the current id fails.
resolved-IsResolved :
    (p : String → Bool) (tasks : List Task) (current : Option String)
    → ((id : String) → p id ≡ true → is_not_current current id ≡ true)
    → IsResolved tasks (resolved tasks current (ids_where p (filter is_in_progress tasks)))
resolved-IsResolved p tasks current other =
    let ids = ids_where p (filter is_in_progress tasks) in
    (
      IsDistinct-from_keys ids,
      λ id i.
          let (h, t, j, same) =
            In-ids_where p (filter is_in_progress tasks) id (In-from_keys ids id i) in
          let (k, running) = In-filter is_in_progress tasks t j in
          (other id h, t, k, running, same),
    )

starts-pauses : (o : Option String) → holds starts o ≡ true → holds pauses o ≡ false
starts-pauses none h = refl
starts-pauses (some x) h = elim (Bool-cases (pauses x)) [
  | inl e ↦
      let same : x ≡ "task_paused" = (eq_iff x "task_paused").0 e in
      let h' : false ≡ true = rw same at h in absurd (cc)
  | inr e ↦ e
]

-- An id that was found to be the only one is in the list.
sole_id-In : (ids : List String) (id : String) → sole_id ids ≡ ok (some id) → In id ids
sole_id-In [] id h = absurd (cc)
sole_id-In (x ∷ []) id h = let same : x ≡ id = cc in inl same
sole_id-In (x ∷ y ∷ ids) id h = absurd (cc)

paused-is_not_current :
    (a : Answers) (running : List Task) (current : Option String)
    → sole_id (ids_where (is_started a) running) ≡ ok current
    → (id : String) → is_paused a id ≡ true
    → is_not_current current id ≡ true
unfolding is_started is_paused
paused-is_not_current a running none h id k = refl
paused-is_not_current a running (some c) h id k = elim (Bool-cases (id == c)) [
  | inl e ↦
      let same : id ≡ c = (eq_iff id c).0 e in
      let found = In-ids_where (is_started a) running c (sole_id-In _ c h) in
      let k' : holds pauses (latest_activity_action (a.history c)) ≡ true = rw same at k in
      let l = starts-pauses (latest_activity_action (a.history c)) found.0 in absurd (cc)
  | inr e ↦ rw e refl
]

from_facts-IsResolved :
    (tasks : List Task) (facts : WorkFacts)
    → IsResolved tasks
        (resolved tasks facts.current_task_id (paused_of facts (filter is_in_progress tasks)))
from_facts-IsResolved tasks facts =
    resolved-IsResolved _ tasks facts.current_task_id (λ id h. ground arith)

read-IsResolved :
    (tasks : List Task) (r : Result WorkFacts) (s : StartupSnapshot)
    → and_then r (from_facts tasks) ≡ ok s
    → IsResolved tasks s
read-IsResolved tasks (ok facts) s h =
    let same : resolved tasks facts.current_task_id (paused_of facts (filter is_in_progress tasks))
        ≡ s =
      cc in
    subst (IsResolved tasks) same (from_facts-IsResolved tasks facts)
read-IsResolved tasks (err e) s h = absurd (cc)

journal-IsResolved :
    (a : Answers) (tasks : List Task) (r : Result (Option String)) (s : StartupSnapshot)
    → sole_id (ids_where (is_started a) (filter is_in_progress tasks)) ≡ r
    → and_then r (λ current.
      ok (resolved tasks current (ids_where (is_paused a) (filter is_in_progress tasks))))
      ≡ ok s
    → IsResolved tasks s
journal-IsResolved a tasks (ok current) s e h =
    let same : resolved tasks current (ids_where (is_paused a) (filter is_in_progress tasks)) ≡ s =
      cc in
    subst (IsResolved tasks) same (
      resolved-IsResolved (is_paused a) tasks current
        (paused-is_not_current a (filter is_in_progress tasks) current e))
journal-IsResolved a tasks (err x) s e h = absurd (cc)

and_then_assoc :
    {A B C : Type 0} (r : Result A) (f : A → Result B) (g : B → Result C)
    → and_then r (λ x. and_then (f x) g) ≡ and_then (and_then r f) g
and_then_assoc (ok x) f g = refl
and_then_assoc (err e) f g = refl

-- Where `startup_snapshot` returns, with facts given, from the work log, or from the journal, no
-- paused id stands twice, none is the current one, and each is the id of a given task in progress.
pub startup_snapshot-IsResolved :
    (a : Answers) (tasks : List Task) (given : Option WorkFacts) (s : StartupSnapshot)
    → startup_snapshot a tasks given ≡ ok s
    → IsResolved tasks s
unfolding startup_snapshot
startup_snapshot-IsResolved a tasks given s h = elim (Bool-cases a.configured) [
  | inl e ↦ configured given (rw e at h)
  | inr e ↦ journal-IsResolved a tasks _ s refl (rw e at h)
]
  where
    configured :
        (given : Option WorkFacts)
        → elim given [
          | some facts ↦ from_facts tasks facts
          | none ↦
              and_then a.work_events (λ events. and_then (facts_of true events) (from_facts tasks))
        ]
          ≡ ok s
        → IsResolved tasks s
    configured (some facts) k = read-IsResolved tasks (ok facts) s k
    configured none k =
        read-IsResolved tasks (and_then a.work_events (facts_of true)) s
          (sym (and_then_assoc a.work_events (facts_of true) (from_facts tasks)) ∙ k)
