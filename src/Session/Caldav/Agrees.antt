-- ===== src/Session/Caldav/Agrees.antt =====
-- The two readings of the current task from the journal.
use caldav_assistant_skeleto.Prelude.{
  ◌≡◌, refl, ap, inl, inr, String, true, false, not, ◌&&◌, ◌||◌, Option, List, [], ◌∷◌, All, filter,
  elem, strip, is_blank, eq_iff, Bool-cases, if◌then◌else◌, ◌==◌, arith,
}
use caldav_assistant_skeleto.Api.{Task, Result, ok, err}
use caldav_assistant_skeleto.Sync.Transport.{and_then}
use caldav_assistant_skeleto.Session.Caldav.{
  Answers, WorkFacts, StartupSnapshot, is_in_progress, ids_where, sole_id, is_started, is_paused,
  current_loop, startup_snapshot, current_task_id, resolved,
}

abbrev pub InProgress : List Task → Type 0
InProgress ts = All (λ t. is_in_progress t ≡ true) ts

filter-InProgress : (ts : List Task) → InProgress ts → filter is_in_progress ts ≡ ts
unfolding filter
filter-InProgress [] h = refl
filter-InProgress (t ∷ ts) (h, hs) = rw (h, filter-InProgress ts hs) refl

-- the ids that the loop has seen, when it has found none
abbrev NoneCurrent : Answers → List String → Type 0
NoneCurrent a seen = All (λ id. is_started a id ≡ false) seen

elem-seen :
    (a : Answers) (seen : List String) (id : String)
    → NoneCurrent a seen
    → is_started a id ≡ true
    → elem id seen ≡ false
elem-seen a [] id h k = refl
elem-seen a (x ∷ xs) id (h, hs) k = elim (Bool-cases (x == id)) [
  | inl e ↦
      let same : x ≡ id = (eq_iff x id).0 e in
      let h' : is_started a id ≡ false = rw same at h in absurd (cc)
  | inr e ↦ rw (e, elem-seen a xs id hs k) refl
]

current_loop_none :
    (a : Answers) (seen : List String) (ts : List Task)
    → ids_where (is_started a) ts ≡ []
    → current_loop a seen ts ≡ []
unfolding ids_where current_loop
current_loop_none a seen [] h = refl
current_loop_none a seen (t ∷ ts) h =
    elim (Bool-cases (not (is_blank (strip t.id)) && is_started a (strip t.id))) [
      | inl e ↦ let h' : strip t.id ∷ ids_where (is_started a) ts ≡ [] = rw e at h in absurd (cc)
      | inr e ↦
          let h' : ids_where (is_started a) ts ≡ [] = rw e at h in
          let rest =
            current_loop_none a
              (if is_blank (strip t.id) || elem (strip t.id) seen || t.completed
                then seen
                else strip t.id ∷ seen)
              ts h' in
          ground (arith, rest)
    ]

not_completed : (t : Task) → is_in_progress t ≡ true → t.completed ≡ false
not_completed t h = ground arith

current_loop_one :
    (a : Answers) (seen : List String) (ts : List Task) (c : Option String)
    → InProgress ts
    → NoneCurrent a seen
    → sole_id (ids_where (is_started a) ts) ≡ ok c
    → current_loop a seen ts ≡ ids_where (is_started a) ts
unfolding ids_where current_loop
current_loop_one a seen [] c p n h = refl
current_loop_one a seen (t ∷ ts) c (p, ps) n h = elim (Bool-cases (is_blank (strip t.id))) [
  | inl b ↦
      let h' : sole_id (ids_where (is_started a) ts) ≡ ok c = rw b at h in
      rw b (current_loop_one a seen ts c ps n h')
  | inr b ↦ elim (Bool-cases (is_started a (strip t.id))) [
    | inl k ↦
        let h' : sole_id (strip t.id ∷ ids_where (is_started a) ts) ≡ ok c = rw (b, k) at h in
        let rest = sole_rest (strip t.id) (ids_where (is_started a) ts) c h' in
        rw (b, k, elem-seen a seen (strip t.id) n k, not_completed t p)
          (rw (current_loop_none a (strip t.id ∷ seen) ts rest, rest) refl)
    | inr k ↦
        let h' : sole_id (ids_where (is_started a) ts) ≡ ok c = rw (b, k) at h in
        elim (Bool-cases (elem (strip t.id) seen)) [
          | inl e ↦ rw (b, k, e) (current_loop_one a seen ts c ps n h')
          | inr e ↦
              rw (b, k, e, not_completed t p)
                (current_loop_one a (strip t.id ∷ seen) ts c ps (k, n) h')
        ]
  ]
]
  where
    sole_rest :
        (id : String) (ids : List String) (c : Option String) → sole_id (id ∷ ids) ≡ ok c → ids ≡ []
    sole_rest id [] c h = refl
    sole_rest id (k ∷ ids) c h = absurd (cc)

journal_current :
    (a : Answers) (r : Result (Option String)) (tasks : List Task) (paused : List String)
    (s : StartupSnapshot)
    → and_then r (λ current. ok (resolved tasks current paused)) ≡ ok s
    → r ≡ ok s.current_task_id
journal_current a (ok current) tasks paused s h =
    let same : resolved tasks current paused ≡ s = cc in ap (λ x. ok x.current_task_id) same
journal_current a (err e) tasks paused s h = absurd (cc)

-- Without a work log, and for tasks in progress: where `startup_snapshot` returns, `current_task_id`
-- returns the same current id.
pub startup_snapshot-current_task_id :
    (a : Answers) (given : Option WorkFacts) (s : StartupSnapshot)
    → a.configured ≡ false
    → InProgress a.in_progress
    → startup_snapshot a a.in_progress given ≡ ok s
    → current_task_id a ≡ ok s.current_task_id
unfolding startup_snapshot current_task_id
startup_snapshot-current_task_id a given s e p h =
    let ids = ids_where (is_started a) a.in_progress in
    let paused = ids_where (is_paused a) a.in_progress in
    let h' : and_then (sole_id ids) (λ current. ok (resolved a.in_progress current paused)) ≡ ok s =
      rw (e, filter-InProgress a.in_progress p) at h in
    let found = journal_current a (sole_id ids) a.in_progress paused s h' in
    rw e (rw (current_loop_one a [] a.in_progress s.current_task_id p tt found) found)
