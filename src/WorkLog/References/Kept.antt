-- ===== src/WorkLog/References/Kept.antt =====
-- References do not hide the task of a work interval.
use Prim.Native.Char.{Char, code}
use mathlib.Core.List.{append_assoc, append-nil}
use caldav_assistant_skeleto.Prelude.{
  ◌≡◌, refl, sym, ◌∙◌, inl, inr, String, true, false, ◌&&◌, none, some, List, [], ◌∷◌, ◌++◌, All,
  append, elem, eqb, first_line, starts_line, is_break, splitlines, strip, Bool-cases, Option-cases,
  ◌==◌, arith,
}
use caldav_assistant_skeleto.Api.{Event}
use caldav_assistant_skeleto.Sync.Rows.{Fetched}
use caldav_assistant_skeleto.WorkLog.{
  task_id_from_event, id_under, id_in, behind, task_prefix, description_header,
}
use caldav_assistant_skeleto.WorkLog.Description.{is_one_line, splitlines_one}
use caldav_assistant_skeleto.WorkLog.References.{with_lines, join_lines, referenced}

-- A line, a line feed, and the lines behind it.
splitlines-append :
    (l rest : String)
    → is_one_line l ≡ true
    → splitlines (append l (append "\n" rest)) ≡ l ∷ splitlines rest
unfolding splitlines is_break
splitlines-append String.[] rest h = refl
splitlines-append (String.◌∷◌ c s) rest h = elim (Bool-cases (is_break (code c))) [
  | inl e ↦ absurd (ground arith)
  | inr e ↦ let h' : is_one_line s ≡ true = rw e at h in rw (e, splitlines-append s rest h') refl
]

is_one_line-first_line :
    (c : Char) (ls : List String)
    → is_break (code c) ≡ false
    → All (λ l. is_one_line l ≡ true) ls
    → All (λ l. is_one_line l ≡ true) (first_line c ls)
is_one_line-first_line c [] e h = (rw e refl, tt)
is_one_line-first_line c (l ∷ ls) e (h, hs) = (rw (e, h) refl, hs)

is_one_line-splitlines : (s : String) → All (λ l. is_one_line l ≡ true) (splitlines s)
unfolding splitlines
is_one_line-splitlines String.[] = tt
is_one_line-splitlines (String.◌∷◌ c s) = elim (Bool-cases (is_break (code c))) [
  | inl e ↦ rw e (elim (Bool-cases (eqb (code c) 13 && starts_line s)) [
    | inl f ↦ rw f (is_one_line-splitlines s)
    | inr f ↦ rw f (refl, is_one_line-splitlines s)
  ])
  | inr e ↦ rw e (is_one_line-first_line c (splitlines s) e (is_one_line-splitlines s))
]

id_in-cons :
    {id : String} (l : String) (ls ms : List String)
    → (id_in ls ≡ some id → id_in ms ≡ some id)
    → id_in (l ∷ ls) ≡ some id
    → id_in (l ∷ ms) ≡ some id
id_in-cons {id} l ls ms f h = elim (Option-cases (behind task_prefix l)) [
  | inl e ↦ let h' : id_in ls ≡ some id = rw e at h in rw e (f h')
  | inr (v, e) ↦ let h' : id_in (l ∷ ms) ≡ some id = rw e (rw e at h) in h'
]

id_in-join_lines :
    {id : String} (ls ms : List String)
    → All (λ l. is_one_line l ≡ true) ls
    → id_in ls ≡ some id
    → id_in (splitlines (join_lines (ls ++ ms))) ≡ some id
unfolding join_lines splitlines
id_in-join_lines [] ms o h = absurd (cc)
id_in-join_lines (String.[] ∷ []) [] o h = absurd (cc)
id_in-join_lines ((String.◌∷◌ c s) ∷ []) [] (o, os) h = rw (splitlines_one c s o) h
id_in-join_lines (l ∷ []) (m ∷ ms) (o, os) h =
    rw (splitlines-append l (join_lines (m ∷ ms)) o)
      (id_in-cons l [] (splitlines (join_lines (m ∷ ms))) (λ e. absurd (cc)) h)
id_in-join_lines (l ∷ k ∷ ls) ms (o, os) h =
    rw (splitlines-append l (join_lines (k ∷ ls ++ ms)) o) (
      id_in-cons l (k ∷ ls) (splitlines (join_lines (k ∷ ls ++ ms)))
        (id_in-join_lines (k ∷ ls) ms os) h)

id_under-join_header :
    {id : String} (first : String) (ls ms : List String)
    → (strip first == description_header) ≡ true
    → is_one_line first ≡ true
    → All (λ l. is_one_line l ≡ true) ls
    → id_in ls ≡ some id
    → id_under (splitlines (join_lines (first ∷ ls ++ ms))) ≡ some id
unfolding join_lines
id_under-join_header first [] ms e o os h = absurd (cc)
id_under-join_header first (k ∷ ls) ms e o os h =
    rw (splitlines-append first (join_lines (k ∷ ls ++ ms)) o)
      (rw e (id_in-join_lines (k ∷ ls) ms os h))

id_under-join_lines :
    {id : String} (ls ms : List String)
    → All (λ l. is_one_line l ≡ true) ls
    → id_under ls ≡ some id
    → id_under (splitlines (join_lines (ls ++ ms))) ≡ some id
id_under-join_lines [] ms o h = absurd (cc)
id_under-join_lines {id} (first ∷ ls) ms (o, os) h =
    elim (Bool-cases (strip first == description_header)) [
      | inl e ↦
          let h' : id_in ls ≡ some id = rw e at h in id_under-join_header first ls ms e o os h'
      | inr e ↦ let h' : none ≡ some id = rw e at h in absurd (cc)
    ]

with_lines_lem :
    (ls more : List String) → (extra : List String) × (with_lines ls more ≡ ls ++ extra)
unfolding with_lines
with_lines_lem ls [] = ([], sym (append-nil ls))
with_lines_lem ls (m ∷ more) = elim (Bool-cases (elem m ls)) [
  | inl e ↦ rw e (with_lines_lem ls more)
  | inr e ↦
      let (extra, h) = with_lines_lem (ls ++ m ∷ []) more in
      (m ∷ extra, rw e (h ∙ append_assoc ls (m ∷ []) extra))
]

-- Where the interval `e` names its task, the interval `kept` names the same task: one that has the
-- description of `e` with any references written below it, lines that are there already left out.
pub task_id_from_event-referenced :
    (e kept : Fetched Event) (more : List String) (id : String)
    → task_id_from_event e ≡ some id
    → kept.value.description ≡ referenced e.value.description more
    → task_id_from_event kept ≡ some id
unfolding task_id_from_event referenced
task_id_from_event-referenced e kept more id h d =
    let ls = splitlines e.value.description in
    let (extra, same) = with_lines_lem ls more in
    rw (d, same) (id_under-join_lines ls extra (is_one_line-splitlines e.value.description) h)
