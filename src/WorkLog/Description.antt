-- ===== src/WorkLog/Description.antt =====
-- The description of a work interval, which names its task.
use Prim.Native.Char.{Char, code}
use caldav_assistant_skeleto.Prelude.{
  ◌≡◌, refl, inl, inr, String, Bool, true, false, not, ◌&&◌, some, [], ◌∷◌, append, is_break,
  splitlines, strip, is_blank, Bool-cases, arith,
}
use caldav_assistant_skeleto.Api.{Event}
use caldav_assistant_skeleto.Sync.Rows.{Fetched}
use caldav_assistant_skeleto.WorkLog.{description_of, task_id_from_event}

-- No character of the text ends a line.
abbrev pub is_one_line : String → Bool
is_one_line String.[] = true
is_one_line (String.◌∷◌ c s) = not (is_break (code c)) && is_one_line s

pub splitlines_one :
    (c : Char) (s : String)
    → is_one_line (String.◌∷◌ c s) ≡ true
    → splitlines (String.◌∷◌ c s) ≡ String.◌∷◌ c s ∷ []
unfolding splitlines
splitlines_one c String.[] h = elim (Bool-cases (is_break (code c))) [
  | inl e ↦ absurd (ground arith)
  | inr e ↦ rw e refl
]
splitlines_one c (String.◌∷◌ d s) h = elim (Bool-cases (is_break (code c))) [
  | inl e ↦ absurd (ground arith)
  | inr e ↦
      let h' : is_one_line (String.◌∷◌ d s) ≡ true = rw e at h in rw (e, splitlines_one d s h') refl
]

splitlines_lem : (s : String) → is_blank s ≡ false → is_one_line s ≡ true → splitlines s ≡ s ∷ []
splitlines_lem String.[] b h = absurd (cc)
splitlines_lem (String.◌∷◌ c s) b h = splitlines_one c s h

splitlines-description_of :
    (id : String)
    → is_blank id ≡ false
    → is_one_line id ≡ true
    → splitlines (description_of id) ≡ "CalDAV Assistant Work Segment" ∷ append "Task-UID: " id ∷ []
unfolding splitlines description_of is_break
splitlines-description_of id b h = rw (splitlines_lem id b h) refl

-- A task's id can be read back from the description that an interval of it is given: an id that is
-- not empty, has no white space at its ends, and stands on one line.
pub task_id_from_event-description_of :
    (e : Fetched Event) (id : String)
    → e.value.description ≡ description_of id
    → is_blank id ≡ false
    → strip id ≡ id
    → is_one_line id ≡ true
    → task_id_from_event e ≡ some id
unfolding task_id_from_event strip
task_id_from_event-description_of e id d b s h =
    rw (d, splitlines-description_of id b h) (rw (s, b) refl)
