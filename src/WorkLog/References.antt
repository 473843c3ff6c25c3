-- ===== src/WorkLog/References.antt =====
-- internal/worklog/service.py: `add_references`, which writes links below the description of a work
-- interval.
pub mod Kept
use caldav_assistant_skeleto.Prelude.{
  ◌≡◌, String, Bool, true, false, not, Option, none, some, List, [], ◌∷◌, ◌++◌, elem, append,
  splitlines, strip, is_blank, if◌then◌else◌,
}
use caldav_assistant_skeleto.Api.{Event, Error, Result, ok, err, validation, not_a_segment}
use caldav_assistant_skeleto.Effect.{Exec, raise, lift, require, ◌>>=◌, ◌>>◌}
use caldav_assistant_skeleto.Sync.Rows.{Fetched}
use caldav_assistant_skeleto.WorkLog.{
  WorkAdapter, EventChanges, Call, collection_url, required_url, is_work_event, update_work_event,
}

-- A stripped text, if it is not empty.
abbrev pub cleaned : String → Option String
cleaned s = if is_blank (strip s) then none else some (strip s)

abbrev pub clean_url : Option String → Option String
clean_url none = none
clean_url (some s) = cleaned s

-- The stripped texts that are not empty, each behind a prefix.
abbrev pub lines_of : String → List String → List String
lines_of prefix [] = []
lines_of prefix (s ∷ ss) = elim (cleaned s) [
  | some t ↦ append prefix t ∷ lines_of prefix ss
  | none ↦ lines_of prefix ss
]

-- `additions`
unfoldable pub additions : Option String → List String → List String
unfolding strip
additions page attachments = elim (clean_url page) [
  | some t ↦ append "WordPress: " t ∷ lines_of "Attachment: " attachments
  | none ↦ lines_of "Attachment: " attachments
]

-- `for line in additions: if line not in lines: lines.append(line)`
unfoldable pub with_lines : List String → List String → List String
with_lines lines [] = lines
with_lines lines (l ∷ ls) = with_lines (if elem l lines then lines else lines ++ l ∷ []) ls

-- `"\n".join(lines)`
unfoldable pub join_lines : List String → String
join_lines [] = ""
join_lines (l ∷ []) = l
join_lines (l ∷ k ∷ ls) = append l (append "\n" (join_lines (k ∷ ls)))

-- the description with the references
unfoldable pub referenced : String → List String → String
unfolding with_lines join_lines splitlines
referenced description more = join_lines (with_lines (splitlines description) more)

module _ {Store : Type 0} (a : WorkAdapter Store) (url : Option String) where
  abbrev write_references :
      String → String → String → Option String → List String → Call a url (Fetched Event)
  write_references target id description page attachments = elim a.update_references [
    | some update ↦ update target id description page attachments
    | none ↦
        update_work_event a url id
          (record { end = none; categories = none; description = some description })
  ]

  -- `add_references`
  unfoldable pub add_references : String → Option String → List String → Call a url (Fetched Event)
  unfolding collection_url is_work_event additions referenced update_work_event
  add_references id page attachments = do
    target ← lift (required_url a url)
    event ← λ s. (a.get_event target id s, s)
    require (is_work_event event) not_a_segment
    write_references target id (referenced event.value.description (additions page attachments))
        (clean_url page) (lines_of "" attachments)
