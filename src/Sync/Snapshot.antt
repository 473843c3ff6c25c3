-- ===== src/Sync/Snapshot.antt =====
-- internal/caldav/sync.py: the checks, the comparison and the merge of snapshots.
-- The values of one kind, tasks or events, are a list of rows; what the code uses of a row is its
-- UID, the URL of its resource, and equality.
pub mod Unique
pub mod Merge
pub mod Changed
use caldav_assistant_skeleto.Prelude.{
  elem, ◌≡◌, ℕ, String, Bool, true, false, not, Option, none, some, List, [], ◌∷◌, map, filter, any,
  is_some, is_none, codes, is_blank, strip, if◌then◌else◌, ◌==◌,
}
use caldav_assistant_skeleto.Prelude.Sort.{sorted}
use caldav_assistant_skeleto.Api.{Task, Event, Result, ok, err, conflict}
use caldav_assistant_skeleto.Sync.Dict.{put, put_all, find}
use caldav_assistant_skeleto.Sync.Equality.{Equality}
use caldav_assistant_skeleto.Sync.Rows.{
  IsoTexts, TaskRow, EventRow, Fetched, task_to_dict, event_to_dict, task_equality, event_equality,
}
use caldav_assistant_skeleto.Sync.Transport.{and_then, ReportedChanges}
use caldav_assistant_skeleto.Sync.Urls.{url_of, url_or_empty}

pub record Kind (A : Type 0) : Type 0 where
  pub id : A → String
  pub url : A → Option String
  pub equality : Equality A

pub record Snapshot : Type 0 where
  pub synced_at : ℕ
  pub tasks : List TaskRow
  pub events : List EventRow

pub record Delta : Type 0 where
  pub added : List String
  pub updated : List String
  pub removed : List String

abbrev pub task_kind : Kind TaskRow
task_kind = record { id = λ r. r.id; url = λ r. r.caldav.url; equality = task_equality }

abbrev pub event_kind : Kind EventRow
event_kind = record { id = λ r. r.id; url = λ r. r.caldav.url; equality = event_equality }

module _ {A : Type 0} (kind : Kind A) where
  -- `_check_unique`; the dictionary `seen` by its keys.
  unfoldable pub check_from : List String → List A → Result (Unit {0})
  unfolding any
  check_from seen [] = ok tt
  check_from seen (x ∷ xs) =
      let rest = check_from (kind.id x ∷ seen) xs in
      if is_blank (kind.id x)
      then err conflict
      else if elem (kind.id x) seen
      then err conflict
      else rest

  abbrev pub check_unique : List A → Result (Unit {0})
  check_unique xs = check_from [] xs

  -- `_index`
  abbrev pub index : List A → List A
  index xs = put_all kind.id [] xs

  abbrev changed : Option A → Option A → Bool
  changed none y = false
  changed (some x) none = false
  changed (some x) (some y) = not (kind.equality.test x y)

  -- `_delta`. Each set is taken in the order of its dictionary, before `sorted`.
  unfoldable pub delta : List A → List A → Delta
  unfolding filter sorted
  delta previous current =
      let old = index previous in
      let new = index current in
      record {
        added =
            sorted codes (filter (λ k. is_none (find kind.id k old)) (map (λ x. kind.id x) new));
        updated = sorted codes (
            filter (λ k. changed (find kind.id k old) (find kind.id k new))
              (map (λ x. kind.id x) old));
        removed =
            sorted codes (filter (λ k. is_none (find kind.id k new)) (map (λ x. kind.id x) old));
      }

  -- `_item_url`
  abbrev pub item_url : A → String
  item_url x = url_or_empty (kind.url x)

  -- `_merge_kind`. Without deleted URLs the filter keeps everything.
  unfoldable pub merge_kind : List A → List A → List String → List A
  unfolding any filter put_all
  merge_kind previous upserts deleted_urls =
      let existing = filter (λ x. not (elem (item_url x) deleted_urls)) previous in
      put_all kind.id (index existing) upserts

-- The set comprehension of `_merge_incremental`.
unfoldable pub deleted_of : List String → List String
unfolding filter
deleted_of urls = map url_of (filter (λ u. not (is_blank (strip u))) urls)

-- The two checks and the snapshot that `_read_remote` and `_merge_incremental` end with.
abbrev pub verified : ℕ → List TaskRow → List EventRow → Result Snapshot
verified now tasks events = and_then (check_unique task_kind tasks) λ _.
    and_then (check_unique event_kind events)
      λ _. ok (record { synced_at = now; tasks = tasks; events = events })

-- `_merge_incremental`
unfoldable pub merge_incremental : IsoTexts → ℕ → Snapshot → ReportedChanges → Result Snapshot
unfolding merge_kind check_from deleted_of
merge_incremental z now previous changes =
    let deleted = deleted_of changes.deleted_urls in
    verified now (merge_kind task_kind previous.tasks (map (task_to_dict z) changes.tasks) deleted)
      (merge_kind event_kind previous.events (map (event_to_dict z) changes.events) deleted)
