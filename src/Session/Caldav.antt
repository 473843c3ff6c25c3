-- ===== src/Session/Caldav.antt =====
-- internal/session/caldav.py: `CalDAVSessionService`, the session that is read from the work log or,
-- without one, from the journal.
-- Of the branches for a work log of another kind, without the methods of `WorkLogService`, none is
-- modelled. The calls only read: what the other services answer is a record.
pub mod Resolved
pub mod Agrees
mod Tests
use caldav_assistant_skeleto.Prelude.{
  ℕ, String, Bool, true, false, not, ◌&&◌, ◌||◌, Option, none, some, List, [], ◌∷◌, length, filter,
  filter_map, elem, strip, is_blank, ltb, leb, if◌then◌else◌, ◌==◌,
}
use caldav_assistant_skeleto.Api.{Task, Result, ok, err, ambiguous}
use caldav_assistant_skeleto.Sync.Transport.{and_then}
use caldav_assistant_skeleto.WorkLog.{Segments, is_open, task_id_from_event}

pub record JournalEntry : Type 0 where
  pub action : String
  pub timestamp : ℕ

pub record Answers : Type 0 where
  -- `_worklog_configured()`
  pub configured : Bool
  -- `_all_work_events`, `open_snapshot` and `current_task_id` of the work log
  pub work_events : Result Segments
  pub open_snapshot : Result Segments
  pub work_current : Result (Option String)
  -- `for_task` of the journal, by the stripped id; `none` for an exception, or for no journal
  pub history : String → Option (List JournalEntry)
  -- `_in_progress_tasks()`
  pub in_progress : List Task
  -- `get` of the task service; `none` for an exception, or for no task service
  pub get : String → Option Task

pub record WorkFacts : Type 0 where
  pub current_task_id : Option String
  pub worked_task_ids : Option (List String)

pub record StartupSnapshot : Type 0 where
  pub current_task_id : Option String
  pub current_task : Option Task
  pub paused_task_ids : List String

abbrev pub starts : String → Bool
starts action = action == "task_started" || action == "task_resumed"

abbrev pub pauses : String → Bool
pauses action = action == "task_paused"

-- `_LIFECYCLE_ACTIONS`
abbrev is_lifecycle : JournalEntry → Bool
is_lifecycle e =
    starts e.action
    || pauses e.action
    || e.action == "task_switched_away"
    || elem e.action ("task_completed" ∷ "task_cancelled" ∷ "task_deleted" ∷ [])

-- `max` by the time and the place: of the entries of one time, the last.
abbrev latest : JournalEntry → List JournalEntry → JournalEntry
latest best [] = best
latest best (e ∷ es) = latest (if leb best.timestamp e.timestamp then e else best) es

abbrev latest_of : List JournalEntry → Option String
latest_of [] = none
latest_of (e ∷ es) = some (latest e es).action

-- `_latest_activity_action`
unfoldable pub latest_activity_action : Option (List JournalEntry) → Option String
unfolding filter
latest_activity_action none = none
latest_activity_action (some items) = latest_of (filter is_lifecycle items)

abbrev pub holds : (String → Bool) → Option String → Bool
holds p none = false
holds p (some action) = p action

-- `_is_in_progress`
abbrev pub is_in_progress : Task → Bool
is_in_progress t = t.status == "IN-PROCESS" && not t.completed

-- The stripped ids of tasks, those that are not empty and pass a test.
unfoldable pub ids_where : (String → Bool) → List Task → List String
ids_where p [] = []
ids_where p (t ∷ ts) =
    let rest = ids_where p ts in
    if not (is_blank (strip t.id)) && p (strip t.id) then strip t.id ∷ rest else rest

-- The only id of a list, if there is one.
abbrev pub sole_id : List String → Result (Option String)
sole_id [] = ok none
sole_id (id ∷ []) = ok (some id)
sole_id (id ∷ k ∷ ids) = err ambiguous

-- `dict.fromkeys`
unfoldable pub from_keys : List String → List String
unfolding filter
from_keys [] = []
from_keys (x ∷ xs) = x ∷ filter (λ y. not (y == x)) (from_keys xs)

abbrev pub live : Task → Option Task
live t = if t.completed || t.status == "CANCELLED" then none else some t

abbrev first_live : String → List Task → Option Task
first_live id [] = none
first_live id (t ∷ ts) = let rest = first_live id ts in if t.id == id then live t else rest

-- `_task_by_id`
unfoldable pub task_by_id : List Task → Option String → Option Task
task_by_id ts none = none
task_by_id ts (some id) = if is_blank id then none else first_live id ts

abbrev head_of : List String → Option String
head_of [] = none
head_of (x ∷ xs) = some x

-- what `startup_work_facts` finds in the events it read
unfoldable pub facts_of : Bool → Segments → Result WorkFacts
unfolding filter from_keys is_open task_id_from_event
facts_of full events =
    let open_items = filter is_open events in
    let current_ids = from_keys (filter_map task_id_from_event open_items) in
    if ltb 1 (length open_items) || ltb 1 (length current_ids)
    then err ambiguous
    else ok (record {
      current_task_id = head_of current_ids;
      worked_task_ids = if full then some (filter_map task_id_from_event events) else none;
    })

abbrev pub is_not_current : Option String → String → Bool
is_not_current none id = true
is_not_current (some current) id = not (id == current)

-- a task was worked on, as far as the facts say
abbrev pub may_be_worked : Option (List String) → String → Bool
may_be_worked none id = true
may_be_worked (some ids) id = elem id ids

abbrev pub paused_of : WorkFacts → List Task → List String
paused_of facts running =
    ids_where
      (λ id. is_not_current facts.current_task_id id && may_be_worked facts.worked_task_ids id)
      running

abbrev pub resolved : List Task → Option String → List String → StartupSnapshot
resolved tasks current paused = record {
  current_task_id = current;
  current_task = task_by_id tasks current;
  paused_task_ids = from_keys paused;
}

abbrev pub from_facts : List Task → WorkFacts → Result StartupSnapshot
from_facts tasks facts =
    ok (resolved tasks facts.current_task_id (paused_of facts (filter is_in_progress tasks)))

module _ (a : Answers) where
  unfoldable pub is_started : String → Bool
  unfolding latest_activity_action
  is_started id = holds starts (latest_activity_action (a.history id))

  unfoldable pub is_paused : String → Bool
  unfolding latest_activity_action
  is_paused id = holds pauses (latest_activity_action (a.history id))

  -- `_activity_work_facts` and `cached_startup_snapshot`
  pub activity_work_facts : List Task → Result WorkFacts
  unfolding ids_where filter from_keys is_started is_paused
  activity_work_facts tasks =
      let running = filter is_in_progress tasks in
      and_then (sole_id (ids_where is_started running)) λ current. ok (record {
        current_task_id = current;
        worked_task_ids =
            some (from_keys (ids_where (λ id. is_started id || is_paused id) running));
      })

  -- `startup_work_facts`
  unfoldable pub startup_work_facts : Bool → Result (Option WorkFacts)
  unfolding facts_of
  startup_work_facts include_history =
      if a.configured
      then and_then (if include_history then a.work_events else a.open_snapshot)
          (λ events. and_then (facts_of include_history events) λ facts. ok (some facts))
      else ok none

  -- `startup_snapshot`
  unfoldable pub startup_snapshot : List Task → Option WorkFacts → Result StartupSnapshot
  unfolding filter ids_where from_keys task_by_id facts_of is_started is_paused
  startup_snapshot tasks given =
      if a.configured
      then elim given [
        | some facts ↦ from_facts tasks facts
        | none ↦
            and_then a.work_events (λ events. and_then (facts_of true events) (from_facts tasks))
      ]
      else let running = filter is_in_progress tasks in
        and_then (sole_id (ids_where is_started running))
          λ current. ok (resolved tasks current (ids_where is_paused running))

  abbrev prepend_if : Bool → String → List String → List String
  prepend_if b id ids = if b then id ∷ ids else ids

  -- the loop of `current_task_id`, with the ids that it has seen
  unfoldable pub current_loop : List String → List Task → List String
  unfolding is_started
  current_loop seen [] = []
  current_loop seen (t ∷ ts) =
      let id = strip t.id in
      let skip = is_blank id || elem id seen || t.completed in
      let rest = current_loop (if skip then seen else id ∷ seen) ts in
      prepend_if (not skip && is_started id) id rest

  -- `current_task_id`
  unfoldable pub current_task_id : Result (Option String)
  unfolding current_loop
  current_task_id = if a.configured then a.work_current else sole_id (current_loop [] a.in_progress)

  abbrev live_of : Option Task → Option Task
  live_of none = none
  live_of (some t) = live t

  -- `current_task`
  pub current_task : Result (Option Task)
  unfolding current_task_id
  current_task =
      and_then current_task_id
        λ found. ok (elim found [ none ↦ none | some id ↦ live_of (a.get id) ])

  -- `paused_task_ids`
  pub paused_task_ids : Result (List String)
  unfolding startup_snapshot
  paused_task_ids = and_then (startup_snapshot a.in_progress none) λ s. ok s.paused_task_ids

  abbrev paused_loop : List String → List String → List Task → List Task
  paused_loop paused seen [] = []
  paused_loop paused seen (t ∷ ts) =
      let id = strip t.id in
      let skip = is_blank id || elem id seen || not (elem id paused) in
      let rest = paused_loop paused (if skip then seen else id ∷ seen) ts in
      if skip then rest else t ∷ rest

  -- `paused_tasks`
  pub paused_tasks : Result (List Task)
  unfolding startup_snapshot
  paused_tasks =
      and_then (startup_snapshot a.in_progress none)
        λ s. ok (paused_loop s.paused_task_ids [] a.in_progress)
