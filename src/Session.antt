-- ===== src/Session.antt =====
-- internal/session/service.py: `SessionService`, the work-session state that the assistant owns.
-- The state repository holds two keys. A task or its id enters a method as the text of the id.
-- What the task service answers to the session is an argument: `none` stands for an exception, or
-- for no task service.
mod Clean
pub mod Transitions
pub mod Invariant
pub mod Current
pub mod Caldav
mod Tests
use caldav_assistant_skeleto.Prelude.{
  String, Bool, true, false, not, ◌&&◌, ◌||◌, Option, none, some, List, [], ◌∷◌, ◌++◌,
  if◌then◌else◌, is_blank, strip, filter, filter_map, is_some, any, ◌==◌,
}
use caldav_assistant_skeleto.Api.{Task, Result, ok, err, value_error}

-- The keys `current_task_uid` and `paused_task_uids`.
pub record SessionState : Type 0 where
  pub current : Option String
  pub paused : Option (List String)

abbrev pub fresh_session : SessionState
fresh_session = record { current = none; paused = none }

abbrev pub contains : List String → String → Bool
contains xs a = any (λ x. x == a) xs

-- The loop of `paused_task_ids`.
unfoldable pub collect : List String → List String → List String
collect result [] = result
collect result (value ∷ values) =
    let text = strip value in
    collect (if is_blank text || contains result text then result else result ++ text ∷ []) values

unfoldable pub paused_task_ids : SessionState → List String
paused_task_ids s = elim s.paused [ none ↦ [] | some raw ↦ collect [] raw ]

-- `[item for item in self.paused_task_ids() if item != uid]`
unfoldable pub without : String → List String → List String
without uid ids = filter (λ item. not (item == uid)) ids

unfoldable pub recoverable : List String → Task → Bool
recoverable paused t =
    not (is_blank (strip t.id))
    && not (contains paused t.id)
    && t.status == "IN-PROCESS"
    && not t.completed

-- Exactly one eligible task is recovered.
unfoldable pub recover_from : SessionState → List Task → SessionState × Option String
recover_from s (t ∷ []) =
    let uid = strip t.id in
    if is_blank uid then (s, none) else (record s { current = some uid }, some uid)
recover_from s _ = (s, none)

unfoldable pub recover_legacy_current_task_id :
    SessionState → Option (List Task) → SessionState × Option String
recover_legacy_current_task_id s none = (s, none)
recover_legacy_current_task_id s (some candidates) =
    recover_from s (filter (recoverable (paused_task_ids s)) candidates)

-- A stored text that is empty counts as missing.
abbrev pub stored : Option String → Option String
stored none = none
stored (some value) = if is_blank value then none else some value

unfoldable pub current_task_id : SessionState → Option (List Task) → SessionState × Option String
current_task_id s listing = elim (stored s.current) [
  | some value ↦ (s, some value)
  | none ↦ recover_legacy_current_task_id s listing
]

unfoldable pub set_current : String → SessionState → Result SessionState
set_current ref s =
    let uid = strip ref in
    if is_blank uid
    then err value_error
    else ok (record { current = some uid; paused = some (without uid (paused_task_ids s)) })

-- Another task is stored as the current one.
abbrev pub holds_other : String → Option String → Bool
holds_other uid none = false
holds_other uid (some value) = not (is_blank uid) && not (is_blank value) && not (value == uid)

unfoldable pub clear_current : Option String → SessionState → SessionState
clear_current none s = record s { current = none }
clear_current (some ref) s =
    if holds_other (strip ref) s.current then s else record s { current = none }

unfoldable pub mark_paused : String → SessionState → Result SessionState
mark_paused ref s =
    let uid = strip ref in
    let cleared = clear_current (some uid) s in
    if is_blank uid
    then err value_error
    else ok (record cleared { paused = some (uid ∷ without uid (paused_task_ids cleared)) })

unfoldable pub unpause : String → SessionState → SessionState
unpause ref s = record s { paused = some (without (strip ref) (paused_task_ids s)) }

unfoldable pub forget : String → SessionState → SessionState
forget ref s = let uid = strip ref in unpause uid (clear_current (some uid) s)

-- The task can no longer be worked on.
abbrev pub is_over : Task → Bool
is_over t = t.completed || t.status == "CANCELLED"

abbrev pub keep_live : SessionState → Option Task → SessionState × Option Task
keep_live s none = (clear_current none s, none)
keep_live s (some t) = if is_over t then (clear_current none s, none) else (s, some t)

-- `get` is `self.tasks.get`, if there is a task service; it answers `none` for an exception.
pub current_task :
    SessionState → Option (List Task) → Option (String → Option Task) → SessionState × Option Task
current_task s listing none = ((current_task_id s listing).0, none)
current_task s listing (some get) =
    let (s', found) = current_task_id s listing in
    elim found [ none ↦ (s', none) | some uid ↦ keep_live s' (get uid) ]

abbrev pub live_task : Option Task → Option Task
live_task none = none
live_task (some t) = if is_over t then none else some t

-- The ids of the paused tasks that are still alive.
pub valid_ids : (String → Option Task) → List String → List String
valid_ids get ids = filter (λ uid. is_some (live_task (get uid))) ids

pub same_ids : List String → List String → Bool
same_ids [] [] = true
same_ids (x ∷ xs) (y ∷ ys) = x == y && same_ids xs ys
same_ids _ _ = false

pub paused_tasks : SessionState → Option (String → Option Task) → SessionState × List Task
paused_tasks s none = (s, [])
paused_tasks s (some get) =
    let ids = paused_task_ids s in
    let valid = valid_ids get ids in
    (
      if same_ids valid ids then s else record s { paused = some valid },
      filter_map (λ uid. live_task (get uid)) ids,
    )
