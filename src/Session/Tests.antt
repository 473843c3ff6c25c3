-- ===== src/Session/Tests.antt =====
-- A session in which "a" is paused and "b" is worked on.
use caldav_assistant_skeleto.Prelude.{
  ◌≡◌, ◌≢◌, refl, String, false, none, some, [], ◌∷◌, strip, filter, any, is_blank, if◌then◌else◌,
}
use caldav_assistant_skeleto.Api.{ok}
use caldav_assistant_skeleto.Session.{
  SessionState, fresh_session, collect, clear_current, paused_task_ids, without, set_current,
  mark_paused, forget, holds_other,
}
use caldav_assistant_skeleto.Session.Transitions.{
  paused_task_ids-mark_paused, set_current-mark_paused, forget_lem,
}
use caldav_assistant_skeleto.Session.Invariant
use caldav_assistant_skeleto.Session.Invariant.{Reach, next, IsConsistent, Reach-IsConsistent}

abbrev current_a : SessionState
current_a = record { current = some "a"; paused = some [] }

abbrev paused_a : SessionState
paused_a = record { current = none; paused = some ("a" ∷ []) }

abbrev current_b : SessionState
current_b = record { current = some "b"; paused = some ("a" ∷ []) }

set_a : set_current " a " fresh_session ≡ ok current_a
unfolding set_current without paused_task_ids filter strip
set_a = refl

pause_a : mark_paused "a" current_a ≡ ok paused_a
unfolding mark_paused clear_current without paused_task_ids collect filter strip any
pause_a = refl

set_b : set_current "b" paused_a ≡ ok current_b
unfolding set_current without paused_task_ids collect filter strip any
set_b = refl

set_a_again : set_current "a" paused_a ≡ ok current_a
unfolding set_current without paused_task_ids collect filter strip any
set_a_again = refl

Reach-IsConsistent_example : IsConsistent current_b
Reach-IsConsistent_example = Reach-IsConsistent (
    next (next (next Invariant.start (Invariant.set " a " set_a)) (Invariant.pause "a" pause_a))
      (Invariant.set "b" set_b))

paused_task_ids-mark_paused_example :
    (paused_task_ids paused_a ≡ strip "a" ∷ without (strip "a") (paused_task_ids current_a))
    × (paused_a.current ≡ (if holds_other (strip "a") (some "a") then some "a" else none))
paused_task_ids-mark_paused_example = paused_task_ids-mark_paused "a" current_a paused_a pause_a

set_current-mark_paused_example :
    (current_a.current ≡ some (strip "a"))
    × (paused_task_ids current_a ≡ without (strip "a") (paused_task_ids current_a))
set_current-mark_paused_example =
    set_current-mark_paused "a" current_a paused_a current_a pause_a set_a_again

filled_a : is_blank (strip "a") ≡ false
unfolding strip
filled_a = refl

forget_lem_example :
    ((forget "a" current_b).current ≢ some (strip "a"))
    × (paused_task_ids (forget "a" current_b) ≡ without (strip "a") (paused_task_ids current_b))
    × ((other : String)
        → is_blank other ≡ false
        → other ≢ strip "a"
        → current_b.current ≡ some other
        → (forget "a" current_b).current ≡ some other)
forget_lem_example = forget_lem "a" current_b filled_a
