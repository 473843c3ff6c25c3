-- ===== src/Session/Current.antt =====
-- The id that the session gives for the current task.
use caldav_assistant_skeleto.Prelude.{
  ◌≡◌, String, false, Option, none, some, List, [], ◌∷◌, is_blank, arith,
}
use caldav_assistant_skeleto.Api.{Task}
use caldav_assistant_skeleto.Session.{
  SessionState, current_task_id, recover_legacy_current_task_id, recover_from, stored,
}

recover_from-filled :
    (s : SessionState) (tasks : List Task) (c : String)
    → (recover_from s tasks).1 ≡ some c
    → is_blank c ≡ false
unfolding recover_from
recover_from-filled s [] c h = cc
recover_from-filled s (t ∷ []) c h = ground arith
recover_from-filled s (t ∷ u ∷ ts) c h = cc

recover-filled :
    (s : SessionState) (listing : Option (List Task)) (c : String)
    → (recover_legacy_current_task_id s listing).1 ≡ some c
    → is_blank c ≡ false
unfolding recover_legacy_current_task_id
recover-filled s none c h = cc
recover-filled s (some tasks) c h = recover_from-filled s _ c h

stored-filled : (o : Option String) (c : String) → stored o ≡ some c → is_blank c ≡ false
stored-filled none c h = cc
stored-filled (some v) c h = ground arith

-- It is never an empty text.
pub current_task_id-filled :
    (s : SessionState) (listing : Option (List Task)) (c : String)
    → (current_task_id s listing).1 ≡ some c
    → is_blank c ≡ false
unfolding current_task_id
current_task_id-filled s listing c h =
    ground (arith, stored-filled s.current c, recover-filled s listing c)
