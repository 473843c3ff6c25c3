-- ===== src/Tasks/Work/Tests.antt =====
-- A start whose task update the server refuses, beside a work log in memory.
use caldav_assistant_skeleto.Prelude.{
  ◌≡◌, refl, ap, inl, inr, ◌≢◌, String, not, none, some, List, [], ◌∷◌, filter, strip, Bool-cases,
  ◌==◌,
}
use caldav_assistant_skeleto.Api.{Event, ok, err, conflict, validation, no_object_id, unavailable}
use caldav_assistant_skeleto.Effect.{catch, ◌>>=◌}
use caldav_assistant_skeleto.Sync.Urls.{rstrip_slash}
use caldav_assistant_skeleto.Tasks.Sample.{one_clock, noon, named}
use caldav_assistant_skeleto.Tasks.World.{Adapter, World, on_store}
use caldav_assistant_skeleto.Tasks.Service.{by_id, get, write, update_task, require_id}
use caldav_assistant_skeleto.Tasks.Changes.{normalize_changes, validate, is_empty}
use caldav_assistant_skeleto.WorkLog.{
  is_open, collection_url, query_work_events, open_events, current_task_id, start_segment,
  discard_segment, delete_work_event,
}
use caldav_assistant_skeleto.WorkLog.Sample.{home, rows, log, log-IsCollection, w_configured}
use caldav_assistant_skeleto.Tasks.Work.{start_logged, task_and_open_snapshot, quietly, or_undo}
use caldav_assistant_skeleto.Tasks.Work.Compensation.{IsSeparate, start_logged_undone}

abbrev refusing : Adapter (List Event)
refusing = record {
  list_tasks = λ status s. ok [];
  get_task = λ id s. ok (named id "NEEDS-ACTION");
  create_task = λ t s. (err unavailable, s);
  update_task = λ id c s. (err conflict, s);
  update_task_from_snapshot = λ t c s. (err conflict, s);
  delete_task = λ id s. (err unavailable, s);
}

rows-filter :
    (id : String) (s : List Event)
    → rows (filter (λ v. not (v.id == id)) s) ≡ filter (λ r. not (r.value.id == id)) (rows s)
unfolding filter
rows-filter id [] = refl
rows-filter id (v ∷ s) = elim (Bool-cases (v.id == id)) [
  | inl e ↦ rw e (rows-filter id s)
  | inr e ↦ rw e (ap (λ r. home v ∷ r) (rows-filter id s))
]

refusing-IsSeparate : IsSeparate refusing log "w" rows
refusing-IsSeparate = record {
  updates_task = λ id c s. refl;
  updates_snapshot = λ t c s. refl;
  refuses = λ e s x h. absurd (cc);
  deletes = λ e s i. (filter (λ v. not (v.id == e.value.id)) s, refl, rows-filter e.value.id s);
}

abbrev idle : World (List Event)
idle = record { store = []; session = none; journal = some []; undo = none; now = noon }

ne : conflict ≢ validation no_object_id
ne e = cc

refused : (start_logged one_clock refusing log (some "w") (by_id "a") none idle).0 ≡ err conflict
unfolding start_logged task_and_open_snapshot get require_id on_store collection_url
    query_work_events open_events current_task_id start_segment discard_segment delete_work_event
    quietly or_undo update_task write catch normalize_changes validate is_empty strip filter ◌>>=◌
    rstrip_slash
refused = refl

start_logged_undone_example :
    filter is_open
      (rows (start_logged one_clock refusing log (some "w") (by_id "a") none idle).1.store)
    ≡ []
unfolding filter
start_logged_undone_example =
    start_logged_undone one_clock refusing log (some "w") "w" rows log-IsCollection
      refusing-IsSeparate w_configured (by_id "a") none idle conflict refl ne refused
