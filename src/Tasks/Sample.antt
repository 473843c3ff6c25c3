-- ===== src/Tasks/Sample.antt =====
-- A small task list in memory, for the tests: an adapter of the kind that the production one is,
-- whose fast writer declines.
use caldav_assistant_skeleto.Prelude.{
  String, Bool, false, not, Option, none, some, List, [], ◌∷◌, map, filter, strip, if◌then◌else◌,
  ◌==◌,
}
use caldav_assistant_skeleto.Temporal.{Datetime, Zones}
use caldav_assistant_skeleto.Api.{Task, Result, ok, err, key_error}
use caldav_assistant_skeleto.Session.{fresh_session}
use caldav_assistant_skeleto.Tasks.Changes.{Value, bool, text, Changes}
use caldav_assistant_skeleto.Tasks.World.{Adapter, World}

-- Every clock shows the instant.
abbrev pub one_clock : Zones
one_clock = record { instant = λ z w. w; wall_at = λ z i. i; local = 1; utc = 0 }

abbrev pub noon : Datetime
noon = record { wall = 63900000000000000; zone = some 0 }

abbrev pub named : String → String → Task
named id status = record {
  id = id;
  summary = "Write";
  description = "";
  start = none;
  due = none;
  status = status;
  completed = false;
  completed_at = none;
  priority = none;
  categories = [];
  overdue = false;
  stale = false;
}

abbrev status_of : Option Value → String → String
status_of (some (text s)) old = s
status_of _ old = old

abbrev flag_of : Option Value → Bool → Bool
flag_of (some (bool b)) old = b
flag_of _ old = old

abbrev summary_of : Option Value → String → String
summary_of (some (text s)) old = s
summary_of _ old = old

abbrev changed : Changes → Task → Task
changed c t = record t {
  summary = summary_of c.summary t.summary;
  status = status_of c.status t.status;
  completed = flag_of c.completed t.completed;
}

abbrev pub found_in : String → List Task → Result Task
found_in id [] = err key_error
found_in id (t ∷ ts) = if t.id == id then ok t else found_in id ts

abbrev with_status : Option String → List Task → List Task
with_status none ts = ts
with_status (some status) ts = filter (λ t. t.status == status) ts

abbrev written : Result Task → List Task → Result Task × List Task
written (ok t) ts = (ok t, map (λ u. if u.id == t.id then t else u) ts)
written (err e) ts = (err e, ts)

abbrev mapped : (Task → Task) → Result Task → Result Task
mapped f (ok t) = ok (f t)
mapped f (err e) = err e

abbrev removed : String → Result Task → List Task → Result (Unit {0}) × List Task
removed id (ok t) ts = (ok tt, filter (λ u. not (u.id == id)) ts)
removed id (err e) ts = (err e, ts)

abbrev pub memory : Adapter (List Task)
memory = record {
  list_tasks = λ status ts. ok (filter (λ t. strip t.id == t.id) (with_status status ts));
  get_task = found_in;
  create_task = λ t ts. (ok (record t { id = "new" }), record t { id = "new" } ∷ ts);
  update_task = λ id c ts. written (mapped (changed c) (found_in id ts)) ts;
  update_task_from_snapshot = λ t c ts. (ok none, ts);
  delete_task = λ id ts. removed id (found_in id ts) ts;
}

-- One open task; nothing is current.
abbrev pub quiet : World (List Task)
quiet = record {
  store = named "a" "NEEDS-ACTION" ∷ named "b" "NEEDS-ACTION" ∷ [];
  session = some fresh_session;
  journal = some [];
  undo = some (record { payloads = []; applying = false });
  now = noon;
}
