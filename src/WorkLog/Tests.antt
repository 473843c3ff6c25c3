-- ===== src/WorkLog/Tests.antt =====
-- A work interval in a collection in memory.
use caldav_assistant_skeleto.Prelude.{
  ◌≡◌, refl, String, Option, none, some, List, [], ◌∷◌, filter, strip, is_break,
}
use caldav_assistant_skeleto.Temporal.{datetime}
use caldav_assistant_skeleto.Api.{Event, ok}
use caldav_assistant_skeleto.Effect.{◌>>=◌}
use caldav_assistant_skeleto.Tasks.Sample.{one_clock, noon, named}
use caldav_assistant_skeleto.WorkLog.{
  collection_url, description_of, opened, task_id_from_event, query_work_events, open_events,
  current_task_id, start_segment,
}
use caldav_assistant_skeleto.WorkLog.Description.{task_id_from_event-description_of}
use caldav_assistant_skeleto.WorkLog.References.{additions, referenced, add_references}
use caldav_assistant_skeleto.WorkLog.References.Kept.{task_id_from_event-referenced}
use caldav_assistant_skeleto.WorkLog.Sample.{
  home, rows, numbered, log, log-IsCollection, w_configured,
}
use caldav_assistant_skeleto.WorkLog.Current.{Command, start, Step, serve, serve_refines}

task_id_from_event-description_of_example :
    task_id_from_event (opened "w" (named " a " "NEEDS-ACTION") (datetime noon)) ≡ some "a"
unfolding strip is_break
task_id_from_event-description_of_example =
    task_id_from_event-description_of (opened "w" (named " a " "NEEDS-ACTION") (datetime noon)) "a"
      refl refl refl refl

abbrev links : List String
links = "Attachment: f" ∷ "WordPress: p" ∷ []

additions_links : additions (some " p ") ("f" ∷ "  " ∷ []) ≡ "WordPress: p" ∷ "Attachment: f" ∷ []
unfolding additions strip
additions_links = refl

-- the interval of "a", with two links
abbrev linked : Event
linked = record (opened "w" (named "a" "NEEDS-ACTION") (datetime noon)).value {
  description = "CalDAV Assistant Work Segment\nTask-UID: a\nAttachment: f\nWordPress: p";
}

task_id_from_event-referenced_example : task_id_from_event (home linked) ≡ some "a"
unfolding referenced task_id_from_event description_of strip is_break
task_id_from_event-referenced_example =
    task_id_from_event-referenced (opened "w" (named "a" "NEEDS-ACTION") (datetime noon))
      (home linked) links "a" refl refl

abbrev with_link : Event
with_link = record linked {
  description = "CalDAV Assistant Work Segment\nTask-UID: a\nWordPress: p";
}

adds :
    (add_references log
      (some "w")
      "new"
      (some "p")
      []
      (numbered (opened "w" (named "a" "NEEDS-ACTION") (datetime noon)).value ∷ [])).1
    ≡ numbered with_link ∷ []
unfolding add_references additions referenced description_of strip is_break filter ◌>>=◌
adds = refl

abbrev begin : Command
begin = start (named "a" "NEEDS-ACTION") none

no_work : current_task_id log (some "w") none [] ≡ (ok none, [])
unfolding current_task_id open_events query_work_events collection_url strip filter ◌>>=◌
no_work = refl

abbrev begun : Event
begun = numbered (opened "w" (named "a" "NEEDS-ACTION") (datetime noon)).value

begins : serve log (some "w") one_clock noon begin [] ≡ (ok (some (home begun)), begun ∷ [])
unfolding start_segment current_task_id open_events query_work_events collection_url strip filter
    ◌>>=◌
begins = refl

serve_refines_example :
    (c : Option String) × (current_task_id log (some "w") none (begun ∷ []) ≡ (ok c, begun ∷ []))
    × Step none begin c
unfolding strip is_break
serve_refines_example =
    serve_refines log (some "w") "w" rows log-IsCollection w_configured one_clock noon begin [] none
      (some (home begun)) (begun ∷ []) refl no_work begins
