-- ===== src/Tasks/Service/Find/Tests.antt =====
-- A search in a list of two tasks.
use caldav_assistant_skeleto.Prelude.{
  occurs_in, ◌≡◌, refl, String, false, none, List, [], ◌∷◌, strip, filter,
}
use caldav_assistant_skeleto.Api.{Task, ok, err, ambiguous}
use caldav_assistant_skeleto.Tasks.World.{World}
use caldav_assistant_skeleto.Tasks.Service.{list}
use caldav_assistant_skeleto.Tasks.Service.Find.{
  find, matches, is_exact, is_partial, IsMatch, find-IsMatch,
}
use caldav_assistant_skeleto.Tasks.Sample.{one_clock, memory, quiet, named}

abbrev same : String → String
same s = s

abbrev shelf : World (List Task)
shelf = record quiet {
  store =
      record (named "a" "NEEDS-ACTION") { summary = "buy milk" }
      ∷ record (named "b" "NEEDS-ACTION") { summary = "buy" }
      ∷ record (named "c" "NEEDS-ACTION") { summary = "buy tea" }
      ∷ [];
}

-- The exact match wins; two partial ones are ambiguous.
finds :
    (find same " buy " one_clock memory same false none shelf
      ≡ ok (record (named "b" "NEEDS-ACTION") { summary = "buy" }))
    × (find same "uy " one_clock memory same false none shelf ≡ err ambiguous)
unfolding find matches is_exact is_partial occurs_in list strip filter
finds = (refl, refl)

find-IsMatch_example :
    (items : List Task) × (list one_clock memory same false none shelf ≡ ok items)
    × IsMatch same " buy " items (record (named "b" "NEEDS-ACTION") { summary = "buy" })
find-IsMatch_example = find-IsMatch same " buy " one_clock memory same false none shelf _ finds.0
