-- ===== src/Plan/Tests/Locks.antt =====
-- The reports on the pinned references of the small roadmap.
use lua_mongodb.Base.{String, true, some, [], ◌∷◌, ◌≡◌, refl, str_eq}
use lua_mongodb.Json.{Json, str, obj, end, field}
use lua_mongodb.Plan.Locks.{Checkouts, Details}
use lua_mongodb.Plan.Contents.{reference_report, check_references}
use lua_mongodb.Plan.Locks.Exact.{reference_report-check_references}
use lua_mongodb.Plan.Tests.{env}
use lua_mongodb.Plan.Tests.Commands.{files}
use lua_mongodb.Raise.{ok}

abbrev pinned_commit : String
pinned_commit = "0123456789012345678901234567890123456789"

abbrev submodule_line : String
submodule_line = " 0123456789012345678901234567890123456789 planning/r (v1)\n"

-- every run of git succeeds, and the status names the pinned commit
abbrev checkouts : Checkouts
checkouts = record {
  sections = some (("submodule planning/r", "planning/r", "https://example.org/r") ∷ []);
  path_text = λ path. some "planning/r";
  root_git = λ arguments. record { returncode = 0; stdout = submodule_line };
  checkout_git = λ relative arguments. record { returncode = 0; stdout = "" };
  exists = λ relative. true;
  same_path = str_eq;
  declared_symbols = λ source. [];
  text_of = λ value. "";
}

abbrev pinned : Json
pinned = obj (
    field "path" (str "planning/r")
      (field "url" (str "https://example.org/r") (field "commit" (str pinned_commit) end)))

abbrev details : Details
details = record {
  path = "planning/r";
  expected = str pinned_commit;
  actual = some pinned_commit;
  status = "ok";
  issues = [];
}

reports_failure : reference_report checkouts env files ≡ ok 1
unfolding reference_report lua_mongodb.Json.equals_int lua_mongodb.Json.get_or
    lua_mongodb.Json.lookup lua_mongodb.Json.put lua_mongodb.Plan.Documents.add_activities
    lua_mongodb.Json.iterate lua_mongodb.Json.hashable lua_mongodb.Plan.Validate.dependency_graph
    lua_mongodb.Plan.Cycle.search_cycles lua_mongodb.Graph.targets lua_mongodb.Json.truthy
    lua_mongodb.Plan.Pattern.is_commit lua_mongodb.Json.has lua_mongodb.Json.same
    lua_mongodb.Plan.Pattern.is_subject lua_mongodb.Plan.Progress.record_issues
reports_failure = refl

reference_report-check_references_example :
    reference_report checkouts env files ≡ check_references checkouts env files
reference_report-check_references_example = reference_report-check_references checkouts env files
