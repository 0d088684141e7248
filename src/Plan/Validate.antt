-- ===== src/Plan/Validate.antt =====
-- `validate_plan` of planning/update_plan.py, from the checks of its loops in the children, and
-- `search_cycles`.
pub mod Tracks
pub mod References
pub mod Activity
pub mod Sound
pub mod Acyclic
use lua_mongodb.Base.{
  String, Bool, true, false, not, ◌&&◌, Option, none, some, List, [], ◌∷◌, ◌++◌, contains,
  if◌then◌else◌,
}
use lua_mongodb.Graph.{Graph}
use lua_mongodb.Json.{
  ℤ, pos, Json, null, str, arr, nil, obj, Fields, get_or, hashable, truthy, is_string, equals_int,
}
use lua_mongodb.Raise.{Result, ok, raise, ◌>>=◌}
use lua_mongodb.Plan.Cycle.{Search, search_cycles}
use lua_mongodb.Plan.Documents.{Activities, names, activity_map}
use lua_mongodb.Plan.Issue.{
  Issue, Exception, Py, plan_error, crash, plan_schema_version, plan_id_empty,
}
use lua_mongodb.Plan.Validate.Activity.{hashed, context_of, check_activities}
use lua_mongodb.Plan.Validate.References.{loop_over, read_mappings}
use lua_mongodb.Plan.Validate.Tracks.{when, read_tracks, cross_tracks}

-- `{item.get("id") for item in milestones if isinstance(item, dict)}`
unfoldable pub milestone_ids : List Json → Py (List Json)
milestone_ids [] = ok []
milestone_ids (obj fs ∷ rest) = do
  ids ← milestone_ids rest
  id ← hashed (get_or fs "id" null)
  ok (id ∷ ids)
milestone_ids (_ ∷ rest) = milestone_ids rest

unfoldable pub header_issues : Fields → List Issue
header_issues plan =
    when (not (equals_int (pos 1) (get_or plan "schema_version" null))) plan_schema_version
    ++ when (not (is_string (get_or plan "plan_id" null) && truthy (get_or plan "plan_id" null)))
        plan_id_empty

-- the dependencies of an activity that `visit` goes on to: those that are activities
unfoldable pub known_dependencies : Activities → List Json → Py (List String)
known_dependencies acts [] = ok []
known_dependencies acts (str d ∷ ds) = do
  rest ← known_dependencies acts ds
  ok (if contains (names acts) d then d ∷ rest else rest)
known_dependencies acts (d ∷ ds) = if hashable d then known_dependencies acts ds else raise crash

unfoldable pub dependency_graph : Activities → Activities → Py Graph
unfolding known_dependencies
dependency_graph acts [] = ok []
dependency_graph acts ((a, fs) ∷ rest) = do
  listed ← loop_over (get_or fs "depends_on" (arr nil))
  ds ← known_dependencies acts listed
  g ← dependency_graph acts rest
  ok ((a, ds) ∷ g)

-- the issues of the search; fuel that runs out is an exception
abbrev pub cycle_issues : Option Search → Py (List Issue)
cycle_issues none = raise crash
cycle_issues (some s) = ok s.issues

module _ (str_of : Json → String) where
  unfoldable pub validate_parts : Fields → Activities → Py (List Issue)
  unfolding header_issues milestone_ids read_tracks read_mappings check_activities cross_tracks
  validate_parts plan acts =
      let tracks = read_tracks (get_or plan "tracks" null) in
      do
        items ← loop_over (get_or plan "milestones" (arr nil))
        milestones ← milestone_ids items
        mappings ← read_mappings str_of (get_or plan "references" null)
        let context = context_of acts milestones (names tracks.definitions) mappings.ids
        activity_issues ← check_activities context acts
        cross_issues ← cross_tracks acts tracks.definitions
        graph ← dependency_graph acts acts
        cycles ← cycle_issues (search_cycles graph)
        ok (
            header_issues plan
            ++ tracks.issues
            ++ mappings.issues
            ++ activity_issues
            ++ cross_issues
            ++ cycles)

  -- the handler of `PlanError` around `activity_map`
  abbrev pub or_single : Fields → Py Activities → Py (List Issue)
  or_single plan (ok acts) = validate_parts plan acts
  or_single plan (raise (plan_error issues)) = ok issues
  or_single plan (raise crash) = raise crash

  unfoldable pub validate_plan : Fields → Py (List Issue)
  unfolding activity_map validate_parts
  validate_plan plan = or_single plan (activity_map plan)
