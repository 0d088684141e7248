-- ===== src/Plan/Validate/Activity.antt =====
-- The loop over the activities in `validate_plan` of planning/update_plan.py.
use lua_mongodb.Base.{
  String, Bool, not, ◌||◌, List, [], ◌∷◌, ◌++◌, contains, any, codes, if◌then◌else◌,
}
use lua_mongodb.Json.{
  Json, null, str, arr, nil, Fields, get_or, has, hashable, is_list, is_text, member, distinct,
  elements,
}
use lua_mongodb.Raise.{ok, raise, ◌>>=◌}
use lua_mongodb.Plan.Documents.{Activities}
use lua_mongodb.Plan.Issue.{
  Issue, Py, crash, activity_missing, unknown_milestone, dependencies_not_array, unknown_dependency,
  depends_on_itself, duplicate_dependencies, invalid_test_policy, invalid_track, unknown_track,
  invalid_subject, unknown_reference,
}
use lua_mongodb.Plan.Pattern.{matches_track, is_subject}
use lua_mongodb.Plan.Validate.References.{loop_over}
use lua_mongodb.Plan.Validate.Tracks.{when, in_activities}

abbrev pub required : List String
required =
    "title" ∷ "milestone" ∷ "depends_on" ∷ "references" ∷ "test_policy" ∷ "test_first"
    ∷ "implementation" ∷ "verification" ∷ "acceptance" ∷ "docs" ∷ "commit" ∷ []

unfoldable pub missing : String → Fields → List String → List Issue
missing id activity [] = []
missing id activity (k ∷ ks) =
    when (not (has activity k)) (activity_missing id k) ++ missing id activity ks

-- what a set hashes
abbrev pub hashed : Json → Py Json
hashed x = if hashable x then ok x else raise crash

-- the list of dependencies that is checked: none if the value is no list
abbrev pub dependency_list : Json → List Json
dependency_list (arr xs) = elements xs
dependency_list _ = []

unfoldable pub check_dependencies : Activities → String → List Json → Py (List Issue)
unfolding in_activities
check_dependencies acts id [] = ok []
check_dependencies acts id (d ∷ ds) = do
  known ← in_activities acts d
  rest ← check_dependencies acts id ds
  ok (
      when (not known) (unknown_dependency id d)
      ++ when (is_text d id) (depends_on_itself id)
      ++ rest)

abbrev pub is_policy : Json → Bool
is_policy x = is_text x "red_green" || is_text x "validation"

abbrev pub track_issue : List String → String → Json → List Issue
track_issue tracks id null = []
track_issue tracks id (str t) =
    if not (matches_track (codes t))
    then invalid_track id (str t) ∷ []
    else when (not (contains tracks t)) (unknown_track id (str t))
track_issue tracks id x = invalid_track id x ∷ []

unfoldable pub check_mapping_ids : List String → String → List Json → Py (List Issue)
check_mapping_ids ids id [] = ok []
check_mapping_ids ids id (x ∷ xs) = do
  m ← hashed x
  rest ← check_mapping_ids ids id xs
  ok (when (not (any (is_text m) ids)) (unknown_reference id m) ++ rest)

-- what the loop reads besides the activity
pub record Context : Type 0 where
  pub activities : Activities
  pub milestones : List Json
  pub tracks : List String
  pub mapping_ids : List String

abbrev pub context_of : Activities → List Json → List String → List String → Context
context_of activities milestones tracks mapping_ids = record {
  activities = activities;
  milestones = milestones;
  tracks = tracks;
  mapping_ids = mapping_ids;
}

unfoldable pub check_activity : Context → String → Fields → Py (List Issue)
unfolding missing check_dependencies check_mapping_ids
check_activity c id activity =
    let depends = get_or activity "depends_on" (arr nil) in
    do
      milestone ← hashed (get_or activity "milestone" null)
      dependency_issues ← check_dependencies c.activities id (dependency_list depends)
      policy ← hashed (get_or activity "test_policy" null)
      mappings ← loop_over (get_or activity "references" (arr nil))
      mapping_issues ← check_mapping_ids c.mapping_ids id mappings
      ok (
          missing id activity required
          ++ when (not (member c.milestones milestone)) (unknown_milestone id milestone)
          ++ when (not (is_list depends)) (dependencies_not_array id)
          ++ dependency_issues
          ++ when (not (distinct (dependency_list depends))) (duplicate_dependencies id)
          ++ when (not (is_policy policy)) (invalid_test_policy id)
          ++ track_issue c.tracks id (get_or activity "track" null)
          ++ when (not (is_subject (get_or activity "commit" (str "")))) (invalid_subject id)
          ++ mapping_issues)

unfoldable pub check_activities : Context → Activities → Py (List Issue)
unfolding check_activity
check_activities c [] = ok []
check_activities c ((id, activity) ∷ rest) = do
  here ← check_activity c id activity
  later ← check_activities c rest
  ok (here ++ later)
