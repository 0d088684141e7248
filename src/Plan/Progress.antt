-- ===== src/Plan/Progress.antt =====
-- `validate_progress` of planning/update_plan.py. The loop over the records adds up what each of them
-- contributes: its issues, and whether it is in progress.
pub mod Valid
pub mod Put
use lua_mongodb.Base.{
  ℕ, ◌+◌, String, Bool, true, false, not, ◌&&◌, ◌||◌, Option, none, some, List, [], ◌∷◌, ◌++◌,
  contains, any, ltb, if◌then◌else◌,
}
use lua_mongodb.Json.{
  ℤ, pos, Json, null, str, arr, nil, obj, Fields, get_or, same, is_list, is_text, equals_int,
  entries,
}
use lua_mongodb.Raise.{ok, ◌>>=◌}
use lua_mongodb.Plan.Documents.{Activities, names, activity_map}
use lua_mongodb.Plan.Issue.{
  Issue, Py, progress_schema_version, progress_plan_id, records_not_object, unknown_record,
  record_not_object, invalid_status, evidence_not_array, notes_not_array, several_in_progress,
}
use lua_mongodb.Plan.Validate.Activity.{hashed}
use lua_mongodb.Plan.Validate.Tracks.{when}

-- `sorted(STATUSES)`
abbrev pub statuses : List String
statuses = "blocked" ∷ "completed" ∷ "in_progress" ∷ "needs_review" ∷ "pending" ∷ []

unfoldable pub is_status : Json → Bool
is_status x = any (is_text x) statuses

pub record Tally : Type 0 where
  pub issues : List Issue
  pub active : ℕ

unfoldable pub record_issues : String → Fields → Json → List Issue
unfolding is_status
record_issues id entry status =
    when (not (is_status status)) (invalid_status id status)
    ++ when (not (is_list (get_or entry "evidence" (arr nil)))) (evidence_not_array id)
    ++ when (not (is_list (get_or entry "notes" (arr nil)))) (notes_not_array id)

abbrev pub check_known : String → Json → Py Tally
check_known id (obj entry) = do
  status ← hashed (get_or entry "status" null)
  ok (record {
    issues = record_issues id entry status;
    active = if is_text status "in_progress" then 1 else 0;
  })
check_known id _ = ok (record { issues = record_not_object id ∷ []; active = 0 })

unfoldable pub check_record : Activities → String → Json → Py Tally
check_record acts id x =
    if contains (names acts) id
    then check_known id x
    else ok (record { issues = unknown_record id ∷ []; active = 0 })

unfoldable pub check_records : Activities → List (String × Json) → Py Tally
unfolding check_record
check_records acts [] = ok (record { issues = []; active = 0 })
check_records acts ((id, x) ∷ rest) = do
  here ← check_record acts id x
  later ← check_records acts rest
  ok (record { issues = here.issues ++ later.issues; active = here.active + later.active })

unfoldable pub progress_header : Fields → Fields → List Issue
progress_header plan progress =
    when (not (equals_int (pos 1) (get_or progress "schema_version" null))) progress_schema_version
    ++ when (not (same (get_or progress "plan_id" null) (get_or plan "plan_id" null)))
        progress_plan_id

abbrev pub check_entries : List Issue → Activities → Json → Py (List Issue)
check_entries header acts (obj records) = do
  tally ← check_records acts (entries records)
  ok (header ++ tally.issues ++ when (ltb 1 tally.active) several_in_progress)
check_entries header acts _ = ok (header ++ records_not_object ∷ [])

unfoldable pub validate_progress : Fields → Fields → Py (List Issue)
unfolding activity_map progress_header check_records
validate_progress plan progress = do
  acts ← activity_map plan
  check_entries (progress_header plan progress) acts (get_or progress "activities" null)
