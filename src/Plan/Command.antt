-- ===== src/Plan/Command.antt =====
-- The commands of planning/update_plan.py that change the progress. Each is what the function does
-- between loading the documents and saving them; `run_command` does the rest.
pub mod Valid
pub mod StartValid
pub mod Guards
pub mod MayStart
use Prim.Native.String.{◌++◌ as append}
use lua_mongodb.Base.{
  String, Bool, true, false, not, ◌&&◌, ◌||◌, Option, none, some, List, [], ◌∷◌, ◌++◌, any,
  contains, codes, str_eq, ◌==◌, if◌then◌else◌,
}
use lua_mongodb.Json.{
  ℤ, pos, Json, null, int, str, arr, nil, obj, Fields, end, field, get_or, put, remove, is_text,
  equals_int,
}
use lua_mongodb.Raise.{ok, raise, ◌>>=◌}
use lua_mongodb.Text.{strip}
use lua_mongodb.Plan.Documents.{Activities, activity_map, status_for, declared_track_ids}
use lua_mongodb.Plan.Evidence.{completion_evidence_issues}
use lua_mongodb.Plan.Files.{Env}
use lua_mongodb.Plan.Git.{git_commit_issues}
use lua_mongodb.Plan.Issue.{
  Issue, Py, plan_error, fail, no_such_track, track_authorization, not_in_track,
  already_in_progress, cannot_start, cannot_requeue, cannot_review, cannot_block, cannot_unblock,
  cannot_complete, dependencies_incomplete, completed_dependents, no_reopen_boundary,
  review_reason_empty, evidence_needs_progress, red_needs_failure, green_needs_success,
}
use lua_mongodb.Plan.Record.{require_activity, ensure_record, set_record, status_in, append_to}
use lua_mongodb.Plan.State.{item, status_of}
use lua_mongodb.Plan.Validate.References.{loop_over}
use lua_mongodb.Plan.Validate.Tracks.{holds_text}

infixl 5 ◌>>◌
abbrev pub ◌>>◌ : {A : Type 0} → Py (Unit {0}) → Py A → Py A
m >> k = m >>= λ _. k

-- `if not b: raise PlanError(...)`
abbrev pub check : Bool → Issue → Py (Unit {0})
check true issue = ok tt
check false issue = fail issue

-- `if issues: raise PlanError(...)`
abbrev pub check_none : List Issue → Py (Unit {0})
check_none [] = ok tt
check_none (i ∷ issues) = raise (plan_error (i ∷ issues))

-- `any(status_for(progress, item["id"]) == "in_progress" for item in plan["activities"])`
unfoldable pub any_in_progress : Fields → Activities → Py Bool
unfolding status_for
any_in_progress progress [] = ok false
any_in_progress progress ((id, _) ∷ rest) =
    let later = any_in_progress progress rest in
    status_for progress id >>= λ s. if is_text s "in_progress" then ok true else later

-- the dependencies that are not completed
unfoldable pub incomplete : Fields → List Json → Py (List Json)
unfolding status_for
incomplete progress [] = ok []
incomplete progress (d ∷ ds) = do
  status ← status_of progress d
  rest ← incomplete progress ds
  ok (if is_text status "completed" then rest else d ∷ rest)

abbrev pub in_track : Json → Option String → Bool
in_track track none = true
in_track track (some t) = is_text track t

abbrev pub track_declared : Fields → Option String → Py (Unit {0})
track_declared plan none = ok tt
track_declared plan (some t) = check (contains (declared_track_ids plan) t) (no_such_track t)

abbrev pub track_authorized : String → Json → Option String → Py (Unit {0})
track_authorized id milestone none =
    check (not (is_text milestone "additional")) (track_authorization id)
track_authorized id milestone (some t) = ok tt

abbrev pub track_matches : String → Json → Option String → Py (Unit {0})
track_matches id track none = ok tt
track_matches id track (some t) = check (is_text track t) (not_in_track id t)

abbrev pub none_incomplete : List Json → Py (Unit {0})
none_incomplete [] = ok tt
none_incomplete (d ∷ ds) = fail (dependencies_incomplete (d ∷ ds))

-- the states from which an activity is started
abbrev pub startable : List String
startable = "pending" ∷ "needs_review" ∷ []

-- `command_start`
unfoldable pub start : Env → String → Option String → Fields → Fields → Py Fields
unfolding require_activity declared_track_ids activity_map any_in_progress ensure_record incomplete
    git_commit_issues set_record
start env id track plan progress = do
  activity ← require_activity plan id
  track_declared plan track
  track_authorized id (get_or activity "milestone" null) track
  track_matches id (get_or activity "track" null) track
  acts ← activity_map plan
  active ← any_in_progress progress acts
  check (not active) already_in_progress
  entry ← ensure_record progress id
  status ← item entry "status"
  check (status_in startable status) (cannot_start id status)
  depends ← item activity "depends_on"
  listed ← loop_over depends
  missing ← incomplete progress listed
  none_incomplete missing
  issues ← git_commit_issues env.git true acts progress
  check_none issues
  set_record progress id (put "started_at" (str env.now) (put "status" (str "in_progress") entry))

-- `[a["id"] for a in plan["activities"] if id in a["depends_on"] and a is completed]`
unfoldable pub dependents : Fields → String → Activities → Py (List Json)
unfolding status_for holds_text
dependents progress id [] = ok []
dependents progress id ((a, activity) ∷ rest) = do
  depends ← item activity "depends_on"
  depends_on_it ← holds_text depends id
  status ← (if depends_on_it then status_for progress a else ok null)
  later ← dependents progress id rest
  ok (if depends_on_it && is_text status "completed" then str a ∷ later else later)

abbrev pub no_dependents : List Json → Py (Unit {0})
no_dependents [] = ok tt
no_dependents (d ∷ ds) = fail (completed_dependents (d ∷ ds))

-- what is kept of a completion that is undone
abbrev pub past_completion : Fields → Json
past_completion entry = obj (
    field "completed_at" (get_or entry "completed_at" null)
      (field "evidence" (get_or entry "evidence" (arr nil)) end))

abbrev pub head_command : List String
head_command = "rev-parse" ∷ "HEAD" ∷ []

-- the part of `command_requeue` for an activity that was completed
unfoldable pub reopen : Env → String → Fields → Fields → Fields → Py Fields
unfolding activity_map dependents append_to strip
reopen env id plan progress entry = do
  acts ← activity_map plan
  completed ← dependents progress id acts
  no_dependents completed
  let probe = env.git head_command
  check (probe.returncode == 0) no_reopen_boundary
  kept ← append_to "reopen_history" (past_completion entry) entry
  ok (
      remove "completed_at"
        (put "reopened_after_commit" (str (strip probe.stdout)) (put "evidence" (arr nil) kept)))

-- `command_requeue`
unfoldable pub requeue : Env → String → String → Fields → Fields → Py Fields
unfolding require_activity ensure_record reopen append_to set_record
requeue env id reason plan progress = do
  _ ← require_activity plan id
  entry ← ensure_record progress id
  status ← item entry "status"
  check (status_in ("in_progress" ∷ "completed" ∷ []) status) (cannot_requeue id status)
  reopened ← (if is_text status "completed" then reopen env id plan progress entry else ok entry)
  noted ←
      append_to "notes" (str (append "Requeued: " reason))
        (remove "started_at" (put "status" (str "pending") reopened))
  set_record progress id noted

-- the status that is quoted in the note of `command_review`
abbrev pub quoted : Json → String
quoted (str s) = s
quoted _ = ""

abbrev pub review_note : Json → String → Json
review_note status reason =
    str (append "Needs review from " (append (quoted status) (append ": " reason)))

-- `command_review`
unfoldable pub review : String → String → Fields → Fields → Py Fields
unfolding require_activity ensure_record append_to set_record strip
review id reason plan progress = do
  _ ← require_activity plan id
  entry ← ensure_record progress id
  status ← item entry "status"
  check (status_in ("completed" ∷ "in_progress" ∷ []) status) (cannot_review id status)
  check (not (str_eq (strip reason) "")) review_reason_empty
  noted ←
      append_to "notes" (review_note status (strip reason))
        (put "status" (str "needs_review") entry)
  set_record progress id noted
