-- ===== src/Plan/Outcome.antt =====
-- The commands of planning/update_plan.py that record how the work on an activity goes: `record-test`,
-- `block`, `unblock` and `complete`.
pub mod Valid
pub mod Finished
use Prim.Native.String.{◌++◌ as append}
use lua_mongodb.Base.{
  String, Bool, true, false, not, ◌&&◌, ◌||◌, Option, none, some, List, [], ◌∷◌, ◌++◌, any,
  contains, str_eq, ◌==◌, if◌then◌else◌,
}
use lua_mongodb.Json.{
  ℤ, pos, Json, null, int, str, arr, nil, obj, Fields, end, field, get_or, put, remove, is_text,
  equals_int,
}
use lua_mongodb.Raise.{ok, raise, ◌>>=◌}
use lua_mongodb.Plan.Command.{check, check_none, ◌>>◌}
use lua_mongodb.Plan.Evidence.{completion_evidence_issues}
use lua_mongodb.Plan.Files.{Env}
use lua_mongodb.Plan.Issue.{
  Issue, Py, cannot_block, cannot_unblock, cannot_complete, evidence_needs_progress,
  red_needs_failure, green_needs_success,
}
use lua_mongodb.Plan.Record.{require_activity, ensure_record, set_record, status_in, append_to}
use lua_mongodb.Plan.State.{item}

-- The parser of the arguments lets no other phase pass.
pub data Phase : Type 0 where
  red green : Phase

abbrev pub phase_text : Phase → String
phase_text red = "red"
phase_text green = "green"

abbrev pub is_zero : ℤ → Bool
is_zero n = equals_int (pos 0) (int n)

-- the two tests of the phase against the exit code
abbrev pub check_phase : Phase → ℤ → Py (Unit {0})
check_phase red code = check (not (is_zero code)) red_needs_failure
check_phase green code = check (is_zero code) green_needs_success

abbrev pub test_evidence : Phase → String → ℤ → String → String → Json
test_evidence phase command code summary now = obj (
    field "phase" (str (phase_text phase)) (
      field "command" (str command) (
        field "exit_code" (int code)
          (field "summary" (str summary) (field "recorded_at" (str now) end)))))

-- `command_record_test`
unfoldable pub record_test :
    Env → String → Phase → String → ℤ → String → Fields → Fields → Py Fields
unfolding require_activity ensure_record append_to set_record
record_test env id phase command code summary plan progress = do
  _ ← require_activity plan id
  entry ← ensure_record progress id
  status ← item entry "status"
  check (is_text status "in_progress") evidence_needs_progress
  check_phase phase code
  noted ← append_to "evidence" (test_evidence phase command code summary env.now) entry
  set_record progress id noted

-- `command_block`
unfoldable pub block : Env → String → String → Fields → Fields → Py Fields
unfolding require_activity ensure_record append_to set_record
block env id reason plan progress = do
  _ ← require_activity plan id
  entry ← ensure_record progress id
  status ← item entry "status"
  check (status_in ("pending" ∷ "in_progress" ∷ "needs_review" ∷ []) status)
      (cannot_block id status)
  noted ← append_to "notes" (str (append "Blocked: " reason)) (
      put "block_reason" (str reason)
        (put "blocked_at" (str env.now) (put "status" (str "blocked") entry)))
  set_record progress id noted

-- `command_unblock`
unfoldable pub unblock : String → Fields → Fields → Py Fields
unfolding require_activity ensure_record append_to set_record
unblock id plan progress = do
  _ ← require_activity plan id
  entry ← ensure_record progress id
  status ← item entry "status"
  check (is_text status "blocked") (cannot_unblock id status)
  noted ←
      append_to "notes" (str "Unblocked")
        (remove "block_reason" (remove "blocked_at" (put "status" (str "pending") entry)))
  set_record progress id noted

-- `command_complete`
unfoldable pub complete : Env → String → Fields → Fields → Py Fields
unfolding require_activity ensure_record completion_evidence_issues set_record
complete env id plan progress = do
  activity ← require_activity plan id
  entry ← ensure_record progress id
  status ← item entry "status"
  check (is_text status "in_progress") (cannot_complete id status)
  issues ← completion_evidence_issues activity entry
  check_none issues
  set_record progress id (put "completed_at" (str env.now) (put "status" (str "completed") entry))
