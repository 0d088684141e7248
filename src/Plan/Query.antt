-- ===== src/Plan/Query.antt =====
-- The command line of planning/update_plan.py: the choice of the command, and the commands that only
-- look, `next` and `check`.
pub mod Valid
pub mod Saved
use lua_mongodb.Base.{
  String, Bool, true, false, not, ◌&&◌, Option, none, some, List, [], ◌∷◌, ◌++◌, str_eq,
  if◌then◌else◌,
}
use lua_mongodb.Json.{ℤ, Json, obj, Fields, same}
use lua_mongodb.Raise.{Result, ok, raise, ◌>>=◌}
use lua_mongodb.Plan.Command.{start, requeue, review, check, check_none, track_declared, ◌>>◌}
use lua_mongodb.Plan.Documents.{activity_map, declared_track_ids}
use lua_mongodb.Plan.Files.{
  Env, File, Files, Documents, read_json, load_documents, assert_valid_core, core_issues,
  run_command,
}
use lua_mongodb.Plan.Git.{git_commit_issues}
use lua_mongodb.Plan.Locks.{Checkouts}
use lua_mongodb.Plan.Contents.{inspect_reference_locks, reference_issues}
use lua_mongodb.Plan.Issue.{
  LockIssue, reference_issue, Issue, Exception, Py, plan_error, crash, fail, stale_state,
  state_is_stale, pushed_requires_strict,
}
use lua_mongodb.Plan.Outcome.{Phase, record_test, block, unblock, complete}
use lua_mongodb.Plan.State.{State, compute_state, state_json, first_of_list}

-- the commands that change the progress of an activity, with their arguments
pub data Command : Type 0 where
  start_activity : String → Option String → Command
  requeue_activity review_activity block_activity : String → String → Command
  record_activity : String → Phase → String → ℤ → String → Command
  unblock_activity complete_activity : String → Command

unfoldable pub step : Env → Command → Fields → Fields → Py Fields
step env (start_activity id track) = start env id track
step env (requeue_activity id reason) = requeue env id reason
step env (review_activity id reason) = review id reason
step env (block_activity id reason) = block env id reason
step env (record_activity id phase command code summary) =
    record_test env id phase command code summary
step env (unblock_activity id) = unblock id
step env (complete_activity id) = complete env id

-- `main` for such a command
unfoldable pub main : Env → Command → Files → Py (Unit {0}) × Files
unfolding step run_command
main env command = run_command env (step env command)

-- `state["ready_by_track"][track]`, which raises `KeyError`
unfoldable pub track_ready : List (String × List String) → String → Py (List String)
track_ready [] track = raise crash
track_ready ((t, ids) ∷ rest) track =
    let later = track_ready rest track in if str_eq t track then ok ids else later

abbrev pub ready_in : Fields → State → Option String → Py (Option String)
ready_in plan state none = ok (first_of_list state.lists.ready)
ready_in plan state (some track) = do
  track_declared plan (some track)
  ids ← track_ready state.lists.ready_by_track track
  ok (first_of_list ids)

abbrev pub fresh_state : List Issue → Py (Unit {0})
fresh_state [] = ok tt
fresh_state (i ∷ issues) = fail stale_state

abbrev pub as_issues : List (String × LockIssue) → List Issue
as_issues [] = []
as_issues ((name, issue) ∷ rest) = reference_issue name issue ∷ as_issues rest

-- `reference_issues(inspect_reference_locks(plan))`
abbrev pub lock_issues : Checkouts → Fields → Py (List Issue)
lock_issues checkouts plan = inspect_reference_locks checkouts plan >>= λ report.
    Result.ok (as_issues (reference_issues report))

module _ (checkouts : Checkouts) where
  -- `command_next`, up to what it prints, on documents that are valid
  unfoldable pub next : Env → Option String → Fields → Fields → Py (Option String)
  unfolding compute_state track_ready inspect_reference_locks reference_issues
  next env track plan progress = do
    issues ← lock_issues checkouts plan
    check_none issues
    state ← compute_state env.digest plan progress
    fresh_state state.stale
    ready_in plan state track

  abbrev existing_issues : State → Py Fields → Py (List Issue)
  existing_issues state (ok existing) =
      ok (if same (obj existing) (state_json state) then [] else state_is_stale ∷ [])
  existing_issues state (raise (plan_error issues)) = ok issues
  existing_issues state (raise crash) = raise crash

  -- what `command_check` reports
  unfoldable pub check_issues : Env → Bool → Bool → Files → Py (List Issue)
  unfolding load_documents core_issues compute_state state_json read_json git_commit_issues
      inspect_reference_locks reference_issues
  check_issues env strict pushed files = do
    d ← load_documents files
    core ← core_issues env d
    about_locks ← lock_issues checkouts d.plan
    state ← compute_state env.digest d.plan d.progress
    existing ← existing_issues state (read_json files.state)
    acts ← activity_map d.plan
    commits ← (if strict then git_commit_issues env.git pushed acts d.progress else ok [])
    ok (
        core
        ++ about_locks
        ++ state.stale
        ++ existing
        ++ (if pushed && not strict then pushed_requires_strict ∷ [] else [])
        ++ commits)
