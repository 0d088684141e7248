-- ===== src/Plan/Issue.antt =====
-- The messages of planning/update_plan.py, one constructor for each, with the values that the text
-- names, and the exceptions that its functions raise.
use lua_mongodb.Base.{ℕ, String, List, [], ◌∷◌}
use lua_mongodb.Json.{Json}
use lua_mongodb.Raise.{Result}

-- what is wrong with a pinned reference
pub data LockIssue : Type 0 where
  not_registered missing_entry malformed_status merge_conflicts : LockIssue
  wrong_url : String → Json → LockIssue
  wrong_submodule : String → Json → LockIssue
  missing_checkout not_a_checkout unavailable_pin : LockIssue
  wrong_head : String → Json → LockIssue
  missing_path missing_symbol : Json → LockIssue

pub data Issue : Type 0 where
  plan_schema_version plan_id_empty : Issue
  activities_not_array activity_without_id : Issue
  duplicate_activity : String → Issue
  tracks_not_array : Issue
  track_not_object : ℕ → Issue
  track_missing : ℕ → String → Issue
  track_invalid_id : ℕ → Json → Issue
  duplicate_track track_goal_empty : String → Issue
  references_empty : Issue
  reference_not_object reference_commit reference_path_url : String → Issue
  reference_mapping duplicate_mapping : String → Issue
  activity_missing : String → String → Issue
  unknown_milestone : String → Json → Issue
  dependencies_not_array : String → Issue
  unknown_dependency : String → Json → Issue
  depends_on_itself duplicate_dependencies invalid_test_policy : String → Issue
  invalid_track unknown_track : String → Json → Issue
  invalid_subject : String → Issue
  unknown_reference : String → Json → Issue
  track_unknown_activity : String → String → Json → Issue
  entry_not_in_track terminal_not_in_track : String → Json → Issue
  entry_not_after : String → Json → Json → Issue
  dependency_cycle : List String → Issue
  progress_schema_version progress_plan_id records_not_object : Issue
  unknown_record record_not_object : String → Issue
  invalid_status : String → Json → Issue
  evidence_not_array notes_not_array : String → Issue
  several_in_progress : Issue
  stale_digest stale_state : Issue
  missing_json malformed_json not_an_object : Issue
  references_schema_version references_missing : Issue
  reference_issue : String → LockIssue → Issue
  no_git_repository git_log_failed : Issue
  no_trailer no_exact_subject several_exact trailer_reused several_trailers : String → Issue
  not_pushed : String → String → Issue
  pushed_requires_strict state_is_stale : Issue
  no_such_track no_such_activity track_authorization : String → Issue
  not_in_track : String → String → Issue
  already_in_progress : Issue
  cannot_start cannot_requeue cannot_review cannot_block : String → Json → Issue
  cannot_unblock cannot_complete : String → Json → Issue
  dependencies_incomplete completed_dependents : List Json → Issue
  no_reopen_boundary review_reason_empty evidence_needs_progress : Issue
  red_needs_failure green_needs_success : Issue
  green_required red_required red_before_green : Issue

-- `PlanError`, with its lines, or any other exception, which ends the program by a traceback
pub data Exception : Type 0 where
  plan_error : List Issue → Exception
  crash : Exception

abbrev pub Py {ℓ} : Type ℓ → Type ℓ
Py A = Result Exception A

abbrev pub fail {ℓ} : {A : Type ℓ} → Issue → Py A
fail issue = Result.raise (plan_error (issue ∷ []))
