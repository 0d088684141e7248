-- ===== src/Plan/Query/Valid.antt =====
-- The validity of the progress under each command that changes it.
use lua_mongodb.Base.{[], ◌≡◌}
use lua_mongodb.Json.{null, obj, Fields, get_or}
use lua_mongodb.Raise.{ok, Ensures}
use lua_mongodb.Plan.Command.StartValid.{UniqueKeys, start-IsValid}
use lua_mongodb.Plan.Command.Valid.{requeue-IsValid, review-IsValid}
use lua_mongodb.Plan.Files.{Env}
use lua_mongodb.Plan.Outcome.Valid.{
  record_test-IsValid, block-IsValid, unblock-IsValid, complete-IsValid,
}
use lua_mongodb.Plan.Progress.Valid.{IsValid, validate_progress-IsValid, IsValid-validate_progress}
use lua_mongodb.Plan.Progress.{validate_progress}
use lua_mongodb.Plan.Query.{
  Command, start_activity, requeue_activity, review_activity, block_activity, record_activity,
  unblock_activity, complete_activity, step,
}

-- The records are a dictionary, which has each key once.
abbrev pub HasUniqueRecords : Fields → Type 0
HasUniqueRecords progress =
    (records : Fields) → get_or progress "activities" null ≡ obj records → UniqueKeys records

step-Ensures :
    (env : Env) (c : Command) (plan progress : Fields)
    → HasUniqueRecords progress
    → IsValid plan progress
    → Ensures (IsValid plan) (step env c plan progress)
unfolding step
step-Ensures env (start_activity id track) plan progress unique v =
    start-IsValid v env id track (unique v.records v.holds_records)
step-Ensures env (requeue_activity id reason) plan progress unique v =
    requeue-IsValid v env id reason
step-Ensures env (review_activity id reason) plan progress unique v = review-IsValid v id reason
step-Ensures env (block_activity id reason) plan progress unique v = block-IsValid v env id reason
step-Ensures env (record_activity id phase command code summary) plan progress unique v =
    record_test-IsValid v env id phase command code summary
step-Ensures env (unblock_activity id) plan progress unique v = unblock-IsValid v id
step-Ensures env (complete_activity id) plan progress unique v = complete-IsValid v env id

-- A command that goes through on a progress without issues, whose records name each activity once,
-- saves a progress without issues.
pub step-validate_progress :
    (env : Env) (c : Command) (plan progress saved : Fields)
    → HasUniqueRecords progress
    → validate_progress plan progress ≡ ok []
    → step env c plan progress ≡ ok saved
    → validate_progress plan saved ≡ ok []
step-validate_progress env c plan progress saved unique valid h =
    IsValid-validate_progress plan saved (
      (step-Ensures env c plan progress unique (validate_progress-IsValid plan progress valid)).at
        saved h)
