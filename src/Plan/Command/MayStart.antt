-- ===== src/Plan/Command/MayStart.antt =====
-- When `start` lets an activity begin.
use lua_mongodb.Base.{String, true, ◌⊎◌, Option, List, ◌≡◌}
use lua_mongodb.Json.{Json, Fields, is_text}
use lua_mongodb.Raise.{ok}
use lua_mongodb.Plan.Documents.{Activities, activity_map}
use lua_mongodb.Plan.Files.{Env}
use lua_mongodb.Plan.Git.Clean.{IsClean}
use lua_mongodb.Plan.Record.{require_activity, ensure_record}
use lua_mongodb.Plan.State.{item}
use lua_mongodb.Plan.Validate.References.{loop_over}
use lua_mongodb.Plan.Command.Guards.{AllIdle, AllCompleted, TrackFits}

-- The activity exists, its track fits, no activity of the plan is in progress, its own status is
-- `pending` or `needs_review`, what it depends on is completed, and the history has no issue.
pub record MayStart (env : Env) (id : String) (track : Option String) (plan progress : Fields)
    : Type 0 where
  pub activity : Fields
  pub acts : Activities
  pub entry : Fields
  pub status : Json
  pub depends : Json
  pub listed : List Json
  pub exists : require_activity plan id ≡ ok activity
  pub track_fits : TrackFits plan activity track
  pub reads : activity_map plan ≡ ok acts
  pub idle : AllIdle progress acts
  pub has_entry : ensure_record progress id ≡ ok entry
  pub has_status : item entry "status" ≡ ok status
  pub waits : (is_text status "pending" ≡ true) ⊎ (is_text status "needs_review" ≡ true)
  pub has_depends : item activity "depends_on" ≡ ok depends
  pub are_listed : loop_over depends ≡ ok listed
  pub completed : AllCompleted progress listed
  pub history : IsClean env.git true acts progress
