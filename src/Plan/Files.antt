-- ===== src/Plan/Files.antt =====
-- The documents on disk, and how the commands of planning/update_plan.py load, check and save them:
-- `read_json`, `read_references`, `load_documents`, `assert_valid_core`, `save_progress_and_state`.
-- `atomic_write` replaces a file as a whole; a write that fails is not modelled.
use lua_mongodb.Base.{String, List, [], ◌∷◌, ◌++◌, if◌then◌else◌}
use lua_mongodb.Json.{pos, Json, null, obj, Fields, field, str, get_or, put, remove, equals_int}
use lua_mongodb.Raise.{ok, raise, ◌>>=◌}
use lua_mongodb.Plan.Git.{Git}
use lua_mongodb.Plan.Issue.{
  Issue, Py, plan_error, fail, missing_json, malformed_json, not_an_object,
  references_schema_version, references_missing,
}
use lua_mongodb.Plan.Progress.{validate_progress}
use lua_mongodb.Plan.State.{compute_state, state_json, digest_plan}
use lua_mongodb.Plan.Validate.{validate_plan}

-- What the program uses of its surroundings: Python's `str`, the SHA-256 of a value's canonical JSON
-- text, git, and the time.
pub record Env : Type 0 where
  pub str_of : Json → String
  pub digest : Json → String
  pub git : Git
  pub now : String

pub data File : Type 0 where
  missing malformed : File
  holds : Json → File

pub record Files : Type 0 where
  pub plan : File
  pub references : File
  pub progress : File
  pub state : File

unfoldable pub read_json : File → Py Fields
read_json missing = fail missing_json
read_json malformed = fail malformed_json
read_json (holds (obj fs)) = ok fs
read_json (holds _) = fail not_an_object

abbrev nonempty_object : Json → Py Fields
nonempty_object (obj (field k v fs)) = ok (field k v fs)
nonempty_object _ = fail references_missing

unfoldable pub read_references : File → Py Fields
unfolding read_json
read_references file = do
  document ← read_json file
  if equals_int (pos 1) (get_or document "schema_version" null)
      then nonempty_object (get_or document "references" null)
      else fail references_schema_version

pub record Documents : Type 0 where
  pub plan : Fields
  pub progress : Fields

unfoldable pub load_documents : Files → Py Documents
unfolding read_references
load_documents files = do
  plan ← read_json files.plan
  references ← read_references files.references
  progress ← read_json files.progress
  ok (record { plan = put "references" (obj references) plan; progress = progress })

unfoldable pub core_issues : Env → Documents → Py (List Issue)
unfolding validate_plan validate_progress
core_issues env d = do
  plan_issues ← validate_plan env.str_of d.plan
  progress_issues ← validate_progress d.plan d.progress
  ok (plan_issues ++ progress_issues)

-- the documents, if they have no issue
abbrev pub valid_or_raise : Documents → List Issue → Py Documents
valid_or_raise d [] = ok d
valid_or_raise d (i ∷ issues) = raise (plan_error (i ∷ issues))

unfoldable pub assert_valid_core : Env → Documents → Py Documents
unfolding core_issues
assert_valid_core env d = core_issues env d >>= valid_or_raise d

abbrev pub write_state : Py Json → Files → Py (Unit {0}) × Files
write_state (ok state) files = (ok tt, record files { state = holds state })
write_state (raise e) files = (raise e, files)

-- The progress is written before the state is computed.
unfoldable pub save_progress_and_state : Env → Fields → Fields → Files → Py (Unit {0}) × Files
unfolding compute_state state_json
save_progress_and_state env plan progress files =
    write_state (compute_state env.digest plan progress >>= λ s. ok (state_json s))
      (record files { progress = holds (obj progress) })

-- How every command that changes the progress begins and ends: `step` is what it does in between, on
-- the documents in memory.
abbrev pub save_result : Env → Fields → Py Fields → Files → Py (Unit {0}) × Files
save_result env plan (ok progress) files = save_progress_and_state env plan progress files
save_result env plan (raise e) files = (raise e, files)

abbrev pub on_documents :
    Env → (Fields → Fields → Py Fields) → Py Documents → Files → Py (Unit {0}) × Files
on_documents env step (ok d) files = save_result env d.plan (step d.plan d.progress) files
on_documents env step (raise e) files = (raise e, files)

unfoldable pub run_command : Env → (Fields → Fields → Py Fields) → Files → Py (Unit {0}) × Files
unfolding load_documents assert_valid_core save_progress_and_state
run_command env step files =
    on_documents env step (load_documents files >>= assert_valid_core env) files

-- `command_render_state`
unfoldable pub render_state : Env → Files → Py (Unit {0}) × Files
unfolding run_command digest_plan
render_state env files =
    run_command env
      (λ plan progress. ok (
        remove "verified_references"
          (put "plan_digest" (str (digest_plan env.digest plan)) progress)))
      files
