-- ===== src/Readme/Problem.antt =====
-- The messages of planning/update_readme_compatibility.py, one constructor for each, its exceptions,
-- and `_read_json`.
use lua_mongodb.Base.{String, Bool, true, false, List}
use lua_mongodb.Json.{obj, Fields}
use lua_mongodb.Plan.Files.{File, missing, malformed, holds}
use lua_mongodb.Raise.{Result, ok}

pub data Problem : Type 0 where
  unreadable not_an_object : String → Problem
  invalid_version requirements_not_array requirement_not_object : String → Problem
  no_source invalid_test_index test_not_object : String → Problem
  cases_not_object : Problem
  no_suite_or_status scored_exclusion : String → Problem
  catalog_not_objects : Problem
  invalid_prose_suite prose_suite_has_cases invalid_mixed_suite mixed_suite_has_no_cases :
      String → Problem
  catalog_requirement_not_object invalid_requirement_status : String → Problem
  no_requirements : List String → Problem
  not_markdown : String → Problem
  mapping_differs links_differ : List String → List String → Problem
  suites_not_object : Problem
  unknown_documents layers_differ : List String → Problem
  no_single_section : Problem

-- `ReadmeCompatibilityError`, or an exception that `main` does not catch
pub data Failure : Type 0 where
  readme_error : Problem → Failure
  crash : Failure

abbrev pub Py {ℓ} : Type ℓ → Type ℓ
Py A = Result Failure A

abbrev pub fail {ℓ} : {A : Type ℓ} → Problem → Py A
fail p = Result.raise (readme_error p)

-- `if not b: raise ReadmeCompatibilityError(...)`
abbrev pub check : Bool → Problem → Py (Unit {0})
check true p = ok tt
check false p = fail p

-- a file, with its description for the messages
unfoldable pub read_json : String → File → Py Fields
read_json description missing = fail (unreadable description)
read_json description malformed = fail (unreadable description)
read_json description (holds (obj fs)) = ok fs
read_json description (holds _) = fail (not_an_object description)
