-- ===== src/References/Problem.antt =====
-- The messages of planning/update_references.py, one constructor for each, and its exceptions.
use lua_mongodb.Base.{String, List}
use lua_mongodb.Json.{Json}
use lua_mongodb.Raise.{Result}

pub data Problem : Type 0 where
  git_failed : String → Problem
  unreadable not_an_object : Problem
  path_escapes : String → Problem
  not_fetched fetched_unavailable : String → Problem
  missing_path missing_symbol : Json → Problem
  unparsed_paths : Problem
  not_a_commit : String → Problem
  unknown_reference already_pinned : String → Problem
  missing_checkout dirty_checkout : String → Problem
  wrong_head : String → Json → Problem
  not_a_descendant : String → Problem
  generator_failed : List String → Problem
  no_suite : Problem
  not_a_digest not_repeatable : Problem
  wrong_digest : String → String → Problem
  not_a_submodule : String → Problem
  dirty_project : Problem

-- `ReferenceUpdateError`, or any other exception
pub data Failure : Type 0 where
  update_error : Problem → Failure
  crash : Failure

abbrev pub Py {ℓ} : Type ℓ → Type ℓ
Py A = Result Failure A

abbrev pub fail {ℓ} : {A : Type ℓ} → Problem → Py A
fail p = Result.raise (update_error p)
