-- ===== src/References/Advance.antt =====
-- `advance_reference` of planning/update_references.py and what it calls. The steps that it shares with
-- `analyze_reference` are definitions of their own. An optional argument is what it is called with;
-- `references_path` is the document of the store.
pub mod Keeps
pub mod Documents
pub mod Pins
use Prim.Native.String.{◌++◌ as append}
use lua_mongodb.Base.{
  ℕ, String, Bool, true, false, not, ◌&&◌, ◌||◌, Option, none, some, List, [], ◌∷◌, contains,
  str_eq, ◌==◌, if◌then◌else◌,
}
use lua_mongodb.Json.{
  Json, null, str, arr, nil, elements, obj, Fields, end, lookup, get_or, put, truthy, is_text,
  member, hashable,
}
use lua_mongodb.Plan.Files.{File, holds}
use lua_mongodb.Plan.Pattern.{is_commit}
use lua_mongodb.Raise.{Result, ok, raise}
use lua_mongodb.Counts.{Counts, count_all}
use lua_mongodb.References.Problem.{
  Problem, Py, crash, fail, git_failed, path_escapes, not_fetched, fetched_unavailable,
  missing_path, missing_symbol, not_a_commit, unknown_reference, already_pinned, missing_checkout,
  dirty_checkout, wrong_head, not_a_descendant, generator_failed,
}
use lua_mongodb.References.Steps.{
  Completed, Tools, Store, Step, ◌>>=◌, ◌>>◌, lift, pure, check, git_step, require_git,
  read_document, write_document, item, get, elements_of,
}
use lua_mongodb.Text.{split_most, splitlines}
use lua_mongodb.Text.Search.{has_infix}
use lua_mongodb.References.Follow.{
  formatted, require_commit, declares, validate_symbol, validate_mapping, validate_each,
  validate_mappings, status_of_field, line_statuses, counted, change_summary,
}

-- `name in references` and then `references[name]`: a list or a text that holds the name is not
-- indexed by it
abbrev pub reference_in : String → Json → Py Json
reference_in name (obj fs) = elim (lookup name fs) [
  | none ↦ fail (unknown_reference name)
  | some v ↦ Result.ok v
]
reference_in name (arr xs) =
    if member (elements xs) (str name) then Result.raise crash else fail (unknown_reference name)
reference_in name (str s) =
    if has_infix name s then Result.raise crash else fail (unknown_reference name)
reference_in name _ = Result.raise crash

-- the path of a reference, which `Path.__truediv__` takes if it is a text
abbrev pub text_or_crash : Json → Py String
text_or_crash (str s) = Result.ok s
text_or_crash _ = Result.raise crash

abbrev pub inside : String → Option String → Py String
inside relative none = fail (path_escapes relative)
inside relative (some checkout) = Result.ok checkout

-- `value[key] = new`, at a value that is known to be an object
abbrev pub replaced : String → Json → Json → Json
replaced key new (obj fs) = obj (put key new fs)
replaced key new value = value

-- what `advance_reference` and `analyze_reference` have read when both go on
pub record Opened : Type 0 where
  pub document : Fields
  pub references : Json
  pub reference : Json
  pub checkout : String
  pub old : String

module _ {W : Type 0} (tools : Tools W) where
  abbrev pub resolve_checkout : String → Py String
  resolve_checkout relative = inside relative (tools.resolve relative)

  unfoldable pub checkout_exists : String → Step W Bool
  checkout_exists checkout s = (Result.ok (tools.exists checkout s.world), s)

  unfoldable pub require_checkout : String → String → Step W (Unit {0})
  unfolding checkout_exists
  require_checkout relative checkout = do
    there ← checkout_exists checkout
    check there (missing_checkout relative)

  unfoldable pub require_clean : String → String → Step W (Unit {0})
  unfolding require_git
  require_clean relative checkout = do
    dirty ←
        require_git tools checkout ("status" ∷ "--porcelain" ∷ [])
          (git_failed "could not inspect checkout")
    check (str_eq dirty "") (dirty_checkout relative)

  -- the old commit, which is a text after the check
  unfoldable pub require_head : Json → String → Step W String
  unfolding require_git
  require_head reference checkout = do
    old ← lift (item reference "commit")
    actual ←
        require_git tools checkout ("rev-parse" ∷ "HEAD" ∷ [])
          (git_failed "could not read checkout HEAD")
    check (is_text old actual) (wrong_head actual old)
    pure actual

  unfoldable pub open_reference : String → String → Step W Opened
  unfolding read_document require_checkout require_clean require_head
  open_reference name commit = do
    check (is_commit (str commit)) (not_a_commit commit)
    document ← read_document
    let references = get_or document "references" (obj end)
    reference ← lift (reference_in name references)
    path ← lift (item reference "path")
    relative ← lift (text_or_crash path)
    checkout ← lift (resolve_checkout relative)
    require_checkout relative checkout
    require_clean relative checkout
    old ← require_head reference checkout
    pure (record {
      document = document;
      references = references;
      reference = reference;
      checkout = checkout;
      old = old;
    })

  abbrev pub run_generator : List String → Step W (Unit {0})
  run_generator command s =
      let (completed, world) = tools.interpret command s.world in
      check (completed.exit_code == 0) (generator_failed command) (record s { world = world })

  unfoldable pub run_generators : List (List String) → Step W (Unit {0})
  run_generators [] = pure tt
  run_generators (command ∷ rest) = run_generator command >> run_generators rest

  -- the commit is there, descends from the old one and has what is mapped
  unfoldable pub follow_commit : Bool → String → String → Opened → Step W (Unit {0})
  unfolding require_commit validate_mappings
  follow_commit allow_non_fast_forward name commit opened = do
    require_commit tools opened.checkout commit
    ancestry ←
        git_step tools opened.checkout ("merge-base" ∷ "--is-ancestor" ∷ opened.old ∷ commit ∷ [])
    check (ancestry.exit_code == 0 || allow_non_fast_forward) (not_a_descendant name)
    validate_mappings tools opened.checkout opened.reference commit

-- `references[name]`, after `reference["commit"] = commit`, in the document that holds both
abbrev pub pinned : String → String → Opened → Fields
pinned name commit opened =
    put "references"
      (replaced name (replaced "commit" (str commit) opened.reference) opened.references)
      opened.document

abbrev pub default_generators : String → List (List String)
default_generators name =
    if str_eq name "specifications"
    then ("planning/update_spec_artifacts.py" ∷ []) ∷ []
    else ("planning/update_plan.py" ∷ "render-state" ∷ []) ∷ []

abbrev pub commands_for : String → Option (List (List String)) → List (List String)
commands_for name none = default_generators name
commands_for name (some commands) = commands

module _ {W : Type 0} (tools : Tools W) where
  unfoldable pub advance_reference :
      String → String → Bool → Option (List (List String)) → Step W Counts
  unfolding open_reference follow_commit change_summary require_git run_generators
  advance_reference name commit allow_non_fast_forward generator_commands = do
    opened ← open_reference tools name commit
    check (not (str_eq commit opened.old)) (already_pinned name)
    follow_commit tools allow_non_fast_forward name commit opened
    summary ← change_summary tools opened.checkout opened.old commit
    moved ←
        require_git tools opened.checkout ("checkout" ∷ "--detach" ∷ commit ∷ [])
          (git_failed "could not update checkout")
    write_document (pinned name commit opened)
    run_generators tools (commands_for name generator_commands)
    pure summary
