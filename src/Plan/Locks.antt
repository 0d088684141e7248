-- ===== src/Plan/Locks.antt =====
-- How the submodules of the pinned references stand: `submodule_declarations` and the body of the loop
-- of `inspect_reference_locks` of planning/update_plan.py.
pub mod Exact
use Prim.Native.Char.{Char, code}
use Prim.Native.String.{◌++◌ as append}
use lua_mongodb.Base.{
  ℕ, zero, suc, String, Bool, true, false, not, ◌&&◌, ◌||◌, Option, none, some, List, [], ◌∷◌, ◌++◌,
  any, map, contains, codes, length, ltb, str_eq, ◌==◌, if◌then◌else◌,
}
use lua_mongodb.Json.{
  Json, null, str, arr, nil, obj, Fields, end, field, get_or, iterate, is_text, hashable, truthy,
}
use lua_mongodb.Plan.Files.{Env, Files, load_documents, assert_valid_core}
use lua_mongodb.Plan.Git.{Completed, Git}
use lua_mongodb.Plan.Issue.{
  Py, crash, LockIssue, not_registered, missing_entry, malformed_status, merge_conflicts, wrong_url,
  wrong_submodule,
}
use lua_mongodb.Plan.Pattern.{is_commit}
use lua_mongodb.Plan.State.{item_of}
use lua_mongodb.Raise.{Result, ok, raise, ◌>>=◌}
use lua_mongodb.Text.{starts_with, splitlines, strip}

pub record Details : Type 0 where
  pub path : String
  pub expected : Json
  pub actual : Option String
  pub status : String
  pub issues : List LockIssue

-- `"ok" if not issues else "stale"`
abbrev pub report_status : List LockIssue → String
report_status [] = "ok"
report_status (_ ∷ _) = "stale"

-- What the code reads of its surroundings: the sections of `.gitmodules` with their path and URL, where
-- `none` is a file that cannot be read; `str(Path(text))`; git in the root and in a checkout;
-- `Path.exists`; whether two paths resolve to the same; the names that a source declares.
pub record Checkouts : Type 0 where
  pub sections : Option (List (String × String × String))
  pub path_text : Json → Option String
  pub root_git : Git
  pub checkout_git : String → Git
  pub exists : String → Bool
  pub same_path : String → String → Bool
  pub declared_symbols : String → List String
  pub text_of : Json → String

-- the URL of each declared path, where a later section hides an earlier one
unfoldable pub declared_url : List (String × String × String) → String → Option String
unfolding starts_with
declared_url [] relative = none
declared_url ((section, path, url) ∷ rest) relative = elim (declared_url rest relative) [
  | some later ↦ some later
  | none ↦
      if starts_with section "submodule " && not (str_eq path "") && str_eq path relative
      then some url
      else none
]

abbrev pub submodule_url : Checkouts → String → Option String
submodule_url env relative = elim env.sections [
  | none ↦ none
  | some sections ↦ declared_url sections relative
]

-- `s.rstrip("\n")`
unfoldable pub rstrip_newlines : String → String
rstrip_newlines String.[] = String.[]
rstrip_newlines (String.◌∷◌ c s) =
    let rest = rstrip_newlines s in
    if str_eq rest "" && code c == 10 then String.[] else String.◌∷◌ c rest

-- `s[:n]`
unfoldable pub first_characters : ℕ → String → String
first_characters zero s = String.[]
first_characters (suc n) String.[] = String.[]
first_characters (suc n) (String.◌∷◌ c s) = String.◌∷◌ c (first_characters n s)

abbrev pub without_first : String → String
without_first String.[] = String.[]
without_first (String.◌∷◌ c s) = s

-- the HEAD of a checkout of its own, in place of what the status names
abbrev pub head_of : Checkouts → String → String → Completed → String
head_of env relative named head = elim (splitlines head.stdout) [
  | top ∷ commit ∷ [] ↦
      if head.returncode == 0 && env.same_path top relative && is_commit (str commit)
      then commit
      else named
  | _ ↦ named
]

abbrev pub url_issues : Option String → Json → Py (List LockIssue)
url_issues none reference = Result.ok (not_registered ∷ [])
url_issues (some url) reference = item_of reference "url" >>= λ expected.
    Result.ok (if is_text expected url then [] else wrong_url url expected ∷ [])

-- the commit that is checked out, and what is wrong with it, from the line of `git submodule status`
unfoldable pub submodule_issues :
    Checkouts → String → Json → ℕ → String → Option String × List LockIssue
unfolding first_characters splitlines
submodule_issues env relative expected returncode line =
    let named = first_characters 40 (without_first line) in
    let head = env.checkout_git relative ("rev-parse" ∷ "--show-toplevel" ∷ "HEAD" ∷ []) in
    let actual = head_of env relative named head in
    if not (returncode == 0) || str_eq line ""
    then (none, missing_entry ∷ [])
    else if ltb (length (codes line)) 41 || not (is_commit (str named))
    then (none, malformed_status ∷ [])
    else (
      some actual,
      (if starts_with line "U" then merge_conflicts ∷ [] else [])
          ++ (if is_text expected actual then [] else wrong_submodule actual expected ∷ []),
    )

abbrev pub relative_path : Option String → Py String
relative_path none = Result.raise crash
relative_path (some path) = Result.ok path

unfoldable pub inspect_lock : Checkouts → Json → Py Details
unfolding declared_url submodule_issues rstrip_newlines
inspect_lock env reference = do
  path ← item_of reference "path"
  relative ← relative_path (env.path_text path)
  expected ← item_of reference "commit"
  about_url ← url_issues (submodule_url env relative) reference
  let status = env.root_git ("submodule" ∷ "status" ∷ "--" ∷ relative ∷ [])
  let found =
      submodule_issues env relative expected status.returncode (rstrip_newlines status.stdout)
  Result.ok (record {
    path = relative;
    expected = expected;
    actual = found.0;
    status = report_status (about_url ++ found.1);
    issues = about_url ++ found.1;
  })
