-- ===== src/References/Paths.antt =====
-- The paths, commits and mappings that a new commit of a reference changes: `changed_paths`,
-- `changed_commits`, `reference_path_category`, `summarize_reference_paths`, `commit_summaries`,
-- `object_id` and `roadmap_impacts` of planning/update_references.py.
pub mod Sorted
use Prim.Native.String.{◌++◌ as append}
use lua_mongodb.Base.{
  ℕ, ◌+◌, ◌-◌, String, Bool, true, false, not, ◌&&◌, ◌||◌, Option, none, some, List, [], ◌∷◌, ◌++◌,
  any, contains, length, map, str_eq, ◌==◌, ltb, if◌then◌else◌,
}
use lua_mongodb.Counts.{Counts, count_all}
use lua_mongodb.Raise.{Result, ok, raise}
use lua_mongodb.References.Problem.{Problem, Py, crash, fail, git_failed, unparsed_paths}
use lua_mongodb.References.Steps.{
  Completed, Tools, Store, Step, ◌>>=◌, ◌>>◌, lift, pure, git_step, require_git,
}
use lua_mongodb.Text.{starts_with, split_on, splitlines, strip}
use lua_mongodb.Text.Search.{ends_with}

pub record ChangedPath : Type 0 where
  pub status : String
  pub path : String

-- `fields.pop()`, if the last one is empty
abbrev pub without_empty_end : List String → List String
without_empty_end [] = []
without_empty_end (s ∷ []) = if str_eq s "" then [] else s ∷ []
without_empty_end (s ∷ t ∷ rest) = s ∷ without_empty_end (t ∷ rest)

-- a status and its first character, and a path; an odd number of fields is refused before any is read
unfoldable pub paired : List String → Py (List ChangedPath)
paired [] = Result.ok []
paired (s ∷ []) = fail unparsed_paths
paired (s ∷ path ∷ rest) = elim (paired rest) [
  | raise e ↦ Result.raise e
  | ok others ↦ with_first s path others
]
  where
    with_first : String → String → List ChangedPath → Py (List ChangedPath)
    with_first String.[] path others = Result.raise crash
    with_first (String.◌∷◌ c s) path others =
        Result.ok (record { status = String.◌∷◌ c String.[]; path = path } ∷ others)

abbrev pub starts_with_any : List String → String → Bool
starts_with_any prefixes path = any (starts_with path) prefixes

unfoldable pub reference_path_category : String → String → String
unfolding starts_with ends_with
reference_path_category reference path =
    if starts_with_any (".github/" ∷ ".evergreen/" ∷ []) path
    then "automation"
    else if starts_with_any ("test/" ∷ "tests/" ∷ []) path
    then "tests"
    else if str_eq path "uv.lock" || ends_with path ".lock" || ends_with path ".lockb"
    then "dependencies"
    else if contains ("README.md" ∷ "CONTRIBUTING.md" ∷ []) path || starts_with path "doc/"
    then "documentation"
    else if str_eq reference "pymongo"
        && starts_with_any ("bson/" ∷ "gridfs/" ∷ "pymongo/" ∷ []) path
    then "source"
    else if str_eq reference "specifications" && starts_with path "source/"
    then "specification"
    else if contains ("pymongo" ∷ "specifications" ∷ []) reference
    then "tooling"
    else "reference"

abbrev pub review_categories : List String
review_categories = "reference" ∷ "source" ∷ "specification" ∷ []

-- the sum over the categories that are to be reviewed
abbrev pub review_sum : Counts → ℕ
review_sum [] = 0
review_sum ((category, n) ∷ rest) =
    (if contains review_categories category then n else 0) + review_sum rest

pub record PathSummary : Type 0 where
  pub categories : Counts
  pub informational : ℕ
  pub review : ℕ

-- The sum is at most the number of paths, so the subtraction does not stop at 0.
unfoldable pub summarize_reference_paths : String → List ChangedPath → PathSummary
unfolding reference_path_category count_all
summarize_reference_paths reference paths =
    let categories = count_all (map (λ p. reference_path_category reference p.path) paths) in
    record {
      categories = categories;
      informational = length paths - review_sum categories;
      review = review_sum categories;
    }

pub record CommitSummary : Type 0 where
  pub commit : String
  pub disposition : String
  pub path_summary : PathSummary
  pub subject : String

module _ {W : Type 0} (tools : Tools W) where
  unfoldable pub changed_paths : String → String → String → Step W (List ChangedPath)
  unfolding require_git paired split_on
  changed_paths checkout old new = do
    output ←
        require_git tools checkout
          ("diff" ∷ "--name-status" ∷ "--no-renames" ∷ "-z" ∷ old ∷ new ∷ "--" ∷ [])
          (git_failed "could not compare reference paths")
    lift (paired (without_empty_end (split_on 0 output)))

  unfoldable pub changed_commits : String → String → String → Step W (List String)
  unfolding require_git splitlines
  changed_commits checkout old new = do
    output ←
        require_git tools checkout
          ("rev-list" ∷ "--reverse" ∷ "--topo-order" ∷ append old (append ".." new) ∷ [])
          (git_failed "could not list reference commits")
    pure (splitlines output)

  unfoldable pub commit_summaries : String → String → List String → Step W (List CommitSummary)
  unfolding changed_paths summarize_reference_paths require_git
  commit_summaries reference checkout [] = pure []
  commit_summaries reference checkout (commit ∷ rest) = do
    paths ← changed_paths checkout (append commit "^") commit
    let path_summary = summarize_reference_paths reference paths
    subject ←
        require_git tools checkout ("show" ∷ "-s" ∷ "--format=%s" ∷ commit ∷ [])
          (git_failed "could not read reference commit")
    others ← commit_summaries reference checkout rest
    pure (
        record {
          commit = commit;
          disposition = if path_summary.review == 0 then "informational" else "review";
          path_summary = path_summary;
          subject = subject;
        }
        ∷ others)

  unfoldable pub object_id : String → String → String → Step W (Option String)
  unfolding strip
  object_id checkout commit path =
      git_step tools checkout ("rev-parse" ∷ append commit (append ":" path) ∷ []) >>= λ completed.
      pure (if completed.exit_code == 0 then some (strip completed.stdout) else none)
