-- ===== src/Plan/Git.antt =====
-- The commits of completed activities: `remote_reachable_commits`, `reachable_commits` and
-- `git_commit_issues` of planning/update_plan.py. A run of git is a parameter, since git is no part
-- of the repository: its exit code and what it printed.
pub mod Reach
pub mod Recorded
pub mod Clean
use Prim.Native.String.{◌++◌ as append}
use lua_mongodb.Base.{
  ℕ, zero, suc, ◌+◌, String, Bool, true, false, not, ◌&&◌, ◌||◌, Option, none, some, List, [], ◌∷◌,
  ◌++◌, contains, keep, any, length, str_eq, ◌==◌, if◌then◌else◌,
}
use lua_mongodb.Graph.{Graph, targets}
use lua_mongodb.Json.{Json, null, str, obj, Fields, end, get_or, truthy, is_text}
use lua_mongodb.Raise.{ok, raise, ◌>>=◌}
use lua_mongodb.Text.{strip, split_on, split_most, words, splitlines, starts_with}
use lua_mongodb.Plan.Documents.{Activities, attribute, status_for}
use lua_mongodb.Plan.Issue.{
  Issue, Py, no_git_repository, git_log_failed, no_trailer, no_exact_subject, several_exact,
  trailer_reused, several_trailers, not_pushed,
}
use lua_mongodb.Plan.State.{item}
use lua_mongodb.Plan.Validate.Activity.{hashed}
use lua_mongodb.Plan.Validate.Tracks.{when}

pub record Completed : Type 0 where
  pub returncode : ℕ
  pub stdout : String

-- `run_git` in the root of the repository
abbrev pub Git : Type 0
Git = List String → Completed

pub record Commit : Type 0 where
  pub hash : String
  pub parents : List String
  pub subject : String
  pub body : String

abbrev fields_commit : List String → List Commit
fields_commit (hash ∷ parents ∷ subject ∷ body ∷ []) =
    record { hash = hash; parents = words parents; subject = subject; body = body } ∷ []
fields_commit _ = []

-- one record of the log, if it has its four fields
unfoldable pub parse_record : String → List Commit
unfolding strip split_most words
parse_record text = fields_commit (split_most 3 31 (strip text))

unfoldable pub parse_records : List String → List Commit
unfolding parse_record
parse_records [] = []
parse_records (r ∷ rs) = parse_record r ++ parse_records rs

-- the log, whose records end in the character 30
unfoldable pub parse_log : String → List Commit
unfolding parse_records split_on
parse_log text = parse_records (split_on 30 text)

-- `parents_by_commit`, where a later entry of a commit stands before an earlier one and hides it
unfoldable pub parent_edges : List Commit → Graph → Graph
parent_edges [] g = g
parent_edges (c ∷ cs) g = parent_edges cs ((c.hash, c.parents) ∷ g)

-- `children.setdefault(parent, set()).add(commit)`
unfoldable pub add_child : String → String → Graph → Graph
add_child parent commit [] = (parent, commit ∷ []) ∷ []
add_child parent commit ((p, cs) ∷ g) =
    if str_eq p parent then (p, commit ∷ cs) ∷ g else (p, cs) ∷ add_child parent commit g

unfoldable pub add_children : List String → String → Graph → Graph
unfolding add_child
add_children [] commit g = g
add_children (p ∷ ps) commit g = add_children ps commit (add_child p commit g)

-- `children_by_commit`
unfoldable pub child_edges : List Commit → Graph → Graph
unfolding add_children
child_edges [] g = g
child_edges (c ∷ cs) g = child_edges cs (add_children c.parents c.hash g)

-- The `while` loop of `reachable_commits`. The order in which a set lists its members is not fixed,
-- and here `pending` is a stack with its top in front; `none` means that the fuel ran out.
unfoldable pub reach_loop : Graph → ℕ → List String → List String → Option (List String)
reach_loop edges fuel reached [] = some reached
reach_loop edges zero reached (c ∷ pending) = none
reach_loop edges (suc fuel) reached (c ∷ pending) = elim (contains reached c) [
  | true ↦ reach_loop edges fuel reached pending
  | false ↦ reach_loop edges fuel (c ∷ reached) (targets edges c ++ pending)
]

abbrev pub edge_count : Graph → ℕ
edge_count [] = 0
edge_count ((a, ds) ∷ g) = length ds + edge_count g

-- A commit is expanded once, so no more commits are ever pending than there are edges, and those of
-- the start once more.
unfoldable pub reachable_commits : String → Graph → Option (List String)
unfolding reach_loop targets
reachable_commits start edges =
    reach_loop edges (length (targets edges start) + edge_count edges) [] (targets edges start)

-- the commits reached; none of them where the fuel ran out
abbrev pub reached_or_none : Option (List String) → List String
reached_or_none none = []
reached_or_none (some cs) = cs

-- `git rev-list --remotes`
abbrev pub nonempty : String → Bool
nonempty s = not (str_eq s "")

unfoldable pub remote_reachable_commits : Git → List String
unfolding splitlines
remote_reachable_commits git =
    let result = git ("rev-list" ∷ "--remotes" ∷ []) in
    if result.returncode == 0 then keep nonempty (splitlines result.stdout) else []

-- `f"Plan-Activity: {activity_id}"`
abbrev pub trailer : String → String
trailer id = append "Plan-Activity: " id

abbrev pub has_trailer : String → Commit → Bool
has_trailer id c = contains (splitlines c.body) (trailer id)

-- what the checks of one activity read besides its commits
pub record History : Type 0 where
  pub before_policy : List String
  pub remote : List String
  pub require_pushed : Bool

-- whether two lists of texts are equal
abbrev pub is_only : String → List String → Bool
is_only t (x ∷ []) = str_eq x t
is_only t _ = false

-- the checks of the commit that has both the subject and the trailer
abbrev pub extra : History → String → Commit → Bool
extra h hash c = not (str_eq c.hash hash) && not (contains h.before_policy c.hash)

unfoldable pub check_commit : History → String → List Commit → Commit → List Issue
check_commit h id matching c =
    if any (extra h c.hash) matching
    then trailer_reused id ∷ []
    else when
        (not
          (is_only (trailer id) (keep (λ l. starts_with l "Plan-Activity:") (splitlines c.body))))
        (several_trailers id)
      ++ when (h.require_pushed && not (contains h.remote c.hash)) (not_pushed id c.hash)

abbrev pub check_exact : History → String → List Commit → List Commit → List Issue
check_exact h id matching [] = no_exact_subject id ∷ []
check_exact h id matching (c ∷ []) = check_commit h id matching c
check_exact h id matching (c ∷ d ∷ rest) = several_exact id ∷ []

abbrev pub check_matching : History → String → Json → List Commit → List Issue
check_matching h id subject [] = no_trailer id ∷ []
check_matching h id subject (c ∷ rest) =
    check_exact h id (c ∷ rest) (keep (λ d. is_text subject d.subject) (c ∷ rest))

-- `descendants_by_boundary`: a boundary that is no text is the parent of no commit
abbrev pub descendants : Graph → Json → List String
descendants children (str start) = reached_or_none (reachable_commits start children)
descendants children _ = []

-- the commits that count for an activity: those after it was reopened
unfoldable pub eligible : List Commit → Graph → Json → Py (List Commit)
unfolding reachable_commits
eligible commits children boundary =
    if truthy boundary
    then (do
      key ← hashed boundary
      ok (keep (λ c. contains (descendants children key) c.hash) commits))
    else ok commits

abbrev pub empty : List Commit → Bool
empty [] = true
empty _ = false

-- the body of the loop over the activities
unfoldable pub commit_issues :
    History → List Commit → Graph → Fields → String → Fields → Py (List Issue)
unfolding status_for check_commit eligible
commit_issues h commits children progress id activity = do
  status ← status_for progress id
  if not (is_text status "completed") then ok [] else do
    entry ← attribute (get_or progress "activities" (obj end)) id (obj end)
    boundary ← attribute entry "reopened_after_commit" null
    candidates ← eligible commits children boundary
    let matching = keep (has_trailer id) candidates
    subject ← (if empty matching then ok null else item activity "commit")
    ok (check_matching h id subject matching)

unfoldable pub all_commit_issues :
    History → List Commit → Graph → Fields → Activities → Py (List Issue)
unfolding commit_issues
all_commit_issues h commits children progress [] = ok []
all_commit_issues h commits children progress ((id, activity) ∷ rest) = do
  here ← commit_issues h commits children progress id activity
  later ← all_commit_issues h commits children progress rest
  ok (here ++ later)

abbrev pub baseline : String
baseline = "057026301066f9d4adcf22d59710a3e5690ec529"

abbrev pub history : Git → Bool → List Commit → History
history git require_pushed commits = record {
  before_policy = baseline ∷ reached_or_none (reachable_commits baseline (parent_edges commits []));
  remote = if require_pushed then remote_reachable_commits git else [];
  require_pushed = require_pushed;
}

abbrev pub log_command : List String
log_command = "log" ∷ "--format=%H%x1f%P%x1f%s%x1f%B%x1e" ∷ "--all" ∷ []

unfoldable pub git_commit_issues : Git → Bool → Activities → Fields → Py (List Issue)
unfolding parse_log parent_edges child_edges all_commit_issues remote_reachable_commits
git_commit_issues git require_pushed acts progress =
    let log = git log_command in
    let commits = parse_log log.stdout in
    if not ((git ("rev-parse" ∷ "--show-toplevel" ∷ [])).returncode == 0)
    then ok (no_git_repository ∷ [])
    else if not (log.returncode == 0)
    then ok (git_log_failed ∷ [])
    else all_commit_issues (history git require_pushed commits) commits (child_edges commits [])
        progress acts
