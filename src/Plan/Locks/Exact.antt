-- ===== src/Plan/Locks/Exact.antt =====
-- What the reports on the pinned references mean.
use lua_mongodb.Base.{
  ℕ, String, Bool, true, false, not, ◌&&◌, ◌||◌, Option, none, some, List, [], ◌∷◌, ◌++◌, ◌≡◌, ◌⊎◌,
  refl, ap, if◌then◌else◌, ◌==◌, str_eq,
}
use lua_mongodb.Json.{Json, str, Fields, is_text}
use lua_mongodb.Plan.Files.{Env, Files, load_documents, assert_valid_core}
use lua_mongodb.Plan.Issue.{Py, LockIssue, missing_entry, malformed_status, merge_conflicts}
use lua_mongodb.Plan.Locks.{
  Checkouts, Details, report_status, submodule_url, rstrip_newlines, first_characters,
  without_first,
}
use lua_mongodb.Plan.Contents.{
  Report, named_issues, issues_of, merged, with_locks, reference_issues, report_exit, issues_exit,
  inspect_reference_locks, inspect_references, inspect_reference_contents, reference_report,
  check_references,
}
use lua_mongodb.Plan.Pattern.{is_commit}
use lua_mongodb.Plan.State.{item_of}
use lua_mongodb.Raise.{ok, raise, ◌>>=◌}
use lua_mongodb.Text.{splitlines, starts_with}

-- the exit codes of the two commands, from one entry of the report on
exit_step :
    (name : String) (details : Details) (about_lock : List LockIssue)
    (rest : List (String × LockIssue)) (others : Bool)
    → (if others then 1 else 0) ≡ issues_exit rest
    → (if not (str_eq (merged about_lock details).status "ok") || others then 1 else 0)
      ≡ issues_exit (named_issues name (merged about_lock details).issues ++ rest)
exit_step name details about_lock rest others h = step (about_lock ++ details.issues)
  where
    step :
        (is : List LockIssue)
        → (if not (str_eq (report_status is) "ok") || others then 1 else 0)
          ≡ issues_exit (named_issues name is ++ rest)
    step [] = h
    step (i ∷ is) = refl

exits_agree :
    (locks contents : Report)
    → report_exit (with_locks locks contents)
      ≡ issues_exit (reference_issues (with_locks locks contents))
unfolding reference_issues with_locks
exits_agree locks [] = refl
exits_agree locks ((name, details) ∷ rest) =
    exit_step name details (issues_of name locks) (reference_issues (with_locks locks rest)) _
      (exits_agree locks rest)

contents_agree :
    (locks contents : Py Report)
    → (locks >>= λ l. contents >>= λ c. ok (with_locks l c)) >>= (λ report. ok (report_exit report))
      ≡ ((locks >>= λ l. contents >>= λ c. ok (with_locks l c)) >>= λ report.
          ok (issues_exit (reference_issues report)))
contents_agree (ok l) (ok c) = ap ok (exits_agree l c)
contents_agree (ok l) (raise e) = refl
contents_agree (raise e) contents = refl

-- The commands `reference-report`, which looks at the status of each reference, and `check-references`,
-- which looks at the issues, end alike: with the same exception, or with the same exit code.
pub reference_report-check_references :
    (checkouts : Checkouts) (env : Env) (files : Files)
    → reference_report checkouts env files ≡ check_references checkouts env files
unfolding reference_report check_references inspect_reference_contents
reference_report-check_references checkouts env files =
    ap
      (λ (rest : Fields → Py ℕ). load_documents files >>= λ documents.
        assert_valid_core env documents >>= λ valid. rest valid.plan)
      λ i plan.
        contents_agree (inspect_reference_locks checkouts plan) (inspect_references checkouts plan)
          i

-- the commit that the line of a status names
abbrev pub named_commit : String → String
named_commit line = first_characters 40 (without_first line)

-- the HEAD of a checkout whose top is the path itself
pub record IsHead (env : Checkouts) (relative commit : String) : Type 0 where
  pub top : String
  pub prints :
      splitlines (env.checkout_git relative ("rev-parse" ∷ "--show-toplevel" ∷ "HEAD" ∷ [])).stdout
      ≡ top ∷ commit ∷ []
  pub at_path : env.same_path top relative ≡ true

-- A line of `git submodule status` that is in order: without conflicts, and with the expected commit
-- in the checkout of its own or, where there is none, in the index.
pub record IsInOrder (env : Checkouts) (relative : String) (expected : Json) (returncode : ℕ)
    (line : String) (actual : Option String) : Type 0 where
  pub returns : returncode ≡ 0
  pub no_conflicts : starts_with line "U" ≡ false
  pub names_commit : is_commit (str (named_commit line)) ≡ true
  pub commit : String
  pub is_actual : actual ≡ some commit
  pub is_expected : is_text expected commit ≡ true
  pub where_found : IsHead env relative commit ⊎ (commit ≡ named_commit line)

-- what `head_of` takes from the lines that git printed
abbrev picked : Checkouts → String → String → ℕ → List String → String
picked env relative named returncode lines = elim lines [
  | top ∷ commit ∷ [] ↦
      if returncode == 0 && env.same_path top relative && is_commit (str commit)
      then commit
      else named
  | _ ↦ named
]

-- the three ways in which an entry is judged
abbrev chosen : Bool → Bool → Bool → String → Json → LockIssue → Option String × List LockIssue
chosen b c u actual expected wrong =
    if b then (none, missing_entry ∷ []) else if c then (none, malformed_status ∷ []) else (
      some actual,
      (if u then merge_conflicts ∷ [] else [])
          ++ (if is_text expected actual then [] else wrong ∷ []),
    )

-- the path is declared in `.gitmodules`, with the URL of the reference
abbrev pub IsRegistered : Checkouts → String → Json → Type 0
IsRegistered env relative reference =
    (url : String) × (submodule_url env relative ≡ some url)
    × (expected : Json) × (item_of reference "url" ≡ ok expected)
    × (is_text expected url ≡ true)

abbrev pub IsLocked : Checkouts → Json → Details → Type 0
IsLocked env reference details =
    let status = env.root_git ("submodule" ∷ "status" ∷ "--" ∷ details.path ∷ []) in
    IsRegistered env details.path reference
    × (item_of reference "commit" ≡ ok details.expected)
    × IsInOrder env details.path details.expected status.returncode (rstrip_newlines status.stdout)
        details.actual
