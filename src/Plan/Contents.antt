-- ===== src/Plan/Contents.antt =====
-- The reports on the pinned references: `inspect_reference_locks`, `inspect_references`,
-- `inspect_reference_contents`, `reference_issues` and the commands `reference-report` and
-- `check-references` of planning/update_plan.py.
use Prim.Native.String.{◌++◌ as append}
use lua_mongodb.Base.{
  ℕ, String, Bool, true, not, ◌||◌, Option, none, some, List, [], ◌∷◌, ◌++◌, any, contains, str_eq,
  ◌==◌, if◌then◌else◌,
}
use lua_mongodb.Json.{
  Json, null, str, arr, nil, obj, Fields, end, field, get_or, iterate, is_text, hashable, truthy,
}
use lua_mongodb.Plan.Files.{Env, Files, load_documents, assert_valid_core}
use lua_mongodb.Plan.Git.{Completed}
use lua_mongodb.Plan.Issue.{
  Py, crash, LockIssue, missing_checkout, not_a_checkout, unavailable_pin, wrong_head, missing_path,
  missing_symbol,
}
use lua_mongodb.Plan.State.{item_of}
use lua_mongodb.Raise.{Result, ◌>>=◌}
use lua_mongodb.Text.{strip}
use lua_mongodb.Plan.Locks.{Checkouts, Details, inspect_lock, report_status, relative_path}

-- `content.returncode != 0 or symbol not in declared_symbols(content.stdout)`
abbrev pub symbol_missing : Checkouts → Completed → Json → Py Bool
symbol_missing env content (str s) =
    Result.ok
      (not (content.returncode == 0) || not (contains (env.declared_symbols content.stdout) s))
symbol_missing env content symbol =
    if not (content.returncode == 0) || hashable symbol then Result.ok true else Result.raise crash

abbrev pub symbol_issues : Checkouts → Completed → Json → Py (List LockIssue)
symbol_issues env content symbol =
    if truthy symbol
    then (symbol_missing env content symbol >>= λ missing.
        Result.ok (if missing then missing_symbol symbol ∷ [] else []))
    else Result.ok []

unfoldable pub mapping_issues : Checkouts → String → Json → Json → Py (List LockIssue)
mapping_issues env relative expected (obj mapping) = do
  path ← item_of (obj mapping) "path"
  let object = append (env.text_of expected) (append ":" (env.text_of path))
  let symbol = get_or mapping "symbol" null
  let entry = env.checkout_git relative ("cat-file" ∷ "-e" ∷ object ∷ [])
  let content = env.checkout_git relative ("show" ∷ object ∷ [])
  if entry.returncode == 0
      then symbol_issues env content symbol
      else Result.ok (missing_path path ∷ [])
mapping_issues env relative expected _ = Result.raise crash

unfoldable pub each_mapping : Checkouts → String → Json → List Json → Py (List LockIssue)
unfolding mapping_issues
each_mapping env relative expected [] = Result.ok []
each_mapping env relative expected (m ∷ ms) = do
  here ← mapping_issues env relative expected m
  others ← each_mapping env relative expected ms
  Result.ok (here ++ others)

abbrev pub mappings_of : Json → Py (List Json)
mappings_of (obj reference) = elim (iterate (get_or reference "mappings" (arr nil))) [
  | none ↦ Result.raise crash
  | some xs ↦ Result.ok xs
]
mappings_of _ = Result.raise crash

-- the issues of a checkout whose HEAD is read
unfoldable pub checkout_issues : Checkouts → String → Json → Json → String → Py (List LockIssue)
unfolding each_mapping
checkout_issues env relative reference expected actual = do
  let pinned =
      env.checkout_git relative ("cat-file" ∷ "-e" ∷ append (env.text_of expected) "^{commit}" ∷ [])
  mappings ← mappings_of reference
  about_mappings ← each_mapping env relative expected mappings
  Result.ok (
      (if is_text expected actual then [] else wrong_head actual expected ∷ [])
      ++ (if pinned.returncode == 0 then [] else unavailable_pin ∷ [])
      ++ about_mappings)

abbrev pub inspect_checkout : Checkouts → String → Json → Json → Py (Option String × List LockIssue)
inspect_checkout env relative reference expected =
    let head = env.checkout_git relative ("rev-parse" ∷ "HEAD" ∷ []) in
    if not (env.exists relative)
    then Result.ok (none, missing_checkout ∷ [])
    else if not (head.returncode == 0)
    then Result.ok (none, not_a_checkout ∷ [])
    else (checkout_issues env relative reference expected (strip head.stdout) >>= λ issues.
        Result.ok (some (strip head.stdout), issues))

unfoldable pub inspect_content : Checkouts → Json → Py Details
unfolding checkout_issues strip
inspect_content env reference = do
  path ← item_of reference "path"
  relative ← relative_path (env.path_text path)
  expected ← item_of reference "commit"
  found ← inspect_checkout env relative reference expected
  Result.ok (record {
    path = relative;
    expected = expected;
    actual = found.0;
    status = report_status found.1;
    issues = found.1;
  })

abbrev pub Report : Type 0
Report = List (String × Details)

unfoldable pub inspect_each : (Json → Py Details) → Fields → Py Report
inspect_each inspect end = Result.ok []
inspect_each inspect (field name reference rest) = do
  details ← inspect reference
  others ← inspect_each inspect rest
  Result.ok ((name, details) ∷ others)

-- `plan.get("references", {}).items()`
abbrev pub references_of : Fields → Py Fields
references_of plan = elim (get_or plan "references" (obj end)) [
  | obj fs ↦ Result.ok fs
  | _ ↦ Result.raise crash
]

unfoldable pub inspect_reference_locks : Checkouts → Fields → Py Report
unfolding inspect_lock inspect_each
inspect_reference_locks env plan = references_of plan >>= inspect_each (inspect_lock env)

unfoldable pub inspect_references : Checkouts → Fields → Py Report
unfolding inspect_content inspect_each
inspect_references env plan = references_of plan >>= inspect_each (inspect_content env)

-- `locks[name]["issues"]`; both reports are of the same references
unfoldable pub issues_of : String → Report → List LockIssue
issues_of name [] = []
issues_of name ((n, details) ∷ rest) =
    let later = issues_of name rest in if str_eq n name then details.issues else later

-- the assignments to the issues of one reference, and to its status
abbrev pub merged : List LockIssue → Details → Details
merged about_lock details = record details {
  issues = about_lock ++ details.issues;
  status = report_status (about_lock ++ details.issues);
}

unfoldable pub with_locks : Report → Report → Report
unfolding issues_of
with_locks locks [] = []
with_locks locks ((name, details) ∷ rest) =
    (name, merged (issues_of name locks) details) ∷ with_locks locks rest

unfoldable pub inspect_reference_contents : Checkouts → Fields → Py Report
unfolding inspect_reference_locks inspect_references with_locks
inspect_reference_contents env plan = do
  locks ← inspect_reference_locks env plan
  contents ← inspect_references env plan
  Result.ok (with_locks locks contents)

abbrev pub named_issues : String → List LockIssue → List (String × LockIssue)
named_issues name [] = []
named_issues name (i ∷ is) = (name, i) ∷ named_issues name is

unfoldable pub reference_issues : Report → List (String × LockIssue)
reference_issues [] = []
reference_issues ((name, details) ∷ rest) =
    named_issues name details.issues ++ reference_issues rest

abbrev pub report_exit : Report → ℕ
report_exit report = if any (λ entry. not (str_eq entry.1.status "ok")) report then 1 else 0

abbrev pub issues_exit : List (String × LockIssue) → ℕ
issues_exit [] = 0
issues_exit (_ ∷ _) = 1

abbrev pub on_contents : Checkouts → Env → (Report → ℕ) → Files → Py ℕ
on_contents checkouts env exit_code files = do
  documents ← load_documents files
  valid ← assert_valid_core env documents
  report ← inspect_reference_contents checkouts valid.plan
  Result.ok (exit_code report)

-- `command_reference_report`, up to what it prints
unfoldable pub reference_report : Checkouts → Env → Files → Py ℕ
unfolding load_documents assert_valid_core inspect_reference_contents
reference_report checkouts env files = on_contents checkouts env report_exit files

-- `command_check_references`, up to what it prints
unfoldable pub check_references : Checkouts → Env → Files → Py ℕ
unfolding load_documents assert_valid_core inspect_reference_contents reference_issues
check_references checkouts env files =
    on_contents checkouts env (λ report. issues_exit (reference_issues report)) files
