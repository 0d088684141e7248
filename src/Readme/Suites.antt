-- ===== src/Readme/Suites.antt =====
-- `suite_counts` of planning/update_readme_compatibility.py: how many cases of each suite have each
-- outcome.
pub mod Under
pub mod Total
use lua_mongodb.Base.{
  ℕ, String, Bool, true, false, not, ◌&&◌, ◌||◌, Option, none, some, List, [], ◌∷◌, contains, keep,
  str_eq, if◌then◌else◌,
}
use lua_mongodb.Counts.{Counts, count}
use lua_mongodb.Json.{Json, null, bool, str, arr, obj, Fields, end, field, get_or, hashable}
use lua_mongodb.Names.{sorted_names}
use lua_mongodb.Plan.Files.{File}
use lua_mongodb.Raise.{Result, ok, raise, ◌>>=◌}
use lua_mongodb.Readme.Layers.{
  old_server_only, unscored_exclusion, catalog_prose_suites, catalog_mixed_suites,
  catalog_projected_suites, catalog_requirement_statuses,
}
use lua_mongodb.Readme.Problem.{
  Problem, Py, crash, fail, check, read_json, cases_not_object, no_suite_or_status,
  scored_exclusion, catalog_not_objects, invalid_prose_suite, prose_suite_has_cases,
  invalid_mixed_suite, mixed_suite_has_no_cases, catalog_requirement_not_object,
  invalid_requirement_status, no_requirements,
}
use lua_mongodb.Readme.Versions.{Sources, is_old_server_only_fixture}

-- the outcomes of each suite
abbrev pub Suites : Type 0
Suites = List (String × Counts)

-- `counts[suite][status] += 1`
unfoldable pub add_outcome : String → String → Suites → Suites
unfolding count
add_outcome suite status [] = (suite, count status []) ∷ []
add_outcome suite status ((s, outcomes) ∷ rest) =
    let later = add_outcome suite status rest in
    if str_eq s suite then (s, count status outcomes) ∷ rest else (s, outcomes) ∷ later

-- `counts[suite]`, which is empty where there is none
unfoldable pub outcomes_of : String → Suites → Counts
outcomes_of suite [] = []
outcomes_of suite ((s, outcomes) ∷ rest) =
    let later = outcomes_of suite rest in if str_eq s suite then outcomes else later

abbrev pub suite_names : Suites → List String
suite_names [] = []
suite_names ((s, outcomes) ∷ rest) = s ∷ suite_names rest

abbrev pub is_bool : Bool → Json → Bool
is_bool true (bool b) = b
is_bool false (bool b) = not b
is_bool b _ = false

abbrev pub object_or : Problem → Json → Py Fields
object_or problem (obj fs) = ok fs
object_or problem _ = fail problem

module _ (sources : Sources) where
  -- the status that a case counts under
  unfoldable pub scored_status : String → Fields → String → Py String
  unfolding is_old_server_only_fixture
  scored_status identity case status =
      if is_bool false (get_or case "support_scored" null)
      then (if str_eq status "excluded_scope"
          then Result.ok unscored_exclusion
          else fail (scored_exclusion identity))
      else (is_old_server_only_fixture sources identity case >>= λ old.
          Result.ok (if old then old_server_only else status))

  abbrev pub count_status : String → Fields → Suites → Json → Json → Py Suites
  count_status identity case counts (str suite) (str status) =
      scored_status identity case status >>= λ scored. Result.ok (add_outcome suite scored counts)
  count_status identity case counts _ _ = fail (no_suite_or_status identity)

  abbrev pub count_case : String → Json → Suites → Py Suites
  count_case identity (obj case) counts =
      count_status identity case counts (get_or case "suite" null) (get_or case "status" null)
  count_case identity _ counts = Result.raise crash

  unfoldable pub count_cases : Fields → Suites → Py Suites
  unfolding scored_status add_outcome
  count_cases end counts = Result.ok counts
  count_cases (field identity case rest) counts =
      count_case identity case counts >>= λ more. count_cases rest more

-- `metadata.get("has_machine_fixtures") is b`, of metadata that is an object
abbrev pub has_machine_fixtures : Bool → Json → Bool
has_machine_fixtures b (obj metadata) = is_bool b (get_or metadata "has_machine_fixtures" null)
has_machine_fixtures b _ = false

unfoldable pub check_prose_suites : Fields → Suites → List String → Py (Unit {0})
check_prose_suites suites counts [] = Result.ok tt
check_prose_suites suites counts (s ∷ rest) = do
  _ ← check (has_machine_fixtures false (get_or suites s null)) (invalid_prose_suite s)
  _ ← check (not (contains (suite_names counts) s)) (prose_suite_has_cases s)
  check_prose_suites suites counts rest

unfoldable pub check_mixed_suites : Fields → Suites → List String → Py (Unit {0})
check_mixed_suites suites counts [] = Result.ok tt
check_mixed_suites suites counts (s ∷ rest) = do
  _ ← check (has_machine_fixtures true (get_or suites s null)) (invalid_mixed_suite s)
  _ ← check (contains (suite_names counts) s) (mixed_suite_has_no_cases s)
  check_mixed_suites suites counts rest

-- `value in names`, of a set of texts: a list or an object raises `TypeError`
abbrev pub in_set : List String → Json → Py Bool
in_set names (str s) = Result.ok (contains names s)
in_set names value = if hashable value then Result.ok false else Result.raise crash

-- the suite that a requirement is projected into, with its status, if it is
abbrev pub projection : String → Json → Json → Bool → Bool → Py (Option (String × String))
projection identity (str suite) (str status) true true = Result.ok (some (suite, status))
projection identity suite status true valid = fail (invalid_requirement_status identity)
projection identity suite status false valid = Result.ok none

unfoldable pub projected : String → Json → Py (Option (String × String))
projected identity (obj requirement) = do
  let suite = get_or requirement "suite" null
  let status = get_or requirement "status" null
  listed ← in_set catalog_projected_suites suite
  valid ← (if listed then in_set catalog_requirement_statuses status else Result.ok false)
  projection identity suite status listed valid
projected identity _ = fail (catalog_requirement_not_object identity)

abbrev pub add_projection : Option (String × String) → Suites → Suites
add_projection none counts = counts
add_projection (some (suite, status)) counts = add_outcome suite status counts

unfoldable pub count_requirements : Fields → Suites → Py Suites
unfolding projected add_outcome
count_requirements end counts = Result.ok counts
count_requirements (field identity requirement rest) counts =
    projected identity requirement >>= λ p. count_requirements rest (add_projection p counts)

abbrev pub without_outcomes : Suites → String → Bool
without_outcomes counts suite = elim (outcomes_of suite counts) [ [] ↦ true | _ ∷ _ ↦ false ]

abbrev pub none_missing : Suites → List String → Py Suites
none_missing counts [] = Result.ok counts
none_missing counts (s ∷ missing) = fail (no_requirements (s ∷ missing))

unfoldable pub suite_counts : Sources → File → File → Py Suites
unfolding read_json count_cases check_prose_suites check_mixed_suites count_requirements outcomes_of
    sorted_names
suite_counts sources ledger_file catalog_file = do
  ledger ← read_json "conformance ledger" ledger_file
  cases ← object_or cases_not_object (get_or ledger "cases" null)
  counts ← count_cases sources cases []
  catalog ← read_json "accepted specification catalog" catalog_file
  suites ← object_or catalog_not_objects (get_or catalog "suites" null)
  requirements ← object_or catalog_not_objects (get_or catalog "requirements" null)
  _ ← check_prose_suites suites counts catalog_prose_suites
  _ ← check_mixed_suites suites counts catalog_mixed_suites
  all_counts ← count_requirements requirements counts
  none_missing all_counts
      (sorted_names (keep (without_outcomes all_counts) catalog_projected_suites))
