-- ===== src/Readme/Tests.antt =====
-- Tests of the table of the README.
use Prim.Native.String.{◌++◌ as append}
use lua_mongodb.Base.{
  ℕ, ◌+◌, ◌-◌, ◌<◌, ◌≤◌, String, true, false, Option, none, some, List, [], ◌∷◌, ◌≡◌, ◌≢◌, ◌↔◌, ◌⊎◌,
  refl, contains, leb, ◌&&◌, if◌then◌else◌,
}
use lua_mongodb.Counts.{Counts}
use lua_mongodb.Json.{
  ℤ, pos, Json, null, bool, int, str, arr, Items, cons, nil, elements, obj, Fields, end, field,
  field_count,
}
use lua_mongodb.Names.{without_names}
use lua_mongodb.Plan.Files.{File, missing, holds}
use lua_mongodb.Raise.{Result, ok}
use lua_mongodb.Readme.Layers.{
  begin_marker, end_marker, driver_layers, catalog_prose_suites, specification_documents,
}
use lua_mongodb.Readme.Note.{labels_of}
use lua_mongodb.Readme.Problem.{Py, crash}
use lua_mongodb.Readme.Scores.{
  get_count, sum_where, is_scored, status_marker, supported_percentage, is_incomplete,
}
use lua_mongodb.Readme.Scores.Green.{IsCounter, supported_percentage-quotient, status_marker-green}
use lua_mongodb.Readme.Section.{updated_readme, with_section, updated_readme-with_section}
use lua_mongodb.Readme.Suites.{Suites, suite_counts}
use lua_mongodb.Readme.Suites.Under.{outcomes_under, cases_of, requirements_of}
use lua_mongodb.Readme.Suites.Total.{Reads, suite_counts-total}
use lua_mongodb.Readme.Table.{Formats, Run, main, mapped_suites, layer_of, seconds}
use lua_mongodb.Readme.Table.Main.{IsUpdated, main-IsUpdated}
use lua_mongodb.Readme.Versions.{Sources, requirements_are_old_server_only}
use lua_mongodb.Readme.Versions.Old.{AllOld, requirements_are_old_server_only-AllOld}

abbrev digit : ℕ → Option ℕ
digit c = if leb b'0' c && leb c b'9' then some (c - b'0') else none

abbrev sources : Sources
sources = record { digit = digit; fixture = λ path. missing }

abbrev formats : Formats
formats = record { percent = λ passed scored. "100.0"; lower = λ label. label }

abbrev requirements : Items
requirements = cons (obj (field "maxServerVersion" (str "4.4.99") end)) nil

old_requirements :
    requirements_are_old_server_only digit (arr requirements) "crud/x.json::test[1]" ≡ ok true
unfolding requirements_are_old_server_only lua_mongodb.Json.get_or lua_mongodb.Json.lookup
old_requirements = refl

requirements_are_old_server_only-AllOld_example :
    (xs : Items) × (arr requirements ≡ arr xs)
    × (¬ (elements xs ≡ []))
    × AllOld digit "crud/x.json::test[1]" (elements xs)
requirements_are_old_server_only-AllOld_example =
    requirements_are_old_server_only-AllOld digit "crud/x.json::test[1]" (arr requirements)
      old_requirements

abbrev outcomes : Counts
outcomes = ("passed", 3) ∷ ("unsupported", 2) ∷ []

abbrev outcomes-IsCounter : IsCounter outcomes
outcomes-IsCounter = ((refl, tt), (tt, tt))

supported_percentage-quotient_example :
    ((supported_percentage (λ passed scored. "100.0") outcomes ≡ "N/A")
      × (get_count "passed" outcomes ≡ 0)
      × (sum_where is_incomplete outcomes ≡ 0))
    ⊎ ((part whole : ℕ) × (part ≡ get_count "passed" outcomes)
        × (whole ≡ part + sum_where is_incomplete outcomes)
        × (0 < whole)
        × (part ≤ whole)
        × (supported_percentage (λ passed scored. "100.0") outcomes ≡ append "100.0" "%"))
supported_percentage-quotient_example =
    supported_percentage-quotient (λ passed scored. "100.0") outcomes outcomes-IsCounter

green_outcomes : status_marker outcomes ≡ "🟢"
unfolding status_marker
green_outcomes = refl

status_marker-green_example : (status_marker outcomes ≡ "🟢") ↔ (
    (0 < get_count "passed" outcomes)
    × (get_count "passed" outcomes ≡ sum_where is_scored outcomes))
status_marker-green_example = status_marker-green outcomes outcomes-IsCounter

abbrev readme : String
readme = "# Driver <!-- BEGIN SPEC CONFORMANCE -->old<!-- END SPEC CONFORMANCE --> end"

abbrev updated : String
updated = "# Driver <!-- BEGIN SPEC CONFORMANCE -->\nnew\n<!-- END SPEC CONFORMANCE --> end"

readme-updated : updated_readme readme "new" ≡ ok updated
unfolding updated_readme
readme-updated = refl

updated_readme-with_section_example :
    (before between after : String) × (readme
      ≡ append before (append begin_marker (append between (append end_marker after))))
    × (updated ≡ with_section before "new" after)
updated_readme-with_section_example =
    updated_readme-with_section readme "new" updated readme-updated

-- one passed case or requirement for each suite, with the layers and documents of the table
abbrev passed_case : String → Json
passed_case suite = obj (field "suite" (str suite) (field "status" (str "passed") end))

abbrev passed_cases : List String → Fields
passed_cases [] = end
passed_cases (s ∷ rest) = field s (passed_case s) (passed_cases rest)

abbrev suite_metadata : String → Json
suite_metadata suite = obj (
    field "has_machine_fixtures"
      (bool (if contains catalog_prose_suites suite then false else true))
      (field "layer" (layer_of suite driver_layers) end))

abbrev texts : List String → Items
texts [] = nil
texts (s ∷ rest) = cons (str s) (texts rest)

abbrev suites_metadata : List String → Fields
suites_metadata [] =
    field "documents" (obj (field "documents" (arr (texts (seconds specification_documents))) end))
      end
suites_metadata (s ∷ rest) = field s (suite_metadata s) (suites_metadata rest)

abbrev machine_suites : List String
machine_suites = without_names mapped_suites catalog_prose_suites

abbrev ledger : File
ledger = holds (obj (field "cases" (obj (passed_cases machine_suites)) end))

abbrev catalog : File
catalog = holds (
    obj (
      field "suites" (obj (suites_metadata mapped_suites))
        (field "requirements" (obj (passed_cases catalog_prose_suites)) end)))

abbrev current_run : Py Run
current_run = main sources formats false ledger catalog (some readme)

abbrev counted : Py Suites
counted = suite_counts sources ledger catalog

abbrev counted_suites : Suites
counted_suites = elim counted [ ok counts ↦ counts | Result.raise e ↦ [] ]

counted-returns : suite_counts sources ledger catalog ≡ ok counted_suites
unfolding suite_counts lua_mongodb.Json.get_or lua_mongodb.Json.lookup without_names labels_of
counted-returns = refl

suite_counts-total_example :
    (cases requirements : Fields) × Reads ledger "cases" cases
    × Reads catalog "requirements" requirements
    × (outcomes_under "crud" "passed" counted_suites
        ≡ cases_of sources "crud" "passed" cases + requirements_of "crud" "passed" requirements)
suite_counts-total_example =
    suite_counts-total sources ledger catalog counted_suites "crud" "passed" counted-returns

abbrev no_run : Run
no_run = record { exit_code = 3; readme = none }

abbrev finished_run : Run
finished_run = elim current_run [ ok run ↦ run | Result.raise e ↦ no_run ]

finished-returns : main sources formats false ledger catalog (some readme) ≡ ok finished_run
unfolding main lua_mongodb.Json.get_or lua_mongodb.Json.lookup lua_mongodb.Json.iterate
    lua_mongodb.Json.same
finished-returns = refl

finished-succeeds : finished_run.exit_code ≡ 0
unfolding main lua_mongodb.Json.get_or lua_mongodb.Json.lookup lua_mongodb.Json.iterate
    lua_mongodb.Json.same
finished-succeeds = refl

main-IsUpdated_example :
    (((finished_run.exit_code ≡ 0)
        × IsUpdated sources formats ledger catalog readme finished_run.readme)
      ⊎ ((finished_run.exit_code ≢ 0) × (finished_run.readme ≡ some readme)))
    × ((false ≡ false) ⊎ (finished_run.readme ≡ some readme))
main-IsUpdated_example =
    main-IsUpdated sources formats false ledger catalog readme finished_run finished-returns

-- the markers in the wrong order are one of each, and no section
swapped_markers : updated_readme (append end_marker begin_marker) "new" ≡ Result.raise crash
unfolding updated_readme
swapped_markers = refl
