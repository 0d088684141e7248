-- ===== src/Readme/Table.antt =====
-- `render_table` and `main` of planning/update_readme_compatibility.py.
pub mod Main
use Prim.Native.String.{◌++◌ as append}
use lua_mongodb.Base.{
  ℕ, ◌+◌, String, Bool, true, false, not, Option, none, some, List, [], ◌∷◌, ◌++◌, map, contains,
  keep, str_eq, if◌then◌else◌,
}
use lua_mongodb.Counts.{Counts}
use lua_mongodb.Json.{Json, null, str, arr, nil, obj, Fields, end, field, get_or, iterate, same}
use lua_mongodb.Names.{sorted_names, without_names}
use lua_mongodb.Plan.Files.{File}
use lua_mongodb.Raise.{Result, ok, raise, ◌>>=◌}
use lua_mongodb.Readme.Layers.{Layer, driver_layers, specification_documents, catalog_prose_suites}
use lua_mongodb.Readme.Note.{labels_of, scoring_note}
use lua_mongodb.Readme.Problem.{
  Problem, Failure, readme_error, Py, crash, fail, check, read_json, mapping_differs,
  suites_not_object, links_differ, unknown_documents, layers_differ,
}
use lua_mongodb.Readme.Scores.{status_marker, marked_percentage, specification_url}
use lua_mongodb.Readme.Section.{updated_readme}
use lua_mongodb.Readme.Suites.{Suites, suite_counts, suite_names, outcomes_of, object_or}
use lua_mongodb.Readme.Versions.{Sources}
use lua_mongodb.Text.Print.{join}

-- What the program uses of its surroundings besides: the format `.1f` of a quotient times 100, and
-- `str.lower`.
pub record Formats : Type 0 where
  pub percent : ℕ → ℕ → String
  pub lower : String → String

abbrev pub firsts : List (String × String) → List String
firsts [] = []
firsts ((a, b) ∷ rest) = a ∷ firsts rest

abbrev pub seconds : List (String × String) → List String
seconds [] = []
seconds ((a, b) ∷ rest) = b ∷ seconds rest

-- `mapped`
abbrev pub mapped_suites : List String
mapped_suites = firsts (labels_of driver_layers)

-- `set(ms) - set(ns)`, sorted
abbrev pub difference : List String → List String → List String
difference ms ns = sorted_names (without_names ms ns)

-- `if set(ms) != set(ns): raise ...` with the differences
abbrev pub same_names :
    (List String → List String → Problem) → List String → List String → Py (Unit {0})
same_names problem [] [] = Result.ok tt
same_names problem missing stale = fail (problem missing stale)

abbrev pub no_names : (List String → Problem) → List String → Py (Unit {0})
no_names problem [] = Result.ok tt
no_names problem (n ∷ ns) = fail (problem (n ∷ ns))

abbrev pub texts_in : List Json → List String
texts_in [] = []
texts_in (str s ∷ rest) = s ∷ texts_in rest
texts_in (_ ∷ rest) = texts_in rest

abbrev pub documents_of : Json → Py (List String)
documents_of (obj metadata) = elim (iterate (get_or metadata "documents" (arr nil))) [
  | none ↦ Result.raise crash
  | some xs ↦ Result.ok (texts_in xs)
]
documents_of _ = Result.ok []

unfoldable pub catalog_documents : Fields → Py (List String)
catalog_documents end = Result.ok []
catalog_documents (field suite metadata rest) = do
  here ← documents_of metadata
  others ← catalog_documents rest
  Result.ok (here ++ others)

-- `mapped_layers.get(suite)`
unfoldable pub layer_of : String → List Layer → Json
layer_of suite [] = null
layer_of suite ((layer, suites) ∷ rest) =
    let later = layer_of suite rest in if contains (firsts suites) suite then str layer else later

abbrev pub layer_differs : Fields → String → Bool
layer_differs suites suite = elim (get_or suites suite null) [
  | obj metadata ↦ not (same (get_or metadata "layer" null) (layer_of suite driver_layers))
  | _ ↦ true
]

-- `total_counts.update(outcomes)`
unfoldable pub add_count : String → ℕ → Counts → Counts
add_count status n [] = (status, n) ∷ []
add_count status n ((s, m) ∷ rest) =
    let later = add_count status n rest in
    if str_eq s status then (s, m + n) ∷ rest else (s, m) ∷ later

unfoldable pub add_counts : Counts → Counts → Counts
unfolding add_count
add_counts [] total = total
add_counts ((status, n) ∷ rest) total = add_counts rest (add_count status n total)

abbrev pub cells : List String → String
cells texts = append "| " (append (join " | " texts) " |")

module _ (formats : Formats) (counts : Suites) where
  -- the rows of one layer, and the total of the outcomes before them and of them
  unfoldable pub layer_rows : String → List (String × String) → Counts → Py (List String × Counts)
  unfolding outcomes_of add_counts specification_url status_marker marked_percentage join
  layer_rows layer [] total = Result.ok ([], total)
  layer_rows layer ((suite, label) ∷ rest) total = do
    let outcomes = outcomes_of suite counts
    url ← specification_url suite
    (rows, whole) ← layer_rows layer rest (add_counts outcomes total)
    Result.ok (
      cells (
            layer
            ∷ append "[" (append label (append "](" (append url ")")))
            ∷ status_marker outcomes
            ∷ marked_percentage formats.percent outcomes false
            ∷ [])
          ∷ rows,
      whole,
    )

  unfoldable pub table_rows : List Layer → Counts → Py (List String × Counts)
  unfolding layer_rows
  table_rows [] total = Result.ok ([], total)
  table_rows ((layer, suites) ∷ rest) total = do
    (rows, so_far) ← layer_rows layer suites total
    (others, whole) ← table_rows rest so_far
    Result.ok (rows ++ others, whole)

abbrev pub note_lines : Option String → List String
note_lines none = []
note_lines (some note) = "" ∷ note ∷ []

abbrev pub heading_lines : List String
heading_lines =
    "| Driver layer | Specification suite | Status | Pass rate |" ∷ "| --- | --- | --- | ---: |"
    ∷ []

unfoldable pub render_table : Sources → Formats → File → File → Py String
unfolding suite_counts labels_of sorted_names without_names read_json catalog_documents layer_of
    table_rows scoring_note marked_percentage join
render_table sources formats ledger_file catalog_file = do
  counts ← suite_counts sources ledger_file catalog_file
  let discovered = suite_names counts
  _ ←
      same_names mapping_differs (difference discovered mapped_suites)
        (difference mapped_suites discovered)
  catalog ← read_json "accepted specification catalog" catalog_file
  suites ← object_or suites_not_object (get_or catalog "suites" null)
  let linked = firsts specification_documents
  _ ← same_names links_differ (difference mapped_suites linked) (difference linked mapped_suites)
  documents ← catalog_documents suites
  _ ← no_names unknown_documents (difference (seconds specification_documents) documents)
  _ ← no_names layers_differ (sorted_names (keep (layer_differs suites) catalog_prose_suites))
  (rows, total) ← table_rows formats counts driver_layers []
  note ← scoring_note formats.lower counts
  Result.ok (
      join "\n" (
        heading_lines
        ++ rows
        ++ (cells ("" ∷ "**Total**" ∷ "" ∷ marked_percentage formats.percent total true ∷ []) ∷ [])
        ++ note_lines note))

-- what `main` did: its exit code, and the README as it stands
pub record Run : Type 0 where
  pub exit_code : ℕ
  pub readme : Option String

abbrev pub finish : Bool → String → Py String → Py Run
finish check_only current (ok expected) = Result.ok (
    if check_only
    then record { exit_code = if str_eq current expected then 0 else 1; readme = some current }
    else record { exit_code = 0; readme = some expected })
finish check_only current (raise (readme_error p)) =
    Result.ok (record { exit_code = 2; readme = some current })
finish check_only current (raise crash) = Result.raise crash

-- A README that cannot be read is none, and a write that fails is not modelled.
unfoldable pub main : Sources → Formats → Bool → File → File → Option String → Py Run
unfolding render_table updated_readme
main sources formats check_only ledger_file catalog_file none =
    Result.ok (record { exit_code = 2; readme = none })
main sources formats check_only ledger_file catalog_file (some current) =
    finish check_only current
      (render_table sources formats ledger_file catalog_file >>= updated_readme current)
