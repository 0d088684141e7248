-- ===== src/References/Tests.antt =====
-- Tests of the analysis and the advance of references.
use lua_mongodb.Base.{
  ℕ, suc, ◌+◌, String, Bool, true, false, Option, none, some, List, [], ◌∷◌, ◌≡◌, ◌↔◌, ◌⊎◌, refl,
  inl, In, length, contains, str_eq, if◌then◌else◌,
}
use lua_mongodb.Counts.{total}
use lua_mongodb.Json.{Json, null, str, arr, cons, nil, obj, Fields, end, field}
use lua_mongodb.Plan.Files.{File, holds}
use lua_mongodb.Raise.{ok}
use lua_mongodb.References.Advance.{advance_reference}
use lua_mongodb.References.Advance.Pins.{Leaves, advance_reference-Leaves}
use lua_mongodb.References.Delta.{Inventory, Delta, inventory_delta}
use lua_mongodb.References.Delta.Empty.{IsEmpty, Agree, inventory_delta-IsEmpty}
use lua_mongodb.References.Paths.{ChangedPath, summarize_reference_paths}
use lua_mongodb.References.Paths.Sorted.{review_paths, summarize_reference_paths-total}
use lua_mongodb.References.Steps.{Completed, Tools, Store}
use lua_mongodb.References.Verify.{
  Proposal, is_claimed, propose_verification_commands, unverified_behavior_identities,
}
use lua_mongodb.References.Verify.Listed.{Listed}
use lua_mongodb.References.Verify.Covered.{claimed-Listed}
use lua_mongodb.References.Waypoint.{Waypoint, find_green_waypoint}
use lua_mongodb.References.Waypoint.Found.{Found, find_green_waypoint-Found}
use lua_mongodb.Text.{words}

abbrev one : Fields
one = field "suite" (str "crud") end

abbrev two : Fields
two = field "suite" (str "gridfs") end

abbrev before : Inventory
before = ("a", one) ∷ ("b", one) ∷ []

abbrev after : Inventory
after = ("b", two) ∷ ("c", two) ∷ []

added_one : length (inventory_delta before after).added ≡ 1
unfolding inventory_delta
added_one = refl

changed_one : length (inventory_delta before after).changed ≡ 1
unfolding inventory_delta lua_mongodb.Json.same lua_mongodb.Json.lookup
changed_one = refl

inventory_delta-IsEmpty_example : IsEmpty (inventory_delta before after) ↔ Agree before after
inventory_delta-IsEmpty_example = inventory_delta-IsEmpty before after

abbrev passes_old : String → Bool
passes_old c = contains ("c1" ∷ "c2" ∷ []) c

green_waypoint :
    find_green_waypoint passes_old "c0" ("c1" ∷ "c2" ∷ "c3" ∷ "c4" ∷ [])
    ≡ ok (record { checked_commits = 2; first_failing_commit = "c3"; last_green_commit = "c2" })
unfolding find_green_waypoint
green_waypoint = refl

find_green_waypoint-Found_example :
    (w : Waypoint) × (find_green_waypoint passes_old "c0" ("c1" ∷ "c2" ∷ "c3" ∷ "c4" ∷ []) ≡ ok w)
    × Found passes_old "c0" ("c1" ∷ "c2" ∷ "c3" ∷ "c4" ∷ []) w
find_green_waypoint-Found_example =
    find_green_waypoint-Found passes_old "c0" "c1" ("c2" ∷ "c3" ∷ "c4" ∷ [])

abbrev changed : List ChangedPath
changed =
    record { status = "M"; path = "source/crud/crud.md" }
    ∷ record { status = "A"; path = "test/crud.py" }
    ∷ []

summarize_reference_paths-total_example :
    ((summarize_reference_paths "specifications" changed).review
      ≡ review_paths "specifications" changed)
    × ((summarize_reference_paths "specifications" changed).informational
          + (summarize_reference_paths "specifications" changed).review
        ≡ length changed)
    × (total (summarize_reference_paths "specifications" changed).categories ≡ length changed)
summarize_reference_paths-total_example = summarize_reference_paths-total "specifications" changed

abbrev claimed_value : Fields
claimed_value = field "activity_status" (str "completed") (
    field "conformance_status" (str "passed") (
      field "last_execution" (str "make test-unified") (
        field "record_type" (str "case")
          (field "source_identity" (str "crud/x.json::test[1]") end))))

abbrev ownership : Delta
ownership = record { added = claimed_value ∷ []; removed = []; changed = [] }

abbrev shell_words : String → Option (List String)
shell_words text = some (words text)

abbrev proposals : List Proposal
proposals =
    record {
      command = "make test-unified";
      identities = "crud/x.json::test[1]" ∷ [];
      required_environments = [];
    }
    ∷ []

proposed_command : propose_verification_commands shell_words ownership ≡ ok proposals
unfolding propose_verification_commands lua_mongodb.Json.truthy lua_mongodb.Json.get_or
    lua_mongodb.Json.lookup words
proposed_command = refl

nothing_unverified : unverified_behavior_identities shell_words ownership ≡ ok []
unfolding unverified_behavior_identities lua_mongodb.Json.get_or lua_mongodb.Json.lookup
    lua_mongodb.Json.truthy words
nothing_unverified = refl

claimed-Listed_example :
    Listed "crud/x.json::test[1]" proposals ⊎ In {A = String} "crud/x.json::test[1]" []
unfolding is_claimed lua_mongodb.References.Verify.changed_to lua_mongodb.Json.get_or
    lua_mongodb.Json.lookup
claimed-Listed_example =
    claimed-Listed shell_words ownership (claimed_value ∷ []) proposals [] claimed_value
      "crud/x.json::test[1]" refl proposed_command nothing_unverified (inl refl) refl refl

abbrev old_commit : String
old_commit = "0000000000000000000000000000000000000000"

abbrev new_commit : String
new_commit = "1111111111111111111111111111111111111111"

abbrev completed : String → Completed
completed stdout = record { exit_code = 0; stdout = stdout; stderr = "" }

-- the world counts the runs; every run succeeds, and HEAD is the old commit
abbrev git_answer : List String → String
git_answer [] = ""
git_answer (command ∷ rest) =
    if str_eq command "rev-parse"
    then old_commit
    else if str_eq command "diff"
    then "M\tsource/crud/crud.md"
    else ""

abbrev tools : ℕ → Tools ℕ
tools generator_exit = record {
  git = λ directory arguments n. (completed (git_answer arguments), suc n);
  interpret = λ command n. (record (completed "") { exit_code = generator_exit }, suc n);
  exists = λ path n. true;
  resolve = λ relative. some relative;
  declared_symbols = λ source. [];
  str_of = λ value. "";
}

abbrev references_at : String → File
references_at commit = holds (
    obj (
      field "references"
        (obj (
          field "specifications"
            (obj (field "path" (str "planning/specifications") (field "commit" (str commit) end)))
            end))
        end))

abbrev store : Store ℕ
store = record { document = references_at old_commit; world = 0 }

advanced :
    (advance_reference (tools 0) "specifications" new_commit false none store).1.document
    ≡ references_at new_commit
unfolding advance_reference lua_mongodb.Plan.Pattern.is_commit lua_mongodb.Json.get_or
    lua_mongodb.Json.lookup lua_mongodb.Json.iterate lua_mongodb.Json.put
advanced = refl

-- a generator that fails leaves the new commit behind
advanced_halfway :
    (advance_reference (tools 1) "specifications" new_commit false none store).1.document
    ≡ references_at new_commit
unfolding advance_reference lua_mongodb.Plan.Pattern.is_commit lua_mongodb.Json.get_or
    lua_mongodb.Json.lookup lua_mongodb.Json.iterate lua_mongodb.Json.put
advanced_halfway = refl

advance_reference-Leaves_example :
    Leaves "specifications" new_commit store.document
      (advance_reference (tools 0) "specifications" new_commit false none store).0
      (advance_reference (tools 0) "specifications" new_commit false none store).1.document
advance_reference-Leaves_example =
    advance_reference-Leaves (tools 0) "specifications" new_commit false none store
