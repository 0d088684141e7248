-- ===== src/Plan/Tests.antt =====
-- Runs of the definitions for planning/update_plan.py on a small roadmap of two activities.
mod Commands
mod Locks
use lua_mongodb.Base.{
  ℕ, String, Bool, true, false, Option, none, some, List, [], ◌∷◌, ◌≡◌, ◌↔◌, refl, ap, subst, any,
  In, codes,
}
use lua_mongodb.Json.{
  ℤ, pos, Json, null, int, str, arr, nil, cons, Items, obj, Fields, end, field, array, get_or,
  lookup,
}
use lua_mongodb.Raise.{Result, ok}
use lua_mongodb.Graph.{Graph, Walk, IsAcyclic}
use lua_mongodb.Plan.Command.StartValid.{UniqueKeys}
use lua_mongodb.Plan.Cycle.{Search, search_cycles}
use lua_mongodb.Plan.Cycle.Order.{search_cycles_sound}
use lua_mongodb.Plan.Cycle.Complete.{search_cycles_complete}
use lua_mongodb.Plan.Cycle.Total.{search_cycles-returns}
use lua_mongodb.Plan.Documents.{Activities, activity_map}
use lua_mongodb.Plan.Evidence.{is_green, evidence_items, completion_evidence_issues}
use lua_mongodb.Plan.Evidence.RedFirst.{
  RedThenGreen, completion-RedThenGreen, completion-validation,
}
use lua_mongodb.Plan.Files.{Env}
use lua_mongodb.Plan.Git.{Git, parse_record, reachable_commits}
use lua_mongodb.Plan.Git.Reach.{reachable_commits-Walk}
use lua_mongodb.Plan.Issue.{dependency_cycle}
use lua_mongodb.Plan.Pattern.{matches_track, matches_subject}
use lua_mongodb.Plan.Progress.{validate_progress}
use lua_mongodb.Plan.Progress.Valid.{IsValid, validate_progress_iff}
use lua_mongodb.Plan.Query.{start_activity, step}
use lua_mongodb.Plan.Query.Valid.{HasUniqueRecords, step-validate_progress}
use lua_mongodb.Plan.Record.{new_record}
use lua_mongodb.Plan.Validate.{validate_plan}
use lua_mongodb.Plan.Validate.Acyclic.{IsSound, validate_plan-IsSound}

-- a roadmap of two activities, the second of which depends on the first
abbrev pub texts : List String → Json
texts ts = arr (array (strings ts))
  where
    strings : List String → List Json
    strings [] = []
    strings (s ∷ ss) = str s ∷ strings ss

abbrev pub activity : String → List String → Fields
activity id depends = field "id" (str id) (
    field "title" (str "T") (
      field "milestone" (str "m") (
        field "depends_on" (texts depends) (
          field "references" (texts []) (
            field "test_policy" (str "red_green") (
              field "test_first" (texts []) (
                field "implementation" (texts []) (
                  field "verification" (texts []) (
                    field "acceptance" (texts []) (
                      field "docs" (texts [])
                        (field "commit" (str "feat(core): add it") end)))))))))))

abbrev pub reference : Fields
reference =
    field "commit" (str "057026301066f9d4adcf22d59710a3e5690ec529")
      (field "path" (str "p") (field "url" (str "u") end))

abbrev pub roadmap : Fields
roadmap = field "schema_version" (int (pos 1)) (
    field "plan_id" (str "p") (
      field "milestones" (arr (cons (obj (field "id" (str "m") end)) nil)) (
        field "tracks" (texts []) (
          field "references" (obj (field "r" (obj reference) end)) (
            field "activities"
              (arr (cons (obj (activity "a" [])) (cons (obj (activity "b" ("a" ∷ []))) nil)))
              end)))))

abbrev pub progress_of : Fields → Fields
progress_of records =
    field "schema_version" (int (pos 1))
      (field "plan_id" (str "p") (field "activities" (obj records) end))

abbrev silent_git : Git
silent_git command = record { returncode = 0; stdout = "" }

abbrev pub env : Env
env = record { str_of = λ x. ""; digest = λ x. "d"; git = silent_git; now = "t" }

roadmap-validate_plan : validate_plan (λ x. "") roadmap ≡ ok []
unfolding validate_plan get_or lua_mongodb.Json.lookup lua_mongodb.Plan.Documents.add_activities
    lua_mongodb.Json.iterate lua_mongodb.Json.hashable lua_mongodb.Plan.Validate.dependency_graph
    search_cycles lua_mongodb.Graph.targets lua_mongodb.Json.equals_int lua_mongodb.Json.truthy
    lua_mongodb.Plan.Pattern.is_commit lua_mongodb.Json.has lua_mongodb.Json.same
    lua_mongodb.Plan.Pattern.is_subject
roadmap-validate_plan = refl

start-empty :
    step env (start_activity "a" none) roadmap (progress_of end)
    ≡ ok (
        progress_of (
          field "a"
            (obj (
              field "status" (str "in_progress") (
                field "evidence"
                  (texts [])
                  (field "notes" (texts []) (field "started_at" (str "t") end)))))
            end))
unfolding step lua_mongodb.Plan.Command.start get_or lua_mongodb.Json.lookup
    lua_mongodb.Plan.Documents.add_activities lua_mongodb.Json.iterate lua_mongodb.Json.put
start-empty = refl

-- A commit with an empty message has a record that is stripped of its last separator.
parse_record-empty_message : parse_record "abc\u{1f}def\u{1f}\u{1f}" ≡ []
unfolding parse_record
parse_record-empty_message = refl

matches_subject-feat : matches_subject (codes "feat(core)!: add it") ≡ true
unfolding matches_subject
matches_subject-feat = refl

matches_subject-no_scope : matches_subject (codes "feat: add it") ≡ false
unfolding matches_subject
matches_subject-no_scope = refl

matches_track-dash : matches_track (codes "core--a") ≡ false
unfolding matches_track
matches_track-dash = refl

-- the activity `b` waits; the records name each activity once
abbrev pub waiting : Fields
waiting = progress_of (field "b" (obj new_record) end)

abbrev started : Fields
started = progress_of (
    field "b" (obj new_record) (
      field "a"
        (obj (
          field "status" (str "in_progress") (
            field "evidence" (texts [])
              (field "notes" (texts []) (field "started_at" (str "t") end)))))
        end))

abbrev pub object_of : Json → Fields
object_of (obj fs) = fs
object_of _ = end

pub waiting-HasUniqueRecords : HasUniqueRecords waiting
unfolding get_or lookup lua_mongodb.Json.has
waiting-HasUniqueRecords records e = subst UniqueKeys (ap object_of e) (refl, tt)

waiting-valid : validate_progress roadmap waiting ≡ ok []
unfolding validate_progress get_or lookup lua_mongodb.Plan.Documents.add_activities
    lua_mongodb.Json.hashable lua_mongodb.Json.equals_int lua_mongodb.Json.same
    lua_mongodb.Plan.Progress.record_issues
waiting-valid = refl

waiting-start : step env (start_activity "a" none) roadmap waiting ≡ ok started
unfolding step lua_mongodb.Plan.Command.start get_or lookup
    lua_mongodb.Plan.Documents.add_activities lua_mongodb.Json.iterate lua_mongodb.Json.put
waiting-start = refl

step-validate_progress_example : validate_progress roadmap started ≡ ok []
step-validate_progress_example =
    step-validate_progress env (start_activity "a" none) roadmap waiting started
      waiting-HasUniqueRecords waiting-valid waiting-start

validate_plan-IsSound_example :
    (acts : Activities) × (activity_map roadmap ≡ ok acts) × IsSound acts
validate_plan-IsSound_example = validate_plan-IsSound (λ x. "") roadmap roadmap-validate_plan

validate_progress_iff_example :
    (validate_progress roadmap waiting ≡ ok []) ↔ IsValid roadmap waiting
validate_progress_iff_example = validate_progress_iff roadmap waiting

-- two ways from `a` to `d`
abbrev diamond : Graph
diamond = ("a", "b" ∷ "c" ∷ []) ∷ ("b", "d" ∷ []) ∷ ("c", "d" ∷ []) ∷ ("d", []) ∷ []

abbrev searched : Search
searched = record { visiting = []; visited = "a" ∷ "c" ∷ "b" ∷ "d" ∷ []; issues = [] }

diamond-search_cycles : search_cycles diamond ≡ some searched
unfolding search_cycles lua_mongodb.Graph.targets
diamond-search_cycles = refl

search_cycles_sound_example : IsAcyclic diamond
search_cycles_sound_example = search_cycles_sound diamond searched diamond-search_cycles refl

search_cycles_complete_example : searched.issues ≡ []
search_cycles_complete_example =
    search_cycles_complete diamond searched diamond-search_cycles
      (search_cycles_sound diamond searched diamond-search_cycles refl)

search_cycles-returns_example : (t : Search) × (search_cycles diamond ≡ some t)
search_cycles-returns_example = search_cycles-returns diamond

-- A cycle is reported once, with the activities on the way.
search_cycles-cycle :
    search_cycles (("a", "b" ∷ []) ∷ ("b", "a" ∷ []) ∷ [])
    ≡ some (record {
      visiting = [];
      visited = "a" ∷ "b" ∷ [];
      issues = dependency_cycle ("a" ∷ "b" ∷ "a" ∷ []) ∷ [];
    })
unfolding search_cycles lua_mongodb.Graph.targets
search_cycles-cycle = refl

reachable_commits-Walk_example :
    (r : List String) × (reachable_commits "a" diamond ≡ some r)
    × ((c : String) → In c r ↔ Walk diamond "a" c)
reachable_commits-Walk_example = reachable_commits-Walk "a" diamond

abbrev pub run_of : String → ℕ → Fields
run_of phase code = field "phase" (str phase) (field "exit_code" (int (pos code)) end)

abbrev evidence : Items
evidence = cons (obj (run_of "red" 1)) (cons (obj (run_of "green" 0)) nil)

abbrev tested : Fields
tested = field "evidence" (arr evidence) end

completion-RedThenGreen_example :
    (completion_evidence_issues (activity "a" []) tested ≡ ok [])
    ↔ RedThenGreen (run_of "red" 1 ∷ run_of "green" 0 ∷ [])
unfolding get_or lookup evidence_items
completion-RedThenGreen_example =
    completion-RedThenGreen (activity "a" []) tested evidence
      (run_of "red" 1 ∷ run_of "green" 0 ∷ []) (str "red_green") refl refl refl refl

abbrev validated : Fields
validated = field "test_policy" (str "validation") end

completion-validation_example :
    (completion_evidence_issues validated tested ≡ ok [])
    ↔ (any is_green (run_of "red" 1 ∷ run_of "green" 0 ∷ []) ≡ true)
unfolding get_or lookup evidence_items
completion-validation_example =
    completion-validation validated tested evidence (run_of "red" 1 ∷ run_of "green" 0 ∷ [])
      (str "validation") refl refl refl refl
