-- ===== src/Plan/Tests/Commands.antt =====
-- Whole commands of planning/update_plan.py on the small roadmap.
use lua_mongodb.Base.{none, [], ◌∷◌, ◌≡◌, refl, subst}
use lua_mongodb.Json.{
  ℤ, pos, Json, null, int, str, arr, nil, cons, Items, obj, Fields, end, field, remove, put, get_or,
}
use lua_mongodb.Raise.{ok, ok_unique}
use lua_mongodb.Plan.Command.{start}
use lua_mongodb.Plan.Command.MayStart.{MayStart}
use lua_mongodb.Plan.Evidence.RedFirst.{RedThenGreen}
use lua_mongodb.Plan.Files.{holds, missing, Files, Documents, load_documents, core_issues}
use lua_mongodb.Plan.Outcome.{complete}
use lua_mongodb.Plan.Outcome.Finished.{complete-RedThenGreen}
use lua_mongodb.Plan.Query.{start_activity, main}
use lua_mongodb.Plan.Query.Saved.{main-core_issues}
use lua_mongodb.Plan.Query.Valid.{HasUniqueRecords}
use lua_mongodb.Plan.State.{item}
use lua_mongodb.Plan.Tests.{
  activity, reference, roadmap, env, progress_of, run_of, waiting, waiting-HasUniqueRecords,
}

abbrev pub files : Files
files = record {
  plan = holds (obj roadmap);
  references = holds (
      obj (
        field "schema_version" (int (pos 1))
          (field "references" (obj (field "r" (obj reference) end)) end)));
  progress = holds (obj waiting);
  state = missing;
}

abbrev after : Files
after = (main env (start_activity "a" none) files).1

files-main : main env (start_activity "a" none) files ≡ (ok tt, after)
unfolding main lua_mongodb.Json.equals_int get_or lua_mongodb.Json.lookup put
    lua_mongodb.Plan.Documents.add_activities lua_mongodb.Json.iterate lua_mongodb.Json.hashable
    lua_mongodb.Plan.Validate.dependency_graph lua_mongodb.Plan.Cycle.search_cycles
    lua_mongodb.Graph.targets lua_mongodb.Json.truthy lua_mongodb.Plan.Pattern.is_commit
    lua_mongodb.Json.has lua_mongodb.Json.same lua_mongodb.Plan.Pattern.is_subject
    lua_mongodb.Plan.Progress.record_issues start lua_mongodb.Plan.State.is_ready
    lua_mongodb.Plan.State.add_all
files-main = refl

abbrev documents : Documents
documents = record {
  plan = put "references" (obj (field "r" (obj reference) end)) roadmap;
  progress = waiting;
}

files-load_documents : load_documents files ≡ ok documents
unfolding load_documents lua_mongodb.Json.equals_int get_or lua_mongodb.Json.lookup
files-load_documents = refl

files_unique : (d : Documents) → load_documents files ≡ ok d → HasUniqueRecords d.progress
files_unique d e =
    subst (λ (x : Documents). HasUniqueRecords x.progress)
      (ok_unique (load_documents files) files-load_documents e) waiting-HasUniqueRecords

main-core_issues_example :
    (d : Documents) × (load_documents after ≡ ok d) × (core_issues env d ≡ ok [])
main-core_issues_example =
    main-core_issues env (start_activity "a" none) files after files_unique files-main

abbrev evidence : Items
evidence = cons (obj (run_of "red" 1)) (cons (obj (run_of "green" 0)) nil)

abbrev entry : Fields
entry =
    field "status" (str "in_progress")
      (field "evidence" (arr evidence) (field "notes" (arr nil) end))

abbrev working : Fields
working = progress_of (field "a" (obj entry) end)

abbrev finished : Fields
finished =
    progress_of
      (field "a" (obj (put "completed_at" (str "t") (put "status" (str "completed") entry))) end)

working-complete : complete env "a" roadmap working ≡ ok finished
unfolding complete get_or lua_mongodb.Json.lookup lua_mongodb.Plan.Documents.add_activities
    lua_mongodb.Json.iterate lua_mongodb.Json.equals_int put
working-complete = refl

complete-RedThenGreen_example :
    (item entry "status" ≡ ok (str "in_progress"))
    × RedThenGreen (run_of "red" 1 ∷ run_of "green" 0 ∷ [])
unfolding complete get_or lua_mongodb.Json.lookup lua_mongodb.Plan.Documents.add_activities
complete-RedThenGreen_example =
    complete-RedThenGreen env "a" roadmap working finished (activity "a" []) entry evidence
      (run_of "red" 1 ∷ run_of "green" 0 ∷ []) (str "red_green") refl refl refl refl refl refl
      working-complete
