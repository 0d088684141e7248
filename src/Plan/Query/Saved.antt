-- ===== src/Plan/Query/Saved.antt =====
-- What a command that goes through leaves on disk.
use lua_mongodb.Base.{List, [], ◌∷◌, ◌≡◌, refl, sym, ap, ◌∙◌, subst, append-eq-nil}
use lua_mongodb.Json.{Json, obj, Fields}
use lua_mongodb.Raise.{ok, raise, ◌>>=◌, bind-eq-ok, ok_unique}
use lua_mongodb.Plan.Files.{
  Env, holds, Files, Documents, read_json, read_references, load_documents, core_issues,
  assert_valid_core, valid_or_raise, save_progress_and_state, write_state, save_result,
  on_documents, run_command,
}
use lua_mongodb.Plan.Issue.{Issue, Exception, Py}
use lua_mongodb.Plan.Progress.{validate_progress}
use lua_mongodb.Plan.Query.Valid.{HasUniqueRecords, step-validate_progress}
use lua_mongodb.Plan.Query.{Command, step, main}
use lua_mongodb.Plan.Validate.{validate_plan}

-- the files are those before, but for the progress and the state
record Saves (files files' : Files) (saved : Fields) : Type 0 where
  plan : files'.plan ≡ files.plan
  references : files'.references ≡ files.references
  progress : files'.progress ≡ holds (obj saved)

raise-not-ok : (e : Exception) (m : Py (Unit {0})) → m ≡ raise e → ¬ (m ≡ ok tt)
raise-not-ok e m p h = cc

write_state-Saves :
    (m : Py Json) (files files' : Files) (saved : Fields)
    → write_state m (record files { progress = holds (obj saved) }) ≡ (ok tt, files')
    → Saves files files' saved
write_state-Saves (ok state) files files' saved h =
    subst (λ (f : Files). Saves files f saved) (ap (λ p. p.1) h)
      (record { plan = refl; references = refl; progress = refl })
write_state-Saves (raise e) files files' saved h = absurd (raise-not-ok e _ refl (ap (λ p. p.0) h))

valid_or_raise-ok :
    (d : Documents) (issues : List Issue) (d' : Documents)
    → valid_or_raise d issues ≡ ok d'
    → (d ≡ d') × (issues ≡ [])
valid_or_raise-ok d [] d' h = (ok_unique (ok d) refl h, refl)
valid_or_raise-ok d (i ∷ issues) d' h = cc

save_result-Saves :
    (env : Env) (plan : Fields) (result : Py Fields) (files files' : Files)
    → save_result env plan result files ≡ (ok tt, files')
    → (saved : Fields) × (result ≡ ok saved) × Saves files files' saved
unfolding save_progress_and_state
save_result-Saves env plan (ok saved) files files' h =
    (saved, refl, write_state-Saves _ files files' saved h)
save_result-Saves env plan (raise e) files files' h =
    absurd (raise-not-ok e _ refl (ap (λ p. p.0) h))

on_documents-ok :
    (env : Env) (f : Fields → Fields → Py Fields) (m : Py Documents) (files files' : Files)
    → on_documents env f m files ≡ (ok tt, files')
    → (d : Documents) × (m ≡ ok d)
      × (save_result env d.plan (f d.plan d.progress) files ≡ (ok tt, files'))
on_documents-ok env f (ok d) files files' h = (d, refl, h)
on_documents-ok env f (raise e) files files' h = absurd (raise-not-ok e _ refl (ap (λ p. p.0) h))

-- What is read back after the progress was saved.
load_documents-Saves :
    (files files' : Files) (saved : Fields) (d : Documents)
    → Saves files files' saved
    → load_documents files ≡ ok d
    → load_documents files' ≡ ok (record { plan = d.plan; progress = saved })
unfolding load_documents read_json
load_documents-Saves files files' saved d s h =
    let (plan, has_plan, h₁) = bind-eq-ok (read_json files.plan) _ h in
    let (references, has_references, h₂) = bind-eq-ok (read_references files.references) _ h₁ in
    let (progress, _, h₃) = bind-eq-ok (read_json files.progress) _ h₂ in
    rw (s.plan, s.references, s.progress, has_plan, has_references)
      (ap (λ (x : Fields). ok (record { plan = x; progress = saved }))
        (ap Documents.plan (ok_unique (ok _) refl h₃)))

-- Documents without issues have none in either part.
core_issues-none :
    (env : Env) (d : Documents)
    → core_issues env d ≡ ok []
    → (validate_plan env.str_of d.plan ≡ ok []) × (validate_progress d.plan d.progress ≡ ok [])
unfolding core_issues
core_issues-none env d h =
    let (plan_issues, checked, h₁) = bind-eq-ok (validate_plan env.str_of d.plan) _ h in
    let (progress_issues, valid, h₂) = bind-eq-ok (validate_progress d.plan d.progress) _ h₁ in
    let (none_plan, none_progress) =
      append-eq-nil plan_issues progress_issues (ok_unique (ok _) refl h₂) in
    (checked ∙ ap ok none_plan, valid ∙ ap ok none_progress)

none-core_issues :
    (env : Env) (d : Documents)
    → validate_plan env.str_of d.plan ≡ ok []
    → validate_progress d.plan d.progress ≡ ok []
    → core_issues env d ≡ ok []
unfolding core_issues
none-core_issues env d p q = rw (p, q) refl

assert_valid_core-ok :
    (env : Env) (d d' : Documents)
    → assert_valid_core env d ≡ ok d'
    → (d ≡ d') × (core_issues env d ≡ ok [])
unfolding assert_valid_core
assert_valid_core-ok env d d' h =
    let (issues, found, h₁) = bind-eq-ok (core_issues env d) _ h in
    let (same, none_found) = valid_or_raise-ok d issues d' h₁ in (same, found ∙ ap ok none_found)

-- If a command that changes the progress succeeds, the files it leaves load, and their plan and their
-- progress have no issue; the records of the progress before it name each activity once.
pub main-core_issues :
    (env : Env) (c : Command) (files files' : Files)
    → ((d : Documents) → load_documents files ≡ ok d → HasUniqueRecords d.progress)
    → main env c files ≡ (ok tt, files')
    → (d : Documents) × (load_documents files' ≡ ok d) × (core_issues env d ≡ ok [])
unfolding main run_command
main-core_issues env c files files' unique h =
    let (d', checked, h₁) =
      on_documents-ok env (step env c) (load_documents files >>= assert_valid_core env) files files'
        h in
    let (d, loaded, asserted) = bind-eq-ok (load_documents files) _ checked in
    let (same, none_found) = assert_valid_core-ok env d d' asserted in
    let (saved, stepped, saves) = save_result-Saves env d'.plan _ files files' h₁ in
    let (plan_valid, progress_valid) = core_issues-none env d none_found in
    let from_d : step env c d.plan d.progress ≡ ok saved =
      subst (λ (x : Documents). step env c x.plan x.progress ≡ ok saved) (sym same) stepped in
    (
      record { plan = d.plan; progress = saved },
      load_documents-Saves files files' saved d saves loaded,
      none-core_issues env _ plan_valid (
          step-validate_progress env c d.plan d.progress saved (unique d loaded) progress_valid
            from_d),
    )
