-- ===== src/Plan/Outcome/Valid.antt =====
-- The validity of the progress under `record-test`, `block`, `unblock` and `complete`.
use Prim.Native.String.{◌++◌ as append}
use lua_mongodb.Base.{String, [], ◌∷◌, ◌≡◌, refl, arith, ◌≤◌}
use lua_mongodb.Json.{ℤ, null, str, obj, Fields, get_or, put, remove, is_text}
use lua_mongodb.Json.Laws.{json_laws}
use lua_mongodb.Raise.{Ensures, Ensures-bind}
use lua_mongodb.Plan.Command.{check_none}
use lua_mongodb.Plan.Command.Valid.{
  IsEntry-status, append_to-IsEntry, remove-IsEntry, active_one-quiet, noted-IsValid, from_record,
}
use lua_mongodb.Plan.Evidence.{completion_evidence_issues}
use lua_mongodb.Plan.Files.{Env}
use lua_mongodb.Plan.Issue.{cannot_block, cannot_unblock, cannot_complete, evidence_needs_progress}
use lua_mongodb.Plan.Outcome.{
  Phase, check_phase, test_evidence, record_test, block, unblock, complete,
}
use lua_mongodb.Plan.Progress.{is_status}
use lua_mongodb.Plan.Progress.Put.{IsEntry-put, set_record-quiet}
use lua_mongodb.Plan.Progress.Valid.{active_one, IsValid}
use lua_mongodb.Plan.Record.{append_to, status_in}

module _ {plan progress : Fields} (v : IsValid plan progress) where
  pub record_test-IsValid :
      (env : Env) (id : String) (phase : Phase) (command : String) (code : ℤ) (summary : String)
      → Ensures (IsValid plan) (record_test env id phase command code summary plan progress)
  unfolding record_test
  record_test-IsValid env id phase command code summary =
      from_record v id (λ status. is_text status "in_progress") (λ _. evidence_needs_progress) _
        λ activity entry status known e h _ _. Ensures-bind (check_phase phase code) _ λ _ _.
          Ensures-bind
            (append_to "evidence" (test_evidence phase command code summary env.now) entry) _
            λ noted appended_ok.
              let (h', kept) = append_to-IsEntry "evidence" _ entry noted appended_ok refl h in
              record {
                at = λ saved.
                    set_record-quiet v id entry noted known e h' (same_active entry noted kept);
              }
    where
      same_active :
          (entry noted : Fields)
          → get_or noted "status" null ≡ get_or entry "status" null
          → active_one (obj noted) ≤ active_one (obj entry)
      same_active entry noted kept = rw kept (omega arith)

  pub block-IsValid :
      (env : Env) (id reason : String) → Ensures (IsValid plan) (block env id reason plan progress)
  unfolding block is_status
  block-IsValid env id reason =
      from_record v id (status_in ("pending" ∷ "in_progress" ∷ "needs_review" ∷ []))
        (cannot_block id) _
        λ activity entry status known e h _ _.
          let blocked = put "status" (str "blocked") entry in
          let dated = put "blocked_at" (str env.now) blocked in
          let dated_entry =
            IsEntry-put "blocked_at" (str env.now) blocked (λ p. cc) (λ p. cc) (λ p. cc)
              (IsEntry-status "blocked" entry refl h) in
          noted-IsValid v id "blocked" (str (append "Blocked: " reason)) entry
            (put "block_reason" (str reason) dated) known e
            (IsEntry-put "block_reason" (str reason) dated (λ p. cc) (λ p. cc) (λ p. cc)
              dated_entry)
            (simp json_laws) refl

  pub unblock-IsValid : (id : String) → Ensures (IsValid plan) (unblock id plan progress)
  unfolding unblock is_status
  unblock-IsValid id =
      from_record v id (λ status. is_text status "blocked") (cannot_unblock id) _
        λ activity entry status known e h _ _.
          let pending = put "status" (str "pending") entry in
          let undated =
            (remove-IsEntry "blocked_at" pending refl (IsEntry-status "pending" entry refl h)).0 in
          noted-IsValid v id "pending" (str "Unblocked") entry
            (remove "block_reason" (remove "blocked_at" pending)) known e
            (remove-IsEntry "block_reason" (remove "blocked_at" pending) refl undated).0
            (simp json_laws) refl

  pub complete-IsValid :
      (env : Env) (id : String) → Ensures (IsValid plan) (complete env id plan progress)
  unfolding complete is_status
  complete-IsValid env id =
      from_record v id (λ status. is_text status "in_progress") (cannot_complete id) _
        λ activity entry status known e h _ _.
          Ensures-bind (completion_evidence_issues activity entry) _ λ issues _.
            Ensures-bind (check_none issues) _ λ _ _.
              let done = put "status" (str "completed") entry in
              let dated = put "completed_at" (str env.now) done in
              let dated_entry =
                IsEntry-put "completed_at" (str env.now) done (λ p. cc) (λ p. cc) (λ p. cc)
                  (IsEntry-status "completed" entry refl h) in
              record {
                at = λ saved.
                    set_record-quiet v id entry dated known e dated_entry
                      (active_one-quiet dated "completed" _ (simp json_laws) refl);
              }
