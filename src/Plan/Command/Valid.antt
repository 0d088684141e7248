-- ===== src/Plan/Command/Valid.antt =====
-- The validity of the progress under `requeue` and `review`, and what the commands share.
use Prim.Native.String.{◌++◌ as append}
use lua_mongodb.Base.{
  ◌==◌, ℕ, ◌≤◌, String, Bool, true, false, not, [], ◌∷◌, ◌≡◌, refl, subst, ◌∙◌, arith, contains,
  str_eq, if◌then◌else◌, Bool-cases, inl, inr,
}
use lua_mongodb.Json.{Json, null, str, arr, nil, obj, Fields, get_or, put, remove, is_text, is_list}
use lua_mongodb.Json.Laws.{get_or-put, get_or-remove}
use lua_mongodb.Raise.{ok, ◌>>=◌, bind-eq-ok, Ensures, Ensures-bind}
use lua_mongodb.Plan.Documents.{names, activity_map}
use lua_mongodb.Plan.Files.{Env}
use lua_mongodb.Plan.Issue.{
  Issue, Py, cannot_requeue, cannot_review, no_reopen_boundary, review_reason_empty,
}
use lua_mongodb.Plan.Progress.{is_status}
use lua_mongodb.Plan.Progress.Put.{
  IsEntry-put, ensure_record-valid, require_activity-known, set_record-quiet,
}
use lua_mongodb.Plan.Progress.Valid.{active_one, IsEntry, IsValid}
use lua_mongodb.Plan.Record.{
  require_activity, ensure_record, set_record, append_to, appended, status_in,
}
use lua_mongodb.Plan.State.{item}
use lua_mongodb.Text.{strip}
use lua_mongodb.Plan.Command.{
  requeue, reopen, review, review_note, check, dependents, no_dependents, past_completion,
  head_command,
}

-- a status that is written, and a list that is written, leave a well-formed entry
pub IsEntry-status :
    (s : String) (entry : Fields)
    → is_status (str s) ≡ true
    → IsEntry entry
    → IsEntry (put "status" (str s) entry)
IsEntry-status s entry h e = IsEntry-put "status" (str s) entry (λ _. h) (λ p. cc) (λ p. cc) e

appended-is_list : (x v y : Json) → appended x v ≡ ok y → is_list y ≡ true
appended-is_list (arr xs) v y h = ground arith
appended-is_list _ v y h = cc

pub append_to-IsEntry :
    (k : String) (v : Json) (entry result : Fields)
    → append_to k v entry ≡ ok result
    → str_eq k "status" ≡ false
    → IsEntry entry
    → IsEntry result × (get_or result "status" null ≡ get_or entry "status" null)
unfolding append_to
append_to-IsEntry k v entry result h other e =
    let (values, list, rest) = bind-eq-ok (appended (get_or entry k (arr nil)) v) _ h in
    let is_list_now = appended-is_list (get_or entry k (arr nil)) v values list in
    let same_result : put k values entry ≡ result = cc in
    subst (λ (r : Fields). IsEntry r × (get_or r "status" null ≡ get_or entry "status" null))
      same_result
      (
        IsEntry-put k values entry (λ p. cc) (λ _. is_list_now) (λ _. is_list_now) e,
        rw (get_or-put, other),
      )

pub remove-IsEntry :
    (k : String) (entry : Fields)
    → str_eq k "status" ≡ false
    → IsEntry entry
    → IsEntry (remove k entry)
      × (get_or (remove k entry) "status" null ≡ get_or entry "status" null)
remove-IsEntry k entry other e = (
  record {
    status = rw (get_or-remove, other) e.status;
    evidence = rw get_or-remove (ground arith);
    notes = rw get_or-remove (ground arith);
  },
  rw (get_or-remove, other),
)

-- no activity comes into progress by a status other than `in_progress`
pub active_one-quiet :
    (entry : Fields) (s : String) (n : ℕ)
    → get_or entry "status" null ≡ str s
    → str_eq s "in_progress" ≡ false
    → active_one (obj entry) ≤ n
active_one-quiet entry s n e other = rw (e, other) (omega arith)

check-passed : (b : Bool) (issue : Issue) (u : Unit {0}) → check b issue ≡ ok u → b ≡ true
check-passed true issue u h = refl
check-passed false issue u h = cc

module _ {plan progress : Fields} (v : IsValid plan progress) where
  -- the common end of the commands: the record has a new status, and a note is appended
  pub noted-IsValid :
      (id s : String) (note : Json) (entry changed : Fields)
      → contains (names v.acts) id ≡ true
      → ensure_record progress id ≡ ok entry
      → IsEntry changed
      → get_or changed "status" null ≡ str s
      → str_eq s "in_progress" ≡ false
      → Ensures
          (IsValid plan)
          (append_to "notes" note changed >>= λ noted. set_record progress id noted)
  noted-IsValid id s note entry changed known e h status other =
      Ensures-bind _ _ λ noted appended_ok.
        let (h', kept) = append_to-IsEntry "notes" note changed noted appended_ok refl h in
        record {
          at = λ saved.
              set_record-quiet v id entry noted known e h'
                (active_one-quiet noted s _ (kept ∙ status) other);
        }

  -- the common beginning of the commands
  pub from_record :
      (id : String) (test : Json → Bool) (issue : Json → Issue)
      (k : Fields → Fields → Json → Py Fields)
      → ((activity entry : Fields) (status : Json)
          → contains (names v.acts) id ≡ true
          → ensure_record progress id ≡ ok entry
          → IsEntry entry
          → item entry "status" ≡ ok status
          → test status ≡ true
          → Ensures (IsValid plan) (k activity entry status))
      → Ensures (IsValid plan) (
          require_activity plan id >>= λ activity. ensure_record progress id >>= λ entry.
          item entry "status" >>= λ status.
          check (test status) (issue status) >>= λ _. k activity entry status)
  from_record id test issue k rest = Ensures-bind (require_activity plan id) _ λ activity required.
      Ensures-bind (ensure_record progress id) _ λ entry e.
        Ensures-bind (item entry "status") _ λ status read.
          Ensures-bind (check (test status) (issue status)) _ λ u passed.
            rest activity entry status (require_activity-known v id activity required).1 e
              (ensure_record-valid v id entry e).0 read
              (check-passed (test status) (issue status) u passed)

  pub review-IsValid :
      (id reason : String) → Ensures (IsValid plan) (review id reason plan progress)
  unfolding review is_status
  review-IsValid id reason =
      from_record id (status_in ("completed" ∷ "in_progress" ∷ [])) (cannot_review id) _
        λ activity entry status known e h _ _.
          Ensures-bind (check (not (str_eq (strip reason) "")) review_reason_empty) _ λ _ _.
            noted-IsValid id "needs_review" (review_note status (strip reason)) entry
              (put "status" (str "needs_review") entry) known e
              (IsEntry-status "needs_review" entry refl h) (rw get_or-put) refl

  reopen-IsEntry :
      (env : Env) (id : String) (entry reopened : Fields)
      → reopen env id plan progress entry ≡ ok reopened
      → IsEntry entry
      → IsEntry reopened
  unfolding reopen
  reopen-IsEntry env id entry reopened h e =
      let (acts, _, h₁) = bind-eq-ok (activity_map plan) _ h in
      let (completed, _, h₂) = bind-eq-ok (dependents progress id acts) _ h₁ in
      let (_, _, h₃) = bind-eq-ok (no_dependents completed) _ h₂ in
      let (_, _, h₄) =
        bind-eq-ok (check ((env.git head_command).returncode == 0) no_reopen_boundary) _ h₃ in
      let (kept, appended_ok, h₅) =
        bind-eq-ok (append_to "reopen_history" (past_completion entry) entry) _ h₄ in
      let (kept_entry, _) = append_to-IsEntry "reopen_history" _ entry kept appended_ok refl e in
      let boundary = str (strip (env.git head_command).stdout) in
      let cleared =
        IsEntry-put "evidence" (arr nil) kept (λ p. cc) (λ _. refl) (λ p. cc) kept_entry in
      let marked =
        IsEntry-put "reopened_after_commit" boundary (put "evidence" (arr nil) kept) (λ p. cc)
          (λ p. cc) (λ p. cc) cleared in
      subst IsEntry (cc (h₅)) (remove-IsEntry "completed_at" _ refl marked).0

  -- the record that `command_requeue` goes on with
  reopened-IsEntry :
      (env : Env) (id : String) (status : Json) (entry reopened : Fields)
      → (if is_text status "completed" then reopen env id plan progress entry else ok entry)
        ≡ ok reopened
      → IsEntry entry
      → IsEntry reopened
  reopened-IsEntry env id status entry reopened h e =
      elim (Bool-cases (is_text status "completed")) [
        | inl p ↦ reopen-IsEntry env id entry reopened (rw p at h) e
        | inr p ↦
            let same_entry : ok entry ≡ ok reopened = (rw p at h) in
            let same : entry ≡ reopened = cc in subst IsEntry same e
      ]

  pub requeue-IsValid :
      (env : Env) (id reason : String)
      → Ensures (IsValid plan) (requeue env id reason plan progress)
  unfolding requeue is_status
  requeue-IsValid env id reason =
      from_record id (status_in ("in_progress" ∷ "completed" ∷ [])) (cannot_requeue id) _
        λ activity entry status known e h _ _.
          Ensures-bind
            (if is_text status "completed" then reopen env id plan progress entry else ok entry) _
            λ reopened r.
              let pending =
                IsEntry-status "pending" reopened refl
                  (reopened-IsEntry env id status entry reopened r h) in
              let (cleared, kept) =
                remove-IsEntry "started_at" (put "status" (str "pending") reopened) refl pending in
              noted-IsValid id "pending" (str (append "Requeued: " reason)) entry
                (remove "started_at" (put "status" (str "pending") reopened)) known e cleared
                (kept ∙ rw get_or-put) refl
