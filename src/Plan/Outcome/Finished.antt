-- ===== src/Plan/Outcome/Finished.antt =====
-- When `complete` lets an activity end.
use lua_mongodb.Base.{String, true, false, List, [], ◌≡◌, sym, ap, ◌∙◌, subst, eq_iff}
use lua_mongodb.Json.{Json, str, arr, nil, Items, elements, Fields, get_or, is_text}
use lua_mongodb.Raise.{ok, bind-eq-ok, ok_unique}
use lua_mongodb.Plan.Command.{check, check_none}
use lua_mongodb.Plan.Command.Guards.{check-passed, check_none-passed}
use lua_mongodb.Plan.Evidence.{completion_evidence_issues, evidence_items}
use lua_mongodb.Plan.Evidence.RedFirst.{RedThenGreen, completion-RedThenGreen}
use lua_mongodb.Plan.Files.{Env}
use lua_mongodb.Plan.Issue.{cannot_complete}
use lua_mongodb.Plan.Outcome.{complete}
use lua_mongodb.Plan.Record.{require_activity, ensure_record}
use lua_mongodb.Plan.State.{item}

-- An activity whose policy is not `validation` and whose evidence is a list of objects is completed only
-- while it is in progress, and only if a failing red run stands before every passing green run of its
-- evidence, and a passing one after it.
pub complete-RedThenGreen :
    (env : Env) (id : String) (plan progress saved activity entry : Fields) (recorded : Items)
    (es : List Fields) (policy : Json)
    → require_activity plan id ≡ ok activity
    → ensure_record progress id ≡ ok entry
    → get_or entry "evidence" (arr nil) ≡ arr recorded
    → evidence_items (elements recorded) ≡ ok es
    → item activity "test_policy" ≡ ok policy
    → is_text policy "validation" ≡ false
    → complete env id plan progress ≡ ok saved
    → (item entry "status" ≡ ok (str "in_progress")) × RedThenGreen es
unfolding complete
complete-RedThenGreen env id plan progress saved activity entry recorded es policy exists found
      listed items p v h =
    let (activity', exists', h₁) = bind-eq-ok (require_activity plan id) _ h in
    let (entry', found', h₂) = bind-eq-ok (ensure_record progress id) _ h₁ in
    let (status, has_status, h₃) = bind-eq-ok (item entry' "status") _ h₂ in
    let (u, active, h₄) =
      bind-eq-ok (check (is_text status "in_progress") (cannot_complete id status)) _ h₃ in
    let (issues, checked, h₅) = bind-eq-ok (completion_evidence_issues activity' entry') _ h₄ in
    let (w, clean, _) = bind-eq-ok (check_none issues) _ h₅ in
    let same_activity = ok_unique (require_activity plan id) exists' exists in
    let same_entry = ok_unique (ensure_record progress id) found' found in
    let active_text =
      text-eq status "in_progress"
        (check-passed (is_text status "in_progress") (cannot_complete id status) u active) in
    (
      subst (λ (e : Fields). item e "status" ≡ ok (str "in_progress")) same_entry
          (has_status ∙ ap ok active_text),
      (completion-RedThenGreen activity entry recorded es policy listed items p v).0
          (subst2 same_activity same_entry (checked ∙ ap ok (check_none-passed issues w clean))),
    )
  where
    text-eq : (x : Json) (t : String) → is_text x t ≡ true → x ≡ str t
    text-eq (str s) t k = ap str ((eq_iff s t).0 k)
    text-eq _ t k = cc

    subst2 :
        {a b c d : Fields}
        → a ≡ b
        → c ≡ d
        → completion_evidence_issues a c ≡ ok []
        → completion_evidence_issues b d ≡ ok []
    subst2 p q k = rw (sym p, sym q) k
