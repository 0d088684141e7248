-- ===== src/Plan/Evidence.antt =====
-- `completion_evidence_issues` of planning/update_plan.py: what has to be recorded before an activity
-- may be completed.
pub mod RedFirst
use lua_mongodb.Base.{
  ℕ, suc, String, Bool, true, false, not, ◌&&◌, List, [], ◌∷◌, ltb, if◌then◌else◌,
}
use Prim.Native.Nat.{min}
use lua_mongodb.Json.{
  ℤ, pos, Json, null, arr, nil, obj, Fields, get_or, is_text, equals_int, elements,
}
use lua_mongodb.Raise.{ok, raise, ◌>>=◌}
use lua_mongodb.Plan.Documents.{attribute}
use lua_mongodb.Plan.Issue.{Issue, Py, crash, green_required, red_required, red_before_green}
use lua_mongodb.Plan.State.{item}
use lua_mongodb.Plan.Validate.References.{loop_over}

-- `item.get("phase") == "green" and item.get("exit_code") == 0`
abbrev pub is_green : Fields → Bool
is_green e =
    is_text (get_or e "phase" null) "green" && equals_int (pos 0) (get_or e "exit_code" null)

-- `item.get("phase") == "red" and item.get("exit_code") != 0`
abbrev pub is_red : Fields → Bool
is_red e =
    is_text (get_or e "phase" null) "red" && not (equals_int (pos 0) (get_or e "exit_code" null))

-- the items, each of which must be an object
unfoldable pub evidence_items : List Json → Py (List Fields)
evidence_items [] = ok []
evidence_items (obj e ∷ rest) = evidence_items rest >>= λ es. ok (e ∷ es)
evidence_items (_ ∷ rest) = raise crash

-- the positions, from `index` on, of the items that pass the test
unfoldable pub positions : (Fields → Bool) → ℕ → List Fields → List ℕ
positions test index [] = []
positions test index (e ∷ es) =
    let rest = positions test (suc index) es in if test e then index ∷ rest else rest

-- `min` of a list that is not empty
abbrev pub least : ℕ → List ℕ → ℕ
least n [] = n
least n (m ∷ ms) = min n (least m ms)

abbrev pub red_issues : List ℕ → List ℕ → List Issue
red_issues greens [] = red_required ∷ []
red_issues [] (r ∷ reds) = green_required ∷ []
red_issues (g ∷ greens) (r ∷ reds) =
    if ltb (least g greens) (least r reds) then red_before_green ∷ [] else []

abbrev pub policy_issues : List ℕ → List ℕ → Json → List Issue
policy_issues greens reds policy =
    if is_text policy "validation" then [] else red_issues greens reds

-- the policy is read only if there is green evidence
abbrev pub green_issues : Fields → List ℕ → List ℕ → Py (List Issue)
green_issues activity [] reds = ok (green_required ∷ [])
green_issues activity (g ∷ greens) reds = do
  policy ← item activity "test_policy"
  ok (policy_issues (g ∷ greens) reds policy)

unfoldable pub completion_evidence_issues : Fields → Fields → Py (List Issue)
unfolding evidence_items positions
completion_evidence_issues activity entry = do
  listed ← loop_over (get_or entry "evidence" (arr nil))
  es ← evidence_items listed
  green_issues activity (positions is_green 0 es) (positions is_red 0 es)
