-- ===== src/Readme/Note.antt =====
-- `scoring_note` of planning/update_readme_compatibility.py.
use Prim.Native.String.{◌++◌ as append}
use lua_mongodb.Base.{
  ℕ, ◌+◌, String, Bool, ◌&&◌, ◌||◌, Option, none, some, List, [], ◌∷◌, ◌++◌, any, map, ltb, ◌==◌,
  if◌then◌else◌,
}
use lua_mongodb.Counts.{Counts}
use lua_mongodb.Raise.{Result, ◌>>=◌}
use lua_mongodb.Readme.Layers.{Layer, driver_layers, old_server_only, unscored_exclusion}
use lua_mongodb.Readme.Problem.{Py}
use lua_mongodb.Readme.Scores.{get_count, is_scored, named}
use lua_mongodb.Readme.Suites.{Suites}
use lua_mongodb.Text.{precedes}
use lua_mongodb.Text.Print.{join, decimal}

-- `labels`
unfoldable pub labels_of : List Layer → List (String × String)
labels_of [] = []
labels_of ((layer, suites) ∷ rest) = suites ++ labels_of rest

-- a number of fixtures of a suite, with the suite's label
abbrev pub Share : Type 0
Share = ℕ × String

-- The key `(-item[0], item[1].lower())`: `lower` is the case of the labels.
module _ (lower : String → String) where
  abbrev pub ranks_before : Share → Share → Bool
  ranks_before (m, a) (n, b) = ltb n m || m == n && precedes (lower a) (lower b)

  insert_share : Share → List Share → List Share
  insert_share x [] = x ∷ []
  insert_share x (y ∷ ys) =
      let later = insert_share x ys in if ranks_before y x then y ∷ later else x ∷ y ∷ ys

  unfoldable pub sorted_shares : List Share → List Share
  unfolding insert_share precedes
  sorted_shares [] = []
  sorted_shares (x ∷ xs) = insert_share x (sorted_shares xs)

  -- the shares of the suites that pass a test
  unfoldable pub shares : (Counts → Bool) → String → Suites → Py (List Share)
  unfolding labels_of named get_count
  shares counted status [] = Result.ok []
  shares counted status ((suite, outcomes) ∷ rest) =
      let later = shares counted status rest in
      if counted outcomes
      then (do
        label ← named suite (labels_of driver_layers)
        others ← later
        Result.ok ((get_count status outcomes, label) ∷ others))
      else later

  abbrev pub sorted_result : Py (List Share) → Py (List Share)
  sorted_result r = r >>= λ xs. Result.ok (sorted_shares xs)

  abbrev pub has_status : String → Counts → Bool
  has_status status outcomes = ltb 0 (get_count status outcomes)

  abbrev pub has_scored : String × ℕ → Bool
  has_scored (status, n) = ltb 0 n && is_scored status

  abbrev pub share_text : Share → String
  share_text (n, label) = append label (append " (" (append (decimal n) ")"))

  abbrev pub share_total : List Share → ℕ
  share_total [] = 0
  share_total ((n, label) ∷ rest) = n + share_total rest

  -- the shares but the last, and the last
  unfoldable pub with_and : List Share → String
  with_and [] = ""
  with_and (x ∷ []) = share_text x
  with_and (x ∷ y ∷ []) = append (share_text x) (append ", and " (share_text y))
  with_and (x ∷ y ∷ z ∷ rest) = append (share_text x) (append ", " (with_and (y ∷ z ∷ rest)))

  abbrev pub comma_separated : List Share → String
  comma_separated xs = join ", " (map share_text xs)

  abbrev pub affected_note : List Share → String
  affected_note [] = ""
  affected_note (x ∷ xs) = append ">\n> Percentages marked **†** skip " (
      append (decimal (share_total (x ∷ xs))) (
        append
          " upstream fixtures because their `runOnRequirements` restrict them to MongoDB versions older than the supported 7.0 floor. The affected suites are "
          (append (with_and (x ∷ xs))
            ". These fixtures remain classified in the conformance ledger but do not count toward the marked suite percentages or the total.")))

  abbrev pub exclusions_note : List Share → String
  exclusions_note [] = ""
  exclusions_note (x ∷ xs) = append "\n>\n> The ledger also omits " (
      append (decimal (share_total (x ∷ xs))) (
        append " explicit superseded or upstream-skipped fixtures from "
          (append (comma_separated (x ∷ xs)) ".")))

  abbrev pub unsupported_note : List Share → String
  unsupported_note [] = ""
  unsupported_note (x ∷ xs) = append "\n>\n> The ledger excludes " (
      append (decimal (share_total (x ∷ xs))) (
        append " terminal unsupported fixtures from scoring in "
          (append (comma_separated (x ∷ xs)) ".")))

  abbrev pub whole_note : List Share → List Share → List Share → Option String
  whole_note [] [] [] = none
  whole_note affected exclusions unsupported = some (
      append "> [!IMPORTANT]\n> **† Fixtures excluded from scoring.**\n" (
        append (affected_note affected)
          (append (exclusions_note exclusions) (unsupported_note unsupported))))

  unfoldable pub scoring_note : Suites → Py (Option String)
  unfolding shares sorted_shares with_and decimal join
  scoring_note counts = do
    affected ← sorted_result (shares (has_status old_server_only) old_server_only counts)
    exclusions ← sorted_result (shares (has_status unscored_exclusion) unscored_exclusion counts)
    unsupported ← sorted_result (
        shares (λ outcomes. has_status "unsupported" outcomes && any has_scored outcomes)
          "unsupported" counts)
    Result.ok (whole_note affected exclusions unsupported)
