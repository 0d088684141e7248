-- ===== src/Readme/Scores.antt =====
-- How the outcomes of a suite are scored: `status_marker`, `supported_percentage`, `specification_url`,
-- `marked_percentage` and `scoring_note` of planning/update_readme_compatibility.py.
pub mod Green
use Prim.Native.Char.{Char, code}
use Prim.Native.String.{◌++◌ as append}
use lua_mongodb.Base.{
  ℕ, zero, suc, ◌+◌, ◌-◌, String, Bool, true, false, not, ◌&&◌, ◌||◌, Option, none, some, List, [],
  ◌∷◌, ◌++◌, any, contains, codes, length, map, ltb, ◌==◌, str_eq, if◌then◌else◌,
}
use lua_mongodb.Counts.{Counts, total}
use lua_mongodb.Raise.{Result, ok, raise, ◌>>=◌}
use lua_mongodb.Readme.Layers.{
  Layer, driver_layers, specification_documents, specifications_url, non_execution_statuses,
  old_server_only, unscored_exclusion,
}
use lua_mongodb.Readme.Problem.{Py, crash, fail, not_markdown}
use lua_mongodb.Readme.Suites.{Suites}
use lua_mongodb.Text.{precedes}
use lua_mongodb.Text.Print.{join, decimal}
use lua_mongodb.Text.Search.{ends_with}

-- `counts.get(status, 0)`
unfoldable pub get_count : String → Counts → ℕ
get_count status [] = 0
get_count status ((s, n) ∷ rest) =
    let later = get_count status rest in if str_eq s status then n else later

abbrev pub is_scored : String → Bool
is_scored status = not (contains non_execution_statuses status)

-- the sum of the counts whose status passes a test
unfoldable pub sum_where : (String → Bool) → Counts → ℕ
sum_where p [] = 0
sum_where p ((s, n) ∷ rest) = (if p s then n else 0) + sum_where p rest

abbrev pub is_incomplete : String → Bool
is_incomplete status = not (str_eq status "passed") && is_scored status

unfoldable pub status_marker : Counts → String
unfolding get_count sum_where
status_marker counts =
    let passed = get_count "passed" counts in
    let incomplete = sum_where is_incomplete counts in
    if ltb 0 passed && incomplete == 0
    then "🟢"
    else if ltb 0 passed
    then "🟡"
    else if ltb 0 (get_count "unsupported" counts)
    then "⚪"
    else if ltb 0 incomplete
    then "🔴"
    else "⚪"

-- the format `.1f` of `passed / total * 100`
module _ (percent : ℕ → ℕ → String) where
  unfoldable pub supported_percentage : Counts → String
  unfolding get_count sum_where
  supported_percentage counts =
      let scored = sum_where is_scored counts in
      if scored == 0 then "N/A" else append (percent (get_count "passed" counts) scored) "%"

  unfoldable pub marked_percentage : Counts → Bool → String
  unfolding supported_percentage
  marked_percentage counts bold =
      let plain = supported_percentage counts in
      let percentage = (if bold then append "**" (append plain "**") else plain) in
      if get_count old_server_only counts == 0
        && get_count unscored_exclusion counts == 0
        && (get_count "unsupported" counts == 0 || sum_where is_scored counts == 0)
      then percentage
      else append percentage " **†**"

-- the value of a name in a dictionary, or `KeyError`
unfoldable pub named : String → List (String × String) → Py String
named name [] = Result.raise crash
named name ((n, value) ∷ rest) =
    let later = named name rest in if str_eq n name then Result.ok value else later

-- `s[:-n]`
unfoldable pub without_last : ℕ → String → String
without_last n String.[] = String.[]
without_last n (String.◌∷◌ c s) =
    let rest = without_last n s in
    if ltb n (length (codes (String.◌∷◌ c s))) then String.◌∷◌ c rest else String.[]

abbrev pub page_url : String → Py String
page_url document =
    if ends_with document ".md"
    then Result.ok (append specifications_url (append (without_last 3 document) ".html"))
    else fail (not_markdown document)

unfoldable pub specification_url : String → Py String
unfolding named ends_with without_last
specification_url suite = named suite specification_documents >>= page_url
