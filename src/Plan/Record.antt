-- ===== src/Plan/Record.antt =====
-- The record of an activity in the progress: `require_activity` and `ensure_record` of
-- planning/update_plan.py, and the assignments to a record. The source changes the record in place,
-- inside the progress; here `set_record` puts the changed one back.
use lua_mongodb.Base.{String, Bool, none, some, List, [], ◌∷◌, ◌++◌, any}
use lua_mongodb.Json.{
  Json, str, arr, nil, array, elements, obj, Fields, end, field, get_or, put, lookup, is_text,
}
use lua_mongodb.Raise.{ok, raise, ◌>>=◌}
use lua_mongodb.Plan.Documents.{activity_map, find}
use lua_mongodb.Plan.Issue.{Py, crash, fail, no_such_activity}
use lua_mongodb.Plan.State.{fields_of}

unfoldable pub require_activity : Fields → String → Py Fields
unfolding activity_map find
require_activity plan id = do
  acts ← activity_map plan
  elim (find acts id) [ none ↦ fail (no_such_activity id) | some activity ↦ ok activity ]

-- `{"status": "pending", "evidence": [], "notes": []}`
abbrev pub new_record : Fields
new_record =
    field "status" (str "pending") (field "evidence" (arr nil) (field "notes" (arr nil) end))

-- `progress.setdefault("activities", {})`
abbrev pub records_of : Fields → Py Fields
records_of progress =
    fields_of (elim (lookup "activities" progress) [ none ↦ obj end | some v ↦ v ])

unfoldable pub ensure_record : Fields → String → Py Fields
ensure_record progress id = do
  records ← records_of progress
  fields_of (get_or records id (obj new_record))

unfoldable pub set_record : Fields → String → Fields → Py Fields
set_record progress id entry = do
  records ← records_of progress
  ok (put "activities" (obj (put id (obj entry) records)) progress)

-- `record["status"]` is one of these
abbrev pub status_in : List String → Json → Bool
status_in names status = any (is_text status) names

-- `record.setdefault(key, []).append(value)`, which only a list has
abbrev pub appended : Json → Json → Py Json
appended (arr xs) v = ok (arr (array (elements xs ++ v ∷ [])))
appended _ v = raise crash

unfoldable pub append_to : String → Json → Fields → Py Fields
append_to key value entry = do
  values ← appended (get_or entry key (arr nil)) value
  ok (put key values entry)
