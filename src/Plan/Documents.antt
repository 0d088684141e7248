-- ===== src/Plan/Documents.antt =====
-- Reading the roadmap: `activity_map`, `declared_track_ids` and `status_for` of
-- planning/update_plan.py. `read_json` returns objects only, so a document is the fields of one.
use lua_mongodb.Base.{
  String, Option, none, some, List, [], ◌∷◌, ◌++◌, contains, str_eq, if◌then◌else◌,
}
use lua_mongodb.Json.{Json, null, str, arr, obj, Fields, end, get_or, elements}
use lua_mongodb.Raise.{ok, raise, ◌>>=◌}
use lua_mongodb.Plan.Issue.{
  crash, Py, fail, activities_not_array, activity_without_id, duplicate_activity,
}

-- the dictionary of `activity_map`, in the order of the array
abbrev pub Activities : Type 0
Activities = List (String × Fields)

abbrev pub names : Activities → List String
names [] = []
names ((a, fs) ∷ rest) = a ∷ names rest

unfoldable pub find : Activities → String → Option Fields
find [] a = none
find ((b, fs) ∷ rest) a = if str_eq b a then some fs else find rest a

-- an activity under the id that its object must have
abbrev pub named : Json → Fields → Py (String × Fields)
named (str id) fs = ok (id, fs)
named _ fs = fail activity_without_id

abbrev pub identified : Json → Py (String × Fields)
identified (obj fs) = named (get_or fs "id" null) fs
identified _ = fail activity_without_id

-- the loop of `activity_map`, from the activities that are in the result already
unfoldable pub add_activities : Activities → List Json → Py Activities
add_activities known [] = ok known
add_activities known (x ∷ xs) = identified x >>= λ a.
    let rest = add_activities (known ++ a ∷ []) xs in
    if contains (names known) a.0 then fail (duplicate_activity a.0) else rest

abbrev pub activity_array : Json → Py Activities
activity_array (arr xs) = add_activities [] (elements xs)
activity_array _ = fail activities_not_array

unfoldable pub activity_map : Fields → Py Activities
activity_map plan = activity_array (get_or plan "activities" null)

-- the ids of the tracks that are objects with a text for an id
abbrev pub track_id : Json → List String
track_id (str id) = id ∷ []
track_id _ = []

unfoldable pub track_ids : List Json → List String
track_ids [] = []
track_ids (obj fs ∷ rest) = track_id (get_or fs "id" null) ++ track_ids rest
track_ids (_ ∷ rest) = track_ids rest

abbrev pub track_array : Json → List String
track_array (arr xs) = track_ids (elements xs)
track_array _ = []

unfoldable pub declared_track_ids : Fields → List String
unfolding track_ids
declared_track_ids plan = track_array (get_or plan "tracks" null)

-- `x.get(k, default)`, which only an object has
abbrev pub attribute : Json → String → Json → Py Json
attribute (obj fs) k default = ok (get_or fs k default)
attribute _ k default = raise crash

unfoldable pub status_for : Fields → String → Py Json
status_for progress activity_id = do
  entry ← attribute (get_or progress "activities" (obj end)) activity_id (obj end)
  attribute entry "status" (str "pending")
