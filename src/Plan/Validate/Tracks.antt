-- ===== src/Plan/Validate/Tracks.antt =====
-- The tracks in `validate_plan` of planning/update_plan.py: the loop that reads them, and the one
-- that checks them against the activities.
use lua_mongodb.Base.{
  ℕ, suc, String, Bool, true, false, not, ◌&&◌, none, some, List, [], ◌∷◌, ◌++◌, contains, codes,
  if◌then◌else◌, any, ◌==◌, ◌||◌,
}
use lua_mongodb.Json.{
  Json, null, str, arr, obj, Fields, get_or, has, truthy, hashable, is_string, is_text, elements,
  member, nil,
}
use lua_mongodb.Raise.{ok, raise, ◌>>=◌}
use lua_mongodb.Plan.Documents.{Activities, names, find}
use lua_mongodb.Plan.Issue.{
  Issue, Py, crash, tracks_not_array, track_not_object, track_missing, track_invalid_id,
  duplicate_track, track_goal_empty, track_unknown_activity, entry_not_in_track,
  terminal_not_in_track, entry_not_after,
}
use lua_mongodb.Plan.Pattern.{matches_track}

-- an issue that is there if the test holds
abbrev pub when : Bool → Issue → List Issue
when b issue = if b then issue ∷ [] else []

-- the issues so far, and `track_definitions`
pub record Tracks : Type 0 where
  pub issues : List Issue
  pub definitions : Activities

unfoldable pub missing_keys : ℕ → Fields → List String → List Issue
missing_keys index track [] = []
missing_keys index track (k ∷ ks) =
    when (not (has track k)) (track_missing index k) ++ missing_keys index track ks

abbrev pub track_keys : List String
track_keys = "id" ∷ "goal" ∷ "entry_activity" ∷ "terminal_activity" ∷ "after_activity" ∷ []

abbrev define : String → Fields → Tracks → Tracks
define id track t = record {
  issues =
      t.issues
      ++ when (not (is_string (get_or track "goal" null) && truthy (get_or track "goal" null)))
          (track_goal_empty id);
  definitions = t.definitions ++ (id, track) ∷ [];
}

unfoldable pub named_track : ℕ → Json → Fields → Tracks → Tracks
named_track index (str id) track t =
    if not (matches_track (codes id))
    then record t { issues = t.issues ++ track_invalid_id index (str id) ∷ [] }
    else if contains (names t.definitions) id
    then record t { issues = t.issues ++ duplicate_track id ∷ [] }
    else define id track t
named_track index id track t = record t { issues = t.issues ++ track_invalid_id index id ∷ [] }

unfoldable pub check_track : ℕ → Json → Tracks → Tracks
unfolding missing_keys named_track
check_track index (obj track) t =
    named_track index (get_or track "id" null) track
      (record t { issues = t.issues ++ missing_keys index track track_keys })
check_track index _ t = record t { issues = t.issues ++ track_not_object index ∷ [] }

unfoldable pub check_tracks : ℕ → List Json → Tracks → Tracks
unfolding check_track
check_tracks index [] t = t
check_tracks index (x ∷ xs) t = check_tracks (suc index) xs (check_track index x t)

unfoldable pub read_tracks : Json → Tracks
unfolding check_tracks
read_tracks (arr xs) = check_tracks 0 (elements xs) (record { issues = []; definitions = [] })
read_tracks _ = record { issues = tracks_not_array ∷ []; definitions = [] }

-- `x in activities`
unfoldable pub in_activities : Activities → Json → Py Bool
in_activities acts x = if hashable x then ok (any (λ a. is_text x a) (names acts)) else raise crash

-- `not isinstance(x, str) or x not in activities`
abbrev pub unknown_activity : Activities → Json → Bool
unknown_activity acts (str a) = not (contains (names acts) a)
unknown_activity acts _ = true

-- `activities[x].get(key, default)`, behind the test `x in activities`
abbrev pub attribute_of : Activities → Json → String → Json → Json
attribute_of acts (str a) key default = elim (find acts a) [
  | none ↦ default
  | some fs ↦ get_or fs key default
]
attribute_of acts _ key default = default

is_prefix : List ℕ → List ℕ → Bool
is_prefix [] ys = true
is_prefix (x ∷ xs) [] = false
is_prefix (x ∷ xs) (y ∷ ys) = x == y && is_prefix xs ys

is_infix : List ℕ → List ℕ → Bool
is_infix xs [] = is_prefix xs []
is_infix xs (y ∷ ys) = is_prefix xs (y ∷ ys) || is_infix xs ys

-- `a in x` for a text `a`: an element, a key or a part of a text
unfoldable pub holds_text : Json → String → Py Bool
unfolding is_prefix is_infix
holds_text (arr xs) a = ok (member (elements xs) (str a))
holds_text (obj fs) a = ok (has fs a)
holds_text (str s) a = ok (is_infix (codes a) (codes s))
holds_text _ a = raise crash

-- `a in x`, where `a` is known to be the id of an activity
abbrev holds : Json → Json → Py Bool
holds x (str a) = holds_text x a
holds x _ = raise crash

unfoldable pub unknown_ends : Activities → String → Fields → List Issue
unknown_ends acts id track =
    let entry = get_or track "entry_activity" null in
    let terminal = get_or track "terminal_activity" null in
    let after = get_or track "after_activity" null in
    when (unknown_activity acts entry) (track_unknown_activity id "entry" entry)
    ++ when (unknown_activity acts terminal) (track_unknown_activity id "terminal" terminal)
    ++ when (unknown_activity acts after) (track_unknown_activity id "after" after)

-- the body of the loop over `track_definitions`
unfoldable pub cross_track : Activities → String → Fields → Py (List Issue)
unfolding unknown_ends in_activities holds_text find
cross_track acts id track =
    let entry = get_or track "entry_activity" null in
    let terminal = get_or track "terminal_activity" null in
    let after = get_or track "after_activity" null in
    let depends = attribute_of acts entry "depends_on" (arr nil) in
    do
      entry_in ← in_activities acts entry
      terminal_in ← in_activities acts terminal
      after_in ← (if entry_in then in_activities acts after else ok false)
      follows ← (if after_in then holds depends after else ok true)
      ok (
          unknown_ends acts id track
          ++ when (entry_in && not (is_text (attribute_of acts entry "track" null) id))
              (entry_not_in_track id entry)
          ++ when (terminal_in && not (is_text (attribute_of acts terminal "track" null) id))
              (terminal_not_in_track id terminal)
          ++ when (not follows) (entry_not_after id entry after))

unfoldable pub cross_tracks : Activities → Activities → Py (List Issue)
unfolding cross_track
cross_tracks acts [] = ok []
cross_tracks acts ((id, track) ∷ rest) = do
  here ← cross_track acts id track
  later ← cross_tracks acts rest
  ok (here ++ later)
