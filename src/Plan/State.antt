-- ===== src/Plan/State.antt =====
-- `compute_state` of planning/update_plan.py: what `current_state.json` says of the roadmap.
use lua_mongodb.Base.{
  ℕ, suc, String, Bool, true, false, Option, none, some, List, [], ◌∷◌, ◌++◌, map, contains,
  if◌then◌else◌,
}
use lua_mongodb.Json.{
  pos, Json, null, int, str, arr, nil, array, obj, Fields, end, field, get_or, lookup, remove, same,
  is_text,
}
use lua_mongodb.Raise.{ok, raise, ◌>>=◌}
use lua_mongodb.Plan.Documents.{Activities, activity_map, attribute, status_for, declared_track_ids}
use lua_mongodb.Plan.Issue.{Issue, Py, crash, stale_digest}
use lua_mongodb.Plan.Progress.{statuses}
use lua_mongodb.Plan.Validate.Activity.{hashed}
use lua_mongodb.Plan.Validate.References.{loop_over}

-- What the lists of the state hold after some of the activities.
pub record Lists : Type 0 where
  pub counts : List (Json × ℕ)
  pub active : List String
  pub blocked : List String
  pub needs_review : List String
  pub ready : List String
  pub ready_by_track : List (String × List String)

-- `counts[status] = counts.get(status, 0) + 1`
unfoldable pub count_up : Json → List (Json × ℕ) → List (Json × ℕ)
count_up status [] = (status, 1) ∷ []
count_up status ((k, n) ∷ rest) =
    if same k status then (k, suc n) ∷ rest else (k, n) ∷ count_up status rest

-- `status_for(progress, d)` for a dependency that may be any value
abbrev pub status_of : Fields → Json → Py Json
status_of progress (str d) = status_for progress d
status_of progress d = do
  key ← hashed d
  _ ← attribute (get_or progress "activities" (obj end)) "" (obj end)
  ok (str "pending")

-- `all(status_for(progress, d) == "completed" for d in dependencies)`, which stops at the first that
-- is not
unfoldable pub all_completed : Fields → List Json → Py Bool
unfolding status_for
all_completed progress [] = ok true
all_completed progress (d ∷ ds) =
    let later = all_completed progress ds in
    status_of progress d >>= λ status. if is_text status "completed" then later else ok false

unfoldable pub is_ready : Fields → Json → Fields → Py Bool
unfolding all_completed
is_ready progress status activity =
    if is_text status "pending"
    then (loop_over (get_or activity "depends_on" (arr nil)) >>= all_completed progress)
    else ok false

-- `ready_by_track[track].append(id)`, where the track has a list
unfoldable pub add_to_track :
    Json → String → List (String × List String) → List (String × List String)
add_to_track track id [] = []
add_to_track track id ((t, ids) ∷ rest) =
    if is_text track t then (t, ids ++ id ∷ []) ∷ rest else (t, ids) ∷ add_to_track track id rest

abbrev pub append_if : Bool → String → List String → List String
append_if b id ids = if b then ids ++ id ∷ [] else ids

-- the body of the loop of `compute_state`
unfoldable pub add_activity : Fields → String → Fields → Lists → Py Lists
unfolding status_for count_up is_ready add_to_track
add_activity progress id activity l = do
  found ← status_for progress id
  status ← hashed found
  ready ← is_ready progress status activity
  track ← (if ready then hashed (get_or activity "track" null) else ok null)
  ok (record {
    counts = count_up status l.counts;
    active = append_if (is_text status "in_progress") id l.active;
    blocked = append_if (is_text status "blocked") id l.blocked;
    needs_review = append_if (is_text status "needs_review") id l.needs_review;
    ready = append_if ready id l.ready;
    ready_by_track = if ready then add_to_track track id l.ready_by_track else l.ready_by_track;
  })

unfoldable pub add_all : Fields → Activities → Lists → Py Lists
unfolding add_activity
add_all progress [] l = ok l
add_all progress ((id, activity) ∷ rest) l =
    add_activity progress id activity l >>= add_all progress rest

-- `{track_id: [] for track_id in declared_track_ids(plan)}`
unfoldable pub empty_tracks : List String → List String → List (String × List String)
empty_tracks seen [] = []
empty_tracks seen (t ∷ ts) =
    let rest = empty_tracks (t ∷ seen) ts in if contains seen t then rest else (t, []) ∷ rest

unfoldable pub no_activities : List String → Lists
unfolding empty_tracks
no_activities tracks = record {
  counts = map (λ s. (str s, 0)) statuses;
  active = [];
  blocked = [];
  needs_review = [];
  ready = [];
  ready_by_track = empty_tracks [] tracks;
}

-- The dictionary that `compute_state` returns.
pub record State : Type 0 where
  pub plan_id : Json
  pub plan_digest : String
  pub reference_digest : String
  pub references : Fields
  pub lists : Lists
  pub stale : List Issue

-- `ready[0] if ready else None`
abbrev pub first_of_list : List String → Option String
first_of_list [] = none
first_of_list (a ∷ _) = some a

-- `d[key]`, which raises `KeyError`
abbrev pub item : Fields → String → Py Json
item fs k = elim (lookup k fs) [ none ↦ raise crash | some v ↦ ok v ]

abbrev pub item_of : Json → String → Py Json
item_of (obj fs) k = item fs k
item_of _ k = raise crash

-- `{name: {"commit": reference["commit"]} for name, reference in references.items()}`
unfoldable pub public_references : Fields → Py Fields
public_references end = ok end
public_references (field name reference rest) = do
  commit ← item_of reference "commit"
  others ← public_references rest
  ok (field name (obj (field "commit" commit end)) others)

abbrev pub fields_of : Json → Py Fields
fields_of (obj fs) = ok fs
fields_of _ = raise crash

-- `digest` is the SHA-256 of the canonical JSON text.
module _ (digest : Json → String) where
  unfoldable pub digest_plan : Fields → String
  digest_plan plan = digest (obj (remove "references" plan))

  unfoldable pub compute_state : Fields → Fields → Py State
  unfolding activity_map add_all no_activities digest_plan public_references declared_track_ids
  compute_state plan progress = do
    acts ← activity_map plan
    lists ← add_all progress acts (no_activities (declared_track_ids plan))
    references ← fields_of (get_or plan "references" (obj end))
    public ← public_references references
    plan_id ← item plan "plan_id"
    ok (record {
      plan_id = plan_id;
      plan_digest = digest_plan plan;
      reference_digest = digest (obj references);
      references = public;
      lists = lists;
      stale =
          if is_text (get_or progress "plan_digest" null) (digest_plan plan)
          then []
          else stale_digest ∷ [];
    })

-- the value that is written to `current_state.json`
count_fields : List (Json × ℕ) → Fields
count_fields [] = end
count_fields ((str s, n) ∷ rest) = field s (int (pos n)) (count_fields rest)
count_fields (_ ∷ rest) = count_fields rest

abbrev texts : List String → Json
texts ids = arr (array (map str ids))

track_fields : List (String × List String) → Fields
track_fields [] = end
track_fields ((t, ids) ∷ rest) = field t (texts ids) (track_fields rest)

abbrev optional : Option String → Json
optional none = null
optional (some a) = str a

abbrev object_fields : List (String × Json) → Fields
object_fields [] = end
object_fields ((k, v) ∷ rest) = field k v (object_fields rest)

abbrev object : List (String × Json) → Json
object l = obj (object_fields l)

unfoldable pub state_json : State → Json
unfolding count_fields track_fields
state_json s = object (
    ("$schema", str "./schemas/current_state.schema.json")
    ∷ ("schema_version", int (pos 1))
    ∷ ("plan_id", s.plan_id)
    ∷ ("plan_digest", str s.plan_digest)
    ∷ ("reference_digest", str s.reference_digest)
    ∷ ("references", obj s.references)
    ∷ ("counts", obj (count_fields s.lists.counts))
    ∷ ("active", texts s.lists.active)
    ∷ ("ready", texts s.lists.ready)
    ∷ ("ready_by_track", obj (track_fields s.lists.ready_by_track))
    ∷ ("blocked", texts s.lists.blocked)
    ∷ ("needs_review", texts s.lists.needs_review)
    ∷ (
      "stale",
      arr (array (map (λ _. str "progress plan_digest does not match plan.json") s.stale)),
    )
    ∷ ("next_ready", optional (first_of_list s.lists.ready))
    ∷ [])
