-- ===== src/Plan/Validate/Acyclic.antt =====
-- `validate_plan` and the cycles of the dependencies.
use lua_mongodb.Base.{
  String, Bool, true, false, List, [], ◌∷◌, ◌++◌, ◌≡◌, ◌≢◌, refl, ap, ◌∙◌, subst, inl, inr,
  contains, append-eq-nil, Option-cases, if◌then◌else◌,
}
use lua_mongodb.Graph.{Graph, IsAcyclic}
use lua_mongodb.Json.{Json, null, str, arr, nil, obj, Fields, get_or, elements}
use lua_mongodb.Raise.{ok, raise, ◌>>=◌, bind-eq-ok, ok_unique}
use lua_mongodb.Plan.Cycle.Order.{search_cycles_sound}
use lua_mongodb.Plan.Cycle.{search_cycles}
use lua_mongodb.Plan.Documents.{
  Activities, names, identified, named, add_activities, activity_array, activity_map,
}
use lua_mongodb.Plan.Issue.{Issue, Py, plan_error, crash}
use lua_mongodb.Plan.Validate.Activity.{context_of, check_activities}
use lua_mongodb.Plan.Validate.References.{loop_over, read_mappings}
use lua_mongodb.Plan.Validate.Sound.{
  DependenciesKnown, listed_graph, drop_ok, check_activities-known, dependency_graph-listed,
}
use lua_mongodb.Plan.Validate.Tracks.{read_tracks, cross_tracks}
use lua_mongodb.Plan.Validate.{
  milestone_ids, dependency_graph, cycle_issues, validate_parts, or_single, validate_plan,
}

cycle_issues-IsAcyclic :
    (g : Graph) (issues : List Issue)
    → cycle_issues (search_cycles g) ≡ ok issues
    → issues ≡ []
    → IsAcyclic g
cycle_issues-IsAcyclic g issues h clean = elim (Option-cases (search_cycles g)) [
  | inl e ↦ cc (rw e at h)
  | inr (t, e) ↦ search_cycles_sound g t e (ap (drop_ok []) (rw e at h) ∙ clean)
]

-- What the dependencies of a plan without issues are.
pub record IsSound (acts : Activities) : Type 0 where
  pub known : DependenciesKnown acts acts
  pub acyclic : IsAcyclic (listed_graph acts)

validate_parts-IsSound :
    (str_of : Json → String) (plan : Fields) (acts : Activities)
    → validate_parts str_of plan acts ≡ ok []
    → IsSound acts
unfolding validate_parts
validate_parts-IsSound str_of plan acts h =
    let tracks = read_tracks (get_or plan "tracks" null) in
    let (items, _, h₁) = bind-eq-ok (loop_over (get_or plan "milestones" (arr nil))) _ h in
    let (milestones, _, h₂) = bind-eq-ok (milestone_ids items) _ h₁ in
    let (mappings, _, h₃) =
      bind-eq-ok (read_mappings str_of (get_or plan "references" null)) _ h₂ in
    let context = context_of acts milestones (names tracks.definitions) mappings.ids in
    let (activity_issues, checked, h₄) = bind-eq-ok (check_activities context acts) _ h₃ in
    let (cross_issues, _, h₅) = bind-eq-ok (cross_tracks acts tracks.definitions) _ h₄ in
    let (graph, built, h₆) = bind-eq-ok (dependency_graph acts acts) _ h₅ in
    let (cycles, searched, h₇) = bind-eq-ok (cycle_issues (search_cycles graph)) _ h₆ in
    let total = ap (drop_ok []) h₇ in
    let (front, no_cycles) = append-eq-nil _ cycles total in
    let no_activity_issues =
      (append-eq-nil _ activity_issues (append-eq-nil _ cross_issues front).0).1 in
    let known = check_activities-known context acts activity_issues checked no_activity_issues in
    let same_graph =
      ok_unique (dependency_graph acts acts) built (dependency_graph-listed acts acts known) in
    record {
      known = known;
      acyclic = subst IsAcyclic same_graph (cycle_issues-IsAcyclic graph cycles searched no_cycles);
    }

-- `activity_map` fails with a message
abbrev HasMessage : {A : Type 0} → Py A → Type 0
HasMessage (raise (plan_error issues)) = issues ≢ []
HasMessage _ = Unit

named-HasMessage : (x : Json) (fs : Fields) → HasMessage (named x fs)
named-HasMessage (str id) fs = tt
named-HasMessage _ fs = λ e. cc

identified-HasMessage : (x : Json) → HasMessage (identified x)
identified-HasMessage (obj fs) = named-HasMessage (get_or fs "id" null) fs
identified-HasMessage _ = λ e. cc

bind-HasMessage :
    {A B : Type 0} (m : Py A) (f : A → Py B)
    → HasMessage m
    → ((a : A) → HasMessage (f a))
    → HasMessage (m >>= f)
bind-HasMessage (ok a) f h k = k a
bind-HasMessage (raise (plan_error issues)) f h k = h
bind-HasMessage (raise crash) f h k = tt

if-HasMessage :
    {A : Type 0} (b : Bool) (m n : Py A)
    → HasMessage m
    → HasMessage n
    → HasMessage (if b then m else n)
if-HasMessage true m n h k = h
if-HasMessage false m n h k = k

add_activities-HasMessage :
    (known : Activities) (xs : List Json) → HasMessage (add_activities known xs)
unfolding add_activities
add_activities-HasMessage known [] = tt
add_activities-HasMessage known (x ∷ xs) =
    bind-HasMessage (identified x) _ (identified-HasMessage x) λ a.
      if-HasMessage (contains (names known) a.0) _ _ (λ e. cc)
        (add_activities-HasMessage (known ++ a ∷ []) xs)

activity_map-HasMessage : (plan : Fields) → HasMessage (activity_map plan)
unfolding activity_map
activity_map-HasMessage plan = of_array (get_or plan "activities" null)
  where
    of_array : (x : Json) → HasMessage (activity_array x)
    of_array (arr xs) = add_activities-HasMessage [] (elements xs)
    of_array _ = λ e. cc

or_single-ok :
    (str_of : Json → String) (plan : Fields) (read : Py Activities)
    → HasMessage read
    → or_single str_of plan read ≡ ok []
    → (acts : Activities) × (read ≡ ok acts) × (validate_parts str_of plan acts ≡ ok [])
or_single-ok str_of plan (ok acts) m h = (acts, refl, h)
or_single-ok str_of plan (raise (plan_error issues)) m h = absurd (m (cc))
or_single-ok str_of plan (raise crash) m h = cc

-- A plan without issues is read, its dependencies are ids of other activities, and none of them leads
-- back to its activity.
pub validate_plan-IsSound :
    (str_of : Json → String) (plan : Fields)
    → validate_plan str_of plan ≡ ok []
    → (acts : Activities) × (activity_map plan ≡ ok acts) × IsSound acts
unfolding validate_plan
validate_plan-IsSound str_of plan h =
    let (acts, read, parts) =
      or_single-ok str_of plan (activity_map plan) (activity_map-HasMessage plan) h in
    (acts, read, validate_parts-IsSound str_of plan acts parts)
