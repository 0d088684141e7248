-- ===== src/Plan/Validate/Sound.antt =====
-- The checks of `validate_plan` on the dependencies of the activities.
use lua_mongodb.Base.{
  String, Bool, true, false, not, ◌||◌, List, [], ◌∷◌, ◌++◌, ◌≡◌, refl, ap, ◌∙◌, arith, any,
  contains, str_eq, append-eq-nil,
}
use lua_mongodb.Graph.{Graph}
use lua_mongodb.Json.{
  Json, null, str, arr, nil, Fields, get_or, hashable, is_list, is_text, iterate,
}
use lua_mongodb.Raise.{ok, raise, bind-eq-ok}
use lua_mongodb.Plan.Documents.{Activities, names}
use lua_mongodb.Plan.Issue.{Issue, Py, unknown_dependency, depends_on_itself}
use lua_mongodb.Plan.Validate.Activity.{
  Context, hashed, check_dependencies, dependency_list, check_mapping_ids, check_activity,
  check_activities,
}
use lua_mongodb.Plan.Validate.References.{loop_over}
use lua_mongodb.Plan.Validate.Tracks.{when, in_activities}
use lua_mongodb.Plan.Validate.{known_dependencies, dependency_graph}

-- The texts among the listed dependencies, and the graph of all activities with theirs.
abbrev pub listed_texts : List Json → List String
listed_texts [] = []
listed_texts (str d ∷ ds) = d ∷ listed_texts ds
listed_texts (_ ∷ ds) = listed_texts ds

abbrev pub depends_on : Fields → Json
depends_on activity = get_or activity "depends_on" (arr nil)

abbrev pub listed_graph : Activities → Graph
listed_graph [] = []
listed_graph ((id, activity) ∷ rest) =
    (id, listed_texts (dependency_list (depends_on activity))) ∷ listed_graph rest

-- A dependency of the activity `id` is the id of another activity.
abbrev pub IsKnown : Activities → String → Json → Type 0
IsKnown acts id (str d) = (contains (names acts) d ≡ true) × (str_eq d id ≡ false)
IsKnown acts id _ = ⊥

abbrev pub AllKnown : Activities → String → List Json → Type 0
AllKnown acts id [] = Unit
AllKnown acts id (d ∷ ds) = IsKnown acts id d × AllKnown acts id ds

abbrev pub DependenciesKnown : Activities → Activities → Type 0
DependenciesKnown acts [] = Unit
DependenciesKnown acts ((id, activity) ∷ rest) =
    (is_list (depends_on activity) ≡ true)
    × AllKnown acts id (dependency_list (depends_on activity))
    × DependenciesKnown acts rest

when-nil : (b : Bool) (issue : Issue) → when b issue ≡ [] → b ≡ false
when-nil true issue h = cc
when-nil false issue h = refl

any-none : (ns : List String) → any (λ _. false) ns ≡ false
any-none [] = refl
any-none (n ∷ ns) = any-none ns

any-contains : (d : String) (ns : List String) → any (λ a. str_eq d a) ns ≡ contains ns d
any-contains d [] = refl
any-contains d (n ∷ ns) = ap (λ (b : Bool). str_eq d n || b) (any-contains d ns)

check_dependency-IsKnown :
    (acts : Activities) (id : String) (d : Json) (known : Bool)
    → in_activities acts d ≡ ok known
    → known ≡ true
    → is_text d id ≡ false
    → IsKnown acts id d
unfolding in_activities hashable
check_dependency-IsKnown acts id (str d) known h k other =
    ground (arith, any-contains d (names acts))
check_dependency-IsKnown acts id _ known h k other = ground (arith, any-none (names acts))

abbrev pub drop_ok {ℓ} : {A : Type ℓ} → A → Py A → A
drop_ok d (ok a) = a
drop_ok d (raise e) = d

check_dependencies-known :
    (acts : Activities) (id : String) (ds : List Json) (issues : List Issue)
    → check_dependencies acts id ds ≡ ok issues
    → issues ≡ []
    → AllKnown acts id ds
unfolding check_dependencies
check_dependencies-known acts id [] issues h clean = tt
check_dependencies-known acts id (d ∷ ds) issues h clean =
    let (known, looked, h₁) = bind-eq-ok (in_activities acts d) _ h in
    let (rest, checked, h₂) = bind-eq-ok (check_dependencies acts id ds) _ h₁ in
    let total : (when (not known) (unknown_dependency id d)
            ++ when (is_text d id) (depends_on_itself id))
          ++ rest
        ≡ [] =
      cc in
    let (front, none_rest) = append-eq-nil _ rest total in
    let (not_unknown, not_itself) = append-eq-nil (when (not known) _) _ front in
    let is_known : known ≡ true = ground arith in
    (
      check_dependency-IsKnown acts id d known looked is_known
          (when-nil (is_text d id) _ not_itself),
      check_dependencies-known acts id ds rest checked none_rest,
    )

-- what a check of one activity without an issue says of its dependencies
check_activity-known :
    (c : Context) (id : String) (activity : Fields) (issues : List Issue)
    → check_activity c id activity ≡ ok issues
    → issues ≡ []
    → (is_list (depends_on activity) ≡ true)
      × AllKnown c.activities id (dependency_list (depends_on activity))
unfolding check_activity
check_activity-known c id activity issues h clean =
    let (milestone, _, h₁) = bind-eq-ok (hashed (get_or activity "milestone" null)) _ h in
    let (ds, checked, h₂) =
      bind-eq-ok (check_dependencies c.activities id (dependency_list (depends_on activity))) _
        h₁ in
    let (policy, _, h₃) = bind-eq-ok (hashed (get_or activity "test_policy" null)) _ h₂ in
    let (mappings, _, h₄) = bind-eq-ok (loop_over (get_or activity "references" (arr nil))) _ h₃ in
    let (ms, _, h₅) = bind-eq-ok (check_mapping_ids c.mapping_ids id mappings) _ h₄ in
    let total = ap (drop_ok []) h₅ ∙ clean in
    let no_subject = (append-eq-nil _ ms total).0 in
    let no_track = (append-eq-nil _ _ no_subject).0 in
    let no_policy = (append-eq-nil _ _ no_track).0 in
    let no_duplicate = (append-eq-nil _ _ no_policy).0 in
    let (front, none_known) = append-eq-nil _ ds (append-eq-nil _ _ no_duplicate).0 in
    let is_array = when-nil (not (is_list (depends_on activity))) _ (append-eq-nil _ _ front).1 in
    (
      ground arith,
      check_dependencies-known c.activities id (dependency_list (depends_on activity)) ds checked
          none_known,
    )

pub check_activities-known :
    (c : Context) (acts : Activities) (issues : List Issue)
    → check_activities c acts ≡ ok issues
    → issues ≡ []
    → DependenciesKnown c.activities acts
unfolding check_activities
check_activities-known c [] issues h clean = tt
check_activities-known c ((id, activity) ∷ rest) issues h clean =
    let (here, first, h₁) = bind-eq-ok (check_activity c id activity) _ h in
    let (later, second, h₂) = bind-eq-ok (check_activities c rest) _ h₁ in
    let (none_here, none_later) = append-eq-nil here later (ap (drop_ok []) h₂ ∙ clean) in
    let (is_array, known) = check_activity-known c id activity here first none_here in
    (is_array, known, check_activities-known c rest later second none_later)

-- With these facts the graph of the search is that of the listed dependencies.
known_dependencies-listed :
    (acts : Activities) (id : String) (ds : List Json)
    → AllKnown acts id ds
    → known_dependencies acts ds ≡ ok (listed_texts ds)
unfolding known_dependencies
known_dependencies-listed acts id [] h = refl
known_dependencies-listed acts id (str d ∷ ds) h =
    rw (known_dependencies-listed acts id ds h.1, h.0.0) refl
known_dependencies-listed acts id (_ ∷ ds) h = absurd h.0

loop_over-list : (x : Json) → is_list x ≡ true → loop_over x ≡ ok (dependency_list x)
unfolding iterate
loop_over-list (arr xs) h = refl
loop_over-list _ h = cc

pub dependency_graph-listed :
    (acts rest : Activities)
    → DependenciesKnown acts rest
    → dependency_graph acts rest ≡ ok (listed_graph rest)
unfolding dependency_graph
dependency_graph-listed acts [] h = refl
dependency_graph-listed acts ((id, activity) ∷ rest) h =
    rw
      (
        loop_over-list (depends_on activity) h.0,
        known_dependencies-listed acts id (dependency_list (depends_on activity)) h.1,
        dependency_graph-listed acts rest h.2,
      )
      refl
