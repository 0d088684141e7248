-- ===== src/Plan/Cycle.antt =====
-- The search for dependency cycles in `validate_plan` of planning/update_plan.py: the nested function
-- `visit` and the loop that starts it at each activity. A graph lists each activity with those of
-- its dependencies that are activities, in the order of the file.

pub mod Order
pub mod Complete
pub mod Total
use lua_mongodb.Base.{
  ℕ, zero, suc, ◌+◌, String, Bool, true, false, Option, none, some, List, [], ◌∷◌, ◌++◌, contains,
  length, str_eq, if◌then◌else◌,
}
use lua_mongodb.Graph.{Graph, nodes, targets}
use lua_mongodb.Plan.Issue.{Issue, dependency_cycle}

pub record Search : Type 0 where
  pub visiting : List String
  pub visited : List String
  pub issues : List Issue

-- `visiting.remove(a)`
unfoldable pub without : String → List String → List String
without a [] = []
without a (b ∷ bs) = let rest = without a bs in if str_eq b a then rest else b ∷ rest

-- a `for` loop over activities, whose body may run out of fuel
unfoldable pub visit_each : (String → Search → Option Search) → List String → Search → Option Search
visit_each body [] s = some s
visit_each body (a ∷ as') s = elim (body a s) [ none ↦ none | some t ↦ visit_each body as' t ]

abbrev pub enter : String → Search → Search
enter a s = record s { visiting = a ∷ s.visiting }

abbrev pub leave : String → Search → Search
leave a s = record s { visiting = without a s.visiting; visited = a ∷ s.visited }

-- `none` means that the fuel, the depth of the recursion, ran out.
unfoldable pub visit : Graph → ℕ → List String → String → Search → Option Search
unfolding visit_each without
visit g zero chain a s = none
visit g (suc fuel) chain a s =
    let deeper : Option Search =
      elim (visit_each (visit g fuel (chain ++ a ∷ [])) (targets g a) (enter a s)) [
        | none ↦ none
        | some t ↦ some (leave a t)
      ] in
    if contains s.visited a
    then some s
    else if contains s.visiting a
    then some (record s { issues = s.issues ++ dependency_cycle (chain ++ a ∷ []) ∷ [] })
    else deeper

abbrev pub fresh : Search
fresh = record { visiting = []; visited = []; issues = [] }

-- The recursion is never deeper than there are activities, and one call more.
unfoldable pub search_cycles : Graph → Option Search
unfolding visit visit_each
search_cycles g = visit_each (visit g (suc (length (nodes g))) []) (nodes g) fresh
