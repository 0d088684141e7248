-- ===== src/Plan/Cycle/Order.antt =====
-- The order in which the search for dependency cycles leaves the visited activities.
use lua_mongodb.Base.{
  ℕ, zero, suc, String, Option, some, List, [], ◌∷◌, ◌++◌, ◌≡◌, refl, sym, ap, ◌∙◌, subst, inl, inr,
  In, arith, contains, contains_iff, Option-cases, Bool-cases, append-eq-nil, append-ne-nil, eq_iff,
  length, true, false,
}
use mathlib.Core.Logic.{⊎_elim}
use lua_mongodb.Graph.{
  Graph, nodes, targets, Edge, Ordered, IsAcyclic, Ordered-no-cycle, Walk, edge, then_edge,
}
use lua_mongodb.Plan.Issue.{dependency_cycle}
use lua_mongodb.Plan.Cycle.{Search, visit, visit_each, search_cycles, fresh, enter, leave}

-- The way in which a loop over activities goes on.
pub visit_each-cons :
    (body : String → Search → Option Search) (a : String) (as' : List String) (s t : Search)
    → visit_each body (a ∷ as') s ≡ some t
    → (u : Search) × (body a s ≡ some u) × (visit_each body as' u ≡ some t)
unfolding visit_each
visit_each-cons body a as' s t h = elim (Option-cases (body a s)) [
  | inl e ↦ cc (rw (e, visit_each) at h)
  | inr (u, e) ↦ (u, e, rw (e, visit_each) at h)
]

abbrev pub Deeper : Graph → ℕ → List String → String → Search → Search → Type 0
Deeper g fuel chain a s t =
    (u : Search) × (visit_each (visit g fuel (chain ++ a ∷ [])) (targets g a) (enter a s) ≡ some u)
    × (t ≡ leave a u)

-- The ways in which a visit returns.
pub data Visit (g : Graph) (fuel : ℕ) (chain : List String) (a : String) (s t : Search)
    : Type 0 where
  seen : contains s.visited a ≡ true → t ≡ s → Visit g fuel chain a s t
  cycle :
      contains s.visiting a ≡ true
      → t ≡ record s { issues = s.issues ++ dependency_cycle (chain ++ a ∷ []) ∷ [] }
      → Visit g fuel chain a s t
  deeper :
      contains s.visited a ≡ false
      → contains s.visiting a ≡ false
      → Deeper g fuel chain a s t
      → Visit g fuel chain a s t

pub visit-cases :
    (g : Graph) (fuel : ℕ) (chain : List String) (a : String) (s t : Search)
    → visit g (suc fuel) chain a s ≡ some t
    → Visit g fuel chain a s t
unfolding visit
visit-cases g fuel chain a s t h = elim (Bool-cases (contains s.visited a)) [
  | inl e ↦ seen e (ground arith)
  | inr e ↦ elim (Bool-cases (contains s.visiting a)) [
    | inl d ↦ cycle d (ground arith)
    | inr d ↦
        elim (Option-cases
          (visit_each (visit g fuel (chain ++ a ∷ [])) (targets g a) (enter a s))) [
            | inl p ↦ ground arith
            | inr (u, p) ↦ deeper e d (u, p, (ground arith))
          ]
  ]
]

-- A loop returns no fewer issues than its rounds do.
visit_each-clean :
    (body : String → Search → Option Search)
    → ((a : String) (s t : Search) → body a s ≡ some t → t.issues ≡ [] → s.issues ≡ [])
    → (as' : List String) (s t : Search) → visit_each body as' s ≡ some t
    → t.issues ≡ []
    → s.issues ≡ []
unfolding visit_each
visit_each-clean body clean [] s t h none_found = ground arith
visit_each-clean body clean (a ∷ as') s t h none_found =
    let (u, first, later) = visit_each-cons body a as' s t h in
    clean a s u first (visit_each-clean body clean as' u t later none_found)

-- A search that ends without an issue began without one.
pub visit-IsClean :
    (g : Graph) (fuel : ℕ) (chain : List String) (a : String) (s t : Search)
    → visit g fuel chain a s ≡ some t
    → t.issues ≡ []
    → s.issues ≡ []
visit-IsClean g zero chain a s t h clean = unfold visit in cc
visit-IsClean g (suc fuel) chain a s t h clean = elim (visit-cases g fuel chain a s t h) [
  | seen _ e ↦ cc
  | cycle _ e ↦ (append-eq-nil s.issues _ (ap (λ (r : Search). r.issues) (sym e) ∙ clean)).0
  | deeper _ _ (u, each, e) ↦
      visit_each-clean (visit g fuel (chain ++ a ∷ [])) (visit-IsClean g fuel (chain ++ a ∷ []))
        (targets g a) (enter a s) u each (ap (λ (r : Search). r.issues) (sym e) ∙ clean)
]

-- The visited activities only grow, and stay in order.
pub record Extends (g : Graph) (s t : Search) : Type 0 where
  pub ordered : Ordered g t.visited
  pub grows : (b : String) → In b s.visited → In b t.visited

visit_each-Extends :
    (g : Graph) (body : String → Search → Option Search)
    → ((a : String) (s t : Search) → body a s ≡ some t → t.issues ≡ [] → s.issues ≡ [])
    → ((a : String) (s t : Search)
        → body a s ≡ some t
        → t.issues ≡ []
        → Ordered g s.visited
        → Extends g s t × In a t.visited)
    → (as' : List String) (s t : Search) → visit_each body as' s ≡ some t
    → t.issues ≡ []
    → Ordered g s.visited
    → Extends g s t × ((b : String) → In b as' → In b t.visited)
unfolding visit_each
visit_each-Extends g body clean extends [] s t h none_found o =
    let same_end : s ≡ t = cc in
    (subst (Extends g s) same_end (record { ordered = o; grows = λ b m. m }), λ b m. absurd m)
visit_each-Extends g body clean extends (a ∷ as') s t h none_found o =
    let (u, first, later) = visit_each-cons body a as' s t h in
    let (here, there) =
      extends a s u first (visit_each-clean body clean as' u t later none_found) o in
    let (rest, found) =
      visit_each-Extends g body clean extends as' u t later none_found here.ordered in
    (
      record { ordered = rest.ordered; grows = λ b m. rest.grows b (here.grows b m) },
      λ b.
          ⊎_elim (λ e. subst (λ (x : String). In x t.visited) (sym e) (rest.grows a there))
            (found b),
    )

visit-Extends :
    (g : Graph) (fuel : ℕ) (chain : List String) (a : String) (s t : Search)
    → visit g fuel chain a s ≡ some t
    → t.issues ≡ []
    → Ordered g s.visited
    → Extends g s t × In a t.visited
visit-Extends g zero chain a s t h clean o = unfold visit in cc
visit-Extends g (suc fuel) chain a s t h clean o = elim (visit-cases g fuel chain a s t h) [
  | seen m e ↦
      subst (λ (r : Search). Extends g s r × In a r.visited) (sym e)
        (record { ordered = o; grows = λ b k. k }, (contains_iff s.visited a).0 m)
  | cycle _ e ↦ absurd (append-ne-nil s.issues _ [] (ap (λ (r : Search). r.issues) (sym e) ∙ clean))
  | deeper _ _ (u, each, e) ↦
      let (inner, found) =
        visit_each-Extends g (visit g fuel (chain ++ a ∷ []))
          (visit-IsClean g fuel (chain ++ a ∷ [])) (visit-Extends g fuel (chain ++ a ∷ []))
          (targets g a) (enter a s) u each (ap (λ (r : Search). r.issues) (sym e) ∙ clean) o in
      subst (λ (r : Search). Extends g s r × In a r.visited) (sym e)
        (
          record { ordered = (found, inner.ordered); grows = λ b m. inr (inner.grows b m) },
          inl refl,
        )
]

-- A search without an issue leaves every activity visited, in an order of the dependencies.
pub search_cycles-order :
    (g : Graph) (t : Search)
    → search_cycles g ≡ some t
    → t.issues ≡ []
    → Ordered g t.visited × ((b : String) → In b (nodes g) → In b t.visited)
unfolding search_cycles
search_cycles-order g t h clean =
    let depth = suc (length (nodes g)) in
    let (inner, found) =
      visit_each-Extends g (visit g depth []) (visit-IsClean g depth []) (visit-Extends g depth [])
        (nodes g) fresh t h clean tt in
    (inner.ordered, found)

-- A node that has an edge is a node of the graph.
pub node_of_Edge : (g : Graph) (a b : String) → Edge g a b → In a (nodes g)
unfolding targets
node_of_Edge [] a b e = e
node_of_Edge ((c, ds) ∷ g) a b e = ground (arith, eq_iff c a, node_of_Edge g a b)

-- If the search returns without an issue, no activity of the graph depends on itself, however
-- indirectly.
pub search_cycles_sound :
    (g : Graph) (t : Search) → search_cycles g ≡ some t → t.issues ≡ [] → IsAcyclic g
search_cycles_sound g t h clean a w =
    let (ordered, found) = search_cycles-order g t h clean in
    Ordered-no-cycle g t.visited a ordered (found a (start w)) w
  where
    start : {b : String} → Walk g a b → In a (nodes g)
    start (edge e) = node_of_Edge g a _ e
    start (then_edge v e) = start v
