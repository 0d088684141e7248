-- ===== src/Plan/Cycle/Complete.antt =====
-- What the search for dependency cycles reports, against the walks of the graph.
use mathlib.Core.Logic.{⊎_elim}
use lua_mongodb.Base.{
  ℕ, zero, suc, String, Option, some, List, [], ◌∷◌, ◌++◌, ◌≡◌, ◌≢◌, refl, sym, ap, ◌∙◌, subst, inl,
  inr, In, arith, contains_iff, eq_iff, length,
}
use lua_mongodb.Graph.{Graph, nodes, targets, Edge, IsAcyclic, Walk, edge, then_edge}
use lua_mongodb.Plan.Cycle.{Search, visit, visit_each, without, search_cycles, fresh, enter}
use lua_mongodb.Plan.Cycle.Order.{visit_each-cons, seen, cycle, deeper, visit-cases}

pub In-without : (a b : String) (bs : List String) → In b (without a bs) → In b bs × (b ≢ a)
unfolding without
In-without a b [] m = absurd m
In-without a b (c ∷ bs) m = ground (arith, eq_iff c a, In-without a b bs)

abbrev Restores : Search → Search → Type 0
Restores s t = (b : String) → In b t.visiting → In b s.visiting

visit_each-Restores :
    (body : String → Search → Option Search)
    → ((a : String) (s t : Search) → body a s ≡ some t → Restores s t)
    → (as' : List String) (s t : Search) → visit_each body as' s ≡ some t
    → Restores s t
unfolding visit_each
visit_each-Restores body keep [] s t h b m =
    let same_end : s ≡ t = cc in subst (λ (r : Search). In b r.visiting) (sym same_end) m
visit_each-Restores body keep (a ∷ as') s t h b m =
    let (u, first, later) = visit_each-cons body a as' s t h in
    keep a s u first b (visit_each-Restores body keep as' u t later b m)

-- A visit leaves no activity in `visiting` that was not there before.
visit-Restores :
    (g : Graph) (fuel : ℕ) (chain : List String) (a : String) (s t : Search)
    → visit g fuel chain a s ≡ some t
    → Restores s t
visit-Restores g zero chain a s t h = unfold visit in cc
visit-Restores g (suc fuel) chain a s t h = elim (visit-cases g fuel chain a s t h) [
  | seen _ e ↦ subst (Restores s) (sym e) (λ b m. m)
  | cycle _ e ↦ subst (Restores s) (sym e) (λ b m. m)
  | deeper _ _ (u, each, e) ↦ subst (Restores s) (sym e) λ b m.
      let (kept, other) = In-without a b u.visiting m in
      ⊎_elim (λ p. absurd (other p)) (λ k. k)
        (visit_each-Restores (visit g fuel (chain ++ a ∷ []))
          (visit-Restores g fuel (chain ++ a ∷ [])) (targets g a) (enter a s) u each b kept)
]

-- every activity being visited leads to `a`
abbrev LeadTo : Graph → Search → String → Type 0
LeadTo g s a = (v : String) → In v s.visiting → Walk g v a

visit_each-Complete :
    (g : Graph) (body : String → Search → Option Search)
    → ((a : String) (s t : Search) → body a s ≡ some t → Restores s t)
    → ((a : String) (s t : Search)
        → body a s ≡ some t
        → LeadTo g s a
        → s.issues ≡ []
        → t.issues ≡ [])
    → (as' : List String) (s t : Search) → visit_each body as' s ≡ some t
    → ((a : String) → In a as' → LeadTo g s a)
    → s.issues ≡ []
    → t.issues ≡ []
unfolding visit_each
visit_each-Complete g body keep complete [] s t h lead clean = ground arith
visit_each-Complete g body keep complete (a ∷ as') s t h lead clean =
    let (u, first, later) = visit_each-cons body a as' s t h in
    visit_each-Complete g body keep complete as' u t later
      (λ b m v k. lead b (inr m) v (keep a s u first v k))
      (complete a s u first (lead a (inl refl)) clean)

visit-Complete :
    (g : Graph) (fuel : ℕ)
    → IsAcyclic g
    → (chain : List String) (a : String) (s t : Search) → visit g fuel chain a s ≡ some t
    → LeadTo g s a
    → s.issues ≡ []
    → t.issues ≡ []
visit-Complete g zero acyclic chain a s t h lead clean = unfold visit in cc
visit-Complete g (suc fuel) acyclic chain a s t h lead clean =
    elim (visit-cases g fuel chain a s t h) [
      | seen _ e ↦ cc
      | cycle m e ↦ absurd (acyclic a (lead a ((contains_iff s.visiting a).0 m)))
      | deeper _ _ (u, each, e) ↦
          ap (λ (r : Search). r.issues) e
          ∙ visit_each-Complete g (visit g fuel (chain ++ a ∷ []))
              (visit-Restores g fuel (chain ++ a ∷ []))
              (visit-Complete g fuel acyclic (chain ++ a ∷ [])) (targets g a) (enter a s) u each
              (λ b m v.
                ⊎_elim (λ p. edge (subst (λ (x : String). Edge g x b) (sym p) m))
                  (λ k. then_edge (lead v k) m))
              clean
    ]

-- If the search returns on a graph without a cycle, it reports no issue.
pub search_cycles_complete :
    (g : Graph) (t : Search) → search_cycles g ≡ some t → IsAcyclic g → t.issues ≡ []
unfolding search_cycles
search_cycles_complete g t h acyclic =
    let depth = suc (length (nodes g)) in
    visit_each-Complete g (visit g depth []) (visit-Restores g depth [])
      (visit-Complete g depth acyclic []) (nodes g) fresh t h (λ a m v k. absurd k) refl
