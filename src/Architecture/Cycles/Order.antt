-- ===== src/Architecture/Cycles/Order.antt =====
-- The order in which `dependency_cycles` leaves the modules behind.
use mathlib.Core.Logic.{⊎_elim}
use lua_mongodb.Base.{
  ℕ, zero, suc, String, true, false, List, [], ◌∷◌, ◌≡◌, refl, sym, ap, ◌∙◌, subst, inl, inr, ◌⊎◌,
  In, arith, Bool-cases, str_eq, length, ◌==◌,
}
use lua_mongodb.Graph.{
  Graph, nodes, targets, Ordered, IsAcyclic, Ordered-no-cycle, Walk, edge, then_edge,
}
use lua_mongodb.Plan.Cycle.Order.{node_of_Edge}
use lua_mongodb.Raise.{ok, bind-eq-ok, ok_unique}
use lua_mongodb.Architecture.Cycles.{
  Search, number_of, state_of, enter, leave, each, on_stack, visit, fresh, dependency_cycles,
}
use lua_mongodb.Architecture.Cycles.Rounds.{
  done, AllMarked, Extends, done-state, Extends-same, round, IsClean, Advances, each-clean,
  each-Extends, inner-IsClean, inner-Advances,
}

leave-settles :
    (name b : String) (u : Search)
    → (state_of (leave name u) b == 1) ≡ true
    → (str_eq name b ≡ false) × ((state_of u b == 1) ≡ true)
unfolding leave number_of
leave-settles name b u h = ground arith

enter-settles :
    (name b : String) (s : Search)
    → str_eq name b ≡ false
    → (state_of (enter name s) b == 1) ≡ true
    → (state_of s b == 1) ≡ true
unfolding number_of
enter-settles name b s other h = ground arith

visit-IsClean : (g : Graph) (fuel : ℕ) → IsClean (visit g fuel)
unfolding visit leave
visit-IsClean g zero name s t h clean = cc
visit-IsClean g (suc fuel) name s t h clean =
    let (u, inner, h₁) =
      bind-eq-ok (each (visit g fuel) on_stack (targets g name) (enter name s)) _ h in
    let same : leave name u ≡ t = ok_unique (ok _) refl h₁ in
    each-clean (visit g fuel) on_stack (inner-IsClean (visit g fuel) (visit-IsClean g fuel))
      (targets g name) (enter name s) u inner (ap (λ (r : Search). r.cycles) same ∙ clean)

visit-Advances : (g : Graph) (fuel : ℕ) → Advances g (visit g fuel)
unfolding visit leave
visit-Advances g zero name s t h clean o k = cc
visit-Advances g (suc fuel) name s t h clean o k =
    let (u, inner, h₁) =
      bind-eq-ok (each (visit g fuel) on_stack (targets g name) (enter name s)) _ h in
    let same : leave name u ≡ t = ok_unique (ok _) refl h₁ in
    let (x, found) =
      each-Extends g (visit g fuel) on_stack (inner-IsClean (visit g fuel) (visit-IsClean g fuel))
        (inner-Advances g (visit g fuel) (visit-Advances g fuel)) (targets g name) (enter name s) u
        inner (ap (λ (r : Search). r.cycles) same ∙ clean) o (inl refl, k) in
    subst (λ (r : Search). Extends g s r × In name (done r.state)) same
      (
        record {
          ordered = (found, x.ordered);
          marked = (inr refl, x.marked);
          grows = λ b m. inr (x.grows b m);
          settles = λ b m.
              let (other, before) = leave-settles name b u m in
              enter-settles name b s other (x.settles b before);
        },
        inl refl,
      )

-- Of the outermost loop: nothing is on the stack between its rounds.
abbrev NoneOnStack : Search → Type 0
NoneOnStack s = (b : String) → (state_of s b == 1) ≡ false

outer-done :
    (g : Graph) (fuel : ℕ) (ms : List String) (s t : Search)
    → each (visit g fuel) (λ m r. ok r) ms s ≡ ok t
    → t.cycles ≡ []
    → Ordered g (done s.state)
    → AllMarked s.state
    → NoneOnStack s
    → Extends g s t × ((b : String) → In b ms → In b (done t.state))
unfolding each
outer-done g fuel [] s t h clean o k none_on =
    (Extends-same g s t (ok_unique (ok _) refl h) o k, λ b m. absurd m)
outer-done g fuel (m ∷ ms) s t h clean o k none_on =
    let (u, first, later) = bind-eq-ok (round (visit g fuel) (λ n r. ok r) m s) _ h in
    let (here, there) =
      one u first (each-clean (visit g fuel) (λ n r. ok r) outer_clean ms u t later clean) in
    let (rest, found) =
      outer-done g fuel ms u t later clean here.ordered here.marked
        (λ b. settled u b (Bool-cases (state_of u b == 1)) here.settles) in
    (
      record {
        ordered = rest.ordered;
        marked = rest.marked;
        grows = λ b i. rest.grows b (here.grows b i);
        settles = λ b i. here.settles b (rest.settles b i);
      },
      λ b.
          ⊎_elim (λ p. subst (λ (y : String). In y (done t.state)) (sym p) (rest.grows m there))
            (found b),
    )
  where
    outer_clean : IsClean (round (visit g fuel) (λ n r. ok r))
    outer_clean a p q e c = elim (Bool-cases (state_of p a == 0)) [
      | inl d ↦ visit-IsClean g fuel a p q (rw d at e) c
      | inr d ↦ ap (λ (r : Search). r.cycles) (ok_unique (ok _) refl (rw d at e)) ∙ c
    ]

    one :
        (u : Search)
        → round (visit g fuel) (λ n r. ok r) m s ≡ ok u
        → u.cycles ≡ []
        → Extends g s u × In m (done u.state)
    one u e c = elim (Bool-cases (state_of s m == 0)) [
      | inl d ↦ visit-Advances g fuel m s u (rw d at e) c o k
      | inr d ↦
          let same : s ≡ u = ok_unique (ok _) refl (rw d at e) in
          (
            Extends-same g s u same o k,
            subst (λ (r : Search). In m (done r.state)) same (done-state s m k d (none_on m)),
          )
    ]

    settled :
        (u : Search) (b : String)
        → ((state_of u b == 1) ≡ true) ⊎ ((state_of u b == 1) ≡ false)
        → ((a : String) → (state_of u a == 1) ≡ true → (state_of s a == 1) ≡ true)
        → (state_of u b == 1) ≡ false
    settled u b (inl d) k' = cc (k' b d, none_on b)
    settled u b (inr d) k' = d

-- If `dependency_cycles` returns no cycle, no module depends on itself, however indirectly.
pub dependency_cycles-IsAcyclic : (g : Graph) → dependency_cycles g ≡ ok [] → IsAcyclic g
unfolding dependency_cycles number_of
dependency_cycles-IsAcyclic g h a w =
    let fuel = suc (length (nodes g)) in
    let (t, searched, h₁) = bind-eq-ok (each (visit g fuel) (λ m s. ok s) (nodes g) fresh) _ h in
    let (x, found) =
      outer-done g fuel (nodes g) fresh t searched (ok_unique (ok _) refl h₁) tt tt (λ b. refl) in
    Ordered-no-cycle g (done t.state) a x.ordered (found a (start w)) w
  where
    start : {b : String} → Walk g a b → In a (nodes g)
    start (edge e) = node_of_Edge g a _ e
    start (then_edge v e) = start v
