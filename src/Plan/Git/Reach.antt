-- ===== src/Plan/Git/Reach.antt =====
-- `reachable_commits` against walks along the edges.
use mathlib.Core.Logic.{⊎_elim}
use lua_mongodb.Base.{
  ℕ, zero, suc, ◌+◌, ◌≤◌, ◌↔◌, ◌⊎◌, inl, inr, String, false, some, List, [], ◌∷◌, ◌++◌, ◌≡◌, refl,
  sym, ◌∙◌, subst, arith, In, In-append_left, In-append_right, In-append_cases, contains,
  contains_iff, length, length-append, str_eq, eq_iff, Bool-cases, if◌then◌else◌,
}
use lua_mongodb.Graph.{Graph, targets, Edge, Walk, edge, then_edge}
use lua_mongodb.Plan.Git.{reach_loop, edge_count, reachable_commits}

-- the edges out of the commits that are not reached yet
abbrev left : List String → Graph → ℕ
left reached [] = 0
left reached ((a, ds) ∷ g) =
    let later = left reached g in if contains reached a then later else length ds + later

left_mono : (c : String) (reached : List String) (g : Graph) → left (c ∷ reached) g ≤ left reached g
left_mono c reached [] = omega arith
left_mono c reached ((a, ds) ∷ g) = ground (arith, left_mono c reached g)

-- Reaching a commit takes its edges off.
left-targets :
    (c : String) (reached : List String) (g : Graph)
    → contains reached c ≡ false
    → left (c ∷ reached) g + length (targets g c) ≤ left reached g
unfolding targets
left-targets c reached [] h = omega arith
left-targets c reached ((a, ds) ∷ g) h = elim (Bool-cases (str_eq a c)) [
  | inl e ↦
      let same : a ≡ c = (eq_iff a c).0 e in
      let unreached : contains reached a ≡ false = (rw same h) in
      rw (e, unreached) (omega (arith, left_mono c reached g))
  | inr e ↦ rw e (ground (arith, left-targets c reached g))
]

left-le : (reached : List String) (g : Graph) → left reached g ≤ edge_count g
left-le reached [] = omega arith
left-le reached ((a, ds) ∷ g) = ground (arith, left-le reached g)

reach_loop-end :
    (g : Graph) (fuel : ℕ) (reached : List String) → reach_loop g fuel reached [] ≡ some reached
unfolding reach_loop
reach_loop-end g zero reached = refl
reach_loop-end g (suc fuel) reached = refl

some-inj : {A : Type 0} {a b : A} → some a ≡ some b → a ≡ b
some-inj h = cc

module _ (g : Graph) where
  reach_loop-returns :
      (fuel : ℕ) (reached pending : List String)
      → length pending + left reached g ≤ fuel
      → (r : List String) × (reach_loop g fuel reached pending ≡ some r)
  unfolding reach_loop
  reach_loop-returns fuel reached [] h = (reached, reach_loop-end g fuel reached)
  reach_loop-returns zero reached (c ∷ pending) h = absurd (omega arith)
  reach_loop-returns (suc fuel) reached (c ∷ pending) h = elim (Bool-cases (contains reached c)) [
    | inl old ↦
        let (r, ends) = reach_loop-returns fuel reached pending (omega arith) in
        (r, rw (old, reach_loop) ends)
    | inr new ↦
        let (r, ends) =
          reach_loop-returns fuel (c ∷ reached) (targets g c ++ pending) (
            omega (arith, length-append {0} (targets g c) pending, left-targets c reached g new)) in
        (r, rw (new, reach_loop) ends)
  ]

  -- What holds of a search from `start` at every round.
  record Inv (start : String) (reached pending : List String) : Type 0 where
    sound : (c : String) → In c reached ⊎ In c pending → Walk g start c
    begins : (c : String) → Edge g start c → In c reached ⊎ In c pending
    closed : (b c : String) → In b reached → Edge g b c → In c reached ⊎ In c pending

  Inv-skip :
      (start c : String) (reached pending : List String)
      → In c reached
      → Inv start reached (c ∷ pending)
      → Inv start reached pending
  Inv-skip start c reached pending old h = record {
    sound = λ x m. h.sound x (⊎_elim inl (λ k. inr (inr k)) m);
    begins = λ x e. drop x (h.begins x e);
    closed = λ b x m e. drop x (h.closed b x m e);
  }
    where
      drop : (x : String) → In x reached ⊎ In x (c ∷ pending) → In x reached ⊎ In x pending
      drop x (inl m) = inl m
      drop x (inr (inl e)) = inl (subst (λ (y : String). In y reached) (sym e) old)
      drop x (inr (inr m)) = inr m

  Inv-expand :
      (start c : String) (reached pending : List String)
      → Inv start reached (c ∷ pending)
      → Inv start (c ∷ reached) (targets g c ++ pending)
  Inv-expand start c reached pending h = record {
    sound = λ x. ⊎_elim (⊎_elim (λ e. to_c x e) (λ m. h.sound x (inl m))) (λ m. expanded x m);
    begins = λ x e. shift x (h.begins x e);
    closed = λ b x.
        ⊎_elim
          (λ e k.
            inr (In-append_left x (targets g c) pending (subst (λ (y : String). Edge g y x) e k)))
          (λ m k. shift x (h.closed b x m k));
  }
    where
      to_c : (x : String) → x ≡ c → Walk g start x
      to_c x e = subst (Walk g start) (sym e) (h.sound c (inr (inl refl)))

      expanded : (x : String) → In x (targets g c ++ pending) → Walk g start x
      expanded x m =
          ⊎_elim (λ k. then_edge (h.sound c (inr (inl refl))) k) (λ k. h.sound x (inr (inr k)))
            (In-append_cases x (targets g c) pending m)

      shift :
          (x : String)
          → In x reached ⊎ In x (c ∷ pending)
          → In x (c ∷ reached) ⊎ In x (targets g c ++ pending)
      shift x (inl m) = inl (inr m)
      shift x (inr (inl e)) = inl (inl e)
      shift x (inr (inr m)) = inr (In-append_right x (targets g c) pending m)

  Inv-loop :
      (start : String) (fuel : ℕ) (reached pending : List String) (r : List String)
      → Inv start reached pending
      → reach_loop g fuel reached pending ≡ some r
      → Inv start r []
  unfolding reach_loop
  Inv-loop start fuel reached [] r h e =
      subst (λ (x : List String). Inv start x [])
        (some-inj (sym (reach_loop-end g fuel reached) ∙ e)) h
  Inv-loop start zero reached (c ∷ pending) r h e = cc
  Inv-loop start (suc fuel) reached (c ∷ pending) r h e = elim (Bool-cases (contains reached c)) [
    | inl old ↦
        Inv-loop start fuel reached pending r
          (Inv-skip start c reached pending ((contains_iff reached c).0 old) h)
          (rw (old, reach_loop) at e)
    | inr new ↦
        Inv-loop start fuel (c ∷ reached) (targets g c ++ pending) r
          (Inv-expand start c reached pending h) (rw (new, reach_loop) at e)
  ]

  Inv-complete :
      (start : String) (r : List String) → Inv start r [] → (c : String) → Walk g start c → In c r
  Inv-complete start r h c (edge e) = ⊎_elim (λ m. m) (λ m. absurd m) (h.begins c e)
  Inv-complete start r h c (then_edge {b} w e) =
      ⊎_elim (λ m. m) (λ m. absurd m) (h.closed b c (Inv-complete start r h b w) e)

-- The search returns, and a commit is in its result exactly if a walk of one edge or more leads there.
pub reachable_commits-Walk :
    (start : String) (edges : Graph)
    → (r : List String) × (reachable_commits start edges ≡ some r)
      × ((c : String) → In c r ↔ Walk edges start c)
unfolding reachable_commits
reachable_commits-Walk start edges =
    let fuel = length (targets edges start) + edge_count edges in
    let (r, ends) =
      reach_loop-returns edges fuel [] (targets edges start) (omega (arith, left-le [] edges)) in
    let inv = Inv-loop edges start fuel [] (targets edges start) r begin ends in
    (r, ends, λ c. (λ m. inv.sound c (inl m), Inv-complete edges start r inv c))
  where
    begin : Inv edges start [] (targets edges start)
    begin = record {
      sound = λ x. ⊎_elim (λ m. absurd m) edge;
      begins = λ x e. inr e;
      closed = λ b x m e. absurd m;
    }
