-- ===== src/Architecture/Cycles/Rounds.antt =====
-- The loops of `dependency_cycles`, over what a visit in them does.
use mathlib.Core.Logic.{⊎_elim}
use lua_mongodb.Base.{
  ℕ, String, true, false, some, List, [], ◌∷◌, ◌++◌, ◌≡◌, refl, sym, ap, ◌∙◌, subst, inl, inr, ◌⊎◌,
  In, arith, Option-cases, Bool-cases, append-ne-nil, eq_iff, ◌==◌, if◌then◌else◌,
}
use lua_mongodb.Graph.{Graph, Ordered}
use lua_mongodb.Raise.{Result, ok, bind-eq-ok, ok_unique}
use lua_mongodb.Architecture.Cycles.{
  Search, Fault, number_of, state_of, from_position, seen, record_cycle, report, each, on_stack,
}

-- the modules with an entry of 2
abbrev pub done : List (String × ℕ) → List String
done [] = []
done ((k, n) ∷ rest) = if n == 2 then k ∷ done rest else done rest

abbrev pub AllMarked : List (String × ℕ) → Type 0
AllMarked [] = Unit
AllMarked ((k, n) ∷ rest) = ((n ≡ 1) ⊎ (n ≡ 2)) × AllMarked rest

done-number :
    (name : String) (marks : List (String × ℕ)) (n : ℕ)
    → AllMarked marks
    → number_of name marks ≡ some n
    → (n == 1) ≡ false
    → In name (done marks)
unfolding number_of
done-number name [] n m h k = cc
done-number name ((j, i) ∷ rest) n (here, later) h k =
    ground (arith, eq_iff j name, done-number name rest n later)

-- a module that is neither unvisited nor on the stack is done
pub done-state :
    (s : Search) (name : String)
    → AllMarked s.state
    → (state_of s name == 0) ≡ false
    → (state_of s name == 1) ≡ false
    → In name (done s.state)
done-state s name m p q = elim (Option-cases (number_of name s.state)) [
  | inl e ↦ cc (rw (e, state_of) at p)
  | inr (n, e) ↦ done-number name s.state n m e (rw (e, state_of) at q)
]

record_cycle-cycles : (cycle : List String) (s : Search) → ¬ ((record_cycle cycle s).cycles ≡ [])
unfolding seen
record_cycle-cycles cycle s clean = elim (Bool-cases (seen cycle s.cycles)) [
  | inl d ↦ let empty : s.cycles ≡ [] = (rw d at clean) in cc (rw (empty, seen) at d)
  | inr d ↦ append-ne-nil s.cycles cycle [] (rw d at clean)
]

report-cycles : (name : String) (s t : Search) → report name s ≡ ok t → ¬ (t.cycles ≡ [])
unfolding report
report-cycles name s t h clean = elim (Option-cases (number_of name s.stack_positions)) [
  | inl e ↦ cc (rw (e, report) at h)
  | inr (n, e) ↦
      let cycle = from_position n s.stack ++ name ∷ [] in
      let same : record_cycle cycle s ≡ t = ok_unique (ok _) refl (rw (e, report) at h) in
      record_cycle-cycles cycle s (ap (λ (r : Search). r.cycles) same ∙ clean)
]

-- What a search without a cycle does: the modules that are done only grow, and stay in order; a module
-- that is on the stack after it was there before.
pub record Extends (g : Graph) (s t : Search) : Type 0 where
  pub ordered : Ordered g (done t.state)
  pub marked : AllMarked t.state
  pub grows : (b : String) → In b (done s.state) → In b (done t.state)
  pub settles : (b : String) → (state_of t b == 1) ≡ true → (state_of s b == 1) ≡ true

pub Extends-same :
    (g : Graph) (s t : Search)
    → s ≡ t
    → Ordered g (done s.state)
    → AllMarked s.state
    → Extends g s t
Extends-same g s t same o m =
    subst (Extends g s) same
      (record { ordered = o; marked = m; grows = λ b k. k; settles = λ b k. k })

-- the modules that are visited by one round of a loop
abbrev pub Round : Type 0
Round = String → Search → Result Fault Search

abbrev pub round : Round → Round → Round
round visited else_do m s = if state_of s m == 0 then visited m s else else_do m s

-- A round that ends without a cycle begins without one.
abbrev pub IsClean : Round → Type 0
IsClean body = (a : String) (s t : Search) → body a s ≡ ok t → t.cycles ≡ [] → s.cycles ≡ []

-- What a round does to a search that ends without a cycle, where `P` holds of the one it begins with.
abbrev pub Advances : Graph → Round → Type 0
Advances g body =
    (a : String) (s t : Search)
    → body a s ≡ ok t
    → t.cycles ≡ []
    → Ordered g (done s.state)
    → AllMarked s.state
    → Extends g s t × In a (done t.state)

pub each-clean :
    (v e : Round)
    → IsClean (round v e)
    → (ms : List String) (s t : Search) → each v e ms s ≡ ok t
    → t.cycles ≡ []
    → s.cycles ≡ []
unfolding each
each-clean v e c [] s t h clean = ap (λ (r : Search). r.cycles) (ok_unique (ok _) refl h) ∙ clean
each-clean v e c (m ∷ ms) s t h clean =
    let (u, first, later) = bind-eq-ok (round v e m s) _ h in
    c m s u first (each-clean v e c ms u t later clean)

pub each-Extends :
    (g : Graph) (v e : Round)
    → IsClean (round v e)
    → Advances g (round v e)
    → (ms : List String) (s t : Search) → each v e ms s ≡ ok t
    → t.cycles ≡ []
    → Ordered g (done s.state)
    → AllMarked s.state
    → Extends g s t × ((b : String) → In b ms → In b (done t.state))
unfolding each
each-Extends g v e c x [] s t h clean o k =
    (Extends-same g s t (ok_unique (ok _) refl h) o k, λ b m. absurd m)
each-Extends g v e c x (m ∷ ms) s t h clean o k =
    let (u, first, later) = bind-eq-ok (round v e m s) _ h in
    let (here, there) = x m s u first (each-clean v e c ms u t later clean) o k in
    let (rest, found) = each-Extends g v e c x ms u t later clean here.ordered here.marked in
    (
      record {
        ordered = rest.ordered;
        marked = rest.marked;
        grows = λ b i. rest.grows b (here.grows b i);
        settles = λ b i. here.settles b (rest.settles b i);
      },
      λ b.
          ⊎_elim (λ p. subst (λ (y : String). In y (done t.state)) (sym p) (rest.grows m there))
            (found b),
    )

on_stack-clean : (a : String) (s t : Search) → on_stack a s ≡ ok t → t.cycles ≡ [] → s ≡ t
on_stack-clean a s t h clean = elim (Bool-cases (state_of s a == 1)) [
  | inl e ↦ absurd (report-cycles a s t (rw e at h) clean)
  | inr e ↦ ok_unique (ok _) refl (rw e at h)
]

pub inner-IsClean : (v : Round) → IsClean v → IsClean (round v on_stack)
inner-IsClean v c a s t h clean = elim (Bool-cases (state_of s a == 0)) [
  | inl e ↦ c a s t (rw e at h) clean
  | inr e ↦ ap (λ (r : Search). r.cycles) (on_stack-clean a s t (rw e at h) clean) ∙ clean
]

pub inner-Advances : (g : Graph) (v : Round) → Advances g v → Advances g (round v on_stack)
inner-Advances g v x a s t h clean o k = elim (Bool-cases (state_of s a == 0)) [
  | inl e ↦ x a s t (rw e at h) clean o k
  | inr e ↦ elim (Bool-cases (state_of s a == 1)) [
    | inl d ↦ absurd (report-cycles a s t (rw (e, d) at h) clean)
    | inr d ↦
        let same : s ≡ t = ok_unique (ok _) refl (rw (e, d) at h) in
        (
          Extends-same g s t same o k,
          subst (λ (r : Search). In a (done r.state)) same (done-state s a k e d),
        )
  ]
]
