-- ===== src/Plan/Cycle/Total.antt =====
-- The fuel of the search for dependency cycles.
use lua_mongodb.Base.{
  ℕ, zero, suc, ◌≤◌, ◌<◌, String, Bool, true, false, not, ◌&&◌, ◌||◌, Option, some, List, [], ◌∷◌,
  ◌++◌, ◌≡◌, refl, subst, inl, inr, In, arith, contains, contains_iff, eq_iff, length, str_eq,
  Bool-cases, if◌then◌else◌,
}
use lua_mongodb.Graph.{Graph, nodes, targets}
use lua_mongodb.Plan.Issue.{dependency_cycle}
use lua_mongodb.Plan.Cycle.{Search, visit, visit_each, without, search_cycles, fresh, enter, leave}

abbrev entered : Search → String → Bool
entered s a = contains s.visiting a || contains s.visited a

abbrev unentered : Search → List String → ℕ
unentered s [] = 0
unentered s (a ∷ as') = if entered s a then unentered s as' else suc (unentered s as')

-- the second search has entered what the first one had
abbrev Enters : Search → Search → Type 0
Enters s t = (b : String) → entered s b ≡ true → entered t b ≡ true

unentered-le : (s t : Search) (as' : List String) → Enters s t → unentered t as' ≤ unentered s as'
unentered-le s t [] h = omega arith
unentered-le s t (a ∷ as') h = ground (arith, h a, unentered-le s t as' h)

unentered-lt :
    (s t : Search) (a : String) (as' : List String)
    → Enters s t
    → In a as'
    → entered s a ≡ false
    → entered t a ≡ true
    → unentered t as' < unentered s as'
unentered-lt s t a [] h m before now = absurd m
unentered-lt s t a (b ∷ as') h (inl e) before now =
    subst (λ (x : String). unentered t (x ∷ as') < unentered s (x ∷ as')) e
      (ground (arith, unentered-le s t as' h))
unentered-lt s t a (b ∷ as') h (inr m) before now =
    ground (arith, h b, unentered-lt s t a as' h m before now)

contains-without :
    (a b : String) (bs : List String)
    → contains (without a bs) b ≡ (not (str_eq a b) && contains bs b)
unfolding without
contains-without a b [] = ground arith
contains-without a b (c ∷ bs) =
    ground (arith, eq_iff c a, eq_iff b c, eq_iff a b, contains-without a b bs)

Enters-enter : (a : String) (s : Search) → Enters s (enter a s)
Enters-enter a s b h = ground (arith, h)

Enters-leave : (a : String) (s : Search) → Enters s (leave a s)
Enters-leave a s b h = ground (arith, h, contains-without a b s.visiting, eq_iff a b, eq_iff b a)

targets-of-none : (g : Graph) (a : String) → contains (nodes g) a ≡ false → targets g a ≡ []
unfolding targets
targets-of-none [] a h = refl
targets-of-none ((b, ds) ∷ g) a h = ground (arith, eq_iff a b, eq_iff b a, targets-of-none g a)

abbrev Ends : Search → Option Search → Type 0
Ends s o = (t : Search) × (o ≡ some t) × Enters s t

visit_each-Ends :
    (g : Graph) (n : ℕ) (body : String → Search → Option Search)
    → ((a : String) (s : Search) → unentered s (nodes g) < n → Ends s (body a s))
    → (as' : List String) (s : Search) → unentered s (nodes g) < n
    → Ends s (visit_each body as' s)
unfolding visit_each
visit_each-Ends g n body ends [] s h = (s, refl, λ b k. k)
visit_each-Ends g n body ends (a ∷ as') s h =
    let (u, first, into) = ends a s h in
    let smaller = unentered-le s u (nodes g) into in
    let (t, later, onto) = visit_each-Ends g n body ends as' u (omega arith) in
    (t, rw (first, visit_each) later, λ b k. onto b (into b k))

-- the loop under an activity that is entered for the first time
deeper-Ends :
    (g : Graph) (fuel : ℕ) (body : String → Search → Option Search)
    → ((b : String) (s : Search) → unentered s (nodes g) < fuel → Ends s (body b s))
    → (a : String) (s : Search) → unentered s (nodes g) < suc fuel
    → entered s a ≡ false
    → Ends (enter a s) (visit_each body (targets g a) (enter a s))
unfolding visit_each
deeper-Ends g fuel body ends a s h new = elim (Bool-cases (contains (nodes g) a)) [
  | inl node ↦
      let now : entered (enter a s) a ≡ true = ground (arith, eq_iff a a) in
      let fewer =
        unentered-lt s (enter a s) a (nodes g) (Enters-enter a s)
          ((contains_iff (nodes g) a).0 node) new now in
      visit_each-Ends g fuel body ends (targets g a) (enter a s) (omega arith)
  | inr none_such ↦ rw (targets-of-none g a none_such) (enter a s, refl, λ b k. k)
]

visit-Ends :
    (g : Graph) (fuel : ℕ) (chain : List String) (a : String) (s : Search)
    → unentered s (nodes g) < fuel
    → Ends s (visit g fuel chain a s)
unfolding visit
visit-Ends g zero chain a s h = absurd (omega arith)
visit-Ends g (suc fuel) chain a s h = elim (Bool-cases (entered s a)) [
  | inl old ↦ (
    if contains s.visited a
        then s
        else record s { issues = s.issues ++ dependency_cycle (chain ++ a ∷ []) ∷ [] },
    ground arith,
    λ b k. ground (arith, k),
  )
  | inr new ↦
      let (u, each, into) =
        deeper-Ends g fuel (visit g fuel (chain ++ a ∷ [])) (visit-Ends g fuel (chain ++ a ∷ [])) a
          s h new in
      (leave a u, ground arith, λ b k. Enters-leave a u b (into b (Enters-enter a s b k)))
]

unentered-le-length : (s : Search) (as' : List String) → unentered s as' ≤ length as'
unentered-le-length s [] = omega arith
unentered-le-length s (a ∷ as') = ground (arith, unentered-le-length s as')

-- `search_cycles` returns on every graph: its fuel suffices.
pub search_cycles-returns : (g : Graph) → (t : Search) × (search_cycles g ≡ some t)
unfolding search_cycles
search_cycles-returns g =
    let enough : unentered fresh (nodes g) < suc (length (nodes g)) =
      omega (arith, unentered-le-length fresh (nodes g)) in
    let depth = suc (length (nodes g)) in
    let (t, ends, _) =
      visit_each-Ends g depth (visit g depth []) (visit-Ends g depth []) (nodes g) fresh enough in
    (t, ends)
