-- ===== src/Graph.antt =====
-- Dependency graphs: each name with the names that it points to, and walks along these edges.
use lua_mongodb.Base.{subst, String, List, [], ◌∷◌, In, ◌⊎◌, inl, inr, str_eq, if◌then◌else◌}

abbrev pub Graph : Type 0
Graph = List (String × List String)

abbrev pub nodes : Graph → List String
nodes [] = []
nodes ((a, ds) ∷ g) = a ∷ nodes g

unfoldable pub targets : Graph → String → List String
targets [] a = []
targets ((b, ds) ∷ g) a = if str_eq b a then ds else targets g a

abbrev pub Edge : Graph → String → String → Type 0
Edge g a b = In b (targets g a)

-- walks of one edge or more
pub data Walk (g : Graph) (a : String) : String → Type 0 where
  edge : {b : String} → Edge g a b → Walk g a b
  then_edge : {b c : String} → Walk g a b → Edge g b c → Walk g a c

abbrev pub IsAcyclic : Graph → Type 0
IsAcyclic g = (a : String) → ¬ Walk g a a

pub cons-Walk : {g : Graph} {a b : String} (c : String) → Edge g a b → Walk g b c → Walk g a c
cons-Walk c e (edge f) = then_edge (edge e) f
cons-Walk c e (then_edge w f) = then_edge (cons-Walk _ e w) f

-- Each name points only at names that stand after it.
abbrev pub Ordered : Graph → List String → Type 0
Ordered g [] = Unit
Ordered g (a ∷ as') = ((b : String) → Edge g a b → In b as') × Ordered g as'

pub Ordered-closed :
    (g : Graph) (as' : List String) (a b : String)
    → Ordered g as'
    → In a as'
    → Edge g a b
    → In b as'
Ordered-closed g [] a b o m e = absurd m
Ordered-closed g (x ∷ as') a b o (inl p) e = inr (o.0 b (subst (λ (y : String). Edge g y b) p e))
Ordered-closed g (x ∷ as') a b o (inr m) e = inr (Ordered-closed g as' a b o.1 m e)

pub Ordered-Walk :
    (g : Graph) (as' : List String) (a b : String)
    → Ordered g as'
    → In a as'
    → Walk g a b
    → In b as'
Ordered-Walk g as' a b o m (edge e) = Ordered-closed g as' a b o m e
Ordered-Walk g as' a c o m (then_edge {b} w e) =
    Ordered-closed g as' b c o (Ordered-Walk g as' a b o m w) e

-- where a walk of one edge or more goes first
pub Walk-first :
    {g : Graph} {a b : String} → Walk g a b → Edge g a b ⊎ ((c : String) × Edge g a c × Walk g c b)
Walk-first (edge e) = inl e
Walk-first (then_edge {b} w e) = elim (Walk-first w) [
  | inl first ↦ inr (b, first, edge e)
  | inr (c, first, v) ↦ inr (c, first, then_edge v e)
]

-- A name of an ordered list lies on no cycle.
pub Ordered-no-cycle :
    (g : Graph) (as' : List String) (a : String) → Ordered g as' → In a as' → ¬ Walk g a a
Ordered-no-cycle g [] a o m w = m
Ordered-no-cycle g (x ∷ as') a o (inr m) w = Ordered-no-cycle g as' a o.1 m w
Ordered-no-cycle g (x ∷ as') a o (inl p) w = elim (Walk-first w) [
  | inl loop ↦ Ordered-no-cycle g as' a o.1 (later a loop) w
  | inr (c, first, v) ↦
      Ordered-no-cycle g as' a o.1 (Ordered-Walk g as' c a o.1 (later c first) v) w
]
  where
    later : (c : String) → Edge g a c → In c as'
    later c e = o.0 c (subst (λ (y : String). Edge g y c) p e)
