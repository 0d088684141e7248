-- ===== src/Names/Order.antt =====
-- The order and the members of a sorted set of names.
use Prim.Native.Char.{code}
use mathlib.Core.Logic.{⊎_elim}
use text.Mathlib.TextEquality.{Char-path}
use lua_mongodb.Base.{
  String, Bool, true, false, List, [], ◌∷◌, ◌≡◌, ◌↔◌, ◌⊎◌, inl, inr, refl, sym, ◌∙◌, subst, arith,
  In, contains, contains_iff, ◌==◌, str_eq, eq_iff, Bool-cases,
}
use lua_mongodb.Names.{add_name, sorted_names, without_names, common_names}
use lua_mongodb.Text.{precedes}

-- each name stands before the next
abbrev pub IsBefore : String → List String → Type 0
IsBefore a [] = Unit
IsBefore a (b ∷ bs) = precedes a b ≡ true

abbrev pub IsAscending : List String → Type 0
IsAscending [] = Unit
IsAscending (a ∷ bs) = IsBefore a bs × IsAscending bs

precedes-total : (s t : String) → str_eq s t ≡ false → precedes s t ≡ false → precedes t s ≡ true
unfolding precedes
precedes-total String.[] String.[] h k = cc
precedes-total String.[] (String.◌∷◌ d t) h k = cc
precedes-total (String.◌∷◌ c s) String.[] h k = refl
precedes-total (String.◌∷◌ c s) (String.◌∷◌ d t) h k = elim (Bool-cases (code c == code d)) [
  | inl e ↦ elim (Bool-cases (str_eq s t)) [
    | inl p ↦
        let head : c ≡ d = Char-path c d (ground arith) in
        let tail : s ≡ t = (eq_iff s t).0 p in
        let whole : String.◌∷◌ c s ≡ String.◌∷◌ d t = cc in
        cc (h, (eq_iff (String.◌∷◌ c s) (String.◌∷◌ d t)).1 whole)
    | inr p ↦ ground (arith, precedes-total s t p)
  ]
  | inr e ↦ ground arith
]

add_name-IsBefore :
    (a name : String) (ns : List String)
    → precedes a name ≡ true
    → IsBefore a ns
    → IsBefore a (add_name name ns)
unfolding add_name
add_name-IsBefore a name [] h k = h
add_name-IsBefore a name (m ∷ ms) h k = ground arith

-- Adding a name keeps a set sorted.
add_name-IsAscending :
    (name : String) (ns : List String) → IsAscending ns → IsAscending (add_name name ns)
unfolding add_name
add_name-IsAscending name [] h = (tt, tt)
add_name-IsAscending name (m ∷ ms) h =
    ground
      (arith, precedes-total name m, add_name-IsBefore m name ms, add_name-IsAscending name ms h.1)

pub sorted_names-IsAscending : (ns : List String) → IsAscending (sorted_names ns)
unfolding sorted_names
sorted_names-IsAscending [] = tt
sorted_names-IsAscending (n ∷ ns) =
    add_name-IsAscending n (sorted_names ns) (sorted_names-IsAscending ns)

pub add_name-In :
    (a name : String) (ns : List String) → In a (add_name name ns) ↔ ((a ≡ name) ⊎ In a ns)
unfolding add_name
add_name-In a name [] = (λ h. h, λ h. h)
add_name-In a name (m ∷ ms) =
    let (to, from) = add_name-In a name ms in
    elim (Bool-cases (str_eq name m)) [
      | inl e ↦
          let same = (eq_iff name m).0 e in rw e (λ h. inr h, ⊎_elim (λ p. inl (p ∙ same)) (λ i. i))
      | inr e ↦ elim (Bool-cases (precedes name m)) [
        | inl d ↦ rw (e, d) (λ h. h, λ h. h)
        | inr d ↦
            rw (e, d)
              (
                ⊎_elim (λ p. inr (inl p)) (λ i. ⊎_elim inl (λ k. inr (inr k)) (to i)),
                ⊎_elim (λ p. inr (from (inl p))) (⊎_elim inl (λ k. inr (from (inr k)))),
              )
      ]
    ]

pub sorted_names-In : (a : String) (ns : List String) → In a (sorted_names ns) ↔ In a ns
unfolding sorted_names
sorted_names-In a [] = (λ h. h, λ h. h)
sorted_names-In a (n ∷ ns) =
    let (to, from) = add_name-In a n (sorted_names ns) in
    let (out, into) = sorted_names-In a ns in
    (λ h. ⊎_elim inl (λ i. inr (out i)) (to h), λ h. from (⊎_elim inl (λ i. inr (into i)) h))

pub without_names-In :
    (a : String) (ms ns : List String)
    → In a (without_names ms ns) ↔ (In a ms × (contains ns a ≡ false))
unfolding without_names
without_names-In a [] ns = (λ h. absurd h, λ h. h.0)
without_names-In a (m ∷ ms) ns =
    let (to, from) = without_names-In a ms ns in
    elim (Bool-cases (contains ns m)) [
      | inl e ↦ rw e (
        λ h. (inr (to h).0, (to h).1),
        λ h.
            ⊎_elim
              (λ p. absurd (
                false-ne-true (sym (subst (λ (x : String). contains ns x ≡ true) (sym p) e) ∙ h.1)))
              (λ i. from (i, h.1)) h.0,
      )
      | inr e ↦ rw e (
        ⊎_elim (λ p. (inl p, subst (λ (x : String). contains ns x ≡ false) (sym p) e))
            (λ i. (inr (to i).0, (to i).1)),
        λ h. ⊎_elim inl (λ i. inr (from (i, h.1))) h.0,
      )
    ]
  where
    false-ne-true : ◌≡◌ {A = Bool} true false → ⊥
    false-ne-true p = cc

pub common_names-In :
    (a : String) (ms ns : List String) → In a (common_names ms ns) ↔ (In a ms × In a ns)
unfolding common_names
common_names-In a [] ns = (λ h. absurd h, λ h. h.0)
common_names-In a (m ∷ ms) ns =
    let (to, from) = common_names-In a ms ns in
    elim (Bool-cases (contains ns m)) [
      | inl e ↦ rw e (
        ⊎_elim
            (λ p. (
              inl p,
              (contains_iff ns a).0 (subst (λ (x : String). contains ns x ≡ true) (sym p) e),
            ))
            (λ i. (inr (to i).0, (to i).1)),
        λ h. ⊎_elim inl (λ i. inr (from (i, h.1))) h.0,
      )
      | inr e ↦ rw e (
        λ h. (inr (to h).0, (to h).1),
        λ h.
            ⊎_elim (λ p. absurd (contains-false m e (subst (λ (x : String). In x ns) p h.1)))
              (λ i. from (i, h.1)) h.0,
      )
    ]
  where
    contains-false : (x : String) → contains ns x ≡ false → In x ns → ⊥
    contains-false x p i = cc (p, (contains_iff ns x).1 i)
