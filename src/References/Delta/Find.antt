-- ===== src/References/Delta/Find.antt =====
-- What is found in an inventory, and when some lists are empty.
use lua_mongodb.Base.{
  String, Bool, true, false, none, List, [], ◌∷◌, ◌≡◌, ◌↔◌, refl, sym, arith, inl, inr, In, keep,
  map, str_eq, eq_iff, Bool-cases,
}
use lua_mongodb.References.Delta.{Inventory, identities, find}

pub find-In :
    (identity : String) (inventory : Inventory)
    → In identity (identities inventory)
    → ¬ (find identity inventory ≡ none)
unfolding find
find-In identity [] m e = m
find-In identity ((i, fs) ∷ rest) (inl p) e = ground (arith, eq_iff i identity)
find-In identity ((i, fs) ∷ rest) (inr m) e = ground (arith, find-In identity rest m)

pub In-find :
    (identity : String) (inventory : Inventory)
    → ¬ In identity (identities inventory)
    → find identity inventory ≡ none
unfolding find
In-find identity [] h = refl
In-find identity ((i, fs) ∷ rest) h = elim (Bool-cases (str_eq i identity)) [
  | inl e ↦ absurd (h (inl (sym ((eq_iff i identity).0 e))))
  | inr e ↦ rw e (In-find identity rest (λ m. h (inr m)))
]

pub nil-not-In : {A : Type 0} (a : A) (xs : List A) → xs ≡ [] → ¬ In a xs
nil-not-In a [] e m = m
nil-not-In a (x ∷ xs) e m = cc

pub not-In-nil : {A : Type 0} (xs : List A) → ((a : A) → ¬ In a xs) → xs ≡ []
not-In-nil [] h = refl
not-In-nil (x ∷ xs) h = absurd (h x (inl refl))

pub map-nil : {A B : Type 0} (f : A → B) (xs : List A) → (map f xs ≡ []) ↔ (xs ≡ [])
map-nil f [] = (λ h. refl, λ h. refl)
map-nil f (x ∷ xs) = (λ h. cc, λ h. cc)

pub dropped : {A : Type 0} (p : A → Bool) (a x : A) → a ≡ x → p x ≡ false → ¬ (p a ≡ true)
dropped p a x q e h = ground arith

pub keep-In :
    {A : Type 0} (p : A → Bool) (a : A) (xs : List A) → In a (keep p xs) ↔ (In a xs × (p a ≡ true))
keep-In p a [] = (λ h. absurd h, λ h. h.0)
keep-In p a (x ∷ xs) = elim (Bool-cases (p x)) [
  | inl e ↦
      rw (e, keep)
        (
          elim [
            | inl q ↦ (inl q, cc)
            | inr m ↦ (inr ((keep-In p a xs).0 m).0, ((keep-In p a xs).0 m).1)
          ],
          λ m. elim m.0 [ inl q ↦ inl q | inr k ↦ inr ((keep-In p a xs).1 (k, m.1)) ],
        )
  | inr e ↦
      rw (e, keep)
        (
          λ m. (inr ((keep-In p a xs).0 m).0, ((keep-In p a xs).0 m).1),
          λ m. elim m.0 [
            | inl q ↦ absurd (dropped p a x q e m.1)
            | inr k ↦ (keep-In p a xs).1 (k, m.1)
          ],
        )
]
