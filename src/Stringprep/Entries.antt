-- ===== src/Stringprep/Entries.antt =====
-- The keys of the composition table.
use lua_mongodb.Base.{
  ℕ, ◌<◌, true, ◌&&◌, ◌||◌, some, List, [], ◌∷◌, ◌≡◌, refl, sym, ◌∙◌, arith, inl, inr, ltb, str_eq,
  Bool-cases,
}
use lua_mongodb.Raise.{ok, bind-eq-ok, ok_unique}
use lua_mongodb.Stringprep.{
  max_code_point, is_hangul, Unicode, values_of, is_character, pair_key, pair_entry,
  composition_entry,
}
use lua_mongodb.Text.{words, starts_with}

pair_key-inj :
    (a b c d : ℕ)
    → b < max_code_point
    → d < max_code_point
    → pair_key a b ≡ pair_key c d
    → (a ≡ c) × (b ≡ d)
pair_key-inj a b c d p q h = (omega arith, omega arith)

is_character_unique :
    (x : List ℕ) (c d : ℕ) → is_character x c ≡ true → is_character x d ≡ true → c ≡ d
is_character_unique [] c d h k = cc
is_character_unique (e ∷ []) c d h k = ground arith
is_character_unique (e ∷ f ∷ x) c d h k = cc

-- What an entry comes from: two code points that compose to the character.
record Composes (u : Unicode) (c k v : ℕ) : Type 0 where
  first : ℕ
  second : ℕ
  second_in_range : second < max_code_point
  key : k ≡ pair_key first second
  composed : is_character (u.nfc (first ∷ second ∷ [])) c ≡ true
  value : v ≡ c

pair_entry-Composes :
    (u : Unicode) (c k v : ℕ) (xs : List ℕ)
    → pair_entry u c xs ≡ ok (some (k, v))
    → Composes u c k v
unfolding pair_entry
pair_entry-Composes u c k v [] h = cc
pair_entry-Composes u c k v (a ∷ []) h = cc
pair_entry-Composes u c k v (a ∷ b ∷ d ∷ xs) h = cc
pair_entry-Composes u c k v (a ∷ b ∷ []) h =
    elim (Bool-cases (ltb a max_code_point && ltb b max_code_point)) [
      | inr e ↦ cc (rw e at h)
      | inl e ↦ elim (Bool-cases (is_character (u.nfc (a ∷ b ∷ [])) c)) [
        | inr d ↦ cc (rw (e, d) at h)
        | inl d ↦
            let same : some (pair_key a b, c) ≡ some (k, v) =
              ok_unique (ok _) refl (rw (e, d) at h) in
            record {
              first = a;
              second = b;
              second_in_range = ground arith;
              key = cc;
              composed = d;
              value = cc;
            }
      ]
    ]

composition_entry-Composes :
    (u : Unicode) (c k v : ℕ) → composition_entry u c ≡ ok (some (k, v)) → Composes u c k v
unfolding composition_entry
composition_entry-Composes u c k v h =
    elim (Bool-cases
      (is_hangul c || (str_eq (u.decomposition c) "" || starts_with (u.decomposition c) "<"))) [
        | inl e ↦ cc (rw e at h)
        | inr e ↦
            let (xs, _, last) =
              bind-eq-ok (values_of u (words (u.decomposition c))) (pair_entry u c) (rw e at h) in
            pair_entry-Composes u c k v xs last
      ]

-- No two code points have entries with the same key in the composition table, and the value of an entry
-- is its code point.
pub composition_entry_unique :
    (u : Unicode) (c d k v w : ℕ)
    → composition_entry u c ≡ ok (some (k, v))
    → composition_entry u d ≡ ok (some (k, w))
    → (c ≡ d) × (v ≡ c)
composition_entry_unique u c d k v w h g =
    let p = composition_entry-Composes u c k v h in
    let q = composition_entry-Composes u d k w g in
    let (first, second) =
      pair_key-inj p.first p.second q.first q.second p.second_in_range q.second_in_range
        (sym p.key ∙ q.key) in
    let same : is_character (u.nfc (p.first ∷ p.second ∷ [])) d ≡ true =
      (rw (first, second) q.composed) in
    (is_character_unique (u.nfc (p.first ∷ p.second ∷ [])) c d p.composed same, p.value)
