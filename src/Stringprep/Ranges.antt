-- ===== src/Stringprep/Ranges.antt =====
-- `ranges` against the predicate.
use lua_mongodb.Base.{
  ℕ, zero, suc, ◌+◌, ◌≤◌, ◌<◌, Bool, true, false, ◌&&◌, ◌||◌, none, some, List, [], ◌∷◌, ◌++◌, ◌≡◌,
  refl, ap, ◌∙◌, arith, inl, inr, ltb, leb, ◌==◌, Bool-cases,
}
use lua_mongodb.Stringprep.{
  max_code_point, Open, closed_range, open_range, ranges_from, ranges_below, ranges,
}

-- whether a code point lies in one of the ranges
abbrev pub in_ranges : ℕ → List (ℕ × ℕ) → Bool
in_ranges c [] = false
in_ranges c ((first, last) ∷ rest) = leb first c && leb c last || in_ranges c rest

abbrev in_open : ℕ → Open → Bool
in_open c none = false
in_open c (some (start, previous)) = leb start c && leb c previous

-- the range that is open ends before the code point at hand
abbrev IsOpenBefore : ℕ → Open → Type 0
IsOpenBefore c none = Unit
IsOpenBefore c (some (start, previous)) = (start ≤ previous) × (previous < c)

open_range-IsOpenBefore :
    (b : Bool) (c : ℕ) (r : Open) → IsOpenBefore c r → IsOpenBefore (suc c) (open_range b c r)
open_range-IsOpenBefore true c none h = ground arith
open_range-IsOpenBefore true c (some (start, previous)) h = ground arith
open_range-IsOpenBefore false c none h = tt
open_range-IsOpenBefore false c (some (start, previous)) h = ground arith

in_ranges-append :
    (c : ℕ) (xs ys : List (ℕ × ℕ)) → in_ranges c (xs ++ ys) ≡ (in_ranges c xs || in_ranges c ys)
in_ranges-append c [] ys = refl
in_ranges-append c ((a, b) ∷ xs) ys = ground (arith, in_ranges-append c xs ys)

-- A round accounts for the code point at hand.
round :
    (b : Bool) (c x : ℕ) (r : Open)
    → IsOpenBefore c r
    → (in_ranges x (closed_range b c r) || in_open x (open_range b c r))
      ≡ (in_open x r || x == c && b)
round true c x none h = ground arith
round true c x (some (start, previous)) h = ground arith
round false c x none h = ground arith
round false c x (some (start, previous)) h = ground arith

module _ (predicate : ℕ → Bool) where
  in_ranges-ranges_from :
      (left c x : ℕ) (r : Open)
      → IsOpenBefore c r
      → in_ranges x (ranges_from predicate left c r)
        ≡ (in_open x r || leb c x && ltb x (c + left) && predicate x)
  unfolding ranges_from
  in_ranges-ranges_from zero c x none h = ground arith
  in_ranges-ranges_from zero c x (some (start, previous)) h = ground arith
  in_ranges-ranges_from (suc left) c x r h =
      let b = predicate c in
      let rest =
        in_ranges-ranges_from left (suc c) x (open_range b c r) (open_range-IsOpenBefore b c r h) in
      let split =
        in_ranges-append x (closed_range b c r)
          (ranges_from predicate left (suc c) (open_range b c r)) in
      let here = round b c x r h in
      elim (Bool-cases (x == c)) [
        | inl e ↦
            let same : predicate x ≡ predicate c = ap predicate (ground arith) in
            ground (arith, split, rest, here, same)
        | inr e ↦ ground (arith, split, rest, here)
      ]

-- A code point lies in one of the ranges exactly if it is below the limit of Unicode and the predicate
-- holds of it.
pub in_ranges-ranges :
    (predicate : ℕ → Bool) (x : ℕ)
    → in_ranges x (ranges predicate) ≡ (ltb x max_code_point && predicate x)
unfolding ranges ranges_below
in_ranges-ranges predicate x =
    in_ranges-ranges_from predicate max_code_point 0 x none tt ∙ ground arith

-- ranges from a code point on that do not touch
abbrev pub IsSeparated : ℕ → List (ℕ × ℕ) → Type 0
IsSeparated lower [] = Unit
IsSeparated lower ((first, last) ∷ rest) =
    (lower ≤ first) × (first ≤ last) × IsSeparated (suc (suc last)) rest

abbrev Begins : ℕ → ℕ → Open → Type 0
Begins lower c none = lower ≤ c
Begins lower c (some (start, previous)) = (lower ≤ start) × (start ≤ previous) × (previous < c)

ranges_from-IsSeparated :
    (predicate : ℕ → Bool) (left c lower : ℕ) (r : Open)
    → Begins lower c r
    → IsSeparated lower (ranges_from predicate left c r)
unfolding ranges_from
ranges_from-IsSeparated predicate zero c lower none h = tt
ranges_from-IsSeparated predicate zero c lower (some (start, previous)) h = (h.0, h.1, tt)
ranges_from-IsSeparated predicate (suc left) c lower none h = elim (Bool-cases (predicate c)) [
  | inl e ↦ rw e (ranges_from-IsSeparated predicate left (suc c) lower (some (c, c)) (omega arith))
  | inr e ↦ rw e (ranges_from-IsSeparated predicate left (suc c) lower none (omega arith))
]
ranges_from-IsSeparated predicate (suc left) c lower (some (start, previous)) h =
    elim (Bool-cases (predicate c)) [
      | inl e ↦ elim (Bool-cases (c == suc previous)) [
        | inl d ↦
            rw (e, d)
              (ranges_from-IsSeparated predicate left (suc c) lower (some (start, c))
                (ground arith))
        | inr d ↦
            rw (e, d)
              (
                h.0,
                h.1,
                ranges_from-IsSeparated predicate left (suc c) (suc (suc previous)) (some (c, c))
                    (ground arith),
              )
      ]
      | inr e ↦ rw e (
          ranges_from-IsSeparated predicate left (suc c) lower (some (start, previous))
            (omega arith))
    ]

-- The ranges ascend, none is empty, and between two of them at least one code point is left out.
pub ranges-IsSeparated : (predicate : ℕ → Bool) → IsSeparated 0 (ranges predicate)
unfolding ranges ranges_below
ranges-IsSeparated predicate =
    ranges_from-IsSeparated predicate max_code_point 0 0 none (omega arith)
