-- ===== src/Readme/Scores/Green.antt =====
-- What the markers and percentages of a suite mean.
use Prim.Native.String.{◌++◌ as append}
use lua_mongodb.Base.{
  ℕ, ◌+◌, ◌<◌, ◌≤◌, ◌⊎◌, String, Bool, true, false, ◌&&◌, [], ◌∷◌, ◌≡◌, ◌↔◌, refl, subst, arith,
  ltb, ◌==◌, str_eq, eq_iff, Bool-cases, inl, inr, if◌then◌else◌,
}
use lua_mongodb.Counts.{Counts}
use lua_mongodb.Readme.Scores.{
  get_count, is_scored, is_incomplete, sum_where, status_marker, supported_percentage,
}

-- no status is counted under two entries
abbrev pub IsAbsent : String → Counts → Type 0
IsAbsent status [] = Unit
IsAbsent status ((s, n) ∷ rest) = (str_eq s status ≡ false) × IsAbsent status rest

abbrev pub IsCounter : Counts → Type 0
IsCounter [] = Unit
IsCounter ((s, n) ∷ rest) = IsAbsent s rest × IsCounter rest

abbrev is_passed : String → Bool
is_passed status = str_eq status "passed"

sum_where-absent : (counts : Counts) → IsAbsent "passed" counts → sum_where is_passed counts ≡ 0
unfolding sum_where
sum_where-absent [] h = refl
sum_where-absent ((s, n) ∷ rest) (e, h) = rw e (ground (arith, sum_where-absent rest h))

sum_where-get_count :
    (counts : Counts) → IsCounter counts → sum_where is_passed counts ≡ get_count "passed" counts
unfolding sum_where get_count
sum_where-get_count [] h = refl
sum_where-get_count ((s, n) ∷ rest) (absent, h) = elim (Bool-cases (is_passed s)) [
  | inl e ↦
      let same : s ≡ "passed" = (eq_iff s "passed").0 e in
      let none_later =
        sum_where-absent rest (subst (λ (t : String). IsAbsent t rest) same absent) in
      rw e (ground (arith, none_later))
  | inr e ↦ rw e (ground (arith, sum_where-get_count rest h))
]

-- a scored status is passed or incomplete, and not both
is_scored-parts :
    (s : String) (n : ℕ)
    → (if is_scored s then n else 0)
      ≡ (if is_passed s then n else 0) + (if is_incomplete s then n else 0)
is_scored-parts s n = elim (Bool-cases (is_passed s)) [
  | inl e ↦ let same : s ≡ "passed" = (eq_iff s "passed").0 e in rw same (ground arith)
  | inr e ↦ rw e (ground arith)
]

sum_where-is_scored :
    (counts : Counts)
    → sum_where is_scored counts ≡ sum_where is_passed counts + sum_where is_incomplete counts
unfolding sum_where
sum_where-is_scored [] = refl
sum_where-is_scored ((s, n) ∷ rest) = ground (arith, is_scored-parts s n, sum_where-is_scored rest)

scored_count :
    (counts : Counts)
    → IsCounter counts
    → sum_where is_scored counts ≡ get_count "passed" counts + sum_where is_incomplete counts
scored_count counts h = ground (arith, sum_where-is_scored counts, sum_where-get_count counts h)

-- A percentage is either `N/A`, where no case passed and none is incomplete, or that of a quotient: its
-- denominator is the number of passed cases and incomplete ones together, which is not 0, and its
-- numerator is the number of passed cases, so that the quotient is at most one.
pub supported_percentage-quotient :
    (percent : ℕ → ℕ → String) (counts : Counts)
    → IsCounter counts
    → ((supported_percentage percent counts ≡ "N/A")
        × (get_count "passed" counts ≡ 0)
        × (sum_where is_incomplete counts ≡ 0))
      ⊎ ((part whole : ℕ) × (part ≡ get_count "passed" counts)
          × (whole ≡ part + sum_where is_incomplete counts)
          × (0 < whole)
          × (part ≤ whole)
          × (supported_percentage percent counts ≡ append (percent part whole) "%"))
unfolding supported_percentage
supported_percentage-quotient percent counts h =
    let parts = scored_count counts h in
    elim (Bool-cases (sum_where is_scored counts == 0)) [
      | inl e ↦ inl (rw e refl, ground arith, ground arith)
      | inr e ↦ inr (
        get_count "passed" counts,
        sum_where is_scored counts,
        refl,
        parts,
        ground arith,
        ground arith,
        rw e refl,
      )
    ]

other_marker : {A : Type 0} (marker : String) → str_eq marker "🟢" ≡ false → marker ≡ "🟢" → A
other_marker marker e p = absurd (cc ((eq_iff marker "🟢").1 p, e))

marker_green :
    (b c d e : Bool)
    → (◌≡◌ {A = String}
        (if b then "🟢" else if c then "🟡" else if d then "⚪" else if e then "🔴" else "⚪")
        "🟢")
      ↔ (b ≡ true)
marker_green true c d e = (λ p. refl, λ p. refl)
marker_green false true d e = (λ p. other_marker "🟡" refl p, λ p. cc)
marker_green false false true e = (λ p. other_marker "⚪" refl p, λ p. cc)
marker_green false false false true = (λ p. other_marker "🔴" refl p, λ p. cc)
marker_green false false false false = (λ p. other_marker "⚪" refl p, λ p. cc)

-- A suite is green exactly when cases passed and all that are scored passed, which is when its
-- percentage is that of a number of itself.
pub status_marker-green :
    (counts : Counts)
    → IsCounter counts
    → (status_marker counts ≡ "🟢")
      ↔ ((0 < get_count "passed" counts) × (get_count "passed" counts ≡ sum_where is_scored counts))
unfolding status_marker
status_marker-green counts h =
    let parts = scored_count counts h in
    let (to, from) =
      marker_green (ltb 0 (get_count "passed" counts) && (sum_where is_incomplete counts == 0)) _ _
        _ in
    (λ e. let both = to e in (ground arith, ground arith), λ p. from (ground arith))
