-- ===== src/Complexity/Ratchet.antt =====
-- A generated baseline against the measurement that it came from.
use lua_mongodb.Base.{
  ℕ, true, false, Option, none, some, List, [], ◌∷◌, ◌≡◌, refl, ap, ◌∙◌, subst, arith, inl, inr,
  ltb, eq_iff, Bool-cases, Option-cases, if◌then◌else◌,
}
use lua_mongodb.Complexity.{
  Metric, Baseline, Key, key, same_key, holds_key, distinct_keys, measured, expected, compare_key,
  compare_keys, compare, hotspots_above, generated_baseline,
}

pub same_key-eq : (a b : Key) → same_key a b ≡ true → a ≡ b
same_key-eq a b h =
    let path : a.path ≡ b.path = ground (arith, eq_iff a.path b.path) in
    let name : a.name ≡ b.name = ground (arith, eq_iff a.name b.name) in cc

measured-none : (k : Key) (ms : List Metric) → holds_key k ms ≡ false → measured k ms ≡ none
unfolding holds_key measured
measured-none k [] h = refl
measured-none k (m ∷ ms) h =
    let rest = measured-none k ms in
    elim (Bool-cases (same_key (key m) k)) [ inl e ↦ ground arith | inr e ↦ ground (arith, rest) ]

-- the score that a generated baseline has of a metric
abbrev above : ℕ → Option Metric → Option ℕ
above limit none = none
above limit (some m) = if ltb limit m.score then some m.score else none

compare_key-above :
    (limit : ℕ) (k : Key) (current : Option Metric)
    → compare_key limit k (above limit current) current ≡ []
unfolding compare_key
compare_key-above limit k none = refl
compare_key-above limit k (some m) = ground arith

expected-above :
    (limit : ℕ) (k : Key) (ms : List Metric)
    → distinct_keys ms ≡ true
    → expected k (hotspots_above limit ms) ≡ above limit (measured k ms)
unfolding distinct_keys hotspots_above expected measured
expected-above limit k [] h = refl
expected-above limit k (m ∷ ms) h =
    let rest = expected-above limit k ms (ground arith) in
    elim (Bool-cases (same_key (key m) k)) [
      | inl e ↦
          let hidden : holds_key k ms ≡ false =
            subst (λ (x : Key). holds_key x ms ≡ false) (same_key-eq (key m) k e) (ground arith) in
          let unmeasured = measured-none k ms hidden in
          let unexpected : expected k (hotspots_above limit ms) ≡ none =
            rest ∙ ap (above limit) unmeasured in
          elim (Bool-cases (ltb limit m.score)) [
            | inl l ↦ rw (l, unmeasured, unexpected, e, l) refl
            | inr l ↦ rw (l, unmeasured, unexpected, e, l) refl
          ]
      | inr e ↦ elim (Option-cases (measured k ms)) [
        | inl u ↦
            let unexpected : expected k (hotspots_above limit ms) ≡ none =
              rest ∙ ap (above limit) u in
            elim (Bool-cases (ltb limit m.score)) [
              | inl l ↦ rw (l, u, unexpected, e) refl
              | inr l ↦ rw (l, u, unexpected, e) refl
            ]
        | inr (n, u) ↦
            let found = rest ∙ ap (above limit) u in
            elim (Bool-cases (ltb limit m.score)) [
              | inl l ↦ elim (Bool-cases (ltb limit n.score)) [
                | inl j ↦ rw (l, u, found, j) refl
                | inr j ↦ rw (l, u, found, j, e) refl
              ]
              | inr l ↦ rw (l, u, found) refl
            ]
      ]
    ]

compare_keys-nil :
    (baseline : Baseline) (metrics : List Metric)
    → ((k : Key)
        → compare_key baseline.maximum_new_complexity k
            (expected k baseline.hotspots)
            (measured k metrics)
          ≡ [])
    → (ks : List Key) → compare_keys baseline metrics ks ≡ []
unfolding compare_keys
compare_keys-nil baseline metrics clean [] = refl
compare_keys-nil baseline metrics clean (k ∷ ks) =
    rw (clean k) (compare_keys-nil baseline metrics clean ks)

-- If no two metrics have the same path and name, comparing them with the baseline generated from them
-- reports no issue, whatever the limit.
pub compare-generated_baseline :
    (metrics : List Metric) (limit : ℕ)
    → distinct_keys metrics ≡ true
    → compare (generated_baseline metrics limit) metrics ≡ []
unfolding compare generated_baseline
compare-generated_baseline metrics limit h =
    compare_keys-nil (generated_baseline metrics limit) metrics
      (λ k. rw (expected-above limit k metrics h) (compare_key-above limit k (measured k metrics)))
      _
