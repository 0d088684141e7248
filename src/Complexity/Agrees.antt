-- ===== src/Complexity/Agrees.antt =====
-- What `compare` without an issue says of every function.
use mathlib.Core.Logic.{⊎_elim}
use lua_mongodb.Base.{
  ℕ, ◌≤◌, Option, none, some, List, [], ◌∷◌, ◌≡◌, ◌↔◌, refl, sym, ◌∙◌, subst, arith, inl, inr, In,
  append-eq-nil, Bool-cases, Option-cases,
}
use lua_mongodb.Complexity.Ratchet.{same_key-eq}
use lua_mongodb.Complexity.{
  Metric, Hotspot, Baseline, Key, key, same_key, measured, expected, compare_key, precedes_key,
  add_key, metric_keys, hotspot_keys, compare_keys, compare,
}

-- A function without a recorded score is within the limit, and one with a recorded score is reported
-- with this score.
abbrev pub Agrees : ℕ → Option ℕ → Option Metric → Type 0
Agrees limit none none = Unit
Agrees limit none (some m) = m.score ≤ limit
Agrees limit (some n) none = ⊥
Agrees limit (some n) (some m) = m.score ≡ n

compare_key-Agrees :
    (limit : ℕ) (k : Key) (recorded : Option ℕ) (current : Option Metric)
    → (compare_key limit k recorded current ≡ []) ↔ Agrees limit recorded current
unfolding compare_key
compare_key-Agrees limit k none none = (λ h. tt, λ h. refl)
compare_key-Agrees limit k none (some m) = ground arith
compare_key-Agrees limit k (some n) none = (λ h. cc, λ h. absurd h)
compare_key-Agrees limit k (some n) (some m) = ground arith

add_key-In : (k a : Key) (ks : List Key) → In a (k ∷ ks) → In a (add_key k ks)
unfolding add_key
add_key-In k a [] m = m
add_key-In k a (l ∷ ls) m = elim (Bool-cases (same_key k l)) [
  | inl e ↦ rw e (⊎_elim (λ (p : a ≡ k). inl (p ∙ same_key-eq k l e)) (λ (i : In a (l ∷ ls)). i) m)
  | inr e ↦ elim (Bool-cases (precedes_key k l)) [
    | inl d ↦ rw (e, d) m
    | inr d ↦
        rw (e, d)
          (⊎_elim (λ (p : a ≡ k). inr (add_key-In k a ls (inl p)))
            (⊎_elim (λ (p : a ≡ l). inl p) (λ (i : In a ls). inr (add_key-In k a ls (inr i)))) m)
  ]
]

metric_keys-In : (a : Key) (ms : List Metric) (ks : List Key) → In a ks → In a (metric_keys ms ks)
unfolding metric_keys
metric_keys-In a [] ks m = m
metric_keys-In a (n ∷ ms) ks m =
    metric_keys-In a ms (add_key (key n) ks) (add_key-In (key n) a ks (inr m))

hotspot_keys-In :
    (a : Key) (hs : List Hotspot) (ks : List Key) → In a ks → In a (hotspot_keys hs ks)
unfolding hotspot_keys
hotspot_keys-In a [] ks m = m
hotspot_keys-In a (h ∷ hs) ks m =
    let k : Key = record { path = h.path; name = h.function } in
    hotspot_keys-In a hs (add_key k ks) (add_key-In k a ks (inr m))

measured-In :
    (k : Key) (ms : List Metric) (ks : List Key) (n : Metric)
    → measured k ms ≡ some n
    → In k (metric_keys ms ks)
unfolding measured metric_keys
measured-In k [] ks n h = cc
measured-In k (m ∷ ms) ks n h = elim (Option-cases (measured k ms)) [
  | inr (x, e) ↦ measured-In k ms (add_key (key m) ks) x e
  | inl e ↦ elim (Bool-cases (same_key (key m) k)) [
    | inl d ↦
        metric_keys-In k ms (add_key (key m) ks)
          (add_key-In (key m) k ks (inl (sym (same_key-eq (key m) k d))))
    | inr d ↦ cc (rw (e, d) at h)
  ]
]

expected-In :
    (k : Key) (hs : List Hotspot) (ks : List Key) (n : ℕ)
    → expected k hs ≡ some n
    → In k (hotspot_keys hs ks)
unfolding expected hotspot_keys
expected-In k [] ks n h = cc
expected-In k (s ∷ hs) ks n h =
    let own : Key = record { path = s.path; name = s.function } in
    elim (Option-cases (expected k hs)) [
      | inr (x, e) ↦ expected-In k hs (add_key own ks) x e
      | inl e ↦ elim (Bool-cases (same_key own k)) [
        | inl d ↦
            hotspot_keys-In k hs (add_key own ks)
              (add_key-In own k ks (inl (sym (same_key-eq own k d))))
        | inr d ↦ cc (rw (e, d) at h)
      ]
    ]

module _ (baseline : Baseline) (metrics : List Metric) where
  abbrev AgreesAt : Key → Type 0
  AgreesAt k =
      Agrees baseline.maximum_new_complexity (expected k baseline.hotspots) (measured k metrics)

  compare_keys-Agrees :
      (ks : List Key) → compare_keys baseline metrics ks ≡ [] → (k : Key) → In k ks → AgreesAt k
  unfolding compare_keys
  compare_keys-Agrees [] h k m = absurd m
  compare_keys-Agrees (l ∷ ls) h k m =
      let (here, later) = append-eq-nil _ (compare_keys baseline metrics ls) h in
      ⊎_elim
        (λ (p : k ≡ l).
          subst AgreesAt (sym p)
            ((compare_key-Agrees baseline.maximum_new_complexity l _ _).0 here))
        (compare_keys-Agrees ls later k) m

  Agrees-compare_keys :
      ((k : Key) → AgreesAt k) → (ks : List Key) → compare_keys baseline metrics ks ≡ []
  unfolding compare_keys
  Agrees-compare_keys a [] = refl
  Agrees-compare_keys a (k ∷ ks) =
      rw ((compare_key-Agrees baseline.maximum_new_complexity k _ _).1 (a k))
        (Agrees-compare_keys a ks)

  -- `compare` reports no issue exactly if each function without a recorded score is within the limit, and
  -- each one with a recorded score is reported with this score.
  pub compare-Agrees : (compare baseline metrics ≡ []) ↔ (
      (k : Key)
      → Agrees baseline.maximum_new_complexity (expected k baseline.hotspots) (measured k metrics))
  unfolding compare
  compare-Agrees =
      let recorded = hotspot_keys baseline.hotspots [] in
      let all = metric_keys metrics recorded in
      (
        λ h k. elim (Option-cases (measured k metrics)) [
          | inr (m, e) ↦ compare_keys-Agrees all h k (measured-In k metrics recorded m e)
          | inl e ↦ elim (Option-cases (expected k baseline.hotspots)) [
            | inr (n, d) ↦
                compare_keys-Agrees all h k
                  (metric_keys-In k metrics recorded (expected-In k baseline.hotspots [] n d))
            | inl d ↦ rw (e, d) tt
          ]
        ],
        λ a. Agrees-compare_keys a all,
      )
