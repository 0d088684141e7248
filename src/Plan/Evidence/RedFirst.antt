-- ===== src/Plan/Evidence/RedFirst.antt =====
-- When `completion_evidence_issues` allows the completion of an activity.
use lua_mongodb.Base.{
  ℕ, suc, ◌≤◌, ◌↔◌, Bool, true, false, List, [], ◌∷◌, ◌++◌, ◌≡◌, refl, ap, arith, any, ltb, eq_iff,
  inl, inr, Bool-cases, List-cases, if◌then◌else◌,
}
use lua_mongodb.Plan.State.{item}
use lua_mongodb.Json.{Items, iterate, elements, Json, null, str, arr, nil, Fields, get_or, is_text}
use lua_mongodb.Raise.{ok}
use lua_mongodb.Plan.Evidence.{
  is_green, is_red, evidence_items, positions, least, red_issues, green_issues,
  completion_evidence_issues,
}
use lua_mongodb.Plan.Issue.{red_before_green}

abbrev red_first : List Fields → Bool
red_first [] = false
red_first (e ∷ es) =
    if is_red e then any is_green es else if is_green e then false else red_first es

-- an item of the evidence is not both
text_unique : (x : Json) → is_text x "red" ≡ true → is_text x "green" ≡ false
text_unique (str s) h = rw ((eq_iff s "red").0 h)
text_unique _ h = cc

red-not-green : (e : Fields) → is_red e ≡ true → is_green e ≡ false
red-not-green e h = ground (arith, text_unique (get_or e "phase" null))

head-bound :
    (n : ℕ) (qs : List ℕ)
    → ((q : ℕ) (rest : List ℕ) → qs ≡ q ∷ rest → suc n ≤ least q rest)
    → least n qs ≡ n
head-bound n [] k = refl
head-bound n (q ∷ qs) k = omega (arith, k q qs refl)

module _ (test : Fields → Bool) where
  positions-bound :
      (n p : ℕ) (ps : List ℕ) (es : List Fields) → positions test n es ≡ p ∷ ps → n ≤ least p ps
  unfolding positions
  positions-bound n p ps [] h = cc
  positions-bound n p ps (e ∷ es) h = elim (Bool-cases (test e)) [
    | inl t ↦
        let now : n ∷ positions test (suc n) es ≡ p ∷ ps = (rw t at h) in
        let same : least n (positions test (suc n) es) ≡ least p ps = cc in
        omega (
          arith,
          same,
          head-bound n (positions test (suc n) es)
              (λ q rest e'. positions-bound (suc n) q rest es e'),
        )
    | inr t ↦ omega (arith, positions-bound (suc n) p ps es (rw t at h))
  ]

  positions-least : (n : ℕ) (es : List Fields) → least n (positions test (suc n) es) ≡ n
  positions-least n es =
      head-bound n (positions test (suc n) es) (λ q rest e. positions-bound (suc n) q rest es e)

  positions-none : (n : ℕ) (es : List Fields) → (positions test n es ≡ []) ↔ (any test es ≡ false)
  unfolding positions
  positions-none n [] = (λ _. refl, λ _. refl)
  positions-none n (e ∷ es) = ground (arith, positions-none (suc n) es)

later-least :
    (test : Fields → Bool) (n p : ℕ) (ps : List ℕ) (es : List Fields)
    → positions test (suc n) es ≡ p ∷ ps
    → ltb (least p ps) n ≡ false
later-least test n p ps es h = ground (arith, positions-bound test (suc n) p ps es h)

red_issues-green-late :
    (n : ℕ) (es : List Fields) (reds : List ℕ)
    → least n reds ≡ n
    → (red_issues (positions is_green (suc n) es) (n ∷ reds) ≡ []) ↔ (any is_green es ≡ true)
red_issues-green-late n es reds first = elim (List-cases (positions is_green (suc n) es)) [
  | inl e ↦
      let none = (positions-none is_green (suc n) es).0 e in
      (λ h. cc (rw e at h), λ h. cc (none, h))
  | inr (q, rest, e) ↦ (
    λ _. elim (Bool-cases (any is_green es)) [
      | inl found ↦ found
      | inr not_found ↦ cc ((positions-none is_green (suc n) es).1 not_found, e)
    ],
    λ _. rw (e, first) (ground (arith, positions-bound is_green (suc n) q rest es e)),
  )
]

red_issues-red-late :
    (n : ℕ) (es : List Fields) (greens : List ℕ)
    → least n greens ≡ n
    → ¬ (red_issues (n ∷ greens) (positions is_red (suc n) es) ≡ [])
red_issues-red-late n es greens first h = elim (List-cases (positions is_red (suc n) es)) [
  | inl e ↦ cc (rw e at h)
  | inr (r, rest, e) ↦
      let early : (if ltb n (least r rest) then red_before_green ∷ [] else []) ≡ [] =
        (rw (e, first) at h) in
      ground (arith, positions-bound is_red (suc n) r rest es e)
]

-- The positions say whether the first red run comes before the first green one.
red_issues-red_first :
    (n : ℕ) (es : List Fields)
    → (red_issues (positions is_green n es) (positions is_red n es) ≡ []) ↔ (red_first es ≡ true)
unfolding positions
red_issues-red_first n [] = (λ h. cc, λ h. cc)
red_issues-red_first n (e ∷ es) = elim (Bool-cases (is_red e)) [
  | inl r ↦ rw (r, red-not-green e r) (red_issues-green-late n es _ (positions-least is_red n es))
  | inr r ↦ elim (Bool-cases (is_green e)) [
    | inl g ↦
        rw (r, g)
          (λ h. absurd (red_issues-red-late n es _ (positions-least is_green n es) h), λ h. cc)
    | inr g ↦ rw (r, g) (red_issues-red_first (suc n) es)
  ]
]

-- The evidence from its first failing red run on, which stands before every passing green run.
pub record RedThenGreen (es : List Fields) : Type 0 where
  pub before : List Fields
  pub red_run : Fields
  pub after : List Fields
  pub splits : es ≡ before ++ red_run ∷ after
  pub fails : is_red red_run ≡ true
  pub no_green_before : any is_green before ≡ false
  pub green_after : any is_green after ≡ true

RedThenGreen-cons :
    (e : Fields) (es : List Fields) → is_green e ≡ false → RedThenGreen es → RedThenGreen (e ∷ es)
RedThenGreen-cons e es g s = record {
  before = e ∷ s.before;
  red_run = s.red_run;
  after = s.after;
  splits = ap (◌∷◌ e) s.splits;
  fails = s.fails;
  no_green_before = rw g s.no_green_before;
  green_after = s.green_after;
}

red_first-RedThenGreen : (es : List Fields) → red_first es ≡ true → RedThenGreen es
red_first-RedThenGreen [] h = cc
red_first-RedThenGreen (e ∷ es) h = elim (Bool-cases (is_red e)) [
  | inl r ↦ record {
    before = [];
    red_run = e;
    after = es;
    splits = refl;
    fails = r;
    no_green_before = refl;
    green_after = rw r at h;
  }
  | inr r ↦ elim (Bool-cases (is_green e)) [
    | inl g ↦ ground arith
    | inr g ↦ RedThenGreen-cons e es g (red_first-RedThenGreen es (ground arith))
  ]
]

split-red_first :
    (before after : List Fields) (r : Fields)
    → is_red r ≡ true
    → any is_green before ≡ false
    → any is_green after ≡ true
    → red_first (before ++ r ∷ after) ≡ true
split-red_first [] after r fails none_before green = rw fails green
split-red_first (e ∷ before) after r fails none_before green =
    let rest = split-red_first before after r fails in
    elim (Bool-cases (is_red e)) [
      | inl d ↦ rw d (any-append before (r ∷ after) (rw (red-not-green r fails) green))
      | inr d ↦ ground (arith, rest)
    ]
  where
    any-append : (xs ys : List Fields) → any is_green ys ≡ true → any is_green (xs ++ ys) ≡ true
    any-append [] ys h = h
    any-append (x ∷ xs) ys h = ground (arith, any-append xs ys h)

green_issues_iff :
    (activity : Fields) (policy : Json) (greens reds : List ℕ)
    → item activity "test_policy" ≡ ok policy
    → is_text policy "validation" ≡ false
    → (green_issues activity greens reds ≡ ok []) ↔ (red_issues greens reds ≡ [])
green_issues_iff activity policy [] [] p v = (λ h. cc, λ h. cc)
green_issues_iff activity policy [] (r ∷ reds) p v = (λ h. cc, λ h. cc)
green_issues_iff activity policy (g ∷ greens) [] p v = rw (p, v) (λ h. cc, λ h. cc)
green_issues_iff activity policy (g ∷ greens) (r ∷ reds) p v = rw (p, v) (λ h. cc, λ h. cc)

-- With a policy other than `validation`, an activity whose evidence is a list of objects may be completed
-- exactly if a failing red run stands before every passing green run of the evidence, and a passing green
-- run after it.
pub completion-RedThenGreen :
    (activity entry : Fields) (recorded : Items) (es : List Fields) (policy : Json)
    → get_or entry "evidence" (arr nil) ≡ arr recorded
    → evidence_items (elements recorded) ≡ ok es
    → item activity "test_policy" ≡ ok policy
    → is_text policy "validation" ≡ false
    → (completion_evidence_issues activity entry ≡ ok []) ↔ RedThenGreen es
unfolding completion_evidence_issues iterate
completion-RedThenGreen activity entry recorded es policy listed items p v =
    let greens = positions is_green 0 es in
    let reds = positions is_red 0 es in
    let (to_issues, from_issues) = green_issues_iff activity policy greens reds p v in
    let (to_first, from_first) = red_issues-red_first 0 es in
    rw (listed, items)
      (
        λ h. red_first-RedThenGreen es (to_first (to_issues h)),
        λ s. from_issues (
            from_first (
              rw s.splits (
                split-red_first s.before s.after s.red_run s.fails s.no_green_before
                  s.green_after))),
      )

-- With the policy `validation`, an activity whose evidence is a list of objects may be completed exactly
-- if the evidence holds a passing green run.
pub completion-validation :
    (activity entry : Fields) (recorded : Items) (es : List Fields) (policy : Json)
    → get_or entry "evidence" (arr nil) ≡ arr recorded
    → evidence_items (elements recorded) ≡ ok es
    → item activity "test_policy" ≡ ok policy
    → is_text policy "validation" ≡ true
    → (completion_evidence_issues activity entry ≡ ok []) ↔ (any is_green es ≡ true)
unfolding completion_evidence_issues iterate
completion-validation activity entry recorded es policy listed items p v =
    rw (listed, items)
      (elim (List-cases (positions is_green 0 es)) [
        | inl e ↦ let none = (positions-none is_green 0 es).0 e in rw (e, none) (λ h. cc, λ h. cc)
        | inr (q, rest, e) ↦
            rw (e, p, v)
              (
                λ _. elim (Bool-cases (any is_green es)) [
                  | inl found ↦ found
                  | inr not_found ↦ cc ((positions-none is_green 0 es).1 not_found, e)
                ],
                λ _. refl,
              )
      ])
