-- ===== src/Readme/Suites/Under.antt =====
-- How many outcomes the loops of `suite_counts` count under one suite and one status.
use lua_mongodb.Base.{
  ℕ, ◌+◌, ◌&&◌, sym, ◌∙◌, str_eq, eq_iff, Bool-cases, inl, inr, String, Bool, true, false, Option,
  none, some, [], ◌∷◌, ◌≡◌, refl, ap, subst, arith, contains, if◌then◌else◌,
}
use lua_mongodb.Counts.{Counts, count}
use lua_mongodb.Json.{
  Json, null, bool, int, str, arr, obj, Fields, end, field, get_or, is_text, hashable,
}
use lua_mongodb.Raise.{ok, raise, ◌>>=◌, bind-eq-ok, ok_unique}
use lua_mongodb.Readme.Layers.{catalog_projected_suites, unscored_exclusion, old_server_only}
use lua_mongodb.Readme.Problem.{Problem, Py, fail}
use lua_mongodb.Readme.Suites.{
  Suites, is_bool, add_outcome, scored_status, count_status, count_case, count_cases, projection,
  projected, in_set, add_projection, count_requirements,
}
use lua_mongodb.Readme.Versions.{Sources, is_old_server_only_fixture}

abbrev one_if : Bool → ℕ
one_if b = if b then 1 else 0

-- what is counted under one status
abbrev pub count_under : String → Counts → ℕ
count_under status [] = 0
count_under status ((key, n) ∷ rest) =
    (if str_eq key status then n else 0) + count_under status rest

-- what is counted under one suite and one status
abbrev pub outcomes_under : String → String → Suites → ℕ
outcomes_under suite status [] = 0
outcomes_under suite status ((s, outcomes) ∷ rest) =
    (if str_eq s suite then count_under status outcomes else 0) + outcomes_under suite status rest

abbrev pub is_old : Py Bool → Bool
is_old (ok old) = old
is_old (raise e) = false

-- The status of a case: that of an exclusion if its support is not scored, that of an old server if its
-- fixture is for old servers only, and else its own.
abbrev pub has_status : Sources → String → Fields → String → Bool
has_status sources identity case status =
    if is_bool false (get_or case "support_scored" null)
    then str_eq unscored_exclusion status
    else if is_old (is_old_server_only_fixture sources identity case)
    then str_eq old_server_only status
    else is_text (get_or case "status" null) status

-- the cases of a suite with a status
abbrev pub is_case_of : Sources → String → String → String → Json → Bool
is_case_of sources suite status identity (obj case) =
    is_text (get_or case "suite" null) suite && has_status sources identity case status
is_case_of sources suite status identity _ = false

abbrev pub cases_of : Sources → String → String → Fields → ℕ
cases_of sources suite status end = 0
cases_of sources suite status (field identity case rest) =
    one_if (is_case_of sources suite status identity case) + cases_of sources suite status rest

-- the requirements of a suite with a status, where the catalog is projected into the suite
abbrev pub is_requirement_of : String → String → Json → Bool
is_requirement_of suite status (obj requirement) =
    contains catalog_projected_suites suite
    && is_text (get_or requirement "suite" null) suite
    && is_text (get_or requirement "status" null) status
is_requirement_of suite status _ = false

abbrev pub requirements_of : String → String → Fields → ℕ
requirements_of suite status end = 0
requirements_of suite status (field identity requirement rest) =
    one_if (is_requirement_of suite status requirement) + requirements_of suite status rest

chosen_status :
    (status : String) (unscored excluded : Bool) (old : Py Bool) (own scored : String)
    (problem : Problem)
    → (if unscored
        then (if excluded then ok unscored_exclusion else fail problem)
        else (old >>= λ o. ok (if o then old_server_only else own)))
      ≡ ok scored
    → str_eq scored status ≡ (
        if unscored
        then str_eq unscored_exclusion status
        else if is_old old
        then str_eq old_server_only status
        else str_eq own status)
chosen_status status true true old own scored problem h =
    ap (λ (s : String). str_eq s status) (sym (ok_unique (ok unscored_exclusion) refl h))
chosen_status status true false old own scored problem h = cc
chosen_status status false excluded (ok true) own scored problem h =
    ap (λ (s : String). str_eq s status) (sym (ok_unique (ok old_server_only) refl h))
chosen_status status false excluded (ok false) own scored problem h =
    ap (λ (s : String). str_eq s status) (sym (ok_unique (ok own) refl h))
chosen_status status false excluded (raise e) own scored problem h = cc

module _ (suite status : String) where
  count_under-count :
      (key : String) (counts : Counts)
      → count_under status (count key counts)
        ≡ one_if (str_eq key status) + count_under status counts
  unfolding count
  count_under-count key [] = ground arith
  count_under-count key ((k, n) ∷ rest) = elim (Bool-cases (str_eq key k)) [
    | inl e ↦ let same : key ≡ k = (eq_iff key k).0 e in rw (e, same) (ground arith)
    | inr e ↦ rw e (ground (arith, count_under-count key rest))
  ]

  outcomes_under-add_outcome :
      (s t : String) (counts : Suites)
      → outcomes_under suite status (add_outcome s t counts)
        ≡ one_if (str_eq s suite && str_eq t status) + outcomes_under suite status counts
  unfolding add_outcome
  outcomes_under-add_outcome s t [] = ground (arith, count_under-count t [])
  outcomes_under-add_outcome s t ((k, outcomes) ∷ rest) = elim (Bool-cases (str_eq k s)) [
    | inl e ↦
        let same : k ≡ s = (eq_iff k s).0 e in
        rw (e, same) (ground (arith, count_under-count t outcomes))
    | inr e ↦ rw e (ground (arith, outcomes_under-add_outcome s t rest))
  ]

  module _ (sources : Sources) where
    scored_status-has_status :
        (identity : String) (case : Fields) (own scored : String)
        → get_or case "status" null ≡ str own
        → scored_status sources identity case own ≡ ok scored
        → str_eq scored status ≡ has_status sources identity case status
    unfolding scored_status
    scored_status-has_status identity case own scored is_own h = rw is_own (
        chosen_status status _ (str_eq own "excluded_scope")
          (is_old_server_only_fixture sources identity case) own scored _ h)

    count_status-under :
        (identity : String) (case : Fields) (counts : Suites) (s t : Json) (after : Suites)
        → get_or case "suite" null ≡ s
        → get_or case "status" null ≡ t
        → count_status sources identity case counts s t ≡ ok after
        → outcomes_under suite status after
          ≡ one_if (is_case_of sources suite status identity (obj case))
            + outcomes_under suite status counts
    count_status-under identity case counts (str s) (str t) after is_s is_t h =
        let (scored, e, added) = bind-eq-ok (scored_status sources identity case t) _ h in
        subst
          (λ (c : Suites).
            outcomes_under suite status c
            ≡ one_if (is_case_of sources suite status identity (obj case))
              + outcomes_under suite status counts)
          (ok_unique (ok (add_outcome s scored counts)) refl added)
          (rw (is_s, sym (scored_status-has_status identity case t scored is_t e))
            (outcomes_under-add_outcome s scored counts))
    count_status-under identity case counts s t after is_s is_t h = cc

    count_case-under :
        (identity : String) (case : Json) (counts after : Suites)
        → count_case sources identity case counts ≡ ok after
        → outcomes_under suite status after
          ≡ one_if (is_case_of sources suite status identity case)
            + outcomes_under suite status counts
    count_case-under identity (obj case) counts after h =
        count_status-under identity case counts _ _ after refl refl h
    count_case-under identity case counts after h = cc

    pub count_cases-under :
        (cases : Fields) (counts after : Suites)
        → count_cases sources cases counts ≡ ok after
        → outcomes_under suite status after
          ≡ cases_of sources suite status cases + outcomes_under suite status counts
    unfolding count_cases
    count_cases-under end counts after h =
        ground (arith, ap (outcomes_under suite status) (ok_unique (ok counts) refl h))
    count_cases-under (field identity case rest) counts after h =
        let (more, first, later) = bind-eq-ok (count_case sources identity case counts) _ h in
        ground (
          arith,
          count_case-under identity case counts more first,
          count_cases-under rest more after later,
        )

in_set-listed :
    (suite : Json) (s : String) (listed : Bool)
    → in_set catalog_projected_suites suite ≡ ok listed
    → (contains catalog_projected_suites s && is_text suite s) ≡ (listed && is_text suite s)
unfolding hashable
in_set-listed (str t) s listed h = elim (Bool-cases (str_eq t s)) [
  | inl e ↦
      let same : t ≡ s = (eq_iff t s).0 e in
      let found : contains catalog_projected_suites s ≡ listed =
        subst (λ (x : String). contains catalog_projected_suites x ≡ listed) same
          (ok_unique (ok (contains catalog_projected_suites t)) refl h) in
      rw (e, found) refl
  | inr e ↦ rw e (ground arith)
]
in_set-listed null s listed h = ground arith
in_set-listed (bool b) s listed h = ground arith
in_set-listed (int n) s listed h = ground arith
in_set-listed (arr xs) s listed h = ground arith
in_set-listed (obj fs) s listed h = ground arith

module _ (suite status : String) where
  projection-under :
      (identity : String) (s t : Json) (listed valid : Bool) (p : Option (String × String))
      (counts : Suites)
      → projection identity s t listed valid ≡ ok p
      → outcomes_under suite status (add_projection p counts)
        ≡ one_if (listed && is_text s suite && is_text t status)
          + outcomes_under suite status counts
  projection-under identity s t false valid p counts h =
      subst
        (λ (q : Option (String × String)).
          outcomes_under suite status (add_projection q counts)
          ≡ 0 + outcomes_under suite status counts)
        (ok_unique (ok none) refl h) (omega arith)
  projection-under identity (str s) (str t) true true p counts h =
      subst
        (λ (q : Option (String × String)).
          outcomes_under suite status (add_projection q counts)
          ≡ one_if (str_eq s suite && str_eq t status) + outcomes_under suite status counts)
        (ok_unique (ok (some (s, t))) refl h) (outcomes_under-add_outcome suite status s t counts)
  projection-under identity s t true valid p counts h = cc

  projected-under :
      (identity : String) (requirement : Json) (p : Option (String × String)) (counts : Suites)
      → projected identity requirement ≡ ok p
      → outcomes_under suite status (add_projection p counts)
        ≡ one_if (is_requirement_of suite status requirement) + outcomes_under suite status counts
  unfolding projected
  projected-under identity (obj requirement) p counts h =
      let s = get_or requirement "suite" null in
      let t = get_or requirement "status" null in
      let (listed, first, later) = bind-eq-ok (in_set catalog_projected_suites s) _ h in
      let (valid, second, last) = bind-eq-ok (if listed then _ else ok false) _ later in
      projection-under identity s t listed valid p counts last
      ∙ ap (λ (b : Bool). one_if b + outcomes_under suite status counts)
          (regrouped (contains catalog_projected_suites suite) listed (is_text s suite)
            (is_text t status) (in_set-listed s suite listed first))
    where
      regrouped : (a b c d : Bool) → (a && c) ≡ (b && c) → (b && c && d) ≡ (a && c && d)
      regrouped a b c d h = ground arith
  projected-under identity requirement p counts h = cc

  pub count_requirements-under :
      (requirements : Fields) (counts after : Suites)
      → count_requirements requirements counts ≡ ok after
      → outcomes_under suite status after
        ≡ requirements_of suite status requirements + outcomes_under suite status counts
  unfolding count_requirements
  count_requirements-under end counts after h =
      ground (arith, ap (outcomes_under suite status) (ok_unique (ok counts) refl h))
  count_requirements-under (field identity requirement rest) counts after h =
      let (p, first, later) = bind-eq-ok (projected identity requirement) _ h in
      ground (
        arith,
        projected-under identity requirement p counts first,
        count_requirements-under rest (add_projection p counts) after later,
      )
