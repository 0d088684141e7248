-- ===== src/References/Waypoint/Found.antt =====
-- Where `find_green_waypoint` stops.
use lua_mongodb.Base.{
  ℕ, suc, String, Bool, true, false, List, [], ◌∷◌, ◌++◌, ◌≡◌, ◌⊎◌, inl, inr, refl, sym, ap, subst,
  ◌∙◌, append-nil, append_assoc, Bool-cases, List-cases,
}
use lua_mongodb.Raise.{ok}
use lua_mongodb.References.Waypoint.{Waypoint, onto, reversed, search_back, find_green_waypoint}

onto_append : (xs ys : List String) → onto xs ys ≡ reversed xs ++ ys
onto_append [] ys = refl
onto_append (x ∷ xs) ys =
    let shifted = ap (λ (zs : List String). zs ++ ys) (onto_append xs (x ∷ [])) in
    onto_append xs (x ∷ ys) ∙ sym (append_assoc (reversed xs) (x ∷ []) ys) ∙ sym shifted

onto-onto : (xs ys zs : List String) → onto (onto xs ys) zs ≡ onto ys (xs ++ zs)
onto-onto [] ys zs = refl
onto-onto (x ∷ xs) ys zs = onto-onto xs (x ∷ ys) zs

onto-nonempty : (xs : List String) (y : String) (ys : List String) → ¬ (onto xs (y ∷ ys) ≡ [])
onto-nonempty [] y ys e = cc
onto-nonempty (x ∷ xs) y ys e = onto-nonempty xs x (y ∷ ys) e

module _ (artifact_passes : String → Bool) where
  -- every commit of the list but the last fails
  abbrev pub EarlierFail : String → List String → Type 0
  EarlierFail c [] = Unit
  EarlierFail c (n ∷ ns) = (artifact_passes c ≡ false) × EarlierFail n ns

  -- The commits from the oldest on, `from_commit` first: the green one stands right before the failing
  -- one, and what was tested after it fails.
  abbrev pub Found : String → List String → Waypoint → Type 0
  Found from_commit commits w =
      (older newer : List String) × (from_commit ∷ commits
        ≡ older ++ (w.last_green_commit ∷ w.first_failing_commit ∷ newer))
      × EarlierFail w.first_failing_commit newer
      × ((older ≡ []) ⊎ (artifact_passes w.last_green_commit ≡ true))

  search_back-Found :
      (from_commit first failing : String) (checked : ℕ) (older newer commits : List String)
      → onto older (failing ∷ newer) ≡ first ∷ commits
      → EarlierFail failing newer
      → Found from_commit
          (first ∷ commits)
          (search_back artifact_passes from_commit first failing checked older)
  unfolding search_back
  search_back-Found from_commit first failing checked [] newer commits e fails =
      let head : failing ≡ first = cc in
      let tail : newer ≡ commits = cc in
      (
        [],
        newer,
        ap (λ (zs : List String). from_commit ∷ first ∷ zs) (sym tail),
        subst (λ (c : String). EarlierFail c newer) head fails,
        inl refl,
      )
  search_back-Found from_commit first failing checked (c ∷ older) newer commits e fails =
      elim (Bool-cases (artifact_passes c)) [
        | inl p ↦ rw p (
          from_commit ∷ reversed older,
          newer,
          (ap (λ (zs : List String). from_commit ∷ zs)
              (sym e ∙ onto_append older (c ∷ failing ∷ newer))),
          fails,
          inr p,
        )
        | inr p ↦ rw p (
            search_back-Found from_commit first c (suc checked) older (failing ∷ newer) commits e
              (p, fails))
      ]

  -- From any list of commits but the empty one, `find_green_waypoint` returns two neighbours of the list
  -- that has `from_commit` before the commits: the later one is the first failing commit, each commit
  -- from it on fails the test (the newest is not tested), and the earlier one passes it or is
  -- `from_commit`.
  pub find_green_waypoint-Found :
      (from_commit first : String) (commits : List String)
      → (w : Waypoint) × (find_green_waypoint artifact_passes from_commit (first ∷ commits) ≡ ok w)
        × Found from_commit (first ∷ commits) w
  unfolding find_green_waypoint
  find_green_waypoint-Found from_commit first commits =
      elim (List-cases (reversed (first ∷ commits))) [
        | inl e ↦ absurd (onto-nonempty commits first [] e)
        | inr (newest, older, e) ↦
            let order : onto older (newest ∷ []) ≡ first ∷ commits =
              ap (λ (zs : List String). onto zs []) (sym e)
              ∙ onto-onto (first ∷ commits) [] []
              ∙ ap (λ (zs : List String). first ∷ zs) (append-nil commits) in
            (
              search_back artifact_passes from_commit first newest 0 older,
              rw e refl,
              search_back-Found from_commit first newest 0 older [] commits order tt,
            )
      ]
