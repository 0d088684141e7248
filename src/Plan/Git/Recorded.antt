-- ===== src/Plan/Git/Recorded.antt =====
-- What `git_commit_issues` asks of the commits with the trailer of an activity.
use lua_mongodb.Base.{
  String, Bool, true, false, not, ◌&&◌, ◌⊎◌, ◌↔◌, inl, inr, List, [], ◌∷◌, ◌++◌, ◌≡◌, refl, sym,
  subst, ap, ◌∙◌, arith, any, contains, keep, str_eq, eq_iff, Bool-cases, if◌then◌else◌,
}
use lua_mongodb.Json.{Json, is_text}
use lua_mongodb.Text.{splitlines, starts_with}
use lua_mongodb.Plan.Git.{
  Commit, History, trailer, is_only, extra, check_commit, check_exact, check_matching,
}
use lua_mongodb.Plan.Issue.{Issue}

-- each commit has the one hash, or a hash that is exempt
abbrev pub AllKnown : List String → String → List Commit → Type 0
AllKnown exempt hash [] = Unit
AllKnown exempt hash (c ∷ cs) =
    ((c.hash ≡ hash) ⊎ (contains exempt c.hash ≡ true)) × AllKnown exempt hash cs

-- the lines of a message that name an activity
abbrev pub activity_lines : Commit → List String
activity_lines c = keep (λ l. starts_with l "Plan-Activity:") (splitlines c.body)

-- The commit of an activity: the other commits with its trailer have the hash of this one or are
-- exempt, its message names no other activity, and it is pushed if that is asked for.
pub record Records (h : History) (id : String) (matching : List Commit) (commit : Commit)
    : Type 0 where
  pub others : AllKnown h.before_policy commit.hash matching
  pub names_it : activity_lines commit ≡ trailer id ∷ []
  pub pushed : (h.require_pushed ≡ false) ⊎ (contains h.remote commit.hash ≡ true)

-- one commit with the trailer of an activity has its subject, and it is the commit of the activity
pub record IsRecorded (h : History) (id : String) (subject : Json) (matching : List Commit)
    : Type 0 where
  pub commit : Commit
  pub only : keep (λ d. is_text subject d.subject) matching ≡ commit ∷ []
  pub recorded : Records h id matching commit

none_extra-AllKnown :
    (h : History) (hash : String) (cs : List Commit)
    → (any (extra h hash) cs ≡ false) ↔ AllKnown h.before_policy hash cs
none_extra-AllKnown h hash [] = (λ e. tt, λ e. refl)
none_extra-AllKnown h hash (c ∷ cs) =
    let (to, from) = none_extra-AllKnown h hash cs in
    let (same, back) = eq_iff c.hash hash in
    (
      λ e. elim (Bool-cases (str_eq c.hash hash)) [
        | inl p ↦ (inl (same p), to (ground arith))
        | inr p ↦ (inr (ground arith), to (ground arith))
      ],
      λ known. elim known.0 [
        | inl p ↦ rw (back p, from known.1) refl
        | inr p ↦ rw (p, from known.1) (ground arith)
      ],
    )

one_item : {A : Type 0} (x y : A) → x ∷ [] ≡ y ∷ [] → x ≡ y
one_item x y h = cc

is_only_iff : (t : String) (xs : List String) → (is_only t xs ≡ true) ↔ (xs ≡ t ∷ [])
is_only_iff t [] = (λ h. cc, λ h. cc)
is_only_iff t (x ∷ []) =
    let (to, from) = eq_iff x t in
    (λ h. ap (λ (s : String). s ∷ []) (to h), λ h. from (one_item x t h))
is_only_iff t (x ∷ y ∷ rest) = (λ h. cc, λ h. cc)

-- what `check_commit` asks, from its three tests
three_tests :
    (a b r p : Bool) (i j k : Issue)
    → ((if a then i ∷ [] else (if not b then j ∷ [] else []) ++ (if r && not p then k ∷ [] else []))
        ≡ [])
      ↔ ((a ≡ false) × (b ≡ true) × ((r ≡ false) ⊎ (p ≡ true)))
three_tests true b r p i j k = (λ h. cc, λ h. cc)
three_tests false false r p i j k = (λ h. cc, λ h. cc)
three_tests false true false p i j k = (λ h. (refl, refl, inl refl), λ h. refl)
three_tests false true true true i j k = (λ h. (refl, refl, inr refl), λ h. refl)
three_tests false true true false i j k = (λ h. cc, λ h. ground arith)

check_commit-Records :
    (h : History) (id : String) (matching : List Commit) (c : Commit)
    → (check_commit h id matching c ≡ []) ↔ Records h id matching c
unfolding check_commit
check_commit-Records h id matching c =
    let (to, from) =
      three_tests (any (extra h c.hash) matching) (is_only (trailer id) (activity_lines c))
        h.require_pushed (contains h.remote c.hash) _ _ _ in
    let (known, any_extra) = none_extra-AllKnown h c.hash matching in
    let (only, back) = is_only_iff (trailer id) (activity_lines c) in
    (
      λ e.
          let (none_extra, one_line, pushed) = to e in
          record { others = known none_extra; names_it = only one_line; pushed = pushed },
      λ r. from (any_extra r.others, back r.names_it, r.pushed),
    )

check_exact-IsRecorded :
    (h : History) (id : String) (subject : Json) (matching exact : List Commit)
    → keep (λ d. is_text subject d.subject) matching ≡ exact
    → (check_exact h id matching exact ≡ []) ↔ IsRecorded h id subject matching
check_exact-IsRecorded h id subject matching [] same =
    (λ e. cc, λ r. cc (sym same ∙ IsRecorded.only r))
check_exact-IsRecorded h id subject matching (c ∷ []) same =
    let (to, from) = check_commit-Records h id matching c in
    (
      λ e. record { commit = c; only = same; recorded = to e },
      λ r. from (
          subst (Records h id matching) (one_item r.commit c (sym (IsRecorded.only r) ∙ same))
            r.recorded),
    )
check_exact-IsRecorded h id subject matching (c ∷ d ∷ rest) same =
    (λ e. cc, λ r. cc (sym same ∙ IsRecorded.only r))

pub check_matching-IsRecorded :
    (h : History) (id : String) (subject : Json) (matching : List Commit)
    → (check_matching h id subject matching ≡ []) ↔ IsRecorded h id subject matching
check_matching-IsRecorded h id subject [] = (λ e. cc, λ r. cc (IsRecorded.only r))
check_matching-IsRecorded h id subject (d ∷ rest) =
    check_exact-IsRecorded h id subject (d ∷ rest) _ refl
