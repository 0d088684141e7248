-- ===== src/References/Paths/Sorted.antt =====
-- How the summary sorts changed paths.
use lua_mongodb.Base.{
  ℕ, suc, ◌+◌, ◌≤◌, String, Bool, true, false, not, ◌&&◌, ◌||◌, any, List, [], ◌∷◌, ◌≡◌, refl, ap,
  ◌∙◌, arith, length, map, contains, str_eq, eq_iff, Bool-cases, inl, inr, if◌then◌else◌,
}
use lua_mongodb.Counts.{Counts, count, count_all, total, total-count_all}
use lua_mongodb.Text.{starts_with}
use lua_mongodb.Text.Search.{ends_with}
use lua_mongodb.References.Paths.{
  ChangedPath, reference_path_category, review_categories, review_sum, summarize_reference_paths,
}

-- a path of the automation, the tests, the dependencies or the documentation
abbrev pub is_supporting : String → Bool
is_supporting path =
    any (starts_with path) (".github/" ∷ ".evergreen/" ∷ "test/" ∷ "tests/" ∷ "doc/" ∷ [])
    || any (ends_with path) (".lock" ∷ ".lockb" ∷ [])
    || contains ("uv.lock" ∷ "README.md" ∷ "CONTRIBUTING.md" ∷ []) path

-- where the code of a reference is
abbrev pub is_code : String → String → Bool
is_code reference path =
    if str_eq reference "pymongo"
    then any (starts_with path) ("bson/" ∷ "gridfs/" ∷ "pymongo/" ∷ [])
    else if str_eq reference "specifications"
    then starts_with path "source/"
    else true

abbrev pub is_reviewed : String → String → Bool
is_reviewed reference path = not (is_supporting path) && is_code reference path

-- the paths that are to be reviewed, one by one
abbrev pub review_paths : String → List ChangedPath → ℕ
review_paths reference [] = 0
review_paths reference (p ∷ ps) =
    (if is_reviewed reference p.path then 1 else 0) + review_paths reference ps

-- no reference has both names
one_name :
    (reference : String) → (str_eq reference "pymongo" && str_eq reference "specifications") ≡ false
one_name reference = elim (Bool-cases (str_eq reference "pymongo")) [
  | inl e ↦ let same : reference ≡ "pymongo" = (eq_iff reference "pymongo").0 e in rw same refl
  | inr e ↦ rw e refl
]

-- the order of the tests makes no difference to whether a path is reviewed
chosen :
    (au ev te ts uv lo lb re co dc py sp code source : Bool)
    → (py && sp) ≡ false
    → contains review_categories (
        if au || (ev || false)
        then "automation"
        else if te || (ts || false)
        then "tests"
        else if uv || lo || lb
        then "dependencies"
        else if (re || (co || false)) || dc
        then "documentation"
        else if py && code
        then "source"
        else if sp && source
        then "specification"
        else if py || (sp || false)
        then "tooling"
        else "reference")
      ≡ (not (
            (au || (ev || (te || (ts || (dc || false)))))
            || (lo || (lb || false))
            || (uv || (re || (co || false))))
          && (if py then code else if sp then source else true))
chosen true ev te ts uv lo lb re co dc py sp code source h = ground arith
chosen false true te ts uv lo lb re co dc py sp code source h = ground arith
chosen false false true ts uv lo lb re co dc py sp code source h = ground arith
chosen false false false true uv lo lb re co dc py sp code source h = ground arith
chosen false false false false true lo lb re co dc py sp code source h = ground arith
chosen false false false false false true lb re co dc py sp code source h = ground arith
chosen false false false false false false true re co dc py sp code source h = ground arith
chosen false false false false false false false true co dc py sp code source h = ground arith
chosen false false false false false false false false true dc py sp code source h = ground arith
chosen false false false false false false false false false true py sp code source h = ground arith
chosen false false false false false false false false false false true true code source h = cc
chosen false false false false false false false false false false true false true source h =
    ground arith
chosen false false false false false false false false false false true false false source h =
    ground arith
chosen false false false false false false false false false false false true code true h =
    ground arith
chosen false false false false false false false false false false false true code false h =
    ground arith
chosen false false false false false false false false false false false false code source h =
    ground arith

category-reviewed :
    (reference path : String)
    → contains review_categories (reference_path_category reference path)
      ≡ is_reviewed reference path
unfolding reference_path_category
category-reviewed reference path =
    chosen (starts_with path ".github/") (starts_with path ".evergreen/") (starts_with path "test/")
      (starts_with path "tests/") (str_eq path "uv.lock") (ends_with path ".lock")
      (ends_with path ".lockb") (str_eq path "README.md") (str_eq path "CONTRIBUTING.md")
      (starts_with path "doc/") (str_eq reference "pymongo") (str_eq reference "specifications") _
      (starts_with path "source/") (one_name reference)

one_more :
    (b : Bool) (n rest : ℕ)
    → (if b then suc n else 0) + rest ≡ (if b then 1 else 0) + ((if b then n else 0) + rest)
one_more true n rest = omega arith
one_more false n rest = omega arith

review_sum-count :
    (category : String) (counts : Counts)
    → review_sum (count category counts)
      ≡ (if contains review_categories category then 1 else 0) + review_sum counts
unfolding count
review_sum-count category [] = refl
review_sum-count category ((k, n) ∷ rest) = elim (Bool-cases (str_eq category k)) [
  | inl e ↦
      let same : category ≡ k = (eq_iff category k).0 e in
      rw (e, count, same) (one_more (contains review_categories k) n (review_sum rest))
  | inr e ↦ ground (arith, review_sum-count category rest)
]

review_sum-count_all :
    (reference : String) (paths : List ChangedPath)
    → review_sum (count_all (map (λ p. reference_path_category reference p.path) paths))
      ≡ review_paths reference paths
unfolding count_all
review_sum-count_all reference [] = refl
review_sum-count_all reference (p ∷ ps) =
    review_sum-count (reference_path_category reference p.path) _
    ∙ rw (category-reviewed reference p.path) (
        ap (λ (n : ℕ). (if is_reviewed reference p.path then 1 else 0) + n)
          (review_sum-count_all reference ps))

review_paths-le :
    (reference : String) (paths : List ChangedPath) → review_paths reference paths ≤ length paths
review_paths-le reference [] = omega arith
review_paths-le reference (p ∷ ps) = ground (arith, review_paths-le reference ps)

length-map : {A B : Type 0} (f : A → B) (xs : List A) → length (map f xs) ≡ length xs
length-map f [] = refl
length-map f (x ∷ xs) = ground (arith, length-map f xs)

-- Of some changed paths, those are to be reviewed that are not of the automation, the tests, the
-- dependencies or the documentation, and that are where the code of the reference is: for `pymongo` and
-- `specifications` below certain directories, for any other reference anywhere. The rest are
-- informational, and the categories hold each path once.
pub summarize_reference_paths-total :
    (reference : String) (paths : List ChangedPath)
    → ((summarize_reference_paths reference paths).review ≡ review_paths reference paths)
      × ((summarize_reference_paths reference paths).informational
            + (summarize_reference_paths reference paths).review
          ≡ length paths)
      × (total (summarize_reference_paths reference paths).categories ≡ length paths)
unfolding summarize_reference_paths
summarize_reference_paths-total reference paths =
    let review = review_sum-count_all reference paths in
    (
      review,
      ground (arith, review, review_paths-le reference paths),
      total-count_all (map (λ p. reference_path_category reference p.path) paths)
          ∙ length-map (λ (p : ChangedPath). reference_path_category reference p.path) paths,
    )
