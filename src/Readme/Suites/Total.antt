-- ===== src/Readme/Suites/Total.antt =====
-- How many outcomes `suite_counts` counts.
use lua_mongodb.Base.{◌+◌, String, List, [], ◌∷◌, ◌≡◌, refl, ap, arith}
use lua_mongodb.Json.{Json, null, obj, Fields, get_or}
use lua_mongodb.Plan.Files.{File, missing, malformed, holds}
use lua_mongodb.Raise.{ok, bind-eq-ok, ok_unique}
use lua_mongodb.Readme.Layers.{catalog_prose_suites, catalog_mixed_suites}
use lua_mongodb.Readme.Problem.{Problem, read_json}
use lua_mongodb.Readme.Suites.{
  Suites, object_or, count_cases, count_requirements, none_missing, suite_counts,
  check_prose_suites, check_mixed_suites,
}
use lua_mongodb.Readme.Versions.{Sources}
use lua_mongodb.Readme.Suites.Under.{
  count_cases-under, outcomes_under, cases_of, requirements_of, count_requirements-under,
}

-- what `suite_counts` reads: the object under a key of a file that holds an object
abbrev pub Reads : File → String → Fields → Type 0
Reads file key fs =
    (document : Fields) × (file ≡ holds (obj document)) × (get_or document key null ≡ obj fs)

read_json-eq-ok :
    (description : String) (f : File) (fs : Fields)
    → read_json description f ≡ ok fs
    → f ≡ holds (obj fs)
unfolding read_json
read_json-eq-ok description missing fs h = cc
read_json-eq-ok description malformed fs h = cc
read_json-eq-ok description (holds (obj gs)) fs h =
    ap (λ (x : Fields). holds (obj x)) (ok_unique (ok gs) refl h)
read_json-eq-ok description (holds _) fs h = cc

object_or-eq-ok :
    (problem : Problem) (value : Json) (fs : Fields)
    → object_or problem value ≡ ok fs
    → value ≡ obj fs
object_or-eq-ok problem (obj gs) fs h = ap obj (ok_unique (ok gs) refl h)
object_or-eq-ok problem value fs h = cc

none_missing-eq-ok :
    (counts after : Suites) (missing : List String)
    → none_missing counts missing ≡ ok after
    → (counts ≡ after) × (missing ≡ [])
none_missing-eq-ok counts after [] h = (ok_unique (ok counts) refl h, refl)
none_missing-eq-ok counts after (s ∷ ss) h = cc

-- Where `suite_counts` returns, what it has counted under a suite and a status is the number of the
-- ledger's cases of this suite with this status, and of the catalog's requirements of this suite with
-- this status where the suite is a projected one.
pub suite_counts-total :
    (sources : Sources) (ledger_file catalog_file : File) (counts : Suites) (suite status : String)
    → suite_counts sources ledger_file catalog_file ≡ ok counts
    → (cases requirements : Fields) × Reads ledger_file "cases" cases
      × Reads catalog_file "requirements" requirements
      × (outcomes_under suite status counts
          ≡ cases_of sources suite status cases + requirements_of suite status requirements)
unfolding suite_counts
suite_counts-total sources ledger_file catalog_file counts suite status h =
    let (ledger, e0, h0) = bind-eq-ok (read_json "conformance ledger" ledger_file) _ h in
    let (cases, e1, h1) = bind-eq-ok (object_or _ (get_or ledger "cases" null)) _ h0 in
    let (from_cases, e2, h2) = bind-eq-ok (count_cases sources cases []) _ h1 in
    let (catalog, e3, h3) =
      bind-eq-ok (read_json "accepted specification catalog" catalog_file) _ h2 in
    let (suites, e4, h4) = bind-eq-ok (object_or _ (get_or catalog "suites" null)) _ h3 in
    let (requirements, e5, h5) =
      bind-eq-ok (object_or _ (get_or catalog "requirements" null)) _ h4 in
    let (_, e6, h6) = bind-eq-ok (check_prose_suites suites from_cases catalog_prose_suites) _ h5 in
    let (_, e7, h7) = bind-eq-ok (check_mixed_suites suites from_cases catalog_mixed_suites) _ h6 in
    let (whole, e8, h8) = bind-eq-ok (count_requirements requirements from_cases) _ h7 in
    let (same_counts, _) = none_missing-eq-ok whole counts _ h8 in
    (
      cases,
      requirements,
      (ledger, read_json-eq-ok _ ledger_file ledger e0, object_or-eq-ok _ _ cases e1),
      (catalog, read_json-eq-ok _ catalog_file catalog e3, object_or-eq-ok _ _ requirements e5),
      ground (
        arith,
        ap (outcomes_under suite status) same_counts,
        count_cases-under suite status sources cases [] from_cases e2,
        count_requirements-under suite status requirements from_cases whole e8,
      ),
    )
