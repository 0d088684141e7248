-- ===== src/Readme/Versions/Old.antt =====
-- The servers of a fixture that runs on old servers only.
use lua_mongodb.Base.{
  ℕ, ◌<◌, String, Bool, true, false, not, Option, List, [], ◌∷◌, ◌≡◌, refl, ap, ◌∙◌, arith,
  if◌then◌else◌,
}
use lua_mongodb.Json.{Json, Items, null, bool, int, str, arr, elements, obj, Fields, get_or}
use lua_mongodb.Raise.{ok, raise, ◌>>=◌, bind-eq-ok, ok_unique}
use lua_mongodb.Readme.Problem.{Py}
use lua_mongodb.Readme.Versions.{
  Version, supported, server_version, is_old, requirement_is_old, all_old, some_old,
  requirements_are_old_server_only,
}

supported_major : (digit : ℕ → Option ℕ) (v : Version) → supported digit v ≡ false → v.0 < 7
supported_major digit (major, minor, patch) h = ground arith

module _ (digit : ℕ → Option ℕ) (identity : String) where
  -- an object with a `maxServerVersion` that is older than 7.0.0
  abbrev pub IsOld : Json → Type 0
  IsOld r =
      (fs : Fields) × (v : Version) × (r ≡ obj fs)
      × (server_version digit (get_or fs "maxServerVersion" null) identity ≡ ok v)
      × (v.0 < 7)

  old_version :
      (m : Py Version)
      → (m >>= λ v. ok (not (supported digit v))) ≡ ok true
      → (v : Version) × (m ≡ ok v) × (v.0 < 7)
  old_version (ok v) h =
      let old : not (supported digit v) ≡ true = ok_unique (ok (not (supported digit v))) refl h in
      (v, refl, supported_major digit v (ground arith))
  old_version (raise e) h = cc

  is_old-eq-true :
      (maximum : Json)
      → is_old digit maximum identity ≡ ok true
      → (v : Version) × (server_version digit maximum identity ≡ ok v) × (v.0 < 7)
  unfolding is_old
  is_old-eq-true null h = cc
  is_old-eq-true (bool b) h = old_version _ h
  is_old-eq-true (int n) h = old_version _ h
  is_old-eq-true (str s) h = old_version _ h
  is_old-eq-true (arr xs) h = old_version _ h
  is_old-eq-true (obj fs) h = old_version _ h

  requirement_is_old-IsOld : (r : Json) → requirement_is_old digit r identity ≡ ok true → IsOld r
  requirement_is_old-IsOld (obj fs) h =
      let (v, e, l) = is_old-eq-true (get_or fs "maxServerVersion" null) h in (fs, v, refl, e, l)
  requirement_is_old-IsOld null h = cc
  requirement_is_old-IsOld (bool b) h = cc
  requirement_is_old-IsOld (int n) h = cc
  requirement_is_old-IsOld (str s) h = cc
  requirement_is_old-IsOld (arr xs) h = cc

  both_old :
      (b : Bool) (rest : Py Bool)
      → (if b then rest else ok false) ≡ ok true
      → (b ≡ true) × (rest ≡ ok true)
  both_old true rest h = (refl, h)
  both_old false rest h = cc

  all_old-cons :
      (x : Json) (xs : List Json)
      → all_old digit (x ∷ xs) identity ≡ ok true
      → (requirement_is_old digit x identity ≡ ok true) × (all_old digit xs identity ≡ ok true)
  unfolding all_old
  all_old-cons x xs h =
      let (b, first, later) = bind-eq-ok (requirement_is_old digit x identity) _ h in
      let (is_true, rest) = both_old b (all_old digit xs identity) later in
      (first ∙ ap (λ (c : Bool). ok c) is_true, rest)

  abbrev pub AllOld : List Json → Type 0
  AllOld [] = Unit
  AllOld (r ∷ rs) = IsOld r × AllOld rs

  all_old-AllOld : (rs : List Json) → all_old digit rs identity ≡ ok true → AllOld rs
  all_old-AllOld [] h = tt
  all_old-AllOld (x ∷ xs) h =
      let (first, rest) = all_old-cons x xs h in
      (requirement_is_old-IsOld x first, all_old-AllOld xs rest)

  some_old-AllOld :
      (rs : List Json) → some_old digit rs identity ≡ ok true → (¬ (rs ≡ [])) × AllOld rs
  some_old-AllOld [] h = cc
  some_old-AllOld (r ∷ rs) h = (λ e. cc, all_old-AllOld (r ∷ rs) h)

  -- The requirements of a fixture that is found to run on old servers only are a list that is not empty,
  -- each of whose entries is an object with a `maxServerVersion` whose first number is below 7.
  pub requirements_are_old_server_only-AllOld :
      (requirements : Json)
      → requirements_are_old_server_only digit requirements identity ≡ ok true
      → (xs : Items) × (requirements ≡ arr xs) × (¬ (elements xs ≡ [])) × AllOld (elements xs)
  unfolding requirements_are_old_server_only
  requirements_are_old_server_only-AllOld (arr xs) h =
      let (some_there, each) = some_old-AllOld (elements xs) h in (xs, refl, some_there, each)
  requirements_are_old_server_only-AllOld null h = cc
  requirements_are_old_server_only-AllOld (bool b) h = cc
  requirements_are_old_server_only-AllOld (int n) h = cc
  requirements_are_old_server_only-AllOld (str s) h = cc
  requirements_are_old_server_only-AllOld (obj fs) h = cc
