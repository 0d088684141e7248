-- ===== src/Readme/Versions.antt =====
-- Which fixtures run on old servers only: `_server_version`, `_requirements_are_old_server_only` and
-- `_is_old_server_only_fixture` of planning/update_readme_compatibility.py.
pub mod Old
use Prim.Native.Char.{Char, code}
use lua_mongodb.Base.{
  ℕ, zero, suc, ◌+◌, ◌-◌, ◌*◌, String, Bool, true, false, not, ◌&&◌, ◌||◌, Option, none, some, List,
  [], ◌∷◌, ltb, leb, ◌==◌, str_eq, if◌then◌else◌,
}
use lua_mongodb.Json.{Json, null, str, arr, elements, obj, Fields, get_or, is_text}
use lua_mongodb.Plan.Files.{File}
use lua_mongodb.Raise.{Result, ok, raise, ◌>>=◌}
use lua_mongodb.Readme.Problem.{
  Py, fail, crash, check, read_json, invalid_version, requirements_not_array,
  requirement_not_object, no_source, invalid_test_index, test_not_object,
}
use lua_mongodb.Text.{split_on}
use lua_mongodb.Text.Search.{after_prefix}

-- What the program reads of its surroundings: the value of a character that is a decimal digit, and
-- the fixture at a path below the specifications. The documents that the source keeps in
-- `fixture_documents` are those files.
pub record Sources : Type 0 where
  pub digit : ℕ → Option ℕ
  pub fixture : String → File

abbrev pub Version : Type 0
Version = ℕ × ℕ × ℕ

-- where `$` matches: at the end, or before a newline that ends the text
abbrev ends_line : String → Bool
ends_line s = str_eq s "" || str_eq s "\n"

module _ (digit : ℕ → Option ℕ) where
  -- `int` of a text of digits, after those that `n` has
  more_digits : ℕ → String → Option ℕ
  more_digits n String.[] = some n
  more_digits n (String.◌∷◌ c s) = elim (digit (code c)) [
    | none ↦ none
    | some d ↦ more_digits (10 * n + d) s
  ]

  unfoldable pub number_of : String → Option ℕ
  unfolding more_digits
  number_of String.[] = none
  number_of (String.◌∷◌ c s) = more_digits 0 (String.◌∷◌ c s)

  abbrev pub version_of : List String → Option Version
  version_of (a ∷ b ∷ []) = elim (number_of a) [
    | none ↦ none
    | some major ↦ elim (number_of b) [ none ↦ none | some minor ↦ some (major, minor, 0) ]
  ]
  version_of (a ∷ b ∷ c ∷ []) = elim (number_of a) [
    | none ↦ none
    | some major ↦ elim (number_of b) [
      | none ↦ none
      | some minor ↦ elim (number_of c) [ none ↦ none | some patch ↦ some (major, minor, patch) ]
    ]
  ]
  version_of _ = none

  abbrev pub valid_version : String → Option Version → Py Version
  valid_version identity none = fail (invalid_version identity)
  valid_version identity (some v) = ok v

  unfoldable pub server_version : Json → String → Py Version
  unfolding number_of split_on
  server_version (str value) identity = valid_version identity (version_of (split_on 46 value))
  server_version _ identity = fail (invalid_version identity)

  -- `version >= SUPPORTED_SERVER_FLOOR`
  abbrev pub supported : Version → Bool
  supported (major, minor, patch) =
      ltb 7 major || major == 7 && (ltb 0 minor || minor == 0 && leb 0 patch)

  -- `requirement.get("maxServerVersion")`: whether it is below the floor
  unfoldable pub is_old : Json → String → Py Bool
  unfolding server_version
  is_old null identity = ok false
  is_old maximum identity = server_version maximum identity >>= λ v. ok (not (supported v))

  abbrev pub requirement_is_old : Json → String → Py Bool
  requirement_is_old (obj fs) identity = is_old (get_or fs "maxServerVersion" null) identity
  requirement_is_old _ identity = fail (requirement_not_object identity)

  unfoldable pub all_old : List Json → String → Py Bool
  unfolding is_old
  all_old [] identity = ok true
  all_old (r ∷ rs) identity =
      let rest = all_old rs identity in
      requirement_is_old r identity >>= λ old. if old then rest else ok false

  abbrev pub some_old : List Json → String → Py Bool
  some_old [] identity = ok false
  some_old (r ∷ rs) identity = all_old (r ∷ rs) identity

  unfoldable pub requirements_are_old_server_only : Json → String → Py Bool
  unfolding all_old
  requirements_are_old_server_only null identity = ok false
  requirements_are_old_server_only (arr xs) identity = some_old (elements xs) identity
  requirements_are_old_server_only _ identity = fail (requirements_not_array identity)

  -- `(\d+)\]$` at the beginning of a text, after the digits that are read
  closing : ℕ → String → Option ℕ
  closing n String.[] = none
  closing n (String.◌∷◌ c s) = elim (digit (code c)) [
    | some d ↦ closing (10 * n + d) s
    | none ↦ if code c == 93 && ends_line s then some n else none
  ]

  index_at : String → Option ℕ
  index_at String.[] = none
  index_at (String.◌∷◌ c s) = elim (digit (code c)) [ none ↦ none | some d ↦ closing d s ]

  -- `re.search(r"::test\[(\d+)\]$", identity)`
  unfoldable pub test_index : String → Option ℕ
  unfolding closing index_at
  test_index String.[] = none
  test_index (String.◌∷◌ c s) =
      let later = test_index s in
      elim (after_prefix "::test[" (String.◌∷◌ c s)) [
        | none ↦ later
        | some rest ↦ elim (index_at rest) [ none ↦ later | some n ↦ some n ]
      ]

-- `tests[index - 1]`, at an index from 1 on
abbrev pub nth_test : List Json → ℕ → Option Json
nth_test tests zero = none
nth_test [] (suc index) = none
nth_test (t ∷ tests) (suc zero) = some t
nth_test (t ∷ tests) (suc (suc index)) = nth_test tests (suc index)

abbrev pub listed_test : Json → ℕ → Option Json
listed_test (arr tests) index = nth_test (elements tests) index
listed_test _ index = none

module _ (sources : Sources) where
  abbrev pub test_is_old : String → Fields → Option Json → Py Bool
  test_is_old identity document none = fail (invalid_test_index identity)
  test_is_old identity document (some (obj test)) = do
    whole ←
        requirements_are_old_server_only sources.digit (get_or document "runOnRequirements" null)
          identity
    if whole
        then ok true
        else requirements_are_old_server_only sources.digit (get_or test "runOnRequirements" null)
            identity
  test_is_old identity document (some _) = fail (test_not_object identity)

  abbrev pub fixture_is_old : String → Json → ℕ → Py Bool
  fixture_is_old identity (str source) index = do
    document ← read_json source (sources.fixture source)
    test_is_old identity document (listed_test (get_or document "tests" null) index)
  fixture_is_old identity _ index = fail (no_source identity)

  unfoldable pub is_old_server_only_fixture : String → Fields → Py Bool
  unfolding requirements_are_old_server_only test_index read_json
  is_old_server_only_fixture identity case =
      if is_text (get_or case "format" null) "unified"
      then elim (test_index sources.digit identity) [
        | none ↦ ok false
        | some index ↦ fixture_is_old identity (get_or case "source" null) index
      ]
      else ok false
