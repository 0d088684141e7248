-- ===== src/References/Follow.antt =====
-- What is asked of a new commit before the checkout moves to it: `require_commit`, `validate_mappings`
-- and `change_summary` of planning/update_references.py.
use Prim.Native.String.{◌++◌ as append}
use lua_mongodb.Base.{String, Bool, false, List, [], ◌∷◌, contains, ◌==◌, if◌then◌else◌}
use lua_mongodb.Json.{Json, null, str, arr, nil, truthy, hashable}
use lua_mongodb.Raise.{Result, ok, raise}
use lua_mongodb.Counts.{Counts, count_all}
use lua_mongodb.References.Problem.{
  Py, crash, git_failed, not_fetched, fetched_unavailable, missing_path, missing_symbol,
}
use lua_mongodb.References.Steps.{
  Tools, Step, ◌>>=◌, ◌>>◌, lift, pure, check, git_step, require_git, item, get, elements_of,
}
use lua_mongodb.Text.{split_most, splitlines}

-- a value in an f-string
abbrev pub formatted : {W : Type 0} → Tools W → Json → String
formatted tools (str s) = s
formatted tools value = tools.str_of value

module _ {W : Type 0} (tools : Tools W) where
  unfoldable pub require_commit : String → String → Step W (Unit {0})
  require_commit checkout commit =
      let object = append commit "^{commit}" in
      git_step tools checkout ("cat-file" ∷ "-e" ∷ object ∷ []) >>= λ available.
      if available.exit_code == 0 then pure tt else (do
        fetched ← git_step tools checkout ("fetch" ∷ "--no-tags" ∷ "origin" ∷ commit ∷ [])
        check (fetched.exit_code == 0) (not_fetched commit)
        again ← git_step tools checkout ("cat-file" ∷ "-e" ∷ object ∷ [])
        check (again.exit_code == 0) (fetched_unavailable commit))

  -- `symbol not in update_plan.declared_symbols(source)`, at a symbol that is not empty
  abbrev pub declares : List String → Json → Py Bool
  declares names (str symbol) = Result.ok (contains names symbol)
  declares names symbol = if hashable symbol then Result.ok false else Result.raise crash

  abbrev pub validate_symbol : String → String → Json → Json → Step W (Unit {0})
  validate_symbol checkout object path symbol =
      if truthy symbol
      then (do
        source ←
            require_git tools checkout ("show" ∷ object ∷ [])
              (git_failed "could not read mapped path")
        declared ← lift (declares (tools.declared_symbols source) symbol)
        check declared (missing_symbol symbol))
      else pure tt

  unfoldable pub validate_mapping : String → String → Json → Step W (Unit {0})
  unfolding require_git
  validate_mapping checkout commit mapping = do
    path ← lift (item mapping "path")
    let object = append commit (append ":" (formatted tools path))
    present ← git_step tools checkout ("cat-file" ∷ "-e" ∷ object ∷ [])
    check (present.exit_code == 0) (missing_path path)
    symbol ← lift (get mapping "symbol" null)
    validate_symbol checkout object path symbol

  unfoldable pub validate_each : String → String → List Json → Step W (Unit {0})
  unfolding validate_mapping
  validate_each checkout commit [] = pure tt
  validate_each checkout commit (mapping ∷ rest) =
      validate_mapping checkout commit mapping >> validate_each checkout commit rest

  unfoldable pub validate_mappings : String → Json → String → Step W (Unit {0})
  unfolding validate_each
  validate_mappings checkout reference commit = do
    mappings ← lift (get reference "mappings" (arr nil))
    each ← lift (elements_of mappings)
    validate_each checkout commit each

  -- the first character of a line's status; a line that begins with a tab has none
  abbrev pub status_of_field : List String → Py String
  status_of_field (String.◌∷◌ c s ∷ rest) = Result.ok (String.◌∷◌ c String.[])
  status_of_field _ = Result.raise crash

  unfoldable pub line_statuses : List String → Py (List String)
  unfolding split_most
  line_statuses [] = Result.ok []
  line_statuses (String.[] ∷ lines) = line_statuses lines
  line_statuses (line ∷ lines) = elim (status_of_field (split_most 1 9 line)) [
    | raise e ↦ Result.raise e
    | ok status ↦ elim (line_statuses lines) [
      | raise e ↦ Result.raise e
      | ok rest ↦ Result.ok (status ∷ rest)
    ]
  ]

  abbrev pub counted : Py (List String) → Py Counts
  counted (ok statuses) = Result.ok (count_all statuses)
  counted (raise e) = Result.raise e

  unfoldable pub change_summary : String → String → String → Step W Counts
  unfolding require_git line_statuses count_all splitlines
  change_summary checkout old new = do
    output ←
        require_git tools checkout ("diff" ∷ "--name-status" ∷ old ∷ new ∷ [])
          (git_failed "could not compare reference commits")
    lift (counted (line_statuses (splitlines output)))
