-- ===== src/References/Verify.antt =====
-- Which commands verify the behaviour that a new commit of the specifications changes:
-- `verification_command_covers_identity`, `propose_verification_commands`,
-- `unverified_behavior_identities` and `build_behavior_verification` of planning/update_references.py.
-- A command that is not empty is a text: of any other value `shlex.split` raises.
pub mod Listed
pub mod Covered
use lua_mongodb.Base.{
  ℕ, String, Bool, true, false, not, ◌&&◌, ◌||◌, Option, none, some, List, [], ◌∷◌, ◌++◌, any,
  contains, str_eq, ◌==◌, if◌then◌else◌,
}
use lua_mongodb.Json.{Json, null, str, obj, Fields, lookup, get_or, truthy, hashable, is_text}
use lua_mongodb.Names.{add_name, sorted_names}
use lua_mongodb.Raise.{Result, ok, raise, ◌>>=◌}
use lua_mongodb.References.Delta.{Delta}
use lua_mongodb.References.Problem.{Py, crash}
use lua_mongodb.References.Steps.{item}
use lua_mongodb.Text.{precedes}
use lua_mongodb.Text.Search.{has_infix, split_once}

abbrev pub text_of : Json → Py String
text_of (str s) = Result.ok s
text_of _ = Result.raise crash

abbrev pub object_of : Json → Py Fields
object_of (obj fs) = Result.ok fs
object_of _ = Result.raise crash

-- `value in names`, of a set of texts
abbrev pub in_set : List String → Json → Py Bool
in_set names (str s) = Result.ok (contains names s)
in_set names value = if hashable value then Result.ok false else Result.raise crash

abbrev pub active_statuses : List String
active_statuses = "completed" ∷ "in_progress" ∷ "needs_review" ∷ []

-- `s.partition("::")[0]`
abbrev pub source_path : String → String
source_path s = elim (split_once "::" s) [ none ↦ s | some parts ↦ parts.0 ]

-- the records that are added, and those that others are changed to
unfoldable pub changed_to : List Fields → Py (List Fields)
changed_to [] = Result.ok []
changed_to (entry ∷ rest) = do
  to ← item (obj entry) "to"
  value ← object_of to
  values ← changed_to rest
  Result.ok (value ∷ values)

abbrev pub new_values : Delta → Py (List Fields)
new_values ownership =
    changed_to ownership.changed >>= λ values. Result.ok (ownership.added ++ values)

-- an activity that is under way or done, and whose evidence passed
unfoldable pub is_claimed : Fields → Py Bool
is_claimed value = in_set active_statuses (get_or value "activity_status" null) >>= λ active.
    Result.ok (active && is_text (get_or value "conformance_status" null) "passed")

abbrev pub identity_of : Fields → Py String
identity_of value = item (obj value) "source_identity" >>= text_of

-- a command with the identities that it verifies and the environments that these want
pub record Proposal : Type 0 where
  pub command : String
  pub identities : List String
  pub required_environments : List String

-- `if environment: proposal["required_environments"].add(environment)`
abbrev pub add_environment : Json → List String → Py (List String)
add_environment environment names =
    if truthy environment
    then (text_of environment >>= λ e. Result.ok (add_name e names))
    else Result.ok names

abbrev pub new_proposal : String → Proposal
new_proposal command = record { command = command; identities = []; required_environments = [] }

abbrev pub extended : String → Json → Proposal → Py Proposal
extended identity environment p =
    add_environment environment p.required_environments >>= λ environments.
    Result.ok (record p {
      identities = add_name identity p.identities;
      required_environments = environments;
    })

-- `grouped.setdefault(command, ...)` and what is added to it, with the commands in order
unfoldable pub propose : String → String → Json → List Proposal → Py (List Proposal)
unfolding add_name precedes
propose command identity environment [] =
    extended identity environment (new_proposal command) >>= λ p. Result.ok (p ∷ [])
propose command identity environment (q ∷ rest) =
    let later = propose command identity environment rest in
    if str_eq command q.command
    then (extended identity environment q >>= λ p. Result.ok (p ∷ rest))
    else if precedes command q.command
    then (extended identity environment (new_proposal command) >>= λ p. Result.ok (p ∷ q ∷ rest))
    else (later >>= λ ps. Result.ok (q ∷ ps))

-- `shlex.split`, where `none` is `ValueError`
module _ (shell_words : String → Option (List String)) where
  abbrev pub runs_unified_tests : Option (List String) → Bool
  runs_unified_tests none = false
  runs_unified_tests (some words) =
      contains words "test-unified" || contains words "test-unified-meta"

  unfoldable pub verification_command_covers_identity : Fields → Py Bool
  unfolding has_infix split_once
  verification_command_covers_identity value =
      let command = get_or value "last_execution" null in
      if not (truthy command)
      then Result.ok false
      else if not (is_text (get_or value "record_type" null) "case")
      then Result.ok true
      else (do
        identity ← identity_of value
        text ← text_of command
        Result.ok (
            has_infix identity text
            || has_infix (source_path identity) text
            || runs_unified_tests (shell_words text)))

  -- whether the loop of `propose_verification_commands` does not `continue`
  unfoldable pub is_proposed : Fields → Py Bool
  unfolding is_claimed verification_command_covers_identity
  is_proposed value =
      if not (truthy (get_or value "last_execution" null))
      then Result.ok false
      else (is_claimed value >>= λ claimed.
          if claimed then verification_command_covers_identity value else Result.ok false)

  -- A `last_execution` that is true and no text is taken to raise, where the dictionary would have it as a
  -- key if it can be hashed; the ledger has texts only.
  abbrev pub add_value : Fields → List Proposal → Py (List Proposal)
  add_value value grouped = do
    command ← text_of (get_or value "last_execution" null)
    identity ← identity_of value
    propose command identity (get_or value "required_environment" null) grouped

  unfoldable pub propose_values : List Fields → List Proposal → Py (List Proposal)
  unfolding is_proposed propose
  propose_values [] grouped = Result.ok grouped
  propose_values (value ∷ rest) grouped = do
    proposed ← is_proposed value
    more ← (if proposed then add_value value grouped else Result.ok grouped)
    propose_values rest more

  unfoldable pub propose_verification_commands : Delta → Py (List Proposal)
  unfolding propose_values changed_to
  propose_verification_commands ownership =
      new_values ownership >>= λ values. propose_values values []

  unfoldable pub is_unverified : Fields → Py Bool
  unfolding is_claimed verification_command_covers_identity
  is_unverified value = is_claimed value >>= λ claimed.
      if claimed
      then (verification_command_covers_identity value >>= λ covered. Result.ok (not covered))
      else Result.ok false

  unfoldable pub unverified_values : List Fields → Py (List String)
  unfolding is_unverified
  unverified_values [] = Result.ok []
  unverified_values (value ∷ rest) = do
    unverified ← is_unverified value
    if unverified
        then (do
          identity ← identity_of value
          identities ← unverified_values rest
          Result.ok (identity ∷ identities))
        else unverified_values rest

  unfoldable pub unverified_behavior_identities : Delta → Py (List String)
  unfolding unverified_values changed_to sorted_names
  unverified_behavior_identities ownership = do
    values ← new_values ownership
    identities ← unverified_values values
    Result.ok (sorted_names identities)

pub record CommandResult : Type 0 where
  pub command : String
  pub exit_code : ℕ
  pub error : Option String

pub record BehaviorVerification : Type 0 where
  pub commands : List Proposal
  pub execution_status : String
  pub results : List CommandResult
  pub status : String
  pub unverified_identities : List String

abbrev pub is_empty {ℓ} : {A : Type ℓ} → List A → Bool
is_empty [] = true
is_empty (_ ∷ _) = false

abbrev pub command_failed : CommandResult → Bool
command_failed r = not (r.exit_code == 0)

unfoldable pub build_behavior_verification :
    List Proposal → List CommandResult → Bool → Bool → List String → BehaviorVerification
build_behavior_verification commands results required ran unverified = record {
  commands = commands;
  execution_status =
      if not ran
      then (if is_empty commands then "unavailable" else "not_run")
      else if any command_failed results
      then "failed"
      else if is_empty unverified
      then "passed"
      else "partial";
  results = results;
  status = if required then "required" else "not_required";
  unverified_identities = unverified;
}
