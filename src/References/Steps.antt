-- ===== src/References/Steps.antt =====
-- Code of planning/update_references.py that runs git and reads and writes planning/references.json:
-- `run_git`, `require_git` and `read_document`. Git, the file system and the interpreter's `ast` are
-- no part of the repository, and are a parameter. What they do changes the world and not the file.
pub mod Keeps
use Prim.Native.String.{◌++◌ as append}
use lua_mongodb.Base.{
  ℕ, String, Bool, true, false, not, Option, none, some, List, [], ◌∷◌, str_eq, ◌==◌, if◌then◌else◌,
}
use lua_mongodb.Json.{Json, null, str, arr, obj, Fields, lookup, iterate}
use lua_mongodb.Plan.Files.{File, missing, malformed, holds}
use lua_mongodb.Raise.{Result, ok, raise}
use lua_mongodb.References.Problem.{
  Problem, Failure, Py, fail, crash, git_failed, unreadable, not_an_object,
}
use lua_mongodb.Text.{strip}

pub record Completed : Type 0 where
  pub exit_code : ℕ
  pub stdout : String
  pub stderr : String

-- `run_git` in a directory, a run of the interpreter in the root, `Path.exists`, `Path.resolve` of a
-- path below the root, `update_plan.declared_symbols` and `str`
pub record Tools (W : Type 0) : Type 0 where
  pub git : String → List String → W → Completed × W
  pub interpret : List String → W → Completed × W
  pub exists : String → W → Bool
  pub resolve : String → Option String
  pub declared_symbols : String → List String
  pub str_of : Json → String

-- references.json, and the rest
pub record Store (W : Type 0) : Type 0 where
  pub document : File
  pub world : W

abbrev pub Step : Type 0 → Type 0 → Type 0
Step W A = Store W → Py A × Store W

abbrev pub output_of : Problem → Completed → Py String
output_of problem completed =
    if completed.exit_code == 0 then ok (strip completed.stdout) else fail problem

abbrev pub read_object : File → Py Fields
read_object missing = fail unreadable
read_object malformed = fail unreadable
read_object (holds (obj fs)) = ok fs
read_object (holds _) = fail not_an_object

module _ {W : Type 0} where
  abbrev pub continue : {A B : Type 0} → (A → Step W B) → Py A × Store W → Py B × Store W
  continue f (ok a, s) = f a s
  continue f (raise e, s) = (raise e, s)

  infixl 5 ◌>>=◌ ◌>>◌
  abbrev pub ◌>>=◌ : {A B : Type 0} → Step W A → (A → Step W B) → Step W B
  ◌>>=◌ m f s = continue f (m s)

  abbrev pub ◌>>◌ : {A B : Type 0} → Step W A → Step W B → Step W B
  m >> k = m >>= λ _. k

  abbrev pub lift : {A : Type 0} → Py A → Step W A
  lift m s = (m, s)

  abbrev pub pure : {A : Type 0} → A → Step W A
  pure a s = (ok a, s)

  -- `if not b: raise ReferenceUpdateError(...)`
  abbrev pub check : Bool → Problem → Step W (Unit {0})
  check true problem s = (ok tt, s)
  check false problem s = (fail problem, s)

  abbrev pub git_step : Tools W → String → List String → Step W Completed
  git_step tools directory arguments s =
      let (completed, world) = tools.git directory arguments s.world in
      (ok completed, record s { world = world })

  -- the problem is the description, whose text ends in what git printed
  unfoldable pub require_git : Tools W → String → List String → Problem → Step W String
  unfolding strip
  require_git tools directory arguments problem =
      git_step tools directory arguments >>= λ completed. lift (output_of problem completed)

  unfoldable pub read_document : Step W Fields
  read_document s = (read_object s.document, s)

  abbrev pub write_document : Fields → Step W (Unit {0})
  write_document fs s = (ok tt, record s { document = holds (obj fs) })

-- `value[key]`
abbrev pub item : Json → String → Py Json
item (obj fs) key = elim (lookup key fs) [ none ↦ raise crash | some v ↦ ok v ]
item _ key = raise crash

-- `value.get(key, default)`
abbrev pub get : Json → String → Json → Py Json
get (obj fs) key default = ok (elim (lookup key fs) [ none ↦ default | some v ↦ v ])
get _ key default = raise crash

-- `for x in value`
abbrev pub elements_of : Json → Py (List Json)
elements_of value = elim (iterate value) [ none ↦ raise crash | some xs ↦ ok xs ]
