-- ===== src/Architecture/Check.antt =====
-- `check_source` of planning/check_architecture.py. The files below the root are a parameter, in the
-- order in which `sorted(root.rglob("*.lua"))` gives them.
pub mod Reads
pub mod Boundary
use lua_mongodb.Base.{
  ℕ, String, Bool, true, false, not, ◌&&◌, ◌||◌, Option, none, some, List, [], ◌∷◌, ◌++◌, contains,
  str_eq, ◌==◌, if◌then◌else◌,
}
use lua_mongodb.Graph.{Graph}
use lua_mongodb.Names.{add_name}
use lua_mongodb.Raise.{Result, ok, raise, ◌>>=◌}
use lua_mongodb.Text.{precedes}
use lua_mongodb.Architecture.Lexer.{Token, lua_tokens}
use lua_mongodb.Architecture.Imports.{
  SourcePath, module_name, literal_requires, runtime_global_accesses, runtime_owned_import,
  runtime_module,
}
use lua_mongodb.Architecture.Cycles.{Fault, out_of_fuel, dependency_cycles}

pub record SourceFile : Type 0 where
  pub path : SourcePath
  pub relative : String
  pub text : String

abbrev pub Modules : Type 0
Modules = List (String × SourceFile)

-- the messages: a cycle, or the file, the line, the module and what it imports or accesses
pub data Issue : Type 0 where
  dependency_cycle : List String → Issue
  runtime_import runtime_global : String → ℕ → String → String → Issue

-- the dictionary of modules, sorted by the name: of two files of the same name the later one counts
unfoldable pub add_module : String → SourceFile → Modules → Modules
unfolding precedes
add_module name file [] = (name, file) ∷ []
add_module name file ((m, f) ∷ ms) =
    let later = add_module name file ms in
    if str_eq name m
    then (m, file) ∷ ms
    else if precedes name m
    then (name, file) ∷ (m, f) ∷ ms
    else (m, f) ∷ later

unfoldable pub modules_of : List SourceFile → Modules → Modules
unfolding module_name add_module
modules_of [] modules = modules
modules_of (f ∷ fs) modules = modules_of fs (add_module (module_name f.path) f modules)

abbrev pub module_names : Modules → List String
module_names [] = []
module_names ((name, file) ∷ ms) = name ∷ module_names ms

-- `graph[name]`: the imports that are modules
unfoldable pub dependencies : List String → List (String × ℕ) → List String
unfolding add_name
dependencies modules [] = []
dependencies modules ((dependency, line) ∷ imports) =
    let rest = dependencies modules imports in
    if contains modules dependency then add_name dependency rest else rest

unfoldable pub import_issues : String → String → List (String × ℕ) → List Issue
unfolding runtime_module runtime_owned_import
import_issues relative name [] = []
import_issues relative name ((dependency, line) ∷ imports) =
    (if not (runtime_module name) && runtime_owned_import dependency
      then runtime_import relative line name dependency ∷ []
      else [])
    ++ import_issues relative name imports

unfoldable pub global_issues : String → String → List (String × ℕ) → List Issue
global_issues relative name [] = []
global_issues relative name ((access, line) ∷ accesses) =
    runtime_global relative line name access ∷ global_issues relative name accesses

-- the issues of one module
unfoldable pub boundary_issues : String → SourceFile → List Token → List Issue
unfolding import_issues global_issues literal_requires runtime_global_accesses runtime_module
boundary_issues name file tokens =
    import_issues file.relative name (literal_requires tokens)
    ++ (if runtime_module name
        then []
        else global_issues file.relative name (runtime_global_accesses tokens))

abbrev pub cycle_issues : List (List String) → List Issue
cycle_issues [] = []
cycle_issues (c ∷ cs) = dependency_cycle c ∷ cycle_issues cs

abbrev pub tokens_or_fault : Option (List Token) → Result Fault (List Token)
tokens_or_fault none = raise out_of_fuel
tokens_or_fault (some tokens) = ok tokens

-- what the loop over the modules gathers
pub record Gathered : Type 0 where
  pub graph : Graph
  pub issues : List Issue

module _ (is_alpha is_alnum : ℕ → Bool) where
  unfoldable pub gather : List String → Modules → Result Fault Gathered
  unfolding lua_tokens dependencies boundary_issues literal_requires
  gather names [] = ok (record { graph = []; issues = [] })
  gather names ((name, file) ∷ modules) = do
    tokens ← tokens_or_fault (lua_tokens is_alpha is_alnum file.text)
    rest ← gather names modules
    ok (record {
      graph = (name, dependencies names (literal_requires tokens)) ∷ rest.graph;
      issues = boundary_issues name file tokens ++ rest.issues;
    })

  unfoldable pub check_source : List SourceFile → Result Fault (List Issue)
  unfolding modules_of gather dependency_cycles
  check_source paths =
      let modules = modules_of paths [] in
      do
        gathered ← gather (module_names modules) modules
        cycles ← dependency_cycles gathered.graph
        ok (cycle_issues cycles ++ gathered.issues)
