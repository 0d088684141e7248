-- ===== src/Architecture/Check/Boundary.antt =====
-- What `check_source` promises of the modules that it has no issue with.
use lua_mongodb.Base.{
  ℕ, String, Bool, true, false, Option, none, some, List, [], ◌∷◌, ◌++◌, ◌≡◌, ◌⊎◌, inl, inr, refl,
  sym, subst, ap, ◌∙◌, arith, In, contains, str_eq, append-eq-nil, Bool-cases, if◌then◌else◌,
}
use lua_mongodb.Graph.{Graph, targets, Edge, Walk, edge, then_edge}
use lua_mongodb.Raise.{ok, bind-eq-ok, ok_unique}
use lua_mongodb.Architecture.Check.Reads.{
  IsBelow, IsOwned, runtime_owned_import-IsOwned, runtime_module-IsBelow, IsRequire, IsAccess,
  names_of, literal_requires-IsRequire, runtime_global_accesses-IsAccess, dependencies-In,
}
use lua_mongodb.Architecture.Check.{
  dependencies, SourceFile, Modules, modules_of, module_names, import_issues, global_issues,
  boundary_issues, cycle_issues, tokens_or_fault, Gathered, gather, check_source,
}
use lua_mongodb.Architecture.Cycles.{dependency_cycles}
use lua_mongodb.Architecture.Cycles.Order.{dependency_cycles-IsAcyclic}
use lua_mongodb.Architecture.Imports.{
  literal_requires, runtime_global_accesses, runtime_owned_import, runtime_module,
}
use lua_mongodb.Architecture.Lexer.{Token, lua_tokens}

-- A module keeps to its side of the boundary: it is part of the runtime, or it requires nothing that
-- the runtime owns and accesses none of the runtime's globals.
abbrev pub KeepsBoundary : String → List Token → Type 0
KeepsBoundary name tokens =
    IsBelow name "mongodb.runtime"
    ⊎ (((required : String) → IsRequire tokens required → ¬ IsOwned required) × (¬ IsAccess tokens))

import_issues-owned :
    (relative name : String) (imports : List (String × ℕ)) (required : String)
    → runtime_module name ≡ false
    → import_issues relative name imports ≡ []
    → In required (names_of imports)
    → runtime_owned_import required ≡ false
unfolding import_issues
import_issues-owned relative name [] required outside h i = absurd i
import_issues-owned relative name ((dependency, line) ∷ imports) required outside h i =
    let (here, later) = append-eq-nil _ (import_issues relative name imports) h in
    elim i [
      | inl same ↦ subst (λ (n : String). runtime_owned_import n ≡ false) (sym same) (ground arith)
      | inr j ↦ import_issues-owned relative name imports required outside later j
    ]

global_issues-nil :
    (relative name : String) (accesses : List (String × ℕ))
    → global_issues relative name accesses ≡ []
    → accesses ≡ []
unfolding global_issues
global_issues-nil relative name [] h = refl
global_issues-nil relative name (a ∷ accesses) h = cc

boundary_issues-KeepsBoundary :
    (name : String) (file : SourceFile) (tokens : List Token)
    → boundary_issues name file tokens ≡ []
    → KeepsBoundary name tokens
unfolding boundary_issues
boundary_issues-KeepsBoundary name file tokens h =
    let (imports, globals) =
      append-eq-nil (import_issues file.relative name (literal_requires tokens)) _ h in
    elim (Bool-cases (runtime_module name)) [
      | inl inside ↦ inl (runtime_module-IsBelow name inside)
      | inr outside ↦ inr (
        λ required r. runtime_owned_import-IsOwned required (
            import_issues-owned file.relative name (literal_requires tokens) required outside
              imports (literal_requires-IsRequire tokens required r)),
        runtime_global_accesses-IsAccess tokens (
            global_issues-nil file.relative name (runtime_global_accesses tokens)
              (rw outside at globals)),
      )
    ]

cycle_issues-nil : (cs : List (List String)) → cycle_issues cs ≡ [] → cs ≡ []
cycle_issues-nil [] h = refl
cycle_issues-nil (c ∷ cs) h = cc

-- the dictionary's file of a name
abbrev pub find_module : String → Modules → Option SourceFile
find_module name [] = none
find_module name ((m, file) ∷ modules) =
    if str_eq m name then some file else find_module name modules

some_unique : {A : Type 0} {a b : A} → some a ≡ some b → a ≡ b
some_unique h = cc

module _ (is_alpha is_alnum : ℕ → Bool) where
  -- each module has tokens, and keeps to its side
  abbrev pub AllKeep : Modules → Type 0
  AllKeep [] = Unit
  AllKeep ((name, file) ∷ modules) =
      ((tokens : List Token) × (lua_tokens is_alpha is_alnum file.text ≡ some tokens)
        × KeepsBoundary name tokens)
      × AllKeep modules

  tokens_or_fault-ok :
      (m : Option (List Token)) (tokens : List Token)
      → tokens_or_fault m ≡ ok tokens
      → m ≡ some tokens
  tokens_or_fault-ok none tokens h = cc
  tokens_or_fault-ok (some ts) tokens h = cc

  gather-AllKeep :
      (names : List String) (modules : Modules) (g : Gathered)
      → gather is_alpha is_alnum names modules ≡ ok g
      → g.issues ≡ []
      → AllKeep modules
  unfolding gather
  gather-AllKeep names [] g h clean = tt
  gather-AllKeep names ((name, file) ∷ modules) g h clean =
      let (tokens, lexed, h₁) =
        bind-eq-ok (tokens_or_fault (lua_tokens is_alpha is_alnum file.text)) _ h in
      let (rest, gathered, h₂) = bind-eq-ok (gather is_alpha is_alnum names modules) _ h₁ in
      let total = ap Gathered.issues (ok_unique (ok _) refl h₂) ∙ clean in
      let (here, later) = append-eq-nil (boundary_issues name file tokens) rest.issues total in
      (
        (
          tokens,
          tokens_or_fault-ok _ tokens lexed,
          boundary_issues-KeepsBoundary name file tokens here,
        ),
        gather-AllKeep names modules rest gathered later,
      )

  -- a module requires another one, in its tokens
  pub record Requires (modules : Modules) (name required : String) : Type 0 where
    pub file : SourceFile
    pub tokens : List Token
    pub found : find_module name modules ≡ some file
    pub lexed : lua_tokens is_alpha is_alnum file.text ≡ some tokens
    pub call : IsRequire tokens required
    pub is_module : contains (module_names modules) required ≡ true

  -- by one `require` or by more
  pub data Reaches (modules : Modules) (name : String) : String → Type 0 where
    directly : {a : String} → Requires modules name a → Reaches modules name a
    by_way_of :
        {a b : String} → Reaches modules name a → Requires modules a b → Reaches modules name b

  -- no module reaches itself, and each keeps to its side
  pub record IsSound (modules : Modules) : Type 0 where
    pub acyclic : (name : String) → ¬ Reaches modules name name
    pub keep : AllKeep modules

  -- what the graph has for a module
  gather-targets :
      (names : List String) (modules : Modules) (g : Gathered) (name : String) (file : SourceFile)
      (tokens : List Token)
      → gather is_alpha is_alnum names modules ≡ ok g
      → find_module name modules ≡ some file
      → lua_tokens is_alpha is_alnum file.text ≡ some tokens
      → targets g.graph name ≡ dependencies names (literal_requires tokens)
  unfolding gather targets
  gather-targets names [] g name file tokens h found lexed = cc
  gather-targets names ((m, f) ∷ modules) g name file tokens h found lexed =
      let (here, lexed_here, h₁) =
        bind-eq-ok (tokens_or_fault (lua_tokens is_alpha is_alnum f.text)) _ h in
      let (rest, gathered, h₂) = bind-eq-ok (gather is_alpha is_alnum names modules) _ h₁ in
      let graph = ap Gathered.graph (ok_unique (ok _) refl h₂) in
      subst (λ (x : Graph). targets x name ≡ dependencies names (literal_requires tokens)) graph
        (elim (Bool-cases (str_eq m name)) [
          | inl e ↦
              let same_file : f ≡ file = some_unique (rw e at found) in
              let same_tokens : here ≡ tokens = some_unique (
                sym (tokens_or_fault-ok _ here lexed_here)
                ∙ ap (λ (x : SourceFile). lua_tokens is_alpha is_alnum x.text) same_file
                ∙ lexed) in
              rw (e, same_tokens) refl
          | inr e ↦
              rw e
                (gather-targets names modules rest name file tokens gathered (rw e at found) lexed)
        ])

  Requires-Edge :
      (modules : Modules) (g : Gathered) (name required : String)
      → gather is_alpha is_alnum (module_names modules) modules ≡ ok g
      → Requires modules name required
      → Edge g.graph name required
  Requires-Edge modules g name required h r =
      let names = module_names modules in
      subst (In required)
        (sym (gather-targets names modules g name r.file r.tokens h r.found r.lexed))
        (dependencies-In names (literal_requires r.tokens) required r.is_module
          (literal_requires-IsRequire r.tokens required r.call))

  Reaches-Walk :
      (modules : Modules) (g : Gathered) (name required : String)
      → gather is_alpha is_alnum (module_names modules) modules ≡ ok g
      → Reaches modules name required
      → Walk g.graph name required
  Reaches-Walk modules g name required h (directly r) =
      edge (Requires-Edge modules g name required h r)
  Reaches-Walk modules g name required h (by_way_of {a} w r) =
      then_edge (Reaches-Walk modules g name a h w) (Requires-Edge modules g a required h r)

  -- If `check_source` returns no issue, every module has tokens; none of them requires itself, by one
  -- `require` of a literal or by several, each of which is called as no field and no method; and each
  -- module that is not `mongodb.runtime` or below it requires, in the same way, no library of the runtime
  -- and nothing below one, and has nowhere `io`, `os` or `package` with a dot and a name behind it.
  pub check_source-IsSound :
      (paths : List SourceFile)
      → check_source is_alpha is_alnum paths ≡ ok []
      → IsSound (modules_of paths [])
  unfolding check_source
  check_source-IsSound paths h =
      let modules = modules_of paths [] in
      let (g, gathers, h₁) =
        bind-eq-ok (gather is_alpha is_alnum (module_names modules) modules) _ h in
      let (cycles, searched, h₂) = bind-eq-ok (dependency_cycles g.graph) _ h₁ in
      let total : cycle_issues cycles ++ g.issues ≡ [] = ok_unique (ok _) refl h₂ in
      let (no_cycles, no_issues) = append-eq-nil (cycle_issues cycles) g.issues total in
      record {
        acyclic = λ name w.
            dependency_cycles-IsAcyclic g.graph
              (searched ∙ ap ok (cycle_issues-nil cycles no_cycles)) name
              (Reaches-Walk modules g name name gathers w);
        keep = gather-AllKeep (module_names modules) modules g gathers no_issues;
      }
