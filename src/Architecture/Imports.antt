-- ===== src/Architecture/Imports.antt =====
-- What planning/check_architecture.py reads off the tokens of a module: `literal_requires`,
-- `runtime_global_accesses`, and its tests on the names of modules.
use Prim.Native.String.{◌++◌ as append}
use lua_mongodb.Base.{
  ℕ, String, Bool, true, false, not, ◌&&◌, ◌||◌, Option, none, some, List, [], ◌∷◌, ◌++◌, any,
  contains, str_eq, if◌then◌else◌,
}
use lua_mongodb.Text.{starts_with}
use lua_mongodb.Architecture.Lexer.{string, identifier, symbol, Token}

abbrev runtime_import_prefixes : List String
runtime_import_prefixes =
    "copas" ∷ "cqueues" ∷ "crypto" ∷ "ffi" ∷ "http" ∷ "luv" ∷ "openssl" ∷ "posix" ∷ "resty.openssl"
    ∷ "socket" ∷ "ssl" ∷ "zlib" ∷ []

abbrev pub runtime_globals : List String
runtime_globals = "io" ∷ "os" ∷ "package" ∷ []

abbrev pub is_identifier : Token → Bool
is_identifier t = elim t.kind [ string ↦ false | identifier ↦ true | symbol ↦ false ]

abbrev pub is_string : Token → Bool
is_string t = elim t.kind [ string ↦ true | identifier ↦ false | symbol ↦ false ]

-- whether the token before makes it a field or a method
abbrev pub is_member : Option Token → Bool
is_member none = false
is_member (some t) = str_eq t.value "." || str_eq t.value ":"

abbrev pub is_require : Option Token → Token → Bool
is_require before t = is_identifier t && str_eq t.value "require" && not (is_member before)

abbrev pub behind_parenthesis : List Token → List Token
behind_parenthesis [] = []
behind_parenthesis (t ∷ ts) = if str_eq t.value "(" then ts else t ∷ ts

-- the argument, if it is a literal, with the line of `require`
abbrev pub argument : ℕ → List Token → List (String × ℕ)
argument line [] = []
argument line (t ∷ ts) = if is_string t then (t.value, line) ∷ [] else []

-- the loop, with the token before
unfoldable pub requires_after : Option Token → List Token → List (String × ℕ)
requires_after before [] = []
requires_after before (t ∷ ts) =
    (if is_require before t then argument t.line (behind_parenthesis ts) else [])
    ++ requires_after (some t) ts

unfoldable pub literal_requires : List Token → List (String × ℕ)
unfolding requires_after
literal_requires = requires_after none

abbrev pub is_access : Token → Token → Token → Bool
is_access owner separator member =
    is_identifier owner
    && contains runtime_globals owner.value
    && str_eq separator.value "."
    && is_identifier member

abbrev pub access : Token → Token → Token → List (String × ℕ)
access owner separator member =
    if is_access owner separator member
    then (append owner.value (append "." member.value), owner.line) ∷ []
    else []

-- the loop over three tokens in a row, from the first two on
unfoldable pub accesses_after : Token → Token → List Token → List (String × ℕ)
accesses_after owner separator [] = []
accesses_after owner separator (member ∷ ts) =
    access owner separator member ++ accesses_after separator member ts

unfoldable pub runtime_global_accesses : List Token → List (String × ℕ)
unfolding accesses_after
runtime_global_accesses (owner ∷ separator ∷ ts) = accesses_after owner separator ts
runtime_global_accesses _ = []

-- a file below the root: its directories, and its name without the suffix
pub record SourcePath : Type 0 where
  pub directories : List String
  pub stem : String

abbrev dotted : List String → String
dotted [] = ""
dotted (p ∷ ps) = append "." (append p (dotted ps))

unfoldable pub module_name : SourcePath → String
module_name path =
    append "mongodb"
      (dotted (path.directories ++ (if str_eq path.stem "init" then [] else path.stem ∷ [])))

abbrev pub is_below : String → String → Bool
is_below name prefix = str_eq name prefix || starts_with name (append prefix ".")

unfoldable pub runtime_owned_import : String → Bool
unfolding starts_with
runtime_owned_import name = any (is_below name) runtime_import_prefixes

unfoldable pub runtime_module : String → Bool
unfolding starts_with
runtime_module name = is_below name "mongodb.runtime"
