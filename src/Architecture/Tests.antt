-- ===== src/Architecture/Tests.antt =====
-- Runs of the definitions for planning/check_architecture.py on small sources.
use lua_mongodb.Base.{ℕ, String, Bool, ◌&&◌, ◌||◌, some, List, [], ◌∷◌, ◌≡◌, refl, leb}
use lua_mongodb.Graph.{Graph, IsAcyclic}
use lua_mongodb.Raise.{ok}
use lua_mongodb.Architecture.Check.{
  SourceFile, dependency_cycle, runtime_import, modules_of, check_source,
}
use lua_mongodb.Architecture.Check.Boundary.{IsSound, check_source-IsSound}
use lua_mongodb.Architecture.Cycles.{dependency_cycles}
use lua_mongodb.Architecture.Cycles.Order.{dependency_cycles-IsAcyclic}
use lua_mongodb.Architecture.Lexer.{Token, string, identifier, lua_tokens}
use lua_mongodb.Architecture.Lexer.Ends.{lua_tokens-returns}

-- the letters and digits of ASCII
abbrev is_alpha : ℕ → Bool
is_alpha c = leb b'a' c && leb c b'z' || leb b'A' c && leb c b'Z'

abbrev is_alnum : ℕ → Bool
is_alnum c = is_alpha c || leb b'0' c && leb c b'9'

abbrev source : String
source = "local x = require(\"mongodb.b\") -- note\nx[[a]]"

lua_tokens-returns_example :
    (tokens : List Token) × (lua_tokens is_alpha is_alnum source ≡ some tokens)
lua_tokens-returns_example = lua_tokens-returns is_alpha is_alnum source

-- An escaped newline in a quoted string does not count as a line.
lua_tokens-escaped_newline :
    lua_tokens is_alpha is_alnum "'\\\n'\nx"
    ≡ some (
        record { kind = string; value = "\n"; line = 1 }
        ∷ record { kind = identifier; value = "x"; line = 2 }
        ∷ [])
unfolding lua_tokens
lua_tokens-escaped_newline = refl

abbrev file : String → String → SourceFile
file stem text = record {
  path = record { directories = []; stem = stem };
  relative = stem;
  text = text;
}

abbrev files : List SourceFile
files = file "a" "local b = require(\"mongodb.b\")" ∷ file "b" "return 1" ∷ []

files-check_source : check_source is_alpha is_alnum files ≡ ok []
unfolding check_source
files-check_source = refl

check_source-IsSound_example : IsSound is_alpha is_alnum (modules_of files [])
check_source-IsSound_example = check_source-IsSound is_alpha is_alnum files files-check_source

-- a module that requires itself, and one that the runtime owns
check_source-two_issues :
    check_source is_alpha is_alnum (file "a" "require 'mongodb.a' require'socket'" ∷ [])
    ≡ ok (
        dependency_cycle ("mongodb.a" ∷ "mongodb.a" ∷ [])
        ∷ runtime_import "a" 1 "mongodb.a" "socket"
        ∷ [])
unfolding check_source
check_source-two_issues = refl

abbrev diamond : Graph
diamond = ("a", "b" ∷ "c" ∷ []) ∷ ("b", "d" ∷ []) ∷ ("c", "d" ∷ []) ∷ ("d", []) ∷ []

diamond-dependency_cycles : dependency_cycles diamond ≡ ok []
unfolding dependency_cycles
diamond-dependency_cycles = refl

dependency_cycles-IsAcyclic_example : IsAcyclic diamond
dependency_cycles-IsAcyclic_example = dependency_cycles-IsAcyclic diamond diamond-dependency_cycles
