-- ===== src/Text.antt =====
-- The methods of Python's `str` that the tooling calls: `strip`, `split`, `splitlines` and
-- `startswith`.
pub mod Print
pub mod Search
use Prim.Native.Char.{Char, code}
use lua_mongodb.Base.{
  ℕ, zero, suc, String, Bool, true, false, ◌&&◌, ◌||◌, List, [], ◌∷◌, leb, ltb, ◌==◌, if◌then◌else◌,
}

abbrev within : ℕ → ℕ → ℕ → Bool
within lo hi c = leb lo c && leb c hi

-- `isspace`, which holds of the separators 28 to 31 too
unfoldable pub is_space : ℕ → Bool
is_space c =
    within 9 13 c
    || within 28 32 c
    || c == 133
    || c == 160
    || c == 5760
    || within 8192 8202 c
    || within 8232 8233 c
    || c == 8239
    || c == 8287
    || c == 12288

-- where `splitlines` ends a line
unfoldable pub is_line_end : ℕ → Bool
is_line_end c = within 10 13 c || within 28 30 c || c == 133 || within 8232 8233 c

lstrip : String → String
lstrip String.[] = String.[]
lstrip (String.◌∷◌ c s) = let rest = lstrip s in if is_space (code c) then rest else String.◌∷◌ c s

add_left : Char → String → String
add_left c String.[] = if is_space (code c) then String.[] else String.◌∷◌ c String.[]
add_left c (String.◌∷◌ d s) = String.◌∷◌ c (String.◌∷◌ d s)

rstrip : String → String
rstrip String.[] = String.[]
rstrip (String.◌∷◌ c s) = add_left c (rstrip s)

unfoldable pub strip : String → String
unfolding lstrip rstrip add_left is_space
strip s = rstrip (lstrip s)

-- a character before the first of some texts
unfoldable pub onto_first : Char → List String → List String
onto_first c [] = String.◌∷◌ c String.[] ∷ []
onto_first c (s ∷ rest) = String.◌∷◌ c s ∷ rest

-- `s.split(separator)`
unfoldable pub split_on : ℕ → String → List String
unfolding onto_first
split_on separator String.[] = String.[] ∷ []
split_on separator (String.◌∷◌ c s) =
    let rest = split_on separator s in
    if code c == separator then String.[] ∷ rest else onto_first c rest

-- `s.split(separator, most)`
unfoldable pub split_most : ℕ → ℕ → String → List String
unfolding onto_first
split_most zero separator s = s ∷ []
split_most (suc most) separator String.[] = String.[] ∷ []
split_most (suc most) separator (String.◌∷◌ c s) = elim (code c == separator) [
  | true ↦ String.[] ∷ split_most most separator s
  | false ↦ onto_first c (split_most (suc most) separator s)
]

-- the words of a text; the flag is whether a word is open
words_from : Bool → String → List String
words_from open_word String.[] = if open_word then String.[] ∷ [] else []
words_from open_word (String.◌∷◌ c s) = elim (is_space (code c)) [
  | true ↦ elim open_word [ true ↦ String.[] ∷ words_from false s | false ↦ words_from false s ]
  | false ↦ onto_first c (words_from true s)
]

-- `s.split()`
unfoldable pub words : String → List String
unfolding words_from onto_first is_space
words = words_from false

-- the flag is whether the character before was a carriage return, which a newline belongs to
lines_from : Bool → String → List String
lines_from after_return String.[] = []
lines_from after_return (String.◌∷◌ c s) = elim (is_line_end (code c)) [
  | true ↦ elim (after_return && code c == 10) [
    | true ↦ lines_from false s
    | false ↦ String.[] ∷ lines_from (code c == 13) s
  ]
  | false ↦ onto_first c (lines_from false s)
]

-- `s.splitlines()`
unfoldable pub splitlines : String → List String
unfolding lines_from onto_first is_line_end
splitlines = lines_from false

-- `s.startswith(prefix)`
unfoldable pub starts_with : String → String → Bool
starts_with s String.[] = true
starts_with String.[] (String.◌∷◌ d p) = false
starts_with (String.◌∷◌ c s) (String.◌∷◌ d p) = code c == code d && starts_with s p

-- `a < b`, by code points
unfoldable pub precedes : String → String → Bool
precedes String.[] String.[] = false
precedes String.[] (String.◌∷◌ d t) = true
precedes (String.◌∷◌ c s) String.[] = false
precedes (String.◌∷◌ c s) (String.◌∷◌ d t) =
    let rest = precedes s t in ltb (code c) (code d) || code c == code d && rest
