-- ===== src/Stringprep.antt =====
-- tools/generate_stringprep_tables.py: the ranges of a predicate on code points, the entries of the
-- composition table, and the text of the generated file. A character is its code point, and a text
-- that is normalised the list of its code points. Python's Unicode data are parameters: `stringprep`
-- as predicates, `unicodedata` as functions, and `int(item, 16)`, where `none` is `ValueError`.
pub mod Lines
pub mod Ranges
pub mod Entries
mod Tests
use Prim.Native.String.{◌++◌ as append}
use lua_mongodb.Base.{
  ℕ, zero, suc, ◌+◌, ◌*◌, String, Bool, true, false, not, ◌&&◌, ◌||◌, Option, none, some, List, [],
  ◌∷◌, ◌++◌, ltb, leb, length, str_eq, map, any, ◌==◌, if◌then◌else◌,
}
use lua_mongodb.Raise.{Result, ok, raise, ◌>>=◌}
use lua_mongodb.Text.Print.{join}
use lua_mongodb.Stringprep.Lines.{
  Tables, format_ranges, decomposition_entry, combining_entry, composition_line, opening,
}
use lua_mongodb.Text.{words, starts_with}

abbrev pub max_code_point : ℕ
max_code_point = 0x110000

-- from `HANGUL_FIRST` to `HANGUL_LAST`
abbrev pub is_hangul : ℕ → Bool
is_hangul c = leb 0xac00 c && leb c 0xd7a3

-- `start` and `previous`, which are set together
abbrev pub Open : Type 0
Open = Option (ℕ × ℕ)

-- what a round of the loop of `ranges` appends, and the range that it leaves open
abbrev pub closed_range : Bool → ℕ → Open → List (ℕ × ℕ)
closed_range false c open_range = []
closed_range true c none = []
closed_range true c (some (start, previous)) =
    if c == suc previous then [] else (start, previous) ∷ []

abbrev pub open_range : Bool → ℕ → Open → Open
open_range false c r = r
open_range true c none = some (c, c)
open_range true c (some (start, previous)) =
    if c == suc previous then some (start, c) else some (c, c)

abbrev pub last_range : Open → List (ℕ × ℕ)
last_range none = []
last_range (some r) = r ∷ []

-- the loop, with the number of code points that are left
unfoldable pub ranges_from : (ℕ → Bool) → ℕ → ℕ → Open → List (ℕ × ℕ)
ranges_from predicate zero c r = last_range r
ranges_from predicate (suc left) c r =
    closed_range (predicate c) c r
    ++ ranges_from predicate left (suc c) (open_range (predicate c) c r)

-- the loop over the first code points
unfoldable pub ranges_below : ℕ → (ℕ → Bool) → List (ℕ × ℕ)
unfolding ranges_from
ranges_below limit predicate = ranges_from predicate limit 0 none

unfoldable pub ranges : (ℕ → Bool) → List (ℕ × ℕ)
ranges = ranges_below max_code_point

-- `any(table(character) for table in tables)`
unfoldable pub prohibited : List (ℕ → Bool) → ℕ → Bool
prohibited tables c = any (λ table. table c) tables

-- the exception that `int` and `chr` raise
pub data Fault : Type 0 where
  value_error : Fault

-- `unicodedata.ucd_3_2_0` and `int(item, 16)`
pub record Unicode : Type 0 where
  pub decomposition : ℕ → String
  pub nfc : List ℕ → List ℕ
  pub nfkd : ℕ → List ℕ
  pub combining : ℕ → ℕ
  pub int16 : String → Option ℕ

unfoldable pub values_of : Unicode → List String → Result Fault (List ℕ)
values_of u [] = ok []
values_of u (item ∷ items) = elim (u.int16 item) [
  | none ↦ raise value_error
  | some n ↦ values_of u items >>= λ ns. ok (n ∷ ns)
]

-- whether a text of code points is one character
abbrev pub is_character : List ℕ → ℕ → Bool
is_character (d ∷ []) c = d == c
is_character _ c = false

-- the key of a pair
abbrev pub pair_key : ℕ → ℕ → ℕ
pair_key a b = a * max_code_point + b

-- from the test on the number of values on; `chr` raises for a value that is no code point
unfoldable pub pair_entry : Unicode → ℕ → List ℕ → Result Fault (Option (ℕ × ℕ))
pair_entry u c (a ∷ b ∷ []) =
    if ltb a max_code_point && ltb b max_code_point
    then ok (if is_character (u.nfc (a ∷ b ∷ [])) c then some (pair_key a b, c) else none)
    else raise value_error
pair_entry u c _ = ok none

unfoldable pub composition_entry : Unicode → ℕ → Result Fault (Option (ℕ × ℕ))
unfolding values_of pair_entry words
composition_entry u c =
    if is_hangul c || (str_eq (u.decomposition c) "" || starts_with (u.decomposition c) "<")
    then ok none
    else values_of u (words (u.decomposition c)) >>= pair_entry u c

-- the lines of a loop over the code points, from one on
unfoldable pub each_code_point :
    (ℕ → Result Fault (List String)) → ℕ → ℕ → Result Fault (List String)
each_code_point body zero c = ok []
each_code_point body (suc left) c = do
  here ← body c
  rest ← each_code_point body left (suc c)
  ok (here ++ rest)

-- `normalized != character`
unfoldable pub decomposition_lines : Unicode → ℕ → Result Fault (List String)
decomposition_lines u c =
    ok (if is_hangul c || is_character (u.nfkd c) c then [] else decomposition_entry c (u.nfkd c))

unfoldable pub combining_lines : Unicode → ℕ → Result Fault (List String)
combining_lines u c = ok (if u.combining c == 0 then [] else combining_entry c (u.combining c))

unfoldable pub composition_lines : Unicode → ℕ → Result Fault (List String)
unfolding composition_entry
composition_lines u c = composition_entry u c >>= λ entry.
    ok (elim entry [ none ↦ [] | some (key, value) ↦ composition_line key value ])

-- `stringprep`, in the order of the source
abbrev pub table_lines : Tables → List String
table_lines tables =
    format_ranges "mapped_to_nothing" (ranges tables.b1)
    ++ ("" ∷ format_ranges "non_ascii_space" (ranges tables.c12))
    ++ ("" ∷ format_ranges "prohibited" (ranges (prohibited tables.prohibited)))
    ++ ("" ∷ format_ranges "randal" (ranges tables.d1))
    ++ ("" ∷ format_ranges "left_to_right" (ranges tables.d2))
    ++ "" ∷ []

unfoldable pub render_tables : Unicode → Tables → Result Fault String
unfolding each_code_point decomposition_lines combining_lines composition_lines
render_tables u tables = do
  decompositions ← each_code_point (decomposition_lines u) max_code_point 0
  combining ← each_code_point (combining_lines u) max_code_point 0
  composition ← each_code_point (composition_lines u) max_code_point 0
  ok (
      append
        (join "\n" (
          opening
          ++ decompositions
          ++ ("}" ∷ "" ∷ "M.combining = {" ∷ [])
          ++ combining
          ++ ("}" ∷ "" ∷ "M.composition = {" ∷ [])
          ++ composition
          ++ ("}" ∷ "" ∷ [])
          ++ table_lines tables
          ++ "return M" ∷ []))
        "\n")

-- `main`, from the flag `--check` and the committed file to the exit code and the file after
unfoldable pub main : Unicode → Tables → Bool → Option String → Result Fault (ℕ × Option String)
unfolding render_tables
main u tables check committed = do
  generated ← render_tables u tables
  ok (
      if check
      then (
        elim committed [ none ↦ 1 | some text ↦ if str_eq text generated then 0 else 1 ],
        committed,
      )
      else (0, some generated))
