-- ===== src/Stringprep/Lines.antt =====
-- The lines that tools/generate_stringprep_tables.py writes.
use Prim.Native.String.{◌++◌ as append}
use lua_mongodb.Text.Print.{join, hex, decimal}
use lua_mongodb.Base.{
  ℕ, String, Bool, List, [], ◌∷◌, ◌++◌, leb, length, map, codes, ◌==◌, if◌then◌else◌,
}

-- the predicates of `stringprep`, the ten of `prohibited` together
pub record Tables : Type 0 where
  pub b1 : ℕ → Bool
  pub c12 : ℕ → Bool
  pub prohibited : List (ℕ → Bool)
  pub d1 : ℕ → Bool
  pub d2 : ℕ → Bool

abbrev pub hex_literal : ℕ → String
hex_literal n = append "0x" (hex n)

abbrev row_line : List String → String
row_line row = append "  " (append (join ", " row) ",")

-- the loop of `format_ranges`, with the row that is open
unfoldable pub range_rows : List String → List (ℕ × ℕ) → List String
unfolding join
range_rows [] [] = []
range_rows (item ∷ row) [] = row_line (item ∷ row) ∷ []
range_rows row ((first, last) ∷ values) =
    let longer = row ++ (hex_literal first ∷ hex_literal last ∷ []) in
    let full = length longer == 8 in
    (if full then row_line longer ∷ [] else []) ++ range_rows (if full then [] else longer) values

unfoldable pub format_ranges : String → List (ℕ × ℕ) → List String
unfolding range_rows
format_ranges name values = append "M." (append name " = {") ∷ range_rows [] values ++ "}" ∷ []

-- rows of eight values, from the row that is open
value_rows : List String → List String → List String
value_rows [] [] = []
value_rows (item ∷ row) [] = append "    " (append (join ", " (item ∷ row)) ",") ∷ []
value_rows row (v ∷ values) =
    let longer = row ++ v ∷ [] in
    let full = length longer == 8 in
    (if full then append "    " (append (join ", " longer) ",") ∷ [] else [])
    ++ value_rows (if full then [] else longer) values

abbrev entry_start : ℕ → String
entry_start c = append "  [" (append (hex_literal c) "] = {")

-- the lines of one decomposition: one line, if it has at most 100 characters
unfoldable pub decomposition_entry : ℕ → List ℕ → List String
unfolding join value_rows
decomposition_entry c normalized =
    let values = map hex_literal normalized in
    let entry = append (entry_start c) (append " " (append (join ", " values) " },")) in
    if leb (length (codes entry)) 100
    then entry ∷ []
    else entry_start c ∷ value_rows [] values ++ "  }," ∷ []

unfoldable pub combining_entry : ℕ → ℕ → List String
combining_entry c combining =
    append "  [" (append (hex_literal c) (append "] = " (append (decimal combining) ","))) ∷ []

unfoldable pub composition_line : ℕ → ℕ → List String
composition_line key value =
    append "  [" (append (decimal key) (append "] = " (append (hex_literal value) ","))) ∷ []

abbrev pub opening : List String
opening =
    "-- Generated by tools/generate_stringprep_tables.py from Python's Unicode 3.2 data."
    ∷ "-- Do not edit this file by hand." ∷ "local M = {}" ∷ "" ∷ "M.decompositions = {" ∷ []
