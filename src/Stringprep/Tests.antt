-- ===== src/Stringprep/Tests.antt =====
-- Runs of the definitions for tools/generate_stringprep_tables.py.
use lua_mongodb.Base.{
  ℕ, ◌+◌, Bool, ◌&&◌, ◌||◌, none, some, [], ◌∷◌, ◌≡◌, refl, leb, ltb, ◌==◌, str_eq, if◌then◌else◌,
}
use lua_mongodb.Raise.{ok}
use lua_mongodb.Stringprep.{max_code_point, Unicode, ranges_below, ranges, composition_entry}
use lua_mongodb.Stringprep.Entries.{composition_entry_unique}
use lua_mongodb.Text.Print.{hex}
use lua_mongodb.Stringprep.Lines.{format_ranges}
use lua_mongodb.Stringprep.Ranges.{in_ranges, in_ranges-ranges, IsSeparated, ranges-IsSeparated}

abbrev is_lower : ℕ → Bool
is_lower c = leb b'a' c && leb c b'z'

in_ranges-ranges_example : in_ranges 98 (ranges is_lower) ≡ (ltb 98 max_code_point && is_lower 98)
in_ranges-ranges_example = in_ranges-ranges is_lower 98

ranges-IsSeparated_example : IsSeparated 0 (ranges is_lower)
ranges-IsSeparated_example = ranges-IsSeparated is_lower

ranges_below-two :
    ranges_below 12 (λ c. leb 2 c && leb c 4 || c == 7 || leb 10 c)
    ≡ (2, 4) ∷ (7, 7) ∷ (10, 11) ∷ []
unfolding ranges_below
ranges_below-two = refl

format_ranges-one :
    format_ranges "randal"
      ((1470, 1470) ∷ (1472, 1472) ∷ (255, 4096) ∷ (0, 10) ∷ (64285, 64296) ∷ [])
    ≡ "M.randal = {" ∷ "  0x5be, 0x5be, 0x5c0, 0x5c0, 0xff, 0x1000, 0x0, 0xa," ∷ "  0xfb1d, 0xfb28,"
      ∷ "}" ∷ []
unfolding format_ranges hex
format_ranges-one = refl

-- A grave: the data of one character
abbrev unicode : Unicode
unicode = record {
  decomposition = λ c. if c == 0xc0 then "0041 0300" else "";
  nfc = λ x. 0xc0 ∷ [];
  nfkd = λ c. if c == 0xc0 then 0x41 ∷ 0x300 ∷ [] else c ∷ [];
  combining = λ c. if c == 0x300 then 230 else 0;
  int16 = λ s. if str_eq s "0041" then some 0x41 else if str_eq s "0300" then some 0x300 else none;
}

grave-composition_entry : composition_entry unicode 0xc0 ≡ ok (some (72417280 + 768, 0xc0))
unfolding composition_entry lua_mongodb.Text.starts_with
grave-composition_entry = refl

composition_entry_unique_example : (◌≡◌ {A = ℕ} 0xc0 0xc0) × (◌≡◌ {A = ℕ} 0xc0 0xc0)
composition_entry_unique_example =
    composition_entry_unique unicode 0xc0 0xc0 (72417280 + 768) 0xc0 0xc0 grave-composition_entry
      grave-composition_entry
