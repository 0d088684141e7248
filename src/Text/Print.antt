-- ===== src/Text/Print.antt =====
-- Writing lists and numbers: `str.join` and the formats of numbers.
use Prim.Native.Nat.{◌/◌, ◌%◌}
use Prim.Native.String.{◌++◌ as append}
use lua_mongodb.Base.{ℕ, zero, suc, String, List, [], ◌∷◌, ltb, if◌then◌else◌}

-- `separator.join(texts)`
unfoldable pub join : String → List String → String
join separator [] = ""
join separator (s ∷ []) = s
join separator (s ∷ t ∷ rest) = append s (append separator (join separator (t ∷ rest)))

get_digit : List String → ℕ → String
get_digit [] n = ""
get_digit (d ∷ ds) zero = d
get_digit (d ∷ ds) (suc n) = get_digit ds n

digits : List String
digits =
    "0" ∷ "1" ∷ "2" ∷ "3" ∷ "4" ∷ "5" ∷ "6" ∷ "7" ∷ "8" ∷ "9" ∷ "a" ∷ "b" ∷ "c" ∷ "d" ∷ "e" ∷ "f"
    ∷ []

-- a number in a base of at most 16, with fuel for its digits
in_base : ℕ → ℕ → ℕ → String
in_base base zero n = ""
in_base base (suc fuel) n =
    let more = append (in_base base fuel (n / base)) (get_digit digits (n % base)) in
    if ltb n base then get_digit digits n else more

-- `f"{n:x}"` and `f"{n}"`; a number has at most as many digits as it counts, and one
unfoldable pub hex : ℕ → String
unfolding in_base get_digit digits
hex n = in_base 16 (suc n) n

unfoldable pub decimal : ℕ → String
unfolding in_base get_digit digits
decimal n = in_base 10 (suc n) n
