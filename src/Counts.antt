-- ===== src/Counts.antt =====
-- `collections.Counter` of texts as `dict(sorted(counts.items()))` gives it: with the keys in order.
use lua_mongodb.Base.{
  ℕ, suc, ◌+◌, String, List, [], ◌∷◌, ◌≡◌, refl, arith, length, str_eq, if◌then◌else◌,
}
use lua_mongodb.Text.{precedes}

abbrev pub Counts : Type 0
Counts = List (String × ℕ)

-- `counts[key] += 1`
unfoldable pub count : String → Counts → Counts
unfolding precedes
count key [] = (key, 1) ∷ []
count key ((k, n) ∷ rest) =
    let later = count key rest in
    if str_eq key k
    then (k, suc n) ∷ rest
    else if precedes key k
    then (key, 1) ∷ (k, n) ∷ rest
    else (k, n) ∷ later

unfoldable pub count_all : List String → Counts
unfolding count
count_all [] = []
count_all (key ∷ keys) = count key (count_all keys)

-- `sum(counts.values())`
abbrev pub total : Counts → ℕ
total [] = 0
total ((k, n) ∷ rest) = n + total rest

pub total-count : (key : String) (counts : Counts) → total (count key counts) ≡ suc (total counts)
unfolding count
total-count key [] = refl
total-count key ((k, n) ∷ rest) = ground (arith, total-count key rest)

-- Every key is counted once.
pub total-count_all : (keys : List String) → total (count_all keys) ≡ length keys
unfolding count_all
total-count_all [] = refl
total-count_all (key ∷ keys) =
    ground (arith, total-count key (count_all keys), total-count_all keys)
