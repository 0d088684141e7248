-- ===== src/Names.antt =====
-- Sets of names as Python's `sorted` lists them: in the order of the code points, each name once.
pub mod Order
use lua_mongodb.Base.{String, Bool, List, [], ◌∷◌, contains, str_eq, if◌then◌else◌}
use lua_mongodb.Text.{precedes}

-- adding a name to a set
unfoldable pub add_name : String → List String → List String
unfolding precedes
add_name name [] = name ∷ []
add_name name (m ∷ ms) =
    let later = add_name name ms in
    if str_eq name m then m ∷ ms else if precedes name m then name ∷ m ∷ ms else m ∷ later

-- `sorted(set(names))`
unfoldable pub sorted_names : List String → List String
unfolding add_name
sorted_names [] = []
sorted_names (n ∷ ns) = add_name n (sorted_names ns)

-- the names of the first list that are not in the second, and those that are
unfoldable pub without_names : List String → List String → List String
without_names [] ns = []
without_names (m ∷ ms) ns =
    let rest = without_names ms ns in if contains ns m then rest else m ∷ rest

unfoldable pub common_names : List String → List String → List String
common_names [] ns = []
common_names (m ∷ ms) ns = let rest = common_names ms ns in if contains ns m then m ∷ rest else rest
