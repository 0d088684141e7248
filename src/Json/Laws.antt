-- ===== src/Json/Laws.antt =====
-- What reading a key gives after a key was written or removed.
use lua_mongodb.Base.{String, none, some, ◌≡◌, refl, arith, str_eq, eq_iff, if◌then◌else◌}
use lua_mongodb.Json.{Json, Fields, end, field, lookup, get_or, put, remove}

pub lookup-put :
    (k j : String) (v : Json) (fs : Fields)
    → lookup j (put k v fs) ≡ (if str_eq k j then some v else lookup j fs)
unfolding lookup put
lookup-put k j v end = refl
lookup-put k j v (field i w fs) =
    ground (arith, eq_iff k j, eq_iff i k, eq_iff i j, lookup-put k j v fs)

pub lookup-remove :
    (k j : String) (fs : Fields)
    → lookup j (remove k fs) ≡ (if str_eq k j then none else lookup j fs)
unfolding lookup remove
lookup-remove k j end = ground arith
lookup-remove k j (field i w fs) =
    ground (arith, eq_iff k j, eq_iff i k, eq_iff i j, lookup-remove k j fs)

pub get_or-put :
    (k j : String) (v d : Json) (fs : Fields)
    → get_or (put k v fs) j d ≡ (if str_eq k j then v else get_or fs j d)
unfolding get_or
get_or-put k j v d fs = ground (arith, lookup-put k j v fs)

pub get_or-remove :
    (k j : String) (d : Json) (fs : Fields)
    → get_or (remove k fs) j d ≡ (if str_eq k j then d else get_or fs j d)
unfolding get_or
get_or-remove k j d fs = ground (arith, lookup-remove k j fs)

-- Reading a key after writes and removals.
pub ruleset json_laws = (lookup-put, lookup-remove, get_or-put, get_or-remove)
