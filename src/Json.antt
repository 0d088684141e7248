-- ===== src/Json.antt =====
-- The values that `json.load` returns, with the Python operations that the tooling uses on them. An
-- object keeps its keys in order, and each key once. Numbers with a fraction do not occur.
pub mod Laws
use lua_mongodb.Base.{
  ℕ, zero, suc, String, Bool, true, false, not, ◌&&◌, ◌||◌, Option, none, some, List, [], ◌∷◌,
  str_eq, ◌==◌, if◌then◌else◌,
}

-- `negsuc n` is -(n + 1).
pub data ℤ : Type 0 where
  pos negsuc : ℕ → ℤ

mutual
  pub data Json : Type 0 where
    null : Json
    bool : Bool → Json
    int : ℤ → Json
    str : String → Json
    arr : Items → Json
    obj : Fields → Json

  pub data Items : Type 0 where
    nil : Items
    cons : Json → Items → Items

  pub data Fields : Type 0 where
    end : Fields
    field : String → Json → Fields → Fields

abbrev pub elements : Items → List Json
elements nil = []
elements (cons x xs) = x ∷ elements xs

abbrev pub array : List Json → Items
array [] = nil
array (x ∷ xs) = cons x (array xs)

abbrev pub entries : Fields → List (String × Json)
entries end = []
entries (field k v fs) = (k, v) ∷ entries fs

-- `d.get(k)`, where a key that is absent is told apart from one that holds null
unfoldable pub lookup : String → Fields → Option Json
lookup k end = none
lookup k (field j v fs) = if str_eq j k then some v else lookup k fs

-- `d.get(k, default)`
unfoldable pub get_or : Fields → String → Json → Json
get_or fs k default = elim (lookup k fs) [ none ↦ default | some v ↦ v ]

-- `k in d`
unfoldable pub has : Fields → String → Bool
has fs k = elim (lookup k fs) [ none ↦ false | some _ ↦ true ]

-- `d[k] = v`
unfoldable pub put : String → Json → Fields → Fields
put k v end = field k v end
put k v (field j w fs) = if str_eq j k then field j v fs else field j w (put k v fs)

-- `d.pop(k, None)`
unfoldable pub remove : String → Fields → Fields
remove k end = end
remove k (field j w fs) = if str_eq j k then remove k fs else field j w (remove k fs)

-- `bool(x)`
unfoldable pub truthy : Json → Bool
truthy null = false
truthy (bool b) = b
truthy (int (pos n)) = not (n == 0)
truthy (int (negsuc n)) = true
truthy (str s) = not (str_eq s "")
truthy (arr nil) = false
truthy (arr (cons x xs)) = true
truthy (obj end) = false
truthy (obj (field k v fs)) = true

-- Lists and dictionaries raise `TypeError` where a set or a dictionary hashes them.
unfoldable pub hashable : Json → Bool
hashable (arr _) = false
hashable (obj _) = false
hashable _ = true

abbrev pub is_text : Json → String → Bool
is_text (str s) t = str_eq s t
is_text _ t = false

abbrev pub is_string : Json → Bool
is_string (str s) = true
is_string _ = false

abbrev pub is_list : Json → Bool
is_list (arr _) = true
is_list _ = false

characters : String → List Json
characters String.[] = []
characters (String.◌∷◌ c s) = str (String.◌∷◌ c String.[]) ∷ characters s

keys : Fields → List Json
keys end = []
keys (field k v fs) = str k ∷ keys fs

-- `x == n`, at which a Boolean counts as 0 or 1
unfoldable pub equals_int : ℤ → Json → Bool
equals_int (pos n) (int (pos m)) = n == m
equals_int (negsuc n) (int (negsuc m)) = n == m
equals_int (pos n) (bool b) = n == (if b then 1 else 0)
equals_int _ _ = false

abbrev pub field_count : Fields → ℕ
field_count end = 0
field_count (field k v fs) = suc (field_count fs)

-- `x == y`
unfoldable mutual
  pub same : Json → Json → Bool
  same null null = true
  same (bool a) y = equals_int (pos (if a then 1 else 0)) y
  same (int a) y = equals_int a y
  same (str s) (str t) = str_eq s t
  same (arr xs) (arr ys) = same_items xs ys
  same (obj fs) (obj gs) = field_count fs == field_count gs && same_fields fs gs
  same _ _ = false

  pub same_items : Items → Items → Bool
  same_items nil nil = true
  same_items (cons x xs) (cons y ys) = same x y && same_items xs ys
  same_items _ _ = false

  -- every field of the first object is in the second, with an equal value
  pub same_fields : Fields → Fields → Bool
  same_fields end gs = true
  same_fields (field k v fs) gs =
      elim (lookup k gs) [ none ↦ false | some w ↦ same v w ] && same_fields fs gs

-- `for x in v`: the elements of a list, the keys of an object, the characters of a text; `none` is
-- `TypeError`
unfoldable pub iterate : Json → Option (List Json)
unfolding characters keys
iterate (arr xs) = some (elements xs)
iterate (obj fs) = some (keys fs)
iterate (str s) = some (characters s)
iterate _ = none

-- `x in xs`
abbrev pub member : List Json → Json → Bool
member [] x = false
member (y ∷ ys) x = same y x || member ys x

-- whether `len(xs) == len(set(xs))`
abbrev pub distinct : List Json → Bool
distinct [] = true
distinct (x ∷ xs) = not (member xs x) && distinct xs
