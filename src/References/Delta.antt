-- ===== src/References/Delta.antt =====
-- `inventory_delta` of planning/update_references.py: what two inventories of records, each under its
-- identity, differ in.
pub mod Find
pub mod Empty
use lua_mongodb.Base.{
  String, Bool, true, false, not, Option, none, some, List, [], ◌∷◌, keep, map, str_eq,
  if◌then◌else◌,
}
use lua_mongodb.Json.{Json, str, obj, Fields, end, field, put, same}
use lua_mongodb.Names.{sorted_names, without_names, common_names}

abbrev pub Inventory : Type 0
Inventory = List (String × Fields)

abbrev pub identities : Inventory → List String
identities [] = []
identities ((identity, fs) ∷ rest) = identity ∷ identities rest

unfoldable pub find : String → Inventory → Option Fields
find identity [] = none
find identity ((i, fs) ∷ rest) =
    let later = find identity rest in if str_eq i identity then some fs else later

-- `inventory[identity]`, of an identity that is known to be there
abbrev pub entry_of : Inventory → String → Fields
entry_of inventory identity = elim (find identity inventory) [ none ↦ end | some fs ↦ fs ]

-- `{**base, **fs}`
unfoldable pub spread : Fields → Fields → Fields
spread base end = base
spread base (field k v fs) = spread (put k v base) fs

pub record Delta : Type 0 where
  pub added : List Fields
  pub removed : List Fields
  pub changed : List Fields

abbrev pub identified : Inventory → String → Fields
identified inventory identity =
    spread (field "identity" (str identity) end) (entry_of inventory identity)

abbrev pub change : Inventory → Inventory → String → Fields
change before after identity =
    field "identity" (str identity) (
      field "from" (obj (entry_of before identity))
        (field "to" (obj (entry_of after identity)) end))

-- `before[identity] != after[identity]`
abbrev pub differs : Inventory → Inventory → String → Bool
differs before after identity =
    not (same (obj (entry_of before identity)) (obj (entry_of after identity)))

unfoldable pub inventory_delta : Inventory → Inventory → Delta
unfolding find spread sorted_names without_names common_names
inventory_delta before after =
    let before_ids = identities before in
    let after_ids = identities after in
    record {
      added = map (identified after) (sorted_names (without_names after_ids before_ids));
      removed = map (identified before) (sorted_names (without_names before_ids after_ids));
      changed =
          map (change before after)
            (keep (differs before after) (sorted_names (common_names before_ids after_ids)));
    }
