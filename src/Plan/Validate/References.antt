-- ===== src/Plan/Validate/References.antt =====
-- The pinned references in `validate_plan` of planning/update_plan.py, and the ids of their
-- mappings. `str_of` is Python's `str`, which names a mapping whose name is no text.
use Prim.Native.String.{◌++◌ as append}
use lua_mongodb.Base.{String, not, ◌&&◌, none, some, List, [], ◌∷◌, ◌++◌, contains, if◌then◌else◌}
use lua_mongodb.Json.{Json, null, str, arr, nil, obj, field, get_or, truthy, iterate, entries}
use lua_mongodb.Raise.{ok, raise, ◌>>=◌}
use lua_mongodb.Plan.Issue.{
  Issue, Py, crash, references_empty, reference_not_object, reference_commit, reference_path_url,
  reference_mapping, duplicate_mapping,
}
use lua_mongodb.Plan.Pattern.{is_commit}
use lua_mongodb.Plan.Validate.Tracks.{when}

-- the issues so far, and `mapping_ids`
pub record Mappings : Type 0 where
  pub issues : List Issue
  pub ids : List String

-- `for y in x`
abbrev pub loop_over : Json → Py (List Json)
loop_over x = elim (iterate x) [ none ↦ raise crash | some xs ↦ ok xs ]

add_mapping : String → Mappings → Mappings
add_mapping id m = record {
  issues = m.issues ++ when (contains m.ids id) (duplicate_mapping id);
  ids = id ∷ m.ids;
}

module _ (str_of : Json → String) where
  unfoldable pub mapping_id : String → Json → String
  mapping_id reference name = append reference (append ":" (str_of name))

  unfoldable pub check_mapping : String → Json → Mappings → Mappings
  unfolding add_mapping mapping_id
  check_mapping reference (obj mapping) m =
      let name = get_or mapping "name" null in
      if truthy name && truthy (get_or mapping "path" null)
      then add_mapping (mapping_id reference name) m
      else record m { issues = m.issues ++ reference_mapping reference ∷ [] }
  check_mapping reference _ m = record m { issues = m.issues ++ reference_mapping reference ∷ [] }

  unfoldable pub check_mappings : String → List Json → Mappings → Mappings
  unfolding check_mapping
  check_mappings reference [] m = m
  check_mappings reference (x ∷ xs) m = check_mappings reference xs (check_mapping reference x m)

  unfoldable pub check_reference : String → Json → Mappings → Py Mappings
  unfolding check_mappings
  check_reference name (obj reference) m =
      loop_over (get_or reference "mappings" (arr nil)) >>= λ mappings. ok (
        check_mappings name mappings (record m {
          issues =
              m.issues
              ++ when (not (is_commit (get_or reference "commit" (str "")))) (reference_commit name)
              ++ when
                  (not
                    (truthy (get_or reference "path" null) && truthy (get_or reference "url" null)))
                  (reference_path_url name);
        }))
  check_reference name _ m = ok (record m { issues = m.issues ++ reference_not_object name ∷ [] })

  unfoldable pub check_references : List (String × Json) → Mappings → Py Mappings
  unfolding check_reference
  check_references [] m = ok m
  check_references ((name, x) ∷ rest) m = check_reference name x m >>= λ n. check_references rest n

  unfoldable pub read_mappings : Json → Py Mappings
  unfolding check_references
  read_mappings (obj (field k v fs)) =
      check_references (entries (field k v fs)) (record { issues = []; ids = [] })
  read_mappings _ = ok (record { issues = references_empty ∷ []; ids = [] })
