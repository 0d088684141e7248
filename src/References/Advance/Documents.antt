-- ===== src/References/Advance/Documents.antt =====
-- What `advance_reference` reads of references.json, and what it may make of it.
use lua_mongodb.Base.{String, true, false, ◌≡◌, refl, some, str_eq, if◌then◌else◌}
use lua_mongodb.Json.{Json, str, obj, Fields, end, lookup, get_or, is_text}
use lua_mongodb.Plan.Files.{File, holds}
use lua_mongodb.Plan.Pattern.{is_commit}
use lua_mongodb.Raise.{ok}
use lua_mongodb.References.Advance.{
  text_or_crash, resolve_checkout, Opened, reference_in, open_reference, require_head,
}
use lua_mongodb.References.Steps.{Tools, read_document, item}
use lua_mongodb.References.Steps.Keeps.{
  Keeps-require_git, Keeps-read_document, Post, Post-bind, Post-pure, Post-read_document,
  Post-after_lift, Post-after_check, Post-after_any,
}
use lua_mongodb.References.Advance.Keeps.{
  Keeps-require_checkout, Keeps-require_clean, Keeps-require_head,
}

-- what `open_reference` has found in the document
pub record IsOpened (name commit : String) (d : File) (opened : Opened) : Type 0 where
  pub named : is_commit (str commit) ≡ true
  pub read : d ≡ holds (obj opened.document)
  pub listed : opened.references ≡ get_or opened.document "references" (obj end)
  pub found : reference_in name opened.references ≡ ok opened.reference
  pub pinned_to :
      (value : Json) × (item opened.reference "commit" ≡ ok value)
      × (is_text value opened.old ≡ true)

module _ {W : Type 0} (tools : Tools W) where
  Post-require_head :
      (reference : Json) (checkout : String) (d : File)
      → Post
          (λ old.
            (value : Json) × (item reference "commit" ≡ ok value) × (is_text value old ≡ true))
          d
          (require_head tools reference checkout)
  unfolding require_head
  Post-require_head reference checkout d =
      Post-after_lift _ d (item reference "commit") _ λ old is_old.
        Post-after_any _ d _ _ (Keeps-require_git tools checkout _ _) λ actual.
          Post-after_check _ d (is_text old actual) _ _
            λ same_head. Post-pure _ d actual (old, is_old, same_head)

  pub Post-open_reference :
      (name commit : String) (d : File)
      → Post (IsOpened name commit d) d (open_reference tools name commit)
  unfolding open_reference
  Post-open_reference name commit d = Post-after_check _ d (is_commit (str commit)) _ _ λ named.
      Post-bind _ _ d read_document _ Keeps-read_document (Post-read_document d) λ document read.
        Post-after_lift _ d (reference_in name (get_or document "references" (obj end))) _
          λ reference found. Post-after_lift _ d (item reference "path") _ λ path _.
            Post-after_lift _ d (text_or_crash path) _ λ relative _.
              Post-after_lift _ d (resolve_checkout tools relative) _ λ checkout _.
                Post-after_any _ d _ _ (Keeps-require_checkout tools relative checkout) λ _.
                  Post-after_any _ d _ _ (Keeps-require_clean tools relative checkout) λ _.
                    Post-bind _ _ d _ _ (Keeps-require_head tools reference checkout)
                      (Post-require_head reference checkout d)
                      λ old pinned_to. Post-pure _ d _ (record {
                        named = named;
                        read = read;
                        listed = refl;
                        found = found;
                        pinned_to = pinned_to;
                      })

-- the one field is new, and every other key has the value that it had
abbrev pub IsUpdateAt : String → Json → Fields → Fields → Type 0
IsUpdateAt key value before after =
    (other : String)
    → lookup other after ≡ (if str_eq key other then some value else lookup other before)

-- The documents before and after an advance: they differ in `references`, the references in the one
-- under the name, and this in its commit, which is a full lower-case hash and was another text before.
pub record Pins (name commit : String) (before after : File) : Type 0 where
  pub document : Fields
  pub references : Fields
  pub reference : Fields
  pub old : Json
  pub new_document : Fields
  pub new_references : Fields
  pub new_reference : Fields
  pub is_hash : is_commit (str commit) ≡ true
  pub was : before ≡ holds (obj document)
  pub has_references : lookup "references" document ≡ some (obj references)
  pub has_reference : lookup name references ≡ some (obj reference)
  pub has_commit : lookup "commit" reference ≡ some old
  pub other_commit : is_text old commit ≡ false
  pub left : after ≡ holds (obj new_document)
  pub in_document : IsUpdateAt "references" (obj new_references) document new_document
  pub in_references : IsUpdateAt name (obj new_reference) references new_references
  pub in_reference : IsUpdateAt "commit" (str commit) reference new_reference
