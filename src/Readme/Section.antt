-- ===== src/Readme/Section.antt =====
-- `updated_readme` of planning/update_readme_compatibility.py.
use Prim.Native.String.{◌++◌ as append}
use lua_mongodb.Base.{String, ◌&&◌, Option, none, some, ◌≡◌, refl, sym, ap, ◌∙◌, ◌==◌}
use lua_mongodb.Raise.{Result, ok, ◌>>=◌, bind-eq-ok, ok_unique}
use lua_mongodb.Readme.Layers.{begin_marker, end_marker}
use lua_mongodb.Readme.Problem.{Py, crash, check, no_single_section}
use lua_mongodb.Text.Search.{occurrences, split_once, split_once-append}

-- `a, b = s.split(separator, 1)`, which raises `ValueError` where there is one part
abbrev pub two_parts : Option (String × String) → Py (String × String)
two_parts none = Result.raise crash
two_parts (some parts) = Result.ok parts

-- a text and the generated section
abbrev pub with_section : String → String → String → String
with_section before table after =
    append before
      (append begin_marker (append "\n" (append table (append "\n" (append end_marker after)))))

unfoldable pub updated_readme : String → String → Py String
unfolding occurrences split_once
updated_readme readme table = do
  _ ←
      check (occurrences begin_marker readme == 1 && occurrences end_marker readme == 1)
        no_single_section
  parts ← two_parts (split_once begin_marker readme)
  rest ← two_parts (split_once end_marker parts.1)
  Result.ok (with_section parts.0 table rest.1)

two_parts-eq-ok :
    (o : Option (String × String)) (parts : String × String)
    → two_parts o ≡ ok parts
    → o ≡ some (parts.0, parts.1)
two_parts-eq-ok none parts h = cc
two_parts-eq-ok (some p) parts h =
    ap (λ (q : String × String). some (q.0, q.1)) (ok_unique (ok p) refl h)

-- Where `updated_readme` returns, the README was a text, the first marker, a text, the second marker and
-- a text; in the result the text between the markers is the table, with a newline on each side, and the
-- other two are as they were.
pub updated_readme-with_section :
    (readme table updated : String)
    → updated_readme readme table ≡ ok updated
    → (before between after : String) × (readme
        ≡ append before (append begin_marker (append between (append end_marker after))))
      × (updated ≡ with_section before table after)
unfolding updated_readme
updated_readme-with_section readme table updated h =
    let (_, e0, h0) =
      bind-eq-ok
        (check (occurrences begin_marker readme == 1 && occurrences end_marker readme == 1) _) _
        h in
    let (parts, e1, h1) = bind-eq-ok (two_parts (split_once begin_marker readme)) _ h0 in
    let (rest, e2, h2) = bind-eq-ok (two_parts (split_once end_marker parts.1)) _ h1 in
    let first =
      split_once-append begin_marker readme parts.0 parts.1 (two_parts-eq-ok _ parts e1) in
    let second = split_once-append end_marker parts.1 rest.0 rest.1 (two_parts-eq-ok _ rest e2) in
    (
      parts.0,
      rest.0,
      rest.1,
      first ∙ ap (λ (s : String). append parts.0 (append begin_marker s)) second,
      sym (ok_unique (ok (with_section parts.0 table rest.1)) refl h2),
    )
