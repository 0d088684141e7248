-- ===== src/Text/Search.antt =====
-- Texts in texts: `in`, `endswith`, `count` and `split` at a text.
use Prim.Native.Char.{code}
use Prim.Native.String.{◌++◌ as append}
use lua_mongodb.Base.{
  ℕ, zero, suc, ◌-◌, String, Bool, true, false, ◌||◌, Option, none, some, ◌≡◌, sym, ap, ap₂, ◌∙◌,
  arith, ◌==◌, length, codes, Bool-cases, Option-cases, inl, inr, str_eq, if◌then◌else◌,
}
use mathlib.Core.Option.{map as map_option}
use text.Mathlib.TextEquality.{Char-path}
use text.Mathlib.TextLemmas.{nil-append, cons-append}
use lua_mongodb.Text.{starts_with}

-- what follows `part` at the beginning of a text
unfoldable pub after_prefix : String → String → Option String
after_prefix String.[] s = some s
after_prefix (String.◌∷◌ d p) String.[] = none
after_prefix (String.◌∷◌ d p) (String.◌∷◌ c s) = if code c == code d then after_prefix p s else none

-- `part in s`
unfoldable pub has_infix : String → String → Bool
unfolding starts_with
has_infix part String.[] = starts_with String.[] part
has_infix part (String.◌∷◌ c s) = starts_with (String.◌∷◌ c s) part || has_infix part s

-- `s.endswith(part)`
unfoldable pub ends_with : String → String → Bool
ends_with String.[] part = str_eq String.[] part
ends_with (String.◌∷◌ c s) part = str_eq (String.◌∷◌ c s) part || ends_with s part

-- the texts before and after the first `separator`, which is `s.split(separator, 1)` where there is one
unfoldable pub split_once : String → String → Option (String × String)
unfolding after_prefix
split_once separator String.[] =
    map_option (λ rest. (String.[], rest)) (after_prefix separator String.[])
split_once separator (String.◌∷◌ c s) =
    let later = split_once separator s in
    elim (after_prefix separator (String.◌∷◌ c s)) [
      | some rest ↦ some (String.[], rest)
      | none ↦ map_option (λ parts. (String.◌∷◌ c parts.0, parts.1)) later
    ]

-- `s.count(part)`, of a part that is not empty; the number is that of the characters still to skip
count_from : String → ℕ → String → ℕ
count_from part skip String.[] = 0
count_from part (suc skip) (String.◌∷◌ c s) = count_from part skip s
count_from part zero (String.◌∷◌ c s) = elim (starts_with (String.◌∷◌ c s) part) [
  | true ↦ suc (count_from part (length (codes part) - 1) s)
  | false ↦ count_from part zero s
]

unfoldable pub occurrences : String → String → ℕ
unfolding count_from starts_with
occurrences part s = count_from part 0 s

after_prefix-append : (p s rest : String) → after_prefix p s ≡ some rest → s ≡ append p rest
unfolding after_prefix
after_prefix-append String.[] s rest h = let same : s ≡ rest = cc in same ∙ sym (nil-append rest)
after_prefix-append (String.◌∷◌ d p) String.[] rest h = cc
after_prefix-append (String.◌∷◌ d p) (String.◌∷◌ c s) rest h =
    elim (Bool-cases (code c == code d)) [
      | inl e ↦
          let first : c ≡ d = Char-path c d (ground arith) in
          let later : s ≡ append p rest = after_prefix-append p s rest (rw e at h) in
          ap₂ String.◌∷◌ first later ∙ sym (cons-append d p rest)
      | inr e ↦ absurd (ground arith)
    ]

split_here :
    (separator s rest before after : String)
    → after_prefix separator s ≡ some rest
    → before ≡ ""
    → after ≡ rest
    → s ≡ append before (append separator after)
split_here separator s rest before after h e f =
    rw (e, f) (after_prefix-append separator s rest h ∙ sym (nil-append (append separator rest)))

-- Where a text is split, it is the two parts with the separator between them.
pub split_once-append :
    (separator s before after : String)
    → split_once separator s ≡ some (before, after)
    → s ≡ append before (append separator after)
unfolding split_once
split_once-append separator String.[] before after h =
    elim (Option-cases (after_prefix separator "")) [
      | inl e ↦ ground arith
      | inr (rest, e) ↦
          let both : ◌≡◌ {A = Option (String × String)} (some ("", rest)) (some (before, after)) =
            rw (e, split_once) at h in
          split_here separator "" rest before after e (ground arith) (ground arith)
    ]
split_once-append separator (String.◌∷◌ c s) before after h =
    elim (Option-cases (after_prefix separator (String.◌∷◌ c s))) [
      | inr (rest, e) ↦
          let both : ◌≡◌ {A = Option (String × String)} (some ("", rest)) (some (before, after)) =
            rw (e, split_once) at h in
          split_here separator (String.◌∷◌ c s) rest before after e (ground arith) (ground arith)
      | inl e ↦ elim (Option-cases (split_once separator s)) [
        | inl f ↦ ground arith
        | inr ((head, tail), f) ↦
            let both : ◌≡◌ {A = Option (String × String)} (some (String.◌∷◌ c head, tail))
                (some (before, after)) =
              rw (e, f, split_once, map_option) at h in
            let later : s ≡ append head (append separator tail) =
              split_once-append separator s head tail f in
            let first : before ≡ String.◌∷◌ c head = ground arith in
            let second : after ≡ tail = ground arith in
            rw (first, second)
              (ap (String.◌∷◌ c) later ∙ sym (cons-append c head (append separator tail)))
      ]
    ]
