-- ===== src/Plan/Pattern.antt =====
-- The regular expressions of planning/update_plan.py, matched against a whole text, over its code
-- points: `TRACK_RE`, `COMMIT_RE` and `[0-9a-f]{40}`.
use Prim.Native.Nat.{◌^◌}
use lua_mongodb.Base.{
  ℕ, Bool, true, false, ◌&&◌, ◌||◌, List, [], ◌∷◌, leb, ltb, ◌==◌, codes, all, length,
  if◌then◌else◌,
}
use lua_mongodb.Json.{Json, pos, int, str}

abbrev within : ℕ → ℕ → ℕ → Bool
within lo hi c = leb lo c && leb c hi

-- `[a-z]`
abbrev pub is_lower : ℕ → Bool
is_lower c = within b'a' b'z' c

-- `[a-z0-9]`
abbrev pub is_word : ℕ → Bool
is_word c = is_lower c || within b'0' b'9' c

-- `[0-9a-f]`
abbrev is_hex : ℕ → Bool
is_hex c = within b'0' b'9' c || within b'a' b'f' c

-- `[a-z0-9]+(?:-[a-z0-9]+)*`; the flag is whether the group that is open has a character
track_from : Bool → List ℕ → Bool
track_from open_group [] = open_group
track_from open_group (c ∷ cs) =
    let rest = track_from (is_word c) cs in
    if is_word c || open_group && c == b'-' then rest else false

unfoldable pub matches_track : List ℕ → Bool
unfolding track_from
matches_track = track_from false

-- The places between the parts of `[a-z]+\([a-z0-9-]+\)!?: .+`.
pub data Place : Type 0 where
  start in_type at_scope in_scope closed marked colon subject_start in_subject failed : Place

abbrev is_scope : ℕ → Bool
is_scope c = is_word c || c == b'-'

unfoldable pub subject_step : Place → ℕ → Place
subject_step start c = if is_lower c then in_type else failed
subject_step in_type c = if is_lower c then in_type else if c == b'(' then at_scope else failed
subject_step at_scope c = if is_scope c then in_scope else failed
subject_step in_scope c = if is_scope c then in_scope else if c == b')' then closed else failed
subject_step closed c = if c == b'!' then marked else if c == b':' then colon else failed
subject_step marked c = if c == b':' then colon else failed
subject_step colon c = if c == b' ' then subject_start else failed
subject_step subject_start c = if c == b'\n' then failed else in_subject
subject_step in_subject c = if c == b'\n' then failed else in_subject
subject_step failed c = failed

subject_from : Place → List ℕ → Bool
subject_from in_subject [] = true
subject_from _ [] = false
subject_from p (c ∷ cs) = subject_from (subject_step p c) cs

unfoldable pub matches_subject : List ℕ → Bool
unfolding subject_from subject_step
matches_subject = subject_from start

-- `COMMIT_RE.fullmatch(str(value))`: the text of any value but a text has no match, since it begins
-- with a capital letter, a digit, a sign or a bracket.
unfoldable pub is_subject : Json → Bool
unfolding matches_subject
is_subject (str s) = matches_subject (codes s)
is_subject _ = false

-- `re.fullmatch(r"[0-9a-f]{40}", str(value))`: of the other values only a number of forty digits has
-- a match.
unfoldable pub is_commit : Json → Bool
is_commit (str s) = length (codes s) == 40 && all is_hex (codes s)
is_commit (int (pos n)) = leb (10 ^ 39) n && ltb n (10 ^ 40)
is_commit _ = false
