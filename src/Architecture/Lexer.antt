-- ===== src/Architecture/Lexer.antt =====
-- `long_bracket` and `lua_tokens` of planning/check_architecture.py. A position in the source is the
-- text from there on. Python's `isalpha` and `isalnum` go by the tables of Unicode and are
-- parameters, as tests of a code point; `isspace` is written out in Text.
pub mod Ends
use Prim.Native.Char.{Char, code}
use lua_mongodb.Base.{
  ℕ, zero, suc, ◌+◌, String, Bool, true, false, not, ◌&&◌, ◌||◌, Option, none, some, List, [], ◌∷◌,
  ◌==◌, if◌then◌else◌,
}
use lua_mongodb.Text.{is_space, starts_with}

pub data Kind : Type 0 where
  string identifier symbol : Kind

pub record Token : Type 0 where
  pub kind : Kind
  pub value : String
  pub line : ℕ

abbrev pub size : String → ℕ
size String.[] = 0
size (String.◌∷◌ c s) = suc (size s)

-- `s.count("\n")`
abbrev pub newlines : String → ℕ
newlines String.[] = 0
newlines (String.◌∷◌ c s) = (if code c == 10 then 1 else 0) + newlines s

-- a number of equals signs and what follows them, up to the second bracket
unfoldable pub after_equals : ℕ → String → Option (ℕ × String)
after_equals equals String.[] = none
after_equals equals (String.◌∷◌ c s) =
    let more = after_equals (suc equals) s in
    if code c == b'=' then more else if code c == b'[' then some (equals, s) else none

-- the level of a long bracket, and its content
unfoldable pub long_bracket : String → Option (ℕ × String)
unfolding after_equals
long_bracket String.[] = none
long_bracket (String.◌∷◌ c s) = if code c == b'[' then after_equals 0 s else none

-- what stands between the two brackets of the closing of that level
unfoldable pub after_level : ℕ → String → Option String
after_level equals String.[] = none
after_level zero (String.◌∷◌ c s) = if code c == b']' then some s else none
after_level (suc equals) (String.◌∷◌ c s) = if code c == b'=' then after_level equals s else none

-- the text behind a closing at this place
unfoldable pub after_closing : ℕ → String → Option String
unfolding after_level
after_closing equals String.[] = none
after_closing equals (String.◌∷◌ c s) = if code c == b']' then after_level equals s else none

-- `source.find(closing, start)`: the text before the first closing, and the text behind it
unfoldable pub find_closing : ℕ → String → Option (String × String)
unfolding after_closing
find_closing equals String.[] = none
find_closing equals (String.◌∷◌ c s) =
    let later = find_closing equals s in
    elim (after_closing equals (String.◌∷◌ c s)) [
      | some rest ↦ some (String.[], rest)
      | none ↦ elim later [ none ↦ none | some (before, rest) ↦ some (String.◌∷◌ c before, rest) ]
    ]

-- the text from the next newline on
unfoldable pub find_newline : String → Option String
find_newline String.[] = none
find_newline (String.◌∷◌ c s) = if code c == 10 then some (String.◌∷◌ c s) else find_newline s

pub record Quoted : Type 0 where
  pub value : String
  pub rest : String
  pub line : ℕ

abbrev onto_value : Char → Quoted → Quoted
onto_value c q = record q { value = String.◌∷◌ c q.value }

abbrev is_end : String → Bool
is_end String.[] = true
is_end (String.◌∷◌ c s) = false

-- The loop over a quoted string. The flag is whether the character before was a backslash; one that
-- ends the source stands for itself.
unfoldable pub quoted : ℕ → Bool → ℕ → String → Quoted
quoted quote escaped line String.[] = record { value = String.[]; rest = String.[]; line = line }
quoted quote true line (String.◌∷◌ c s) = onto_value c (quoted quote false line s)
quoted quote false line (String.◌∷◌ c s) =
    let escape = quoted quote true line s in
    let more = onto_value c (quoted quote false (if code c == 10 then suc line else line) s) in
    if code c == b'\\' && not (is_end s)
    then escape
    else if code c == quote
    then record { value = String.[]; rest = s; line = line }
    else more

-- One round of the loop of `lua_tokens`.
pub data Step : Type 0 where
  stop : Step
  skip : String → ℕ → Step
  emit : Token → String → ℕ → Step

abbrev comment_rest : Option String → ℕ → Step
comment_rest none line = stop
comment_rest (some rest) line = skip rest line

abbrev long_comment : Option (String × String) → ℕ → Step
long_comment none line = stop
long_comment (some (content, rest)) line = skip rest (line + newlines content)

-- a comment, behind its two dashes
unfoldable pub comment : String → ℕ → Step
unfolding long_bracket find_newline find_closing
comment s line = elim (long_bracket s) [
  | none ↦ comment_rest (find_newline s) line
  | some (equals, content) ↦ long_comment (find_closing equals content) line
]

abbrev behind_dash : String → String
behind_dash String.[] = String.[]
behind_dash (String.◌∷◌ d t) = t

abbrev string_token : String → ℕ → Token
string_token value line = record { kind = string; value = value; line = line }

-- a long string, from its content on: without a closing it is the rest of the source
abbrev long_string : String → Option (String × String) → ℕ → Step
long_string content none line = emit (string_token content line) String.[] (line + newlines content)
long_string content (some (value, rest)) line =
    emit (string_token value line) rest (line + newlines value)

abbrev quoted_step : Quoted → ℕ → Step
quoted_step q start_line = emit (string_token q.value start_line) q.rest q.line

-- the rest of an identifier, and what follows it
pub record Word : Type 0 where
  pub value : String
  pub rest : String

module _ (is_alpha is_alnum : ℕ → Bool) where
  unfoldable pub word : String → Word
  word String.[] = record { value = String.[]; rest = String.[] }
  word (String.◌∷◌ c s) =
      let w = word s in
      if is_alnum (code c) || code c == b'_'
      then record { value = String.◌∷◌ c w.value; rest = w.rest }
      else record { value = String.[]; rest = String.◌∷◌ c s }

  abbrev word_step : Char → Word → ℕ → Step
  word_step c w line =
      emit (record { kind = identifier; value = String.◌∷◌ c w.value; line = line }) w.rest line

  -- from the test on an identifier on
  unfoldable pub plain : Char → String → ℕ → Step
  unfolding word
  plain c s line =
      if is_alpha (code c) || code c == b'_'
      then word_step c (word s) line
      else emit (record { kind = symbol; value = String.◌∷◌ c String.[]; line = line }) s line

  -- a long string, or what is none
  unfoldable pub bracket : Option (ℕ × String) → Char → String → ℕ → Step
  unfolding plain find_closing
  bracket none c s line = plain c s line
  bracket (some (equals, content)) c s line = long_string content (find_closing equals content) line

  unfoldable pub step : String → ℕ → Step
  unfolding comment quoted long_bracket bracket is_space starts_with
  step String.[] line = stop
  step (String.◌∷◌ c s) line =
      if is_space (code c)
      then skip s (if code c == 10 then suc line else line)
      else if code c == b'-' && starts_with s "-"
      then comment (behind_dash s) line
      else if code c == b'\'' || code c == b'"'
      then quoted_step (quoted (code c) false line s) line
      else bracket (long_bracket (String.◌∷◌ c s)) c s line

  -- the loop, with fuel; `none` means that the fuel ran out
  unfoldable pub lex : ℕ → String → ℕ → Option (List Token)
  unfolding step
  lex zero source line = none
  lex (suc fuel) source line = elim (step source line) [
    | stop ↦ some []
    | skip rest line' ↦ lex fuel rest line'
    | emit token rest line' ↦ elim (lex fuel rest line') [
      | none ↦ none
      | some tokens ↦ some (token ∷ tokens)
    ]
  ]

  -- Each round takes at least one character.
  unfoldable pub lua_tokens : String → Option (List Token)
  unfolding lex
  lua_tokens source = lex (suc (size source)) source 1
