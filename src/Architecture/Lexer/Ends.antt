-- ===== src/Architecture/Lexer/Ends.antt =====
-- How `lua_tokens` ends: the length of what each round of its loop leaves.
use Prim.Native.Char.{Char, code}
use lua_mongodb.Base.{
  ℕ, zero, suc, ◌≤◌, ◌<◌, String, Bool, true, false, ◌&&◌, ◌||◌, some, List, [], ◌∷◌, ◌≡◌, refl,
  arith, inl, inr, ◌==◌, Bool-cases, Option-cases,
}
use lua_mongodb.Text.{is_space, starts_with}
use lua_mongodb.Architecture.Lexer.{
  Token, size, after_equals, long_bracket, after_level, after_closing, find_closing, find_newline,
  quoted, Step, stop, skip, emit, comment, word, plain, bracket, step, lex, lua_tokens, behind_dash,
}

after_equals-size :
    (n e : ℕ) (s rest : String) → after_equals n s ≡ some (e, rest) → size rest < size s
unfolding after_equals
after_equals-size n e String.[] rest h = cc
after_equals-size n e (String.◌∷◌ c s) rest h = ground (arith, after_equals-size (suc n) e s rest)

long_bracket-size : (e : ℕ) (s rest : String) → long_bracket s ≡ some (e, rest) → size rest < size s
unfolding long_bracket
long_bracket-size e String.[] rest h = cc
long_bracket-size e (String.◌∷◌ c s) rest h = ground (arith, after_equals-size 0 e s rest)

after_level-size : (n : ℕ) (s rest : String) → after_level n s ≡ some rest → size rest < size s
unfolding after_level
after_level-size zero String.[] rest h = cc
after_level-size (suc n) String.[] rest h = cc
after_level-size zero (String.◌∷◌ c s) rest h = ground arith
after_level-size (suc n) (String.◌∷◌ c s) rest h = ground (arith, after_level-size n s rest)

after_closing-size : (n : ℕ) (s rest : String) → after_closing n s ≡ some rest → size rest < size s
unfolding after_closing
after_closing-size n String.[] rest h = cc
after_closing-size n (String.◌∷◌ c s) rest h = ground (arith, after_level-size n s rest)

find_closing-size :
    (n : ℕ) (s before rest : String) → find_closing n s ≡ some (before, rest) → size rest < size s
unfolding find_closing
find_closing-size n String.[] before rest h = cc
find_closing-size n (String.◌∷◌ c s) before rest h =
    elim (Option-cases (after_closing n (String.◌∷◌ c s))) [
      | inl e ↦ elim (Option-cases (find_closing n s)) [
        | inl d ↦ ground arith
        | inr ((b, r), d) ↦ ground (arith, find_closing-size n s b r)
      ]
      | inr (r, e) ↦ ground (arith, after_closing-size n (String.◌∷◌ c s) r)
    ]

find_newline-size : (s rest : String) → find_newline s ≡ some rest → size rest ≤ size s
unfolding find_newline
find_newline-size String.[] rest h = cc
find_newline-size (String.◌∷◌ c s) rest h = ground (arith, find_newline-size s rest)

quoted-size : (q : ℕ) (b : Bool) (line : ℕ) (s : String) → size (quoted q b line s).rest ≤ size s
unfolding quoted
quoted-size q b line String.[] = omega arith
quoted-size q true line (String.◌∷◌ c s) = omega (arith, quoted-size q false line s)
quoted-size q false line (String.◌∷◌ c s) =
    ground (
      arith,
      quoted-size q true line s,
      quoted-size q false line s,
      quoted-size q false (suc line) s,
    )

-- what a step leaves is shorter than `s`
abbrev Shorter : Step → String → Type 0
Shorter stop s = Unit
Shorter (skip rest line) s = size rest < size s
Shorter (emit token rest line) s = size rest < size s

comment-Shorter :
    (s : String) (line : ℕ) (t : String) → size s < size t → Shorter (comment s line) t
unfolding comment
comment-Shorter s line t h = elim (Option-cases (long_bracket s)) [
  | inl e ↦ elim (Option-cases (find_newline s)) [
    | inl d ↦ rw (comment, e, d) tt
    | inr (rest, d) ↦ rw (comment, e, d) (omega (arith, find_newline-size s rest d))
  ]
  | inr ((n, content), e) ↦ elim (Option-cases (find_closing n content)) [
    | inl d ↦ rw (comment, e, d) tt
    | inr ((before, rest), d) ↦
        rw (comment, e, d)
          (omega
            (arith, find_closing-size n content before rest d, long_bracket-size n s content e))
  ]
]

size-behind_dash : (s : String) → size (behind_dash s) ≤ size s
size-behind_dash String.[] = omega arith
size-behind_dash (String.◌∷◌ d t) = omega arith

module _ (is_alpha is_alnum : ℕ → Bool) where
  word-size : (s : String) → size (word is_alpha is_alnum s).rest ≤ size s
  unfolding word
  word-size String.[] = omega arith
  word-size (String.◌∷◌ c s) = ground (arith, word-size s)

  plain-Shorter :
      (c : Char) (s : String) (line : ℕ)
      → Shorter (plain is_alpha is_alnum c s line) (String.◌∷◌ c s)
  unfolding plain
  plain-Shorter c s line = elim (Bool-cases (is_alpha (code c) || code c == b'_')) [
    | inl e ↦ rw e (omega (arith, word-size s))
    | inr e ↦ rw e (omega arith)
  ]

  bracket-Shorter :
      (c : Char) (s : String) (line : ℕ)
      → Shorter
          (bracket is_alpha is_alnum (long_bracket (String.◌∷◌ c s)) c s line)
          (String.◌∷◌ c s)
  unfolding bracket
  bracket-Shorter c s line = elim (Option-cases (long_bracket (String.◌∷◌ c s))) [
    | inl e ↦ rw e (plain-Shorter c s line)
    | inr ((n, content), e) ↦ rw e (elim (Option-cases (find_closing n content)) [
      | inl d ↦ rw d (omega arith)
      | inr ((before, rest), d) ↦ rw d (
          omega (
            arith,
            find_closing-size n content before rest d,
            long_bracket-size n (String.◌∷◌ c s) content e,
          ))
    ])
  ]

  step-Shorter : (s : String) (line : ℕ) → Shorter (step is_alpha is_alnum s line) s
  unfolding step
  step-Shorter String.[] line = tt
  step-Shorter (String.◌∷◌ c s) line = elim (Bool-cases (is_space (code c))) [
    | inl e ↦ rw e (omega arith)
    | inr e ↦ rw e (elim (Bool-cases (code c == b'-' && starts_with s "-")) [
      | inl d ↦ rw d (
          comment-Shorter (behind_dash s) line (String.◌∷◌ c s) (omega (arith, size-behind_dash s)))
      | inr d ↦ rw d (elim (Bool-cases (code c == b'\'' || code c == b'"')) [
        | inl k ↦ rw k (omega (arith, quoted-size (code c) false line s))
        | inr k ↦ rw k (bracket-Shorter c s line)
      ])
    ])
  ]

  lex-returns :
      (fuel : ℕ) (source : String) (line : ℕ)
      → size source < fuel
      → (tokens : List Token) × (lex is_alpha is_alnum fuel source line ≡ some tokens)
  unfolding lex
  lex-returns zero source line h = absurd (omega arith)
  lex-returns (suc fuel) source line h =
      go (step is_alpha is_alnum source line) refl (step-Shorter source line)
        (λ rest l k. lex-returns fuel rest l k)
    where
      go :
          (r : Step)
          → step is_alpha is_alnum source line ≡ r
          → Shorter r source
          → ((rest : String) (l : ℕ)
              → size rest < fuel
              → (tokens : List Token) × (lex is_alpha is_alnum fuel rest l ≡ some tokens))
          → (tokens : List Token) × (lex is_alpha is_alnum (suc fuel) source line ≡ some tokens)
      go stop e k next = ([], rw (e, lex) refl)
      go (skip rest l) e k next =
          let (tokens, ends) = next rest l (omega arith) in (tokens, rw (e, lex) ends)
      go (emit token rest l) e k next =
          let (tokens, ends) = next rest l (omega arith) in (token ∷ tokens, rw (e, lex, ends) refl)

  -- `lua_tokens` returns on every source: its fuel suffices.
  pub lua_tokens-returns :
      (source : String)
      → (tokens : List Token) × (lua_tokens is_alpha is_alnum source ≡ some tokens)
  unfolding lua_tokens
  lua_tokens-returns source = lex-returns (suc (size source)) source 1 (omega arith)
