-- ===== src/Architecture/Check/Reads.antt =====
-- Where a module requires another or accesses a global of the runtime, told by its tokens one after the
-- other, and that the loops of planning/check_architecture.py find each such place.
use Prim.Native.String.{◌++◌ as append}
use lua_mongodb.Base.{
  any, ◌||◌, ◌↔◌, Bool, false, arith, ℕ, String, true, ◌&&◌, ◌⊎◌, inl, inr, Option, none, some,
  List, [], ◌∷◌, ◌++◌, ◌≡◌, refl, sym, subst, ap, contains, In, In-append_left, In-append_right,
  str_eq, eq_iff, append-eq-nil, Bool-cases, if◌then◌else◌,
}
use lua_mongodb.Names.{add_name}
use lua_mongodb.Text.{precedes, starts_with}
use lua_mongodb.Architecture.Check.{dependencies}
use lua_mongodb.Architecture.Lexer.{Token}
use lua_mongodb.Architecture.Imports.{
  is_below, runtime_owned_import, runtime_module, is_identifier, is_string, is_member, is_require,
  behind_parenthesis, argument, requires_after, literal_requires, is_access, access, accesses_after,
  runtime_global_accesses,
}

-- a module's name is a prefix, or goes on behind it with a dot
abbrev pub IsBelow : String → String → Type 0
IsBelow name prefix = (name ≡ prefix) ⊎ (starts_with name (append prefix ".") ≡ true)

abbrev pub runtime_libraries : List String
runtime_libraries =
    "copas" ∷ "cqueues" ∷ "crypto" ∷ "ffi" ∷ "http" ∷ "luv" ∷ "openssl" ∷ "posix" ∷ "resty.openssl"
    ∷ "socket" ∷ "ssl" ∷ "zlib" ∷ []

-- the name of a library of the runtime, or of a module below one
abbrev pub IsOwned : String → Type 0
IsOwned name = (prefix : String) × In prefix runtime_libraries × IsBelow name prefix

is_below-IsBelow : (name prefix : String) → (is_below name prefix ≡ true) ↔ IsBelow name prefix
is_below-IsBelow name prefix =
    let (to, from) = eq_iff name prefix in
    either (str_eq name prefix) (starts_with name (append prefix ".")) to from
  where
    either :
        (b c : Bool)
        → (b ≡ true → name ≡ prefix)
        → (name ≡ prefix → b ≡ true)
        → ((b || c) ≡ true) ↔ ((name ≡ prefix) ⊎ (c ≡ true))
    either true c to from = (λ h. inl (to refl), λ h. refl)
    either false c to from = (λ h. inr h, λ h. elim h [ inl p ↦ cc (from p) | inr q ↦ q ])

any-In :
    (p : String → Bool) (xs : List String) (x : String) → any p xs ≡ false → In x xs → p x ≡ false
any-In p [] x h i = absurd i
any-In p (y ∷ ys) x h (inl same) = subst (λ (z : String). p z ≡ false) (sym same) (ground arith)
any-In p (y ∷ ys) x h (inr i) = any-In p ys x (ground arith) i

pub runtime_owned_import-IsOwned :
    (name : String) → runtime_owned_import name ≡ false → ¬ IsOwned name
unfolding runtime_owned_import
runtime_owned_import-IsOwned name h (prefix, listed, below) =
    let none_below = any-In (is_below name) runtime_libraries prefix h listed in
    cc (none_below, (is_below-IsBelow name prefix).1 below)

pub runtime_module-IsBelow :
    (name : String) → runtime_module name ≡ true → IsBelow name "mongodb.runtime"
unfolding runtime_module
runtime_module-IsBelow name h = (is_below-IsBelow name "mongodb.runtime").0 h

-- the last token of some, or the one before them
abbrev pub last_of : Option Token → List Token → Option Token
last_of before [] = before
last_of before (t ∷ ts) = last_of (some t) ts

-- the tokens from the argument on, behind a parenthesis or right behind the call
abbrev pub IsArgument : List Token → Token → List Token → Type 0
IsArgument tokens literal after =
    ((tokens ≡ literal ∷ after) × (str_eq literal.value "(" ≡ false))
    ⊎ ((parenthesis : Token) × (str_eq parenthesis.value "(" ≡ true)
        × (tokens ≡ parenthesis ∷ literal ∷ after))

-- a `require`, which is no field and no method, of a literal
pub record IsRequire (tokens : List Token) (name : String) : Type 0 where
  pub before : List Token
  pub call : Token
  pub rest : List Token
  pub literal : Token
  pub after : List Token
  pub split : tokens ≡ before ++ call ∷ rest
  pub is_call : (is_identifier call && str_eq call.value "require") ≡ true
  pub no_member : is_member (last_of none before) ≡ false
  pub has_argument : IsArgument rest literal after
  pub is_literal : is_string literal ≡ true
  pub is_name : literal.value ≡ name

-- one of the globals with a dot and a name behind it
pub record IsAccess (tokens : List Token) : Type 0 where
  pub before : List Token
  pub owner : Token
  pub dot : Token
  pub member : Token
  pub after : List Token
  pub split : tokens ≡ before ++ owner ∷ dot ∷ member ∷ after
  pub is_owner : is_identifier owner ≡ true
  pub is_global : contains ("io" ∷ "os" ∷ "package" ∷ []) owner.value ≡ true
  pub is_dot : str_eq dot.value "." ≡ true
  pub is_member_name : is_identifier member ≡ true

abbrev pub names_of : List (String × ℕ) → List String
names_of [] = []
names_of ((name, line) ∷ rest) = name ∷ names_of rest

names_of-append : (xs ys : List (String × ℕ)) → names_of (xs ++ ys) ≡ names_of xs ++ names_of ys
names_of-append [] ys = refl
names_of-append ((name, line) ∷ xs) ys =
    ap (λ (ns : List String). name ∷ ns) (names_of-append xs ys)

argument-found :
    (line : ℕ) (rest : List Token) (literal : Token) (after : List Token)
    → IsArgument rest literal after
    → is_string literal ≡ true
    → In literal.value (names_of (argument line (behind_parenthesis rest)))
argument-found line rest literal after (inl (split, other)) text =
    subst (λ (ts : List Token). In literal.value (names_of (argument line (behind_parenthesis ts))))
      (sym split) (rw (other, text) (inl refl))
argument-found line rest literal after (inr (p, parenthesis, split)) text =
    subst (λ (ts : List Token). In literal.value (names_of (argument line (behind_parenthesis ts))))
      (sym split) (rw (parenthesis, text) (inl refl))

is_require-call :
    (before : Option Token) (call : Token)
    → (is_identifier call && str_eq call.value "require") ≡ true
    → is_member before ≡ false
    → is_require before call ≡ true
is_require-call before call h k = rw (h, k) refl

requires_after-found :
    (previous : Option Token) (before : List Token) (call : Token) (rest : List Token)
    (literal : Token) (after : List Token)
    → (is_identifier call && str_eq call.value "require") ≡ true
    → is_member (last_of previous before) ≡ false
    → IsArgument rest literal after
    → is_string literal ≡ true
    → In literal.value (names_of (requires_after previous (before ++ call ∷ rest)))
unfolding requires_after
requires_after-found previous [] call rest literal after is_call no_member found text =
    subst (In literal.value) (sym (names_of-append _ (requires_after (some call) rest))) (
      In-append_left {A = String} literal.value
        (names_of
          (if is_require previous call then argument call.line (behind_parenthesis rest) else []))
        (names_of (requires_after (some call) rest))
        (rw (is_require-call previous call is_call no_member)
          (argument-found call.line rest literal after found text)))
requires_after-found previous (t ∷ ts) call rest literal after is_call no_member found text =
    subst (In literal.value) (sym (names_of-append _ (requires_after (some t) (ts ++ call ∷ rest))))
      (In-append_right {A = String} literal.value _ _
        (requires_after-found (some t) ts call rest literal after is_call no_member found text))

pub literal_requires-IsRequire :
    (tokens : List Token) (name : String)
    → IsRequire tokens name
    → In name (names_of (literal_requires tokens))
unfolding literal_requires
literal_requires-IsRequire tokens name r =
    subst (λ (ts : List Token). In name (names_of (literal_requires ts))) (sym r.split)
      (subst (λ (n : String). In n (names_of (literal_requires (r.before ++ r.call ∷ r.rest))))
        r.is_name
        (requires_after-found none r.before r.call r.rest r.literal r.after r.is_call r.no_member
          r.has_argument r.is_literal))

accesses-tail :
    (t : Token) (ts : List Token)
    → runtime_global_accesses (t ∷ ts) ≡ []
    → runtime_global_accesses ts ≡ []
unfolding runtime_global_accesses accesses_after
accesses-tail t [] h = refl
accesses-tail t (u ∷ []) h = refl
accesses-tail t (u ∷ v ∷ ts) h = (append-eq-nil (access t u v) (accesses_after u v ts) h).1

accesses-found :
    (before : List Token) (owner dot member : Token) (after : List Token)
    → is_access owner dot member ≡ true
    → ¬ (runtime_global_accesses (before ++ owner ∷ dot ∷ member ∷ after) ≡ [])
unfolding runtime_global_accesses accesses_after
accesses-found [] owner dot member after there h = cc (rw there at h)
accesses-found (t ∷ ts) owner dot member after there h =
    accesses-found ts owner dot member after there
      (accesses-tail t (ts ++ owner ∷ dot ∷ member ∷ after) h)

pub runtime_global_accesses-IsAccess :
    (tokens : List Token) → runtime_global_accesses tokens ≡ [] → ¬ IsAccess tokens
runtime_global_accesses-IsAccess tokens h a =
    accesses-found a.before a.owner a.dot a.member a.after
      (rw (a.is_owner, a.is_global, a.is_dot, a.is_member_name) refl)
      (subst (λ (ts : List Token). runtime_global_accesses ts ≡ []) a.split h)

add_name-In : (a name : String) (ns : List String) → In a ns → In a (add_name name ns)
unfolding add_name
add_name-In a name [] i = absurd i
add_name-In a name (m ∷ ms) i = elim (Bool-cases (str_eq name m)) [
  | inl e ↦ rw e i
  | inr e ↦ elim (Bool-cases (precedes name m)) [
    | inl f ↦ rw (e, f) (inr i)
    | inr f ↦ rw (e, f) (elim i [ inl p ↦ inl p | inr j ↦ inr (add_name-In a name ms j) ])
  ]
]

add_name-here : (name : String) (ns : List String) → In name (add_name name ns)
unfolding add_name
add_name-here name [] = inl refl
add_name-here name (m ∷ ms) = elim (Bool-cases (str_eq name m)) [
  | inl e ↦ rw e (inl ((eq_iff name m).0 e))
  | inr e ↦ elim (Bool-cases (precedes name m)) [
    | inl f ↦ rw (e, f) (inl refl)
    | inr f ↦ rw (e, f) (inr (add_name-here name ms))
  ]
]

pub dependencies-In :
    (modules : List String) (imports : List (String × ℕ)) (name : String)
    → contains modules name ≡ true
    → In name (names_of imports)
    → In name (dependencies modules imports)
unfolding dependencies
dependencies-In modules [] name h i = i
dependencies-In modules ((d, line) ∷ imports) name h (inl same) =
    let listed : contains modules d ≡ true =
      subst (λ (n : String). contains modules n ≡ true) same h in
    rw listed (
      subst (λ (n : String). In n (add_name d (dependencies modules imports))) (sym same)
        (add_name-here d (dependencies modules imports)))
dependencies-In modules ((d, line) ∷ imports) name h (inr later) =
    let found = dependencies-In modules imports name h later in
    elim (Bool-cases (contains modules d)) [
      | inl e ↦ rw e (add_name-In name d (dependencies modules imports) found)
      | inr e ↦ rw e found
    ]
