-- ===== src/Architecture/Cycles.antt =====
-- `dependency_cycles` of planning/check_architecture.py. A set of names is a list that is sorted and
-- has each name once.
pub mod Rounds
pub mod Order
use lua_mongodb.Base.{
  ℕ, zero, suc, ◌+◌, String, Bool, true, false, Option, none, some, List, [], ◌∷◌, ◌++◌, length,
  str_eq, ◌==◌, if◌then◌else◌,
}
use lua_mongodb.Graph.{Graph, nodes, targets}
use lua_mongodb.Raise.{Result, ok, raise, ◌>>=◌}

-- 0 for a module that was not visited, 1 while it is on the stack, 2 after that
pub record Search : Type 0 where
  pub state : List (String × ℕ)
  pub stack : List String
  pub stack_positions : List (String × ℕ)
  pub cycles : List (List String)

-- what ends the search: the fuel, or a `KeyError`
pub data Fault : Type 0 where
  out_of_fuel key_error : Fault

-- `d.get(name)`, where a later entry stands before an earlier one and hides it
unfoldable pub number_of : String → List (String × ℕ) → Option ℕ
number_of name [] = none
number_of name ((k, n) ∷ rest) = if str_eq k name then some n else number_of name rest

abbrev or_unvisited : Option ℕ → ℕ
or_unvisited none = 0
or_unvisited (some n) = n

-- `state.get(name, 0)`
abbrev pub state_of : Search → String → ℕ
state_of s name = or_unvisited (number_of name s.state)

-- `stack_positions.pop(name)`
unfoldable pub forget : String → List (String × ℕ) → List (String × ℕ)
forget name [] = []
forget name ((k, n) ∷ rest) =
    let later = forget name rest in if str_eq k name then later else (k, n) ∷ later

-- `stack[n:]`
unfoldable pub from_position : ℕ → List String → List String
from_position zero names = names
from_position (suc n) [] = []
from_position (suc n) (name ∷ names) = from_position n names

-- `stack.pop()`
unfoldable pub without_last : List String → List String
without_last [] = []
without_last (x ∷ []) = []
without_last (x ∷ y ∷ rest) = x ∷ without_last (y ∷ rest)

unfoldable pub equal_names : List String → List String → Bool
equal_names [] [] = true
equal_names (x ∷ xs) (y ∷ ys) = elim (str_eq x y) [ true ↦ equal_names xs ys | false ↦ false ]
equal_names _ _ = false

unfoldable pub seen : List String → List (List String) → Bool
unfolding equal_names
seen cycle [] = false
seen cycle (c ∷ cs) = elim (equal_names cycle c) [ true ↦ true | false ↦ seen cycle cs ]

-- The cycles are recorded in the order in which they are found, and each once.
abbrev pub record_cycle : List String → Search → Search
record_cycle cycle s =
    if seen cycle s.cycles then s else record s { cycles = s.cycles ++ cycle ∷ [] }

-- a dependency that is on the stack
unfoldable pub report : String → Search → Result Fault Search
unfolding number_of from_position seen
report dependency s = elim (number_of dependency s.stack_positions) [
  | none ↦ raise key_error
  | some n ↦ ok (record_cycle (from_position n s.stack ++ dependency ∷ []) s)
]

abbrev pub enter : String → Search → Search
enter name s = record s {
  state = (name, 1) ∷ s.state;
  stack = s.stack ++ name ∷ [];
  stack_positions = (name, length s.stack) ∷ s.stack_positions;
}

unfoldable pub leave : String → Search → Search
unfolding without_last forget
leave name s = record s {
  state = (name, 2) ∷ s.state;
  stack = without_last s.stack;
  stack_positions = forget name s.stack_positions;
}

-- a loop over modules, whose body visits those that were not visited, and passes the others on
unfoldable pub each :
    (String → Search → Result Fault Search)
    → (String → Search → Result Fault Search)
    → List String
    → Search
    → Result Fault Search
unfolding number_of
each visit else_do [] s = ok s
each visit else_do (m ∷ ms) s =
    (if state_of s m == 0 then visit m s else else_do m s) >>= each visit else_do ms

-- the other branch in `visit`
abbrev pub on_stack : String → Search → Result Fault Search
on_stack dependency s = if state_of s dependency == 1 then report dependency s else ok s

-- the nested function `visit`; the fuel is the depth of the recursion
unfoldable pub visit : Graph → ℕ → String → Search → Result Fault Search
unfolding each report leave targets number_of
visit g zero name s = raise out_of_fuel
visit g (suc fuel) name s =
    each (visit g fuel) on_stack (targets g name) (enter name s) >>= λ t. ok (leave name t)

abbrev pub fresh : Search
fresh = record { state = []; stack = []; stack_positions = []; cycles = [] }

-- The recursion is at most as deep as there are modules.
unfoldable pub dependency_cycles : Graph → Result Fault (List (List String))
unfolding each visit
dependency_cycles g =
    each (visit g (suc (length (nodes g)))) (λ m s. ok s) (nodes g) fresh >>= λ t. ok t.cycles
