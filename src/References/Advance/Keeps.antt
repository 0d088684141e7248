-- ===== src/References/Advance/Keeps.antt =====
-- The steps of `advance_reference` that leave references.json as it is.
use lua_mongodb.Base.{String, Bool, true, false, refl, List, [], ◌∷◌, if◌then◌else◌}
use lua_mongodb.Json.{Json}
use lua_mongodb.References.Advance.{
  Opened, open_reference, follow_commit, run_generator, run_generators, checkout_exists,
  require_checkout, require_clean, require_head,
}
use lua_mongodb.References.Follow.{
  require_commit, validate_symbol, validate_mapping, validate_each, validate_mappings,
  change_summary,
}
use lua_mongodb.References.Steps.{Tools, Step, pure}
use lua_mongodb.References.Steps.Keeps.{
  Keeps, Keeps-lift, Keeps-check, Keeps-git, Keeps-bind, Keeps-require_git, Keeps-read_document,
}

module _ {W : Type 0} where
  pub Keeps-pure : {A : Type 0} (a : A) → Keeps (pure {W = W} a)
  Keeps-pure a = record { kept = λ s. refl }

  pub Keeps-if :
      {A : Type 0} (b : Bool) (m n : Step W A) → Keeps m → Keeps n → Keeps (if b then m else n)
  Keeps-if true m n k l = k
  Keeps-if false m n k l = l

ruleset keeps = (
  Keeps-bind, Keeps-git, Keeps-require_git, Keeps-read_document, Keeps-check, Keeps-lift, Keeps-if,
  Keeps-pure,
)

module _ {W : Type 0} (tools : Tools W) where
  pub Keeps-checkout_exists : (checkout : String) → Keeps (checkout_exists tools checkout)
  unfolding checkout_exists
  Keeps-checkout_exists checkout = record { kept = λ s. refl }

  pub Keeps-require_checkout :
      (relative checkout : String) → Keeps (require_checkout tools relative checkout)
  unfolding require_checkout
  Keeps-require_checkout relative checkout = search (keeps, Keeps-checkout_exists)

  pub Keeps-require_clean :
      (relative checkout : String) → Keeps (require_clean tools relative checkout)
  unfolding require_clean
  Keeps-require_clean relative checkout = search keeps

  pub Keeps-require_head :
      (reference : Json) (checkout : String) → Keeps (require_head tools reference checkout)
  unfolding require_head
  Keeps-require_head reference checkout = search keeps depth 9

  pub Keeps-run_generator : (command : List String) → Keeps (run_generator tools command)
  Keeps-run_generator command = record { kept = λ s. (Keeps-check _ _).kept _ }

  pub Keeps-run_generators : (commands : List (List String)) → Keeps (run_generators tools commands)
  unfolding run_generators
  Keeps-run_generators [] = Keeps-pure tt
  Keeps-run_generators (command ∷ rest) =
      search (keeps, Keeps-run_generator command, Keeps-run_generators rest)

  pub Keeps-require_commit :
      (checkout commit : String) → Keeps (require_commit tools checkout commit)
  unfolding require_commit
  Keeps-require_commit checkout commit = search keeps depth 9

  pub Keeps-validate_symbol :
      (checkout object : String) (path symbol : Json)
      → Keeps (validate_symbol tools checkout object path symbol)
  Keeps-validate_symbol checkout object path symbol = search keeps depth 9

  pub Keeps-validate_mapping :
      (checkout commit : String) (mapping : Json)
      → Keeps (validate_mapping tools checkout commit mapping)
  unfolding validate_mapping
  Keeps-validate_mapping checkout commit mapping = search (keeps, Keeps-validate_symbol) depth 9

  pub Keeps-validate_each :
      (checkout commit : String) (mappings : List Json)
      → Keeps (validate_each tools checkout commit mappings)
  unfolding validate_each
  Keeps-validate_each checkout commit [] = Keeps-pure tt
  Keeps-validate_each checkout commit (mapping ∷ rest) = search (
    keeps,
    Keeps-validate_mapping checkout commit mapping,
    Keeps-validate_each checkout commit rest,
  )

  pub Keeps-validate_mappings :
      (checkout : String) (reference : Json) (commit : String)
      → Keeps (validate_mappings tools checkout reference commit)
  unfolding validate_mappings
  Keeps-validate_mappings checkout reference commit = search (keeps, Keeps-validate_each) depth 9

  pub Keeps-follow_commit :
      (allow : Bool) (name commit : String) (opened : Opened)
      → Keeps (follow_commit tools allow name commit opened)
  unfolding follow_commit
  Keeps-follow_commit allow name commit opened =
      search (keeps, Keeps-require_commit, Keeps-validate_mappings) depth 9

  pub Keeps-change_summary :
      (checkout old new : String) → Keeps (change_summary tools checkout old new)
  unfolding change_summary
  Keeps-change_summary checkout old new = search keeps depth 9

  pub Keeps-open_reference : (name commit : String) → Keeps (open_reference tools name commit)
  unfolding open_reference
  Keeps-open_reference name commit =
      search (keeps, Keeps-require_checkout, Keeps-require_clean, Keeps-require_head) depth 20
