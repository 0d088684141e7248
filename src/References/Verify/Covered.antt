-- ===== src/References/Verify/Covered.antt =====
-- Where the identities of claimed values end up.
use mathlib.Core.Logic.{⊎_elim}
use lua_mongodb.Base.{
  String, Bool, true, false, not, Option, List, [], ◌∷◌, ◌≡◌, ◌⊎◌, inl, inr, refl, sym, ap, ◌∙◌,
  subst, In, if◌then◌else◌,
}
use lua_mongodb.Json.{null, Fields, get_or, truthy}
use lua_mongodb.Names.{sorted_names}
use lua_mongodb.Names.Order.{sorted_names-In}
use lua_mongodb.Raise.{ok, raise, ◌>>=◌, bind-eq-ok, ok_unique}
use lua_mongodb.References.Delta.{Delta}
use lua_mongodb.References.Problem.{Py}
use lua_mongodb.References.Verify.{
  Proposal, new_values, is_claimed, identity_of, text_of, verification_command_covers_identity,
  is_proposed, add_value, propose_values, propose_verification_commands, is_unverified,
  unverified_values, unverified_behavior_identities,
}
use lua_mongodb.References.Verify.Listed.{Listed, Lists, propose-Lists}

true-ne-false : ¬ (◌≡◌ {A = Bool} true false)
true-ne-false e = cc

-- the two loops agree, of a command that is there or not, a claim and whether the command covers it
covered_proposed :
    (there : Bool) (claim cover : Py Bool)
    → (there ≡ false → cover ≡ ok false)
    → claim ≡ ok true
    → (claim >>= λ c. if c then (cover >>= λ k. ok (not k)) else ok false) ≡ ok false
    → (if not there then ok false else (claim >>= λ c. if c then cover else ok false)) ≡ ok true
covered_proposed true (ok true) (ok true) h e f = refl
covered_proposed true (ok true) (ok false) h e f =
    absurd (true-ne-false (ok_unique (ok true) refl f))
covered_proposed true (ok true) (raise x) h e f = cc
covered_proposed false (ok true) cover h e f =
    absurd (true-ne-false (ok_unique (ok true) refl (rw (h refl) at f)))
covered_proposed there (ok false) cover h e f =
    absurd (true-ne-false (sym (ok_unique (ok false) refl e)))
covered_proposed there (raise x) cover h e f = cc

module _ (shell_words : String → Option (List String)) where
  add_value-Lists :
      (value : Fields) (identity : String) (grouped after : List Proposal)
      → add_value shell_words value grouped ≡ ok after
      → identity_of value ≡ ok identity
      → Lists identity grouped after
  add_value-Lists value identity grouped after h named =
      let (command, _, h1) = bind-eq-ok (text_of (get_or value "last_execution" null)) _ h in
      let (i, same, h2) = bind-eq-ok (identity_of value) _ h1 in
      subst (λ (x : String). Lists x grouped after) (ok_unique (identity_of value) same named)
        (propose-Lists command i _ grouped after h2)

  propose_values-keeps :
      (i : String) (values : List Fields) (grouped after : List Proposal)
      → propose_values shell_words values grouped ≡ ok after
      → Listed i grouped
      → Listed i after
  unfolding propose_values
  propose_values-keeps i [] grouped after h m = subst (Listed i) (ok_unique (ok grouped) refl h) m
  propose_values-keeps i (value ∷ rest) grouped after h m =
      let (proposed, _, h1) = bind-eq-ok (is_proposed shell_words value) _ h in
      let (more, e, h2) =
        bind-eq-ok (if proposed then add_value shell_words value grouped else ok grouped) _ h1 in
      propose_values-keeps i rest more after h2 (stays proposed more e m)
    where
      stays :
          (b : Bool) (more : List Proposal)
          → (if b then add_value shell_words value grouped else ok grouped) ≡ ok more
          → Listed i grouped
          → Listed i more
      stays true more e m =
          let (command, _, h1) = bind-eq-ok (text_of (get_or value "last_execution" null)) _ e in
          let (identity, _, h2) = bind-eq-ok (identity_of value) _ h1 in
          (propose-Lists command identity _ grouped more h2).1 i m
      stays false more e m = subst (Listed i) (ok_unique (ok grouped) refl e) m

  propose_values-Listed :
      (value : Fields) (identity : String) (values : List Fields) (grouped after : List Proposal)
      → propose_values shell_words values grouped ≡ ok after
      → In value values
      → is_proposed shell_words value ≡ ok true
      → identity_of value ≡ ok identity
      → Listed identity after
  unfolding propose_values
  propose_values-Listed value identity [] grouped after h m p named = absurd m
  propose_values-Listed value identity (v ∷ rest) grouped after h m p named =
      let (proposed, first, h1) = bind-eq-ok (is_proposed shell_words v) _ h in
      let (more, e, h2) =
        bind-eq-ok (if proposed then add_value shell_words v grouped else ok grouped) _ h1 in
      elim m [
        | inr later ↦ propose_values-Listed value identity rest more after h2 later p named
        | inl same ↦
            let is_true : proposed ≡ true =
              ok_unique (is_proposed shell_words v) first
                (subst (λ (x : Fields). is_proposed shell_words x ≡ ok true) same p) in
            let added : add_value shell_words v grouped ≡ ok more = rw is_true at e in
            propose_values-keeps identity rest more after h2
              (add_value-Lists v identity grouped more added
                (subst (λ (x : Fields). identity_of x ≡ ok identity) same named)).0
      ]

  -- one step of the loop of `unverified_values`
  unverified_step :
      (b : Bool) (v : Fields) (rest : List Fields) (identities : List String)
      → (if b
          then (identity_of v >>= λ i.
              unverified_values shell_words rest >>= λ others. ok (i ∷ others))
          else unverified_values shell_words rest)
        ≡ ok identities
      → (others : List String) × (unverified_values shell_words rest ≡ ok others)
        × ((j : String) → In j others → In j identities)
        × ((b ≡ false) ⊎ ((i : String) × (identity_of v ≡ ok i) × In i identities))
  unverified_step true v rest identities h =
      let (i, e, h1) = bind-eq-ok (identity_of v) _ h in
      let (others, f, h2) =
        bind-eq-ok (unverified_values shell_words rest) (λ others. ok (i ∷ others)) h1 in
      let same : i ∷ others ≡ identities = ok_unique (ok (i ∷ others)) refl h2 in
      (others, f, λ j m. subst (In j) same (inr m), inr (i, e, subst (In i) same (inl refl)))
  unverified_step false v rest identities h = (identities, h, λ j m. m, inl refl)

  -- what `unverified_values` has found of a value
  unverified-In :
      (value : Fields) (identity : String) (values : List Fields) (identities : List String)
      → unverified_values shell_words values ≡ ok identities
      → In value values
      → identity_of value ≡ ok identity
      → (b : Bool) × (is_unverified shell_words value ≡ ok b)
        × ((b ≡ false) ⊎ In identity identities)
  unfolding unverified_values
  unverified-In value identity [] identities h m named = absurd m
  unverified-In value identity (v ∷ rest) identities h m named =
      let (b, e, h1) = bind-eq-ok (is_unverified shell_words v) _ h in
      let (others, f, keeps, found) = unverified_step b v rest identities h1 in
      elim m [
        | inr later ↦
            let (c, g, there) = unverified-In value identity rest others f later named in
            (c, g, ⊎_elim inl (λ k. inr (keeps identity k)) there)
        | inl same ↦ (
          b,
          subst (λ (x : Fields). is_unverified shell_words x ≡ ok b) (sym same) e,
          ⊎_elim inl
              (λ k.
                let this : identity_of v ≡ ok identity =
                  subst (λ (x : Fields). identity_of x ≡ ok identity) same named in
                inr (
                  subst (λ (x : String). In x identities) (ok_unique (identity_of v) k.1 this) k.2))
              found,
        )
      ]

  -- a claimed value that is not unverified is proposed
  claimed_proposed :
      (value : Fields)
      → is_claimed value ≡ ok true
      → is_unverified shell_words value ≡ ok false
      → is_proposed shell_words value ≡ ok true
  unfolding is_unverified is_proposed
  claimed_proposed value claimed verified =
      covered_proposed (truthy (get_or value "last_execution" null)) (is_claimed value)
        (verification_command_covers_identity shell_words value)
        (λ e. rw (e, verification_command_covers_identity) refl) claimed verified

  -- Every record that is added or changed, whose activity is under way or done and whose evidence
  -- passed, has its identity in one of the proposals to run a command or among the unverified
  -- identities, where both are computed.
  pub claimed-Listed :
      (ownership : Delta) (values : List Fields) (proposals : List Proposal)
      (identities : List String) (value : Fields) (identity : String)
      → new_values ownership ≡ ok values
      → propose_verification_commands shell_words ownership ≡ ok proposals
      → unverified_behavior_identities shell_words ownership ≡ ok identities
      → In value values
      → is_claimed value ≡ ok true
      → identity_of value ≡ ok identity
      → Listed identity proposals ⊎ In identity identities
  unfolding propose_verification_commands unverified_behavior_identities
  claimed-Listed ownership values proposals identities value identity read proposed unverified m
        claimed named =
      let (vs, r1, p1) =
        bind-eq-ok (new_values ownership) (λ vs. propose_values shell_words vs []) proposed in
      let (ws, r2, u1) = bind-eq-ok (new_values ownership) _ unverified in
      let (is, u2, u3) =
        bind-eq-ok (unverified_values shell_words ws) (λ is. ok (sorted_names is)) u1 in
      let at_vs : In value vs =
        subst (λ (xs : List Fields). In value xs) (ok_unique (new_values ownership) read r1) m in
      let at_ws : In value ws =
        subst (λ (xs : List Fields). In value xs) (ok_unique (new_values ownership) read r2) m in
      let (b, e, found) = unverified-In value identity ws is u2 at_ws named in
      elim found [
        | inr k ↦ inr (
            subst (In identity) (ok_unique (ok (sorted_names is)) refl u3)
              ((sorted_names-In identity is).1 k))
        | inl covered ↦ inl (
            propose_values-Listed value identity vs [] proposals p1 at_vs
              (claimed_proposed value claimed (e ∙ ap (λ (x : Bool). ok x) covered)) named)
      ]
