-- ===== src/References/Verify/Listed.antt =====
-- What `propose` lists.
use lua_mongodb.Base.{
  String, List, [], ◌∷◌, ◌≡◌, ◌⊎◌, inl, inr, refl, sym, ap, subst, In, str_eq, Bool-cases,
}
use lua_mongodb.Json.{Json}
use lua_mongodb.Names.{add_name}
use lua_mongodb.Names.Order.{add_name-In}
use lua_mongodb.Raise.{ok, raise, ◌>>=◌, bind-eq-ok, ok_unique}
use lua_mongodb.References.Problem.{Py}
use lua_mongodb.References.Verify.{Proposal, add_environment, new_proposal, extended, propose}
use lua_mongodb.Text.{precedes}

-- an identity of one of the proposals
abbrev pub Listed : String → List Proposal → Type 0
Listed identity [] = ⊥
Listed identity (p ∷ ps) = In identity p.identities ⊎ Listed identity ps

extended-identities :
    (identity : String) (environment : Json) (q p : Proposal)
    → extended identity environment q ≡ ok p
    → p.identities ≡ add_name identity q.identities
extended-identities identity environment q p h =
    let (environments, _, later) =
      bind-eq-ok (add_environment environment q.required_environments) _ h in
    ap (λ (x : Proposal). x.identities) (sym (ok_unique (ok _) refl later))

-- a step of the loop lists an identity
extended-In :
    (identity : String) (environment : Json) (q p : Proposal)
    → extended identity environment q ≡ ok p
    → In identity p.identities
extended-In identity environment q p h =
    rw (extended-identities identity environment q p h)
      ((add_name-In identity identity q.identities).1 (inl refl))

-- and keeps those that are listed
extended-keeps :
    (i identity : String) (environment : Json) (q p : Proposal)
    → extended identity environment q ≡ ok p
    → In i q.identities
    → In i p.identities
extended-keeps i identity environment q p h m =
    rw (extended-identities identity environment q p h)
      ((add_name-In i identity q.identities).1 (inr m))

abbrev pub Lists : String → List Proposal → List Proposal → Type 0
Lists identity grouped after =
    Listed identity after × ((i : String) → Listed i grouped → Listed i after)

-- a proposal in front of others that stay
consed :
    (r : Py Proposal) (rest after : List Proposal) (identity : String) (environment : Json)
    (q : Proposal)
    → extended identity environment q ≡ r
    → (r >>= λ p. ok (p ∷ rest)) ≡ ok after
    → (p : Proposal) × (extended identity environment q ≡ ok p) × (p ∷ rest ≡ after)
consed (ok p) rest after identity environment q e h = (p, e, ok_unique (ok (p ∷ rest)) refl h)
consed (raise x) rest after identity environment q e h = cc

pub propose-Lists :
    (command identity : String) (environment : Json) (grouped after : List Proposal)
    → propose command identity environment grouped ≡ ok after
    → Lists identity grouped after
unfolding propose
propose-Lists command identity environment [] after h =
    let (p, e, same) = consed _ [] after identity environment (new_proposal command) refl h in
    subst (Lists identity []) same
      (inl (extended-In identity environment (new_proposal command) p e), λ i m. absurd m)
propose-Lists command identity environment (q ∷ rest) after h =
    elim (Bool-cases (str_eq command q.command)) [
      | inl a ↦
          let (p, e, same) =
            consed _ rest after identity environment q refl (rw (a, propose) at h) in
          subst (Lists identity (q ∷ rest)) same (
            inl (extended-In identity environment q p e),
            λ i m. elim m [
              | inl k ↦ inl (extended-keeps i identity environment q p e k)
              | inr k ↦ inr k
            ],
          )
      | inr a ↦ elim (Bool-cases (precedes command q.command)) [
        | inl b ↦
            let (p, e, same) =
              consed _ (q ∷ rest) after identity environment (new_proposal command) refl
                (rw (a, b, propose) at h) in
            subst (Lists identity (q ∷ rest)) same
              (inl (extended-In identity environment (new_proposal command) p e), λ i m. inr m)
        | inr b ↦
            let (ps, e, same) =
              bind-eq-ok (propose command identity environment rest) (λ ps. ok (q ∷ ps))
                (rw (a, b, propose) at h) in
            let (listed, kept) = propose-Lists command identity environment rest ps e in
            subst (Lists identity (q ∷ rest)) (ok_unique (ok (q ∷ ps)) refl same)
              (inr listed, λ i m. elim m [ inl k ↦ inl k | inr k ↦ inr (kept i k) ])
      ]
    ]
