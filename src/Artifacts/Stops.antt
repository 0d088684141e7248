-- ===== src/Artifacts/Stops.antt =====
-- Where the generators stop.
use lua_mongodb.Base.{
  ℕ, List, [], ◌∷◌, ◌++◌, ◌≡◌, ◌≢◌, ◌⊎◌, inl, inr, refl, ap, arith, ◌==◌, ==_iff, Bool-cases,
}
use lua_mongodb.Artifacts.{Command, artifact_commands, regenerate, main}

module _ {W : Type 0} (run : Command → W → ℕ × W) where
  -- the commands run one after the other, each with exit code 0
  abbrev pub AllSucceed : List Command → W → W → Type 0
  AllSucceed [] w after = w ≡ after
  AllSucceed (command ∷ rest) w after =
      ((run command w).0 ≡ 0) × AllSucceed rest (run command w).1 after

  -- the commands before one that fails, and that one
  abbrev pub StopsAt : List Command → W → ℕ → W → Type 0
  StopsAt commands w code after =
      (done : List Command) × (failing : Command) × (left : List Command) × (mid : W) × (commands
        ≡ done ++ failing ∷ left)
      × AllSucceed done w mid
      × (run failing mid ≡ (code, after))
      × (code ≢ 0)

  abbrev Ends : List Command → W → ℕ × W → Type 0
  Ends commands w end = ((end.0 ≡ 0) × AllSucceed commands w end.1) ⊎ StopsAt commands w end.0 end.1

  regenerate-Ends : (commands : List Command) (w : W) → Ends commands w (regenerate run commands w)
  unfolding regenerate
  regenerate-Ends [] w = inl (refl, refl)
  regenerate-Ends (command ∷ rest) w = elim (Bool-cases ((run command w).0 == 0)) [
    | inl e ↦
        let zero_code = (==_iff (run command w).0 0).0 e in
        rw (e, regenerate)
          (elim (regenerate-Ends rest (run command w).1) [
            | inl (z, all) ↦ inl (z, (zero_code, all))
            | inr (done, failing, left, mid, split, before, last, code) ↦ inr (
              command ∷ done,
              failing,
              left,
              mid,
              ap (λ (cs : List Command). command ∷ cs) split,
              (zero_code, before),
              last,
              code,
            )
          ])
    | inr e ↦
        rw (e, regenerate)
          (inr (
            [],
            command,
            rest,
            w,
            refl,
            refl,
            refl,
            λ z. ground (arith, (==_iff (run command w).0 0).1 z),
          ))
  ]

  -- A run of the program ends in one of two ways: each of its commands succeeded, in order, and its exit
  -- code is 0; or the commands before one that failed succeeded, none was run after that one, and the
  -- exit code is that one's.
  pub main-Ends :
      (w : W)
      → (((main run w).0 ≡ 0) × AllSucceed artifact_commands w (main run w).1)
        ⊎ StopsAt artifact_commands w (main run w).0 (main run w).1
  unfolding main
  main-Ends w = regenerate-Ends artifact_commands w
