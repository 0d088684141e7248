-- ===== src/Artifacts.antt =====
-- planning/update_spec_artifacts.py: the generators that are run one after the other. A run of one is
-- a parameter: it changes the world and gives an exit code.
pub mod Stops
mod Tests
use lua_mongodb.Base.{ℕ, String, List, [], ◌∷◌, ◌==◌, if◌then◌else◌}

abbrev pub Command : Type 0
Command = List String

abbrev pub artifact_commands : List Command
artifact_commands =
    ("spec/unified/update_capabilities.py" ∷ [])
    ∷ ("spec/conformance/catalog.py" ∷ [])
    ∷ ("spec/conformance/ledger.py" ∷ [])
    ∷ ("spec/release/scope.py" ∷ [])
    ∷ ("spec/v04/scope.py" ∷ [])
    ∷ ("spec/v05/scope.py" ∷ [])
    ∷ ("spec/v06/scope.py" ∷ [])
    ∷ ("spec/v07/scope.py" ∷ [])
    ∷ ("spec/v08/scope.py" ∷ [])
    ∷ ("spec/v09/scope.py" ∷ [])
    ∷ ("spec/v10/scope.py" ∷ [])
    ∷ ("spec/v102/scope.py" ∷ [])
    ∷ ("spec/v103/scope.py" ∷ [])
    ∷ ("planning/update_readme_compatibility.py" ∷ [])
    ∷ ("planning/update_plan.py" ∷ "render-state" ∷ [])
    ∷ []

-- the exit code of a run, where any number but 0 stands for the negative one of a process that a signal
-- ended
module _ {W : Type 0} (run : Command → W → ℕ × W) where
  unfoldable pub regenerate : List Command → W → ℕ × W
  regenerate [] w = (0, w)
  regenerate (command ∷ rest) w =
      let (code, after) = run command w in
      let later = regenerate rest after in if code == 0 then later else (code, after)

  -- `main`, up to what it prints
  unfoldable pub main : W → ℕ × W
  unfolding regenerate
  main w = regenerate artifact_commands w
