-- ===== src/References/Waypoint.antt =====
-- `find_green_waypoint` of planning/update_references.py.
pub mod Found
use lua_mongodb.Base.{ℕ, suc, String, Bool, List, [], ◌∷◌, ◌++◌, if◌then◌else◌}
use lua_mongodb.Raise.{Result, ok, raise}
use lua_mongodb.References.Problem.{Py, crash}

pub record Waypoint : Type 0 where
  pub checked_commits : ℕ
  pub first_failing_commit : String
  pub last_green_commit : String

abbrev pub onto : List String → List String → List String
onto [] ys = ys
onto (x ∷ xs) ys = onto xs (x ∷ ys)

abbrev pub reversed : List String → List String
reversed xs = onto xs []

module _ (artifact_passes : String → Bool) where
  -- the loop, from the newest commit that is left; `first` is `commits[0]`
  unfoldable pub search_back : String → String → String → ℕ → List String → Waypoint
  search_back from_commit first first_failing checked [] = record {
    checked_commits = checked;
    first_failing_commit = first;
    last_green_commit = from_commit;
  }
  search_back from_commit first first_failing checked (c ∷ older) =
      let rest = search_back from_commit first c (suc checked) older in
      if artifact_passes c
      then record {
        checked_commits = suc checked;
        first_failing_commit = first_failing;
        last_green_commit = c;
      }
      else rest

  -- `commits[-1]` and the rest, newest first
  abbrev from_newest : String → String → List String → Py Waypoint
  from_newest from_commit first [] = raise crash
  from_newest from_commit first (newest ∷ older) =
      Result.ok (search_back from_commit first newest 0 older)

  unfoldable pub find_green_waypoint : String → List String → Py Waypoint
  unfolding search_back
  find_green_waypoint from_commit [] = raise crash
  find_green_waypoint from_commit (first ∷ commits) =
      from_newest from_commit first (reversed (first ∷ commits))
