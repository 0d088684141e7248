-- ===== src/Artifacts/Tests.antt =====
-- Tests of the generators of the specification's artifacts.
use lua_mongodb.Artifacts.{Command, artifact_commands, main}
use lua_mongodb.Artifacts.Stops.{AllSucceed, StopsAt, main-Ends}
use lua_mongodb.Base.{ℕ, suc, ◌≡◌, ◌⊎◌, refl, ◌==◌, if◌then◌else◌}

-- the world counts the commands that were run, and the third one fails
abbrev third_fails : Command → ℕ → ℕ × ℕ
third_fails command n = (if n == 2 then 7 else 0, suc n)

stops_at_third : main third_fails 0 ≡ (7, 3)
unfolding main
stops_at_third = refl

main-Ends_example :
    (((main third_fails 0).0 ≡ 0)
      × AllSucceed third_fails artifact_commands 0 (main third_fails 0).1)
    ⊎ StopsAt third_fails artifact_commands 0 (main third_fails 0).0 (main third_fails 0).1
main-Ends_example = main-Ends third_fails 0
