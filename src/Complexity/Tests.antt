-- ===== src/Complexity/Tests.antt =====
-- Runs of the definitions for tools/check_lua_complexity.py on two functions.
use lua_mongodb.Base.{List, [], ◌∷◌, ◌≡◌, ◌↔◌, refl}
use lua_mongodb.Complexity.{
  Metric, Baseline, Key, compare, generated_baseline, regression, expected, measured,
}
use lua_mongodb.Complexity.Agrees.{Agrees, compare-Agrees}
use lua_mongodb.Complexity.Ratchet.{compare-generated_baseline}

abbrev metrics : List Metric
metrics =
    record { path = "src/mongodb/a.lua"; name = "f"; line = 3; score = 50 }
    ∷ record { path = "src/mongodb/a.lua"; name = "g"; line = 9; score = 7 }
    ∷ []

compare-generated_baseline_example : compare (generated_baseline metrics 40) metrics ≡ []
unfolding lua_mongodb.Complexity.distinct_keys
compare-generated_baseline_example = compare-generated_baseline metrics 40 refl

compare-worse :
    compare
      (generated_baseline metrics 40)
      (record { path = "src/mongodb/a.lua"; name = "f"; line = 3; score = 51 } ∷ [])
    ≡ regression (record { path = "src/mongodb/a.lua"; name = "f" }) 3 51 50 ∷ []
unfolding compare generated_baseline
compare-worse = refl

abbrev recorded : Baseline
recorded = record {
  maximum_new_complexity = 40;
  hotspots = record { path = "src/mongodb/a.lua"; function = "f"; complexity = 50 } ∷ [];
}

compare-Agrees_example :
    (compare recorded metrics ≡ [])
    ↔ ((k : Key) → Agrees 40 (expected k recorded.hotspots) (measured k metrics))
compare-Agrees_example = compare-Agrees recorded metrics
