-- ===== src/Complexity.antt =====
-- tools/check_lua_complexity.py: the comparison of the measured complexity of the Lua functions with
-- the baseline, and the baseline that is generated from a measurement. The report of Luacheck is
-- parsed by regular expressions and is a parameter here: the list of its metrics.
pub mod Ratchet
pub mod Agrees
mod Tests
use Prim.Native.Char.{Char, code}
use lua_mongodb.Base.{
  ℕ, String, Bool, true, false, not, ◌&&◌, ◌||◌, Option, none, some, List, [], ◌∷◌, ◌++◌, ltb,
  str_eq, ◌==◌, if◌then◌else◌,
}
use lua_mongodb.Text.{precedes}

-- `Metric`; its key is the path and the name
pub record Metric : Type 0 where
  pub path : String
  pub name : String
  pub line : ℕ
  pub score : ℕ

pub record Hotspot : Type 0 where
  pub path : String
  pub function : String
  pub complexity : ℕ

pub record Baseline : Type 0 where
  pub maximum_new_complexity : ℕ
  pub hotspots : List Hotspot

pub record Key : Type 0 where
  pub path : String
  pub name : String

abbrev pub key : Metric → Key
key m = record { path = m.path; name = m.name }

abbrev pub same_key : Key → Key → Bool
same_key a b = str_eq a.path b.path && str_eq a.name b.name

-- `len(keys) == len(set(keys))`, which `parse_report` asks of the metrics
unfoldable pub holds_key : Key → List Metric → Bool
holds_key k [] = false
holds_key k (m ∷ ms) = same_key (key m) k || holds_key k ms

unfoldable pub distinct_keys : List Metric → Bool
unfolding holds_key
distinct_keys [] = true
distinct_keys (m ∷ ms) = not (holds_key (key m) ms) && distinct_keys ms

-- `measured.get(key)`, where a later metric hides an earlier one
unfoldable pub measured : Key → List Metric → Option Metric
measured k [] = none
measured k (m ∷ ms) = elim (measured k ms) [
  | some n ↦ some n
  | none ↦ if same_key (key m) k then some m else none
]

-- `expected.get(key)`
unfoldable pub expected : Key → List Hotspot → Option ℕ
expected k [] = none
expected k (h ∷ hs) = elim (expected k hs) [
  | some n ↦ some n
  | none ↦
      if same_key (record { path = h.path; name = h.function }) k then some h.complexity else none
]

-- the issues, with the key, the line and the scores that the text names
pub data Issue : Type 0 where
  new_hotspot : Key → ℕ → ℕ → ℕ → Issue
  no_longer_reported : Key → Issue
  regression : Key → ℕ → ℕ → ℕ → Issue
  score_fell : Key → ℕ → ℕ → Issue

-- the body of the loop, from `baseline_score` and `current`
unfoldable pub compare_key : ℕ → Key → Option ℕ → Option Metric → List Issue
compare_key limit k none none = []
compare_key limit k none (some current) =
    if ltb limit current.score then new_hotspot k current.line current.score limit ∷ [] else []
compare_key limit k (some baseline_score) none = no_longer_reported k ∷ []
compare_key limit k (some baseline_score) (some current) =
    if ltb baseline_score current.score
    then regression k current.line current.score baseline_score ∷ []
    else if ltb current.score baseline_score
    then score_fell k baseline_score current.score ∷ []
    else []

-- `a < b` for two keys
abbrev precedes_key : Key → Key → Bool
precedes_key a b = precedes a.path b.path || str_eq a.path b.path && precedes a.name b.name

-- adding a key to a set that is kept sorted
unfoldable pub add_key : Key → List Key → List Key
unfolding precedes
add_key k [] = k ∷ []
add_key k (l ∷ ls) =
    let later = add_key k ls in
    if same_key k l then l ∷ ls else if precedes_key k l then k ∷ l ∷ ls else l ∷ later

unfoldable pub metric_keys : List Metric → List Key → List Key
unfolding add_key
metric_keys [] ks = ks
metric_keys (m ∷ ms) ks = metric_keys ms (add_key (key m) ks)

unfoldable pub hotspot_keys : List Hotspot → List Key → List Key
unfolding add_key
hotspot_keys [] ks = ks
hotspot_keys (h ∷ hs) ks =
    hotspot_keys hs (add_key (record { path = h.path; name = h.function }) ks)

unfoldable pub compare_keys : Baseline → List Metric → List Key → List Issue
unfolding compare_key measured expected
compare_keys baseline metrics [] = []
compare_keys baseline metrics (k ∷ ks) =
    compare_key baseline.maximum_new_complexity k (expected k baseline.hotspots)
      (measured k metrics)
    ++ compare_keys baseline metrics ks

unfoldable pub compare : Baseline → List Metric → List Issue
unfolding compare_keys metric_keys hotspot_keys
compare baseline metrics =
    compare_keys baseline metrics (metric_keys metrics (hotspot_keys baseline.hotspots []))

unfoldable pub hotspots_above : ℕ → List Metric → List Hotspot
hotspots_above limit [] = []
hotspots_above limit (m ∷ ms) =
    (if ltb limit m.score
      then record { path = m.path; function = m.name; complexity = m.score } ∷ []
      else [])
    ++ hotspots_above limit ms

unfoldable pub generated_baseline : List Metric → ℕ → Baseline
unfolding hotspots_above
generated_baseline metrics limit = record {
  maximum_new_complexity = limit;
  hotspots = hotspots_above limit metrics;
}
