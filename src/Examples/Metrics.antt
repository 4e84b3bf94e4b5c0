-- ===== src/Examples/Metrics.antt =====
-- An example of two runs with the same metrics, in different orders.
use skiffdb.Prelude.{ℕ, [], ◌∷◌, ◌≡◌, refl, true, ◌↔◌, Bytes, codes, eq_bytes}
use skiffdb.Go.Map.{Map, lookup}
use skiffdb.Harness.Compare.{has, same_metric_keys, same_metric_keys_iff, IsMap}

abbrev baseline : Map ℕ
baseline = (codes "GET-p99", 40) ∷ (codes "SET-p99", 60) ∷ []

abbrev candidate : Map ℕ
candidate = (codes "SET-p99", 55) ∷ (codes "GET-p99", 41) ∷ []

baseline-IsMap : IsMap baseline
unfolding lookup eq_bytes
baseline-IsMap = (refl, (refl, tt))

candidate-IsMap : IsMap candidate
unfolding lookup eq_bytes
candidate-IsMap = (refl, (refl, tt))

same_metric_keys_iff_example :
    (same_metric_keys baseline candidate ≡ true) ↔ ((k : Bytes) → has k baseline ≡ has k candidate)
same_metric_keys_iff_example =
    same_metric_keys_iff baseline candidate baseline-IsMap candidate-IsMap
