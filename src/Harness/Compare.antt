-- ===== src/Harness/Compare.antt =====
-- benchmarks/harness/compare.go, `sameMetricKeys`: whether two runs have the same metrics.
use skiffdb.Prelude.{
  ◌≤◌, ◌<◌, Option, none, some, [], ◌∷◌, ◌≡◌, refl, ◌↔◌, Bool, true, false, not, ◌&&◌, ◌||◌, ◌==◌,
  ==_iff, arith, Bytes, eq_bytes, eq_bytes_iff, eq_bytes_self, if◌then◌else◌, length, Bool-cases,
  inl, inr,
}
use skiffdb.Go.Map.{Map, lookup, delete, lookup-delete}

module _ {V : Type 0} where
  abbrev found : Option V → Bool
  found none = false
  found (some v) = true

  -- The second result of a read of the map.
  abbrev pub has : Bytes → Map V → Bool
  has k m = found (lookup k m)

  unfoldable all_found : Map V → Map V → Bool
  all_found [] right = true
  all_found ((key, v) ∷ left) right = has key right && all_found left right

  unfoldable pub same_metric_keys : Map V → Map V → Bool
  unfolding all_found
  same_metric_keys left right =
      if not (length left == length right) then false else all_found left right

  -- No key stands twice.
  abbrev pub IsMap : Map V → Type 0
  IsMap [] = Unit
  IsMap ((key, v) ∷ m) = (has key m ≡ false) × IsMap m

  abbrev Covers : Map V → Map V → Type 0
  Covers right left = (k : Bytes) → has k left ≡ true → has k right ≡ true

  has_cons : (k j : Bytes) (v : V) (m : Map V) → has k ((j, v) ∷ m) ≡ (eq_bytes j k || has k m)
  unfolding lookup
  has_cons k j v m = ground arith

  has-delete :
      (k j : Bytes) (m : Map V) → has j (delete k m) ≡ (if eq_bytes k j then false else has j m)
  has-delete k j m = rw lookup-delete (ground arith)

  delete_le : (k : Bytes) (m : Map V) → length (delete k m) ≤ length m
  unfolding delete
  delete_le k [] = omega arith
  delete_le k ((j, v) ∷ m) = ground (arith, delete_le k m)

  delete_lt : (k : Bytes) (m : Map V) → has k m ≡ true → length (delete k m) < length m
  unfolding delete lookup
  delete_lt k [] h = cc
  delete_lt k ((j, v) ∷ m) h = ground (arith, h, delete_le k m, delete_lt k m)

  Covers-fresh :
      (key : Bytes) (left right : Map V)
      → has key left ≡ false
      → Covers right left
      → Covers (delete key right) left
  Covers-fresh key left right fresh covers k h =
      rw has-delete (ground (arith, covers k, eq_bytes_iff key k, fresh, h))

  Covers-le : (left right : Map V) → IsMap left → Covers right left → length left ≤ length right
  Covers-le [] right m covers = omega arith
  Covers-le ((key, v) ∷ left) right (fresh, m) covers =
      let there : has key right ≡ true = covers key (rw has_cons (rw eq_bytes_self refl)) in
      let rest : Covers right left = λ k h. covers k (rw has_cons (ground (arith, h))) in
      omega (
        arith,
        Covers-le left (delete key right) m (Covers-fresh key left right fresh rest),
        delete_lt key right there,
      )

  all_found-has :
      (left right : Map V) (k : Bytes)
      → all_found left right ≡ true
      → has k left ≡ true
      → has k right ≡ true
  unfolding all_found lookup
  all_found-has [] right k h i = cc
  all_found-has ((key, v) ∷ left) right k h i =
      ground (arith, h, i, has_cons k key v left, eq_bytes_iff key k, all_found-has left right k)

  Covers-all_found : (left right : Map V) → Covers right left → all_found left right ≡ true
  unfolding all_found
  Covers-all_found [] right covers = refl
  Covers-all_found ((key, v) ∷ left) right covers =
      rw (covers key (rw has_cons (rw eq_bytes_self refl)))
        (Covers-all_found left right (λ k h. covers k (rw has_cons (ground (arith, h)))))

  -- A key of the second map that the first has not would make it longer than the second.
  covered_back :
      (left right : Map V)
      → IsMap left
      → Covers right left
      → length left ≡ length right
      → Covers left right
  covered_back left right m covers len k h = elim (Bool-cases (has k left)) [
    | inl there ↦ there
    | inr fresh ↦ ground (
      arith,
      len,
      Covers-le left (delete k right) m (Covers-fresh k left right fresh covers),
      delete_lt k right h,
    )
  ]

  same_keys :
      (left right : Map V)
      → same_metric_keys left right ≡ true
      → (length left ≡ length right) × (all_found left right ≡ true)
  unfolding same_metric_keys
  same_keys left right h = ground (arith, h, ==_iff (length left) (length right))

  same_metric_keys_holds :
      (left right : Map V)
      → length left ≡ length right
      → all_found left right ≡ true
      → same_metric_keys left right ≡ true
  unfolding same_metric_keys
  same_metric_keys_holds left right len all =
      ground (arith, len, all, ==_iff (length left) (length right))

  -- The test for equal sets of metrics holds exactly when every key stands in both maps or in neither,
  -- although it only looks for the keys of the first map in the second and compares the numbers of keys.
  pub same_metric_keys_iff :
      (left right : Map V)
      → IsMap left
      → IsMap right
      → (same_metric_keys left right ≡ true) ↔ ((k : Bytes) → has k left ≡ has k right)
  same_metric_keys_iff left right l r = (
    (λ h k.
        let (len, all) = same_keys left right h in
        let covers : Covers right left = λ j. all_found-has left right j all in
        ground (arith, covers k, covered_back left right l covers len k)),
    (λ h.
        same_metric_keys_holds left right
          (omega (
            arith,
            Covers-le left right l (λ k i. ground (arith, h k, i)),
            Covers-le right left r (λ k i. ground (arith, h k, i)),
          ))
          (Covers-all_found left right (λ k i. ground (arith, h k, i)))),
  )
