-- ===== src/Go/Map.antt =====
-- Go's `map[string]V`: its reads and writes, as an association list. A program sees a map through
-- `lookup` and through `range`, whose order is any.
use skiffdb.Prelude.{
  Option, none, some, List, [], ◌∷◌, ◌≡◌, arith, if◌then◌else◌, Bytes, eq_bytes, eq_bytes_iff,
}

abbrev pub Map {ℓ} : Type ℓ → Type ℓ
Map V = List (Bytes × V)

module _ {ℓ} {V : Type ℓ} where
  -- `v, ok := m[k]`.
  unfoldable pub lookup : Bytes → Map V → Option V
  lookup k [] = none
  lookup k ((j, v) ∷ m) = if eq_bytes j k then some v else lookup k m

  -- `delete(m, k)`.
  unfoldable pub delete : Bytes → Map V → Map V
  delete k [] = []
  delete k ((j, v) ∷ m) = let rest = delete k m in if eq_bytes j k then rest else (j, v) ∷ rest

  -- `m[k] = v`.
  unfoldable pub insert : Bytes → V → Map V → Map V
  unfolding delete
  insert k v m = (k, v) ∷ delete k m

  pub lookup-delete :
      (k j : Bytes) (m : Map V)
      → lookup j (delete k m) ≡ (if eq_bytes k j then none else lookup j m)
  unfolding lookup delete
  lookup-delete k j [] = ground arith
  lookup-delete k j ((i, v) ∷ m) =
      ground (arith, lookup-delete k j m, eq_bytes_iff i k, eq_bytes_iff i j, eq_bytes_iff k j)

  pub lookup-insert :
      (k j : Bytes) (v : V) (m : Map V)
      → lookup j (insert k v m) ≡ (if eq_bytes k j then some v else lookup j m)
  unfolding lookup insert
  lookup-insert k j v m = ground (arith, lookup-delete k j m)

pub ruleset map_laws = (lookup-insert, lookup-delete)
