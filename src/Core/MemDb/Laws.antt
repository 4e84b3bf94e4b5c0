-- ===== src/Core/MemDb/Laws.antt =====
-- The methods of the database, by what `Get` returns afterwards.
use skiffdb.Prelude.{
  ℕ, ◌+◌, Option, none, some, List, [], ◌∷◌, ◌++◌, ◌≡◌, refl, arith, Bytes, codes, eq_bytes,
  eq_bytes_iff, if◌then◌else◌,
}
use skiffdb.Prelude.Int.{ℤ, add_int}
use skiffdb.Go.Strconv.{itoa, atoi}
use skiffdb.Go.Map.{lookup, lookup-insert, lookup-delete}
use skiffdb.Core.MemDb.{
  MemDb, counted, count_from, count_keys, get, set, delete_found, remove, add_to, incr_found, incr,
}

module _ (db : MemDb) (key : Bytes) where
  pub get-set :
      (value j : Bytes)
      → get (set db key value) j ≡ (if eq_bytes key j then some value else get db j)
  unfolding get set
  get-set value j = lookup-insert key j value db.keyspace

  delete_found_lem :
      (o : Option Bytes) (j : Bytes)
      → lookup key db.keyspace ≡ o
      → lookup j (delete_found db key o).keyspace
        ≡ (if eq_bytes key j then none else lookup j db.keyspace)
  unfolding delete_found
  delete_found_lem none j h = ground (arith, eq_bytes_iff key j)
  delete_found_lem (some v) j h = lookup-delete key j db.keyspace

  pub get-remove : (j : Bytes) → get (remove db key) j ≡ (if eq_bytes key j then none else get db j)
  unfolding get remove
  get-remove j = delete_found_lem (lookup key db.keyspace) j refl

  pub incr_missing :
      (delta : ℤ) → get db key ≡ none → incr db key delta ≡ (none, set db key (itoa delta))
  unfolding get incr set
  incr_missing delta h = rw (h, incr_found)

  pub incr_number :
      (delta i : ℤ) (val : Bytes)
      → get db key ≡ some val
      → atoi val ≡ some i
      → incr db key delta ≡ (none, set db key (itoa (add_int i delta)))
  unfolding get incr set
  incr_number delta i val h e = rw (h, incr_found) (rw (e, add_to))

  pub incr_not_number :
      (delta : ℤ) (val : Bytes)
      → get db key ≡ some val
      → atoi val ≡ none
      → incr db key delta ≡ (some (codes "INCR expects a number, got " ++ val), db)
  unfolding get incr
  incr_not_number delta val h e = rw (h, incr_found) (rw (e, add_to))

-- The number of the listed keys that are there, a key that is listed twice counted twice.
abbrev pub present : Option Bytes → ℕ
present none = 0
present (some v) = 1

abbrev pub count_present : (Bytes → Option Bytes) → List Bytes → ℕ
count_present view [] = 0
count_present view (key ∷ keys) = present (view key) + count_present view keys

counted_lem : (o : Option Bytes) (n : ℕ) → counted o n ≡ present o + n
unfolding counted
counted_lem none n = omega arith
counted_lem (some v) n = omega arith

count_from_lem :
    (db : MemDb) (n : ℕ) (keys : List Bytes)
    → count_from db n keys ≡ n + count_present (get db) keys
unfolding count_from get
count_from_lem db n [] = omega arith
count_from_lem db n (key ∷ keys) = omega (
  arith,
  count_from_lem db (counted (lookup key db.keyspace) n) keys,
  counted_lem (lookup key db.keyspace) n,
)

pub count_keys_lem :
    (db : MemDb) (keys : List Bytes) → count_keys db keys ≡ count_present (get db) keys
unfolding count_keys
count_keys_lem db keys = omega (arith, count_from_lem db 0 keys)
