-- ===== src/Core/MemDb.antt =====
-- src/core/memdb.go: the in-memory database. A method holds the mutex from its first line to its
-- return, so it is one step on the keyspace.
pub mod Laws
use skiffdb.Prelude.{ℕ, ◌+◌, Option, none, some, List, [], ◌∷◌, ◌++◌, Bytes, codes}
use skiffdb.Prelude.Int.{ℤ, add_int}
use skiffdb.Go.Strconv.{itoa, atoi}
use skiffdb.Go.Map.{Map, lookup, insert, delete}

pub record MemDb : Type 0 where
  pub keyspace : Map Bytes

unfoldable pub init : MemDb
init = record { keyspace = [] }

counted : {V : Type 0} → Option V → ℕ → ℕ
counted none n = n
counted (some v) n = n + 1

-- The loop of `CountKeys`, from `cnt` on.
count_from : MemDb → ℕ → List Bytes → ℕ
unfolding counted
count_from db cnt [] = cnt
count_from db cnt (key ∷ keys) = count_from db (counted (lookup key db.keyspace) cnt) keys

unfoldable pub count_keys : MemDb → List Bytes → ℕ
unfolding count_from
count_keys db keys = count_from db 0 keys

unfoldable pub get : MemDb → Bytes → Option Bytes
get db key = lookup key db.keyspace

unfoldable pub set : MemDb → Bytes → Bytes → MemDb
set db key value = record db { keyspace = insert key value db.keyspace }

delete_found : MemDb → Bytes → Option Bytes → MemDb
delete_found db key none = db
delete_found db key (some v) = record db { keyspace = delete key db.keyspace }

unfoldable pub remove : MemDb → Bytes → MemDb
unfolding delete_found
remove db key = delete_found db key (lookup key db.keyspace)

-- The error of `Incr`, if there is one, and the database.
add_to : MemDb → Bytes → Bytes → ℤ → Option ℤ → Option Bytes × MemDb
add_to db key val delta none = (some (codes "INCR expects a number, got " ++ val), db)
add_to db key val delta (some i) =
    (none, record db { keyspace = insert key (itoa (add_int i delta)) db.keyspace })

incr_found : MemDb → Bytes → ℤ → Option Bytes → Option Bytes × MemDb
unfolding add_to
incr_found db key delta none = (none, record db { keyspace = insert key (itoa delta) db.keyspace })
incr_found db key delta (some val) = add_to db key val delta (atoi val)

unfoldable pub incr : MemDb → Bytes → ℤ → Option Bytes × MemDb
unfolding incr_found
incr db key delta = incr_found db key delta (lookup key db.keyspace)
