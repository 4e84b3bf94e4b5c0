-- ===== src/Examples/Store.antt =====
-- Examples of the database: the commands of a client on a small store.
use skiffdb.Prelude.Int.{add_int, ◌+ℤ◌}
use skiffdb.Prelude.{
  none, some, [], ◌∷◌, ◌≡◌, refl, arith, true, false, Bytes, codes, eq_bytes, eq_bytes_iff,
}
use skiffdb.Prelude.Int.{pos, negsuc}
use skiffdb.Go.Map.{lookup}
use skiffdb.Go.Strconv.{itoa, atoi}
use skiffdb.Resp.Build.{build_error_msg}
use skiffdb.Core.MemDb.{MemDb, init}
use skiffdb.Core.MemDb
use skiffdb.Core.Cmd.{is_write_op}
use skiffdb.Core.Executor.{execute_on_db, exec_incr}
use skiffdb.Core.Executor.Effects.{execute_on_db_error, is_error}
use skiffdb.Core.Executor.SameView.{SameView, Agree, execute_on_db-Agree}
use skiffdb.Harness.Client.Protocol.{AllFit, execute_on_db-IsWhole}
use skiffdb.Harness.Client.Replies.{IsWhole}

abbrev pub a : Bytes
a = codes "a"

abbrev pub b : Bytes
b = codes "b"

abbrev pub store : MemDb
store = record init { keyspace = (a, codes "1") ∷ (b, codes "x") ∷ [] }

abbrev store' : MemDb
store' = record init { keyspace = (b, codes "x") ∷ (a, codes "1") ∷ [] }

atoi_minus : atoi (codes "-5") ≡ some (negsuc 4)
unfolding atoi
atoi_minus = refl

empty_get : MemDb.get init a ≡ none
unfolding MemDb.get lookup init
empty_get = refl

get_read_only : is_write_op (record { op = codes "GET"; args = a ∷ [] }) ≡ false
unfolding is_write_op eq_bytes
get_read_only = refl

-- INCR of a value that is no number.
incr_fails :
    is_error (execute_on_db none store (record { op = codes "INCR"; args = b ∷ [] })).0 ≡ true
unfolding execute_on_db eq_bytes exec_incr MemDb.incr lookup atoi build_error_msg
incr_fails = refl

execute_on_db_error_example :
    (execute_on_db none store (record { op = codes "INCR"; args = b ∷ [] })).1 ≡ store
execute_on_db_error_example =
    execute_on_db_error none store (record { op = codes "INCR"; args = b ∷ [] }) incr_fails

-- Two orders of the same pairs, as two replicas may hold them.
same_pairs : SameView store store'
unfolding MemDb.get lookup
same_pairs k = ground (arith, eq_bytes_iff a k, eq_bytes_iff b k)

execute_on_db-Agree_example :
    Agree
      (execute_on_db none store (record { op = codes "DEL"; args = a ∷ [] }))
      (execute_on_db none store' (record { op = codes "DEL"; args = a ∷ [] }))
execute_on_db-Agree_example =
    execute_on_db-Agree store store' same_pairs none (record { op = codes "DEL"; args = a ∷ [] })

empty_fits : AllFit init
unfolding MemDb.get lookup init
empty_fits = record { at_key = λ k v h. cc }

execute_on_db-IsWhole_example :
    IsWhole (execute_on_db none init (record { op = codes "SET"; args = a ∷ b ∷ [] })).0
execute_on_db-IsWhole_example =
    execute_on_db-IsWhole init none (record { op = codes "SET"; args = a ∷ b ∷ [] }) empty_fits
      (omega arith, (omega arith, tt)) (λ e h. cc)

-- The largest integer.
abbrev full : MemDb
full = record init { keyspace = (a, itoa (pos 9223372036854775807)) ∷ [] }

-- It wraps around to the smallest one.
wraps : add_int (pos 9223372036854775807) (pos 1) ≡ negsuc 9223372036854775807
unfolding add_int ◌+ℤ◌
wraps = refl
