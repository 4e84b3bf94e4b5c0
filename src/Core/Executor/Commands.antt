-- ===== src/Core/Executor/Commands.antt =====
-- What the commands reply and store, as a client sees it.
use skiffdb.Prelude.{
  ℕ, zero, suc, ◌+◌, ◌^◌, ◌<◌, Option, none, some, List, [], ◌∷◌, ◌≡◌, refl, ap, ◌∙◌, arith, Bytes,
  codes, eq_bytes, eq_bytes_self, if◌then◌else◌, Option-cases, inl, inr,
}
use skiffdb.Prelude.Int.{ℤ, pos, negsuc, add_int, add_int_pos}
use skiffdb.Go.Strconv.{itoa, atoi, atoi-itoa}
use skiffdb.Resp.Build.{build_bulk_string, build_integer, ok_reply, err_wrong_data_type}
use skiffdb.Core.MemDb
use skiffdb.Core.MemDb.{MemDb}
use skiffdb.Core.MemDb.Laws.{
  get-set, get-remove, incr_missing, incr_number, incr_not_number, count_present, count_keys_lem,
}
use skiffdb.Core.Executor.{
  exec_set, exec_get, exec_del, exec_incr, exec_incrby, exec_exists, reply_incr, incr_by,
  execute_on_db,
}

-- One command, with no error of a snapshot.
abbrev pub run : MemDb → Bytes → List Bytes → Bytes × MemDb
run db op args = execute_on_db none db (record { op = op; args = args })

module _ (db : MemDb) (args : List Bytes) where
  pub run-set : run db (codes "SET") args ≡ exec_set db args
  unfolding execute_on_db eq_bytes
  run-set = refl

  pub run-get : run db (codes "GET") args ≡ exec_get db args
  unfolding execute_on_db eq_bytes
  run-get = refl

  pub run-del : run db (codes "DEL") args ≡ exec_del db args
  unfolding execute_on_db eq_bytes
  run-del = refl

  pub run-incr : run db (codes "INCR") args ≡ exec_incr (pos 1) db args
  unfolding execute_on_db eq_bytes
  run-incr = refl

  pub run-decr : run db (codes "DECR") args ≡ exec_incr (negsuc 0) db args
  unfolding execute_on_db eq_bytes
  run-decr = refl

  pub run-incrby : run db (codes "INCRBY") args ≡ exec_incrby db args
  unfolding execute_on_db eq_bytes
  run-incrby = refl

  pub run-exists : run db (codes "EXISTS") args ≡ exec_exists db args
  unfolding execute_on_db eq_bytes
  run-exists = refl

-- GET after SET, of any key: the value that was set for that key, else what it was before.
pub run-get-set :
    (db : MemDb) (key value other : Bytes)
    → (run (run db (codes "SET") (key ∷ value ∷ [])).1 (codes "GET") (other ∷ [])).0
      ≡ build_bulk_string (if eq_bytes key other then some value else MemDb.get db other)
run-get-set db key value other = rw (run-set, run-get) (unfold exec_set exec_get in rw get-set)

-- GET after DEL, of any key: the null bulk string for that key, else what it was before.
pub run-get-del :
    (db : MemDb) (key other : Bytes)
    → (run (run db (codes "DEL") (key ∷ [])).1 (codes "GET") (other ∷ [])).0
      ≡ build_bulk_string (if eq_bytes key other then none else MemDb.get db other)
run-get-del db key other = rw (run-del, run-get) (unfold exec_del exec_get in rw get-remove)

-- EXISTS counts the listed keys that are there, each as often as it is listed.
pub run-exists_lem :
    (db : MemDb) (key : Bytes) (keys : List Bytes)
    → run db (codes "EXISTS") (key ∷ keys)
      ≡ (build_integer (pos (count_present (MemDb.get db) (key ∷ keys))), db)
run-exists_lem db key keys =
    rw run-exists (unfold exec_exists in rw (count_keys_lem db (key ∷ keys)))

-- What an increment does: it fails on a value that is no number, takes a missing key for 0, and adds
-- on the 64-bit `int`, with wrap-around.
abbrev pub added : Option Bytes → ℤ → Option ℤ
added none delta = some delta
added (some val) delta = elim (atoi val) [ none ↦ none | some i ↦ some (add_int i delta) ]

abbrev pub stored : MemDb → Bytes → Option ℤ → Bytes × MemDb
stored db key none = (err_wrong_data_type, db)
stored db key (some i) = (ok_reply, MemDb.set db key (itoa i))

added_missing : (o : Option Bytes) (delta : ℤ) → o ≡ none → added o delta ≡ some delta
added_missing none delta h = refl
added_missing (some v) delta h = cc

pub reply_incr_lem :
    (db : MemDb) (key : Bytes) (delta : ℤ)
    → reply_incr (MemDb.incr db key delta) ≡ stored db key (added (MemDb.get db key) delta)
unfolding reply_incr
reply_incr_lem db key delta = elim (Option-cases (MemDb.get db key)) [
  | inl e ↦ rw (incr_missing db key delta e) (rw (e, added))
  | inr (val, e) ↦ elim (Option-cases (atoi val)) [
    | inl bad ↦ rw (incr_not_number db key delta val e bad) (rw (e, added) (rw (bad, added)))
    | inr (i, good) ↦ rw (incr_number db key delta i val e good) (rw (e, added) (rw (good, added)))
  ]
]

-- INCR, DECR and INCRBY change the number under a key by 1, by -1 and by the number that is given.
pub run-incr_lem :
    (db : MemDb) (key by : Bytes) (delta : ℤ)
    → atoi by ≡ some delta
    → (run db (codes "INCR") (key ∷ []) ≡ stored db key (added (MemDb.get db key) (pos 1)))
      × (run db (codes "DECR") (key ∷ []) ≡ stored db key (added (MemDb.get db key) (negsuc 0)))
      × (run db (codes "INCRBY") (key ∷ by ∷ []) ≡ stored db key (added (MemDb.get db key) delta))
run-incr_lem db key by delta h = (
  rw run-incr (unfold exec_incr in reply_incr_lem db key (pos 1)),
  rw run-decr (unfold exec_incr in reply_incr_lem db key (negsuc 0)),
  rw run-incrby (unfold exec_incrby in rw (h, incr_by) (reply_incr_lem db key delta)),
)

pub added_number :
    (o : Option Bytes) (val : Bytes) (delta i : ℤ)
    → o ≡ some val
    → atoi val ≡ some i
    → added o delta ≡ some (add_int i delta)
added_number o val delta i h e = rw (h, added) (rw (e, added))

incr_step :
    (db : MemDb) (key : Bytes) (j : ℤ)
    → added (MemDb.get db key) (pos 1) ≡ some j
    → MemDb.get (run db (codes "INCR") (key ∷ [])).1 key ≡ some (itoa j)
unfolding exec_incr
incr_step db key j h =
    rw (run-incr, reply_incr_lem db key (pos 1), h) (rw get-set (rw eq_bytes_self))

-- `n` times INCR.
unfoldable pub incr_times : ℕ → MemDb → Bytes → MemDb
incr_times zero db key = db
incr_times (suc n) db key = (run (incr_times n db key) (codes "INCR") (key ∷ [])).1

-- A key that was not there counts the INCRs that it gets, up to the largest `int`.
pub incr_times_count :
    (n : ℕ) (db : MemDb) (key : Bytes)
    → MemDb.get db key ≡ none
    → suc n < 2 ^ 63
    → MemDb.get (incr_times (suc n) db key) key ≡ some (itoa (pos (suc n)))
unfolding incr_times
incr_times_count zero db key h fits = incr_step db key (pos 1) (added_missing _ (pos 1) h)
incr_times_count (suc n) db key h fits =
    let before : MemDb = incr_times (suc n) db key in
    let count : pos (suc n + 1) ≡ pos (suc (suc n)) = ap pos (omega arith) in
    incr_step before key (pos (suc (suc n))) (
      added_number _ _ (pos 1) (pos (suc n)) (incr_times_count n db key h (omega arith))
        (atoi-itoa (pos (suc n)) (omega arith))
      ∙ ap some (add_int_pos (suc n) 1 (omega arith) ∙ count))
