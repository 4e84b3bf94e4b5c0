-- ===== src/Core/Executor/Locality/Commands.antt =====
-- Each command's keys are all that it reads and changes.
use skiffdb.Prelude.{
  Option, none, some, List, [], ◌∷◌, ◌≡◌, refl, ap, sym, ◌∙◌, Bool, true, false, Bytes, arith,
  eq_bytes, eq_bytes_self, if◌then◌else◌,
}
use skiffdb.Prelude.Int.{ℤ, pos, negsuc}
use skiffdb.Go.Strconv.{itoa, atoi}
use skiffdb.Resp.Build.{
  build_bulk_string, build_integer, ok_reply, err_wrong_data_type, err_command_unsupported,
}
use skiffdb.Core.MemDb
use skiffdb.Core.MemDb.{MemDb}
use skiffdb.Core.MemDb.Laws.{get-set, get-remove, count_present, count_keys_lem}
use skiffdb.Core.Cmd.{Cmd}
use skiffdb.Core.Executor.{
  exec_ping, exec_set, exec_get, exec_del, reply_incr, exec_incr, incr_by, exec_incrby, exec_exists,
  exec_save, execute_on_db,
}
use skiffdb.Core.Executor.Commands.{added, stored, reply_incr_lem}
use skiffdb.Core.Executor.Locality.{
  first, keys_of, SameOn, Local, Local-const, Local-if, Local-cell, unchanged, Local-widen,
  first-among,
}

module _ (key : Bytes) where
  Local-set : (value : Bytes) → Local (key ∷ []) (λ db. (ok_reply, MemDb.set db key value))
  Local-set value =
      Local-cell key _ (λ o. ok_reply) (λ o. some value) (λ db. refl)
        (λ db k. get-set db key value k)

  Local-get : Local (key ∷ []) (λ db. (build_bulk_string (MemDb.get db key), db))
  Local-get = Local-cell key _ build_bulk_string (λ o. o) (λ db. refl) (unchanged key)

  Local-del : Local (key ∷ []) (λ db. (ok_reply, MemDb.remove db key))
  Local-del =
      Local-cell key _ (λ o. ok_reply) (λ o. none) (λ db. refl) (λ db k. get-remove db key k)

  abbrev reply_of : Option ℤ → Bytes
  reply_of none = err_wrong_data_type
  reply_of (some i) = ok_reply

  abbrev write_of : Option ℤ → Option Bytes → Option Bytes
  write_of none o = o
  write_of (some i) o = some (itoa i)

  stored-cell :
      (db : MemDb) (k : Bytes) (o : Option ℤ)
      → ((stored db key o).0 ≡ reply_of o)
        × (MemDb.get (stored db key o).1 k
            ≡ (if eq_bytes key k then write_of o (MemDb.get db key) else MemDb.get db k))
  stored-cell db k none = (refl, unchanged key db k)
  stored-cell db k (some i) = (refl, get-set db key (itoa i) k)

  Local-incr : (delta : ℤ) → Local (key ∷ []) (λ db. reply_incr (MemDb.incr db key delta))
  Local-incr delta =
      Local-cell key _ (λ o. reply_of (added o delta)) (λ o. write_of (added o delta) o)
        (λ db. rw reply_incr_lem (stored-cell db key _).0)
        (λ db k. rw reply_incr_lem (stored-cell db k _).1)

  Local-incr_by : (o : Option ℤ) → Local (key ∷ []) (λ db. incr_by db key o)
  unfolding incr_by
  Local-incr_by none = Local-const _ _
  Local-incr_by (some delta) = Local-incr delta

Local-exec_ping : (args : List Bytes) → Local (first args) (λ db. exec_ping db args)
unfolding exec_ping
Local-exec_ping [] = Local-const _ _
Local-exec_ping (arg ∷ args) = Local-const _ _

Local-exec_set : (args : List Bytes) → Local (first args) (λ db. exec_set db args)
unfolding exec_set
Local-exec_set [] = Local-const _ _
Local-exec_set (key ∷ []) = Local-const _ _
Local-exec_set (key ∷ value ∷ []) = Local-set key value
Local-exec_set (key ∷ value ∷ a ∷ args) = Local-const _ _

Local-exec_get : (args : List Bytes) → Local (first args) (λ db. exec_get db args)
unfolding exec_get
Local-exec_get [] = Local-const _ _
Local-exec_get (key ∷ []) = Local-get key
Local-exec_get (key ∷ a ∷ args) = Local-const _ _

Local-exec_del : (args : List Bytes) → Local (first args) (λ db. exec_del db args)
unfolding exec_del
Local-exec_del [] = Local-const _ _
Local-exec_del (key ∷ []) = Local-del key
Local-exec_del (key ∷ a ∷ args) = Local-const _ _

Local-exec_incr :
    (delta : ℤ) (args : List Bytes) → Local (first args) (λ db. exec_incr delta db args)
unfolding exec_incr
Local-exec_incr delta [] = Local-const _ _
Local-exec_incr delta (key ∷ []) = Local-incr key delta
Local-exec_incr delta (key ∷ a ∷ args) = Local-const _ _

Local-exec_incrby : (args : List Bytes) → Local (first args) (λ db. exec_incrby db args)
unfolding exec_incrby
Local-exec_incrby [] = Local-const _ _
Local-exec_incrby (key ∷ []) = Local-const _ _
Local-exec_incrby (key ∷ by ∷ []) = Local-incr_by key (atoi by)
Local-exec_incrby (key ∷ by ∷ a ∷ args) = Local-const _ _

Local-exec_save :
    (saved : Option Bytes) (args : List Bytes) → Local (first args) (λ db. exec_save saved db args)
unfolding exec_save
Local-exec_save none [] = Local-const _ _
Local-exec_save (some e) [] = Local-const _ _
Local-exec_save saved (arg ∷ args) = Local-const _ _

count_local :
    (db db' : MemDb) (keys : List Bytes)
    → SameOn keys db db'
    → count_present (MemDb.get db) keys ≡ count_present (MemDb.get db') keys
count_local db db' [] same = refl
count_local db db' (key ∷ keys) same =
    rw (same key (rw eq_bytes_self), count_local db db' keys (λ k h. same k (ground (arith, h))))

Local-exec_exists : (args : List Bytes) → Local args (λ db. exec_exists db args)
unfolding exec_exists
Local-exec_exists [] = Local-const _ _
Local-exec_exists (key ∷ keys) = record {
  frame = λ db k h. refl;
  answer = λ db db' same.
      ap (λ n. build_integer (pos n))
        (count_keys_lem db (key ∷ keys)
          ∙ count_local db db' (key ∷ keys) same
          ∙ sym (count_keys_lem db' (key ∷ keys)));
  result = λ db db' same. same;
}

-- Whichever keys are chosen, a step on the first argument, a test, and the case of EXISTS.
Local-chosen :
    (b : Bool) (args : List Bytes) {f : MemDb → Bytes × MemDb}
    → Local (first args) f
    → Local (if b then args else first args) (λ db. if b then exec_exists db args else f db)
Local-chosen true args l = Local-exec_exists args
Local-chosen false args l = l

Local-either :
    (b : Bool) (args : List Bytes) {f : MemDb → Bytes × MemDb}
    → Local (first args) f
    → Local (if b then args else first args) f
Local-either true args l = Local-widen (first-among args) l
Local-either false args l = l

-- Every command reads and changes its keys only.
pub execute_on_db-Local :
    (saved : Option Bytes) (cmd : Cmd) → Local (keys_of cmd) (λ db. execute_on_db saved db cmd)
unfolding execute_on_db
execute_on_db-Local saved cmd = Local-if _ (Local-either _ _ (Local-exec_ping cmd.args)) (
    Local-if _ (Local-either _ _ (Local-exec_set cmd.args)) (
      Local-if _ (Local-either _ _ (Local-exec_get cmd.args)) (
        Local-if _ (Local-either _ _ (Local-exec_del cmd.args)) (
          Local-if _ (Local-either _ _ (Local-exec_incr (pos 1) cmd.args)) (
            Local-if _ (Local-either _ _ (Local-exec_incr (negsuc 0) cmd.args)) (
              Local-if _ (Local-either _ _ (Local-exec_incrby cmd.args)) (
                Local-chosen _ cmd.args (
                  Local-if _ (Local-exec_save saved cmd.args)
                    (Local-const _ err_command_unsupported)))))))))
