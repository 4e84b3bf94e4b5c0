-- ===== src/Core/Executor/SameView.antt =====
-- Replicas: two databases that hold the same pairs answer alike, and go on holding the same pairs.
use skiffdb.Prelude.{
  Option, none, some, List, [], ◌∷◌, ◌≡◌, refl, ap, sym, ◌∙◌, Bool, true, false, Bytes, eq_bytes,
  if◌then◌else◌,
}
use skiffdb.Prelude.Int.{ℤ, pos, negsuc}
use skiffdb.Go.Strconv.{itoa, atoi}
use skiffdb.Resp.Build.{
  build_bulk_string, build_integer, err_wrong_data_type, err_command_unsupported,
}
use skiffdb.Core.MemDb
use skiffdb.Core.MemDb.{MemDb}
use skiffdb.Core.MemDb.Laws.{get-set, get-remove, count_present, count_keys_lem}
use skiffdb.Core.Cmd.{Cmd}
use skiffdb.Core.Executor.{
  exec_ping, exec_set, exec_get, exec_del, reply_incr, exec_incr, incr_by, exec_incrby, exec_exists,
  exec_save, execute_on_db,
}
use skiffdb.Core.Executor.Commands.{added, stored, reply_incr_lem}

abbrev pub SameView : MemDb → MemDb → Type 0
SameView db db' = (k : Bytes) → MemDb.get db k ≡ MemDb.get db' k

pub record Agree (p q : Bytes × MemDb) : Type 0 where
  pub reply : p.0 ≡ q.0
  pub view : SameView p.1 q.1

Agree-if :
    (b : Bool) {p q p' q' : Bytes × MemDb}
    → Agree p q
    → Agree p' q'
    → Agree (if b then p else p') (if b then q else q')
Agree-if true a a' = a
Agree-if false a a' = a'

module _ (db db' : MemDb) (same : SameView db db') where
  Agree-same : (s : Bytes) → Agree (s, db) (s, db')
  Agree-same s = record { reply = refl; view = same }

  Agree-stored : (key : Bytes) (o : Option ℤ) → Agree (stored db key o) (stored db' key o)
  Agree-stored key none = Agree-same err_wrong_data_type
  Agree-stored key (some i) = record {
    reply = refl;
    view =
        λ k. rw (get-set, get-set) (ap (λ o. if eq_bytes key k then some (itoa i) else o) (same k));
  }

  Agree-incr :
      (key : Bytes) (delta : ℤ)
      → Agree (reply_incr (MemDb.incr db key delta)) (reply_incr (MemDb.incr db' key delta))
  Agree-incr key delta =
      rw (reply_incr_lem db key delta, reply_incr_lem db' key delta, same key)
        (Agree-stored key (added (MemDb.get db' key) delta))

  Agree-set : (args : List Bytes) → Agree (exec_set db args) (exec_set db' args)
  unfolding exec_set
  Agree-set [] = Agree-same _
  Agree-set (key ∷ []) = Agree-same _
  Agree-set (key ∷ value ∷ []) = record {
    reply = refl;
    view = λ k. rw (get-set, get-set) (ap (λ o. if eq_bytes key k then some value else o) (same k));
  }
  Agree-set (key ∷ value ∷ a ∷ args) = Agree-same _

  Agree-get : (args : List Bytes) → Agree (exec_get db args) (exec_get db' args)
  unfolding exec_get
  Agree-get [] = Agree-same _
  Agree-get (key ∷ []) = record { reply = ap build_bulk_string (same key); view = same }
  Agree-get (key ∷ a ∷ args) = Agree-same _

  Agree-del : (args : List Bytes) → Agree (exec_del db args) (exec_del db' args)
  unfolding exec_del
  Agree-del [] = Agree-same _
  Agree-del (key ∷ []) = record {
    reply = refl;
    view = λ k.
        rw (get-remove, get-remove)
          (ap (λ (o : Option Bytes). if eq_bytes key k then none else o) (same k));
  }
  Agree-del (key ∷ a ∷ args) = Agree-same _

  Agree-exec_incr :
      (delta : ℤ) (args : List Bytes) → Agree (exec_incr delta db args) (exec_incr delta db' args)
  unfolding exec_incr
  Agree-exec_incr delta [] = Agree-same _
  Agree-exec_incr delta (key ∷ []) = Agree-incr key delta
  Agree-exec_incr delta (key ∷ a ∷ args) = Agree-same _

  Agree-incr_by : (key : Bytes) (o : Option ℤ) → Agree (incr_by db key o) (incr_by db' key o)
  unfolding incr_by
  Agree-incr_by key none = Agree-same _
  Agree-incr_by key (some delta) = Agree-incr key delta

  Agree-incrby : (args : List Bytes) → Agree (exec_incrby db args) (exec_incrby db' args)
  unfolding exec_incrby
  Agree-incrby [] = Agree-same _
  Agree-incrby (key ∷ []) = Agree-same _
  Agree-incrby (key ∷ by ∷ []) = Agree-incr_by key (atoi by)
  Agree-incrby (key ∷ by ∷ a ∷ args) = Agree-same _

  count_same :
      (keys : List Bytes) → count_present (MemDb.get db) keys ≡ count_present (MemDb.get db') keys
  count_same [] = refl
  count_same (key ∷ keys) = rw (same key, count_same keys)

  Agree-exists : (args : List Bytes) → Agree (exec_exists db args) (exec_exists db' args)
  unfolding exec_exists
  Agree-exists [] = Agree-same _
  Agree-exists (key ∷ keys) = record {
    reply =
        ap (λ n. build_integer (pos n))
          (count_keys_lem db (key ∷ keys)
            ∙ count_same (key ∷ keys)
            ∙ sym (count_keys_lem db' (key ∷ keys)));
    view = same;
  }

  Agree-ping : (args : List Bytes) → Agree (exec_ping db args) (exec_ping db' args)
  unfolding exec_ping
  Agree-ping [] = Agree-same _
  Agree-ping (arg ∷ args) = Agree-same _

  Agree-save :
      (saved : Option Bytes) (args : List Bytes)
      → Agree (exec_save saved db args) (exec_save saved db' args)
  unfolding exec_save
  Agree-save none [] = Agree-same _
  Agree-save (some e) [] = Agree-same _
  Agree-save saved (arg ∷ args) = Agree-same _

  -- Any command, on two databases that hold the same pairs: the replies are equal, and the databases
  -- hold the same pairs afterwards. The order in which a map keeps its pairs has no effect.
  pub execute_on_db-Agree :
      (saved : Option Bytes) (cmd : Cmd)
      → Agree (execute_on_db saved db cmd) (execute_on_db saved db' cmd)
  unfolding execute_on_db
  execute_on_db-Agree saved cmd = Agree-if _ (Agree-ping cmd.args) (
      Agree-if _ (Agree-set cmd.args) (
        Agree-if _ (Agree-get cmd.args) (
          Agree-if _ (Agree-del cmd.args) (
            Agree-if _ (Agree-exec_incr (pos 1) cmd.args) (
              Agree-if _ (Agree-exec_incr (negsuc 0) cmd.args) (
                Agree-if _ (Agree-incrby cmd.args) (
                  Agree-if _ (Agree-exists cmd.args) (
                    Agree-if _ (Agree-save saved cmd.args)
                      (Agree-same err_command_unsupported)))))))))
