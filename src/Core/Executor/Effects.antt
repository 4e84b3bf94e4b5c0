-- ===== src/Core/Executor/Effects.antt =====
-- Which commands leave the database as it was.
use skiffdb.Prelude.{
  Option, none, some, List, [], ◌∷◌, ◌≡◌, refl, Bool, true, false, arith, Bytes, ◌==◌,
}
use skiffdb.Prelude.Int.{ℤ, pos, negsuc}
use skiffdb.Go.Strconv.{atoi}
use skiffdb.Resp.Build.{build_simple_string}
use skiffdb.Core.MemDb
use skiffdb.Core.MemDb.{MemDb}
use skiffdb.Core.Cmd.{Cmd, is_write_op}
use skiffdb.Core.Executor.{
  exec_ping, exec_set, exec_get, exec_del, reply_incr, exec_incr, incr_by, exec_incrby, exec_exists,
  exec_save, execute_on_db,
}

module _ (db : MemDb) (args : List Bytes) where
  ping-same : (exec_ping db args).1 ≡ db
  unfolding exec_ping
  ping-same = ground arith

  get-same : (exec_get db args).1 ≡ db
  unfolding exec_get
  get-same = ground arith

  exists-same : (exec_exists db args).1 ≡ db
  unfolding exec_exists
  exists-same = ground arith

  save-same : (saved : Option Bytes) → (exec_save saved db args).1 ≡ db
  unfolding exec_save
  save-same saved = ground arith

-- A command that is not classified as a write leaves the database as it was.
pub execute_on_db_read_only :
    (saved : Option Bytes) (db : MemDb) (cmd : Cmd)
    → is_write_op cmd ≡ false
    → (execute_on_db saved db cmd).1 ≡ db
unfolding execute_on_db is_write_op
execute_on_db_read_only saved db cmd h = ground (
  arith,
  ping-same db cmd.args,
  get-same db cmd.args,
  exists-same db cmd.args,
  save-same db cmd.args saved,
)

-- The reply is an error: its first byte is `-`.
abbrev pub is_error : Bytes → Bool
is_error [] = false
is_error (c ∷ s) = c == b'-'

incr_error :
    (db : MemDb) (key : Bytes) (delta : ℤ)
    → is_error (reply_incr (MemDb.incr db key delta)).0 ≡ true
    → (reply_incr (MemDb.incr db key delta)).1 ≡ db
unfolding reply_incr MemDb.incr build_simple_string
incr_error db key delta h = ground arith

module _ (db : MemDb) (args : List Bytes) where
  set_error : is_error (exec_set db args).0 ≡ true → (exec_set db args).1 ≡ db
  unfolding exec_set build_simple_string
  set_error h = ground arith

  del_error : is_error (exec_del db args).0 ≡ true → (exec_del db args).1 ≡ db
  unfolding exec_del build_simple_string
  del_error h = ground arith

exec_incr_error :
    (delta : ℤ) (db : MemDb) (args : List Bytes)
    → is_error (exec_incr delta db args).0 ≡ true
    → (exec_incr delta db args).1 ≡ db
unfolding exec_incr
exec_incr_error delta db [] h = refl
exec_incr_error delta db (key ∷ []) h = incr_error db key delta h
exec_incr_error delta db (key ∷ a ∷ args) h = refl

incr_by_error :
    (db : MemDb) (key : Bytes) (o : Option ℤ)
    → is_error (incr_by db key o).0 ≡ true
    → (incr_by db key o).1 ≡ db
unfolding incr_by
incr_by_error db key none h = refl
incr_by_error db key (some delta) h = incr_error db key delta h

exec_incrby_error :
    (db : MemDb) (args : List Bytes)
    → is_error (exec_incrby db args).0 ≡ true
    → (exec_incrby db args).1 ≡ db
unfolding exec_incrby
exec_incrby_error db [] h = refl
exec_incrby_error db (key ∷ []) h = refl
exec_incrby_error db (key ∷ by ∷ []) h = incr_by_error db key (atoi by) h
exec_incrby_error db (key ∷ by ∷ a ∷ args) h = refl

-- A command that is answered with an error leaves the database as it was, whatever the command.
pub execute_on_db_error :
    (saved : Option Bytes) (db : MemDb) (cmd : Cmd)
    → is_error (execute_on_db saved db cmd).0 ≡ true
    → (execute_on_db saved db cmd).1 ≡ db
unfolding execute_on_db
execute_on_db_error saved db cmd = ground (
  arith,
  ping-same db cmd.args,
  get-same db cmd.args,
  exists-same db cmd.args,
  save-same db cmd.args saved,
  set_error db cmd.args,
  del_error db cmd.args,
  exec_incr_error (pos 1) db cmd.args,
  exec_incr_error (negsuc 0) db cmd.args,
  exec_incrby_error db cmd.args,
)
