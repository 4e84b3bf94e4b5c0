-- ===== src/Core/Executor.antt =====
-- src/core/cmd_executor.go: `executeOnDB`. The case of each command is a function of its own.
pub mod Effects
pub mod Commands
pub mod SameView
pub mod Plain
pub mod Texts
pub mod Counter
pub mod Locality
pub mod Isolation
pub mod Abstract
use skiffdb.Prelude.{Option, none, some, List, [], ◌∷◌, ◌++◌, Bytes, codes, eq_bytes, if◌then◌else◌}
use skiffdb.Prelude.Int.{ℤ, pos, negsuc}
use skiffdb.Go.Strconv.{atoi}
use skiffdb.Resp.Build.{
  build_bulk_string, build_integer, build_error_msg, err_generic, ok_reply, pong,
  err_command_format_error, err_wrong_data_type, err_command_unsupported,
}
use skiffdb.Core.MemDb
use skiffdb.Core.MemDb.{MemDb}
use skiffdb.Core.Cmd.{Cmd}

unfoldable pub exec_ping : MemDb → List Bytes → Bytes × MemDb
exec_ping db [] = (pong, db)
exec_ping db (arg ∷ args) = (build_bulk_string (some arg), db)

unfoldable pub exec_set : MemDb → List Bytes → Bytes × MemDb
exec_set db (key ∷ value ∷ []) = (ok_reply, MemDb.set db key value)
exec_set db _ = (err_command_format_error, db)

unfoldable pub exec_get : MemDb → List Bytes → Bytes × MemDb
exec_get db (key ∷ []) = (build_bulk_string (MemDb.get db key), db)
exec_get db _ = (err_command_format_error, db)

unfoldable pub exec_del : MemDb → List Bytes → Bytes × MemDb
exec_del db (key ∷ []) = (ok_reply, MemDb.remove db key)
exec_del db _ = (err_command_format_error, db)

pub reply_incr : Option Bytes × MemDb → Bytes × MemDb
reply_incr (none, db) = (ok_reply, db)
reply_incr (some e, db) = (err_wrong_data_type, db)

-- INCR and DECR, by 1 and -1.
unfoldable pub exec_incr : ℤ → MemDb → List Bytes → Bytes × MemDb
unfolding reply_incr
exec_incr delta db (key ∷ []) = reply_incr (MemDb.incr db key delta)
exec_incr delta db _ = (err_command_format_error, db)

incr_by : MemDb → Bytes → Option ℤ → Bytes × MemDb
unfolding reply_incr
incr_by db key none = (err_command_format_error, db)
incr_by db key (some delta) = reply_incr (MemDb.incr db key delta)

unfoldable pub exec_incrby : MemDb → List Bytes → Bytes × MemDb
unfolding incr_by
exec_incrby db (key ∷ by ∷ []) = incr_by db key (atoi by)
exec_incrby db _ = (err_command_format_error, db)

unfoldable pub exec_exists : MemDb → List Bytes → Bytes × MemDb
exec_exists db [] = (err_command_format_error, db)
exec_exists db (key ∷ keys) = (build_integer (pos (MemDb.count_keys db (key ∷ keys))), db)

-- `saved` is the error of `SaveSnapshot`, if there is one.
unfoldable pub exec_save : Option Bytes → MemDb → List Bytes → Bytes × MemDb
exec_save none db [] = (ok_reply, db)
exec_save (some e) db [] = (build_error_msg err_generic (codes "Snapshot failed: " ++ e), db)
exec_save saved db (arg ∷ args) = (err_command_format_error, db)

-- The commands with a case and no body (TTL, EXPIRE, HSET, HGET, LPUSH, LRANGE, FLUSHDB) leave the
-- switch as an unknown one does.
unfoldable pub execute_on_db : Option Bytes → MemDb → Cmd → Bytes × MemDb
execute_on_db saved db cmd =
    if eq_bytes cmd.op (codes "PING")
    then exec_ping db cmd.args
    else if eq_bytes cmd.op (codes "SET")
    then exec_set db cmd.args
    else if eq_bytes cmd.op (codes "GET")
    then exec_get db cmd.args
    else if eq_bytes cmd.op (codes "DEL")
    then exec_del db cmd.args
    else if eq_bytes cmd.op (codes "INCR")
    then exec_incr (pos 1) db cmd.args
    else if eq_bytes cmd.op (codes "DECR")
    then exec_incr (negsuc 0) db cmd.args
    else if eq_bytes cmd.op (codes "INCRBY")
    then exec_incrby db cmd.args
    else if eq_bytes cmd.op (codes "EXISTS")
    then exec_exists db cmd.args
    else if eq_bytes cmd.op (codes "SAVE")
    then exec_save saved db cmd.args
    else (err_command_unsupported, db)
