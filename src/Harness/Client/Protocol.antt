-- ===== src/Harness/Client/Protocol.antt =====
-- Each reply of the server is one RESP value.
use skiffdb.Resp.Context.{max_bytes}
use skiffdb.Core.MemDb.{MemDb}
use skiffdb.Core.Cmd.{Cmd}
use skiffdb.Prelude.{
  ◌+◌, ◌≤◌, ◌≡◌, inl, inr, refl, Option, none, some, List, [], ◌∷◌, ◌++◌, Bool, true, false, arith,
  Bytes, codes, length, All, All-append, Lacks, if◌then◌else◌, subst, sym,
}
use skiffdb.Prelude.Int.{pos, negsuc}
use skiffdb.Resp.Build.{build_bulk_string, err_generic, err_command_format_error, err_wrong_type}
use skiffdb.Core.MemDb
use skiffdb.Core.Executor.{exec_ping, exec_get, exec_exists, exec_save, execute_on_db}
use skiffdb.Core.Executor.Plain.{IsPlain, IsPlain-set, IsPlain-del, IsPlain-incr, IsPlain-incrby}
use skiffdb.Harness.Client.Replies.{
  IsWhole, null-IsWhole, simple-IsWhole, error-IsWhole, integer-IsWhole, bulk-IsWhole,
}

-- A value, with the separator behind it, that fits the client's buffer.
abbrev pub Fits : Bytes → Type 0
Fits v = length v + 2 ≤ max_bytes

pub record AllFit (db : MemDb) : Type 0 where
  pub at_key : (k v : Bytes) → MemDb.get db k ≡ some v → Fits v

format-IsWhole : IsWhole err_command_format_error
format-IsWhole =
    error-IsWhole err_generic (codes "Command format error") (omega arith) (omega arith)

plain-IsWhole : (r : Bytes) → IsPlain r → IsWhole r
plain-IsWhole r (inl e) = subst IsWhole (sym e) (simple-IsWhole (codes "OK") (omega arith))
plain-IsWhole r (inr (inl e)) =
    subst IsWhole (sym e)
      (error-IsWhole err_wrong_type (codes "Wrong data type") (omega arith) (omega arith))
plain-IsWhole r (inr (inr e)) = subst IsWhole (sym e) format-IsWhole

IsWhole-if :
    (b : Bool) (p q : Bytes × MemDb) → IsWhole p.0 → IsWhole q.0 → IsWhole (if b then p else q).0
IsWhole-if true p q h k = h
IsWhole-if false p q h k = k

value-IsWhole :
    (o : Option Bytes) → ((v : Bytes) → o ≡ some v → Fits v) → IsWhole (build_bulk_string o)
value-IsWhole none h = null-IsWhole
value-IsWhole (some v) h = bulk-IsWhole v (h v refl)

module _ (db : MemDb) where
  ping-IsWhole : (args : List Bytes) → All Fits args → IsWhole (exec_ping db args).0
  unfolding exec_ping
  ping-IsWhole [] h = simple-IsWhole (codes "PONG") (omega arith)
  ping-IsWhole (arg ∷ args) h = bulk-IsWhole arg h.0

  get-IsWhole : (args : List Bytes) → AllFit db → IsWhole (exec_get db args).0
  unfolding exec_get
  get-IsWhole [] h = format-IsWhole
  get-IsWhole (key ∷ []) h = value-IsWhole (MemDb.get db key) (h.at_key key)
  get-IsWhole (key ∷ a ∷ args) h = format-IsWhole

  exists-IsWhole : (args : List Bytes) → IsWhole (exec_exists db args).0
  unfolding exec_exists
  exists-IsWhole [] = format-IsWhole
  exists-IsWhole (key ∷ keys) = integer-IsWhole (MemDb.count_keys db (key ∷ keys))

  save-IsWhole :
      (saved : Option Bytes) (args : List Bytes)
      → ((e : Bytes) → saved ≡ some e → Lacks 10 e)
      → IsWhole (exec_save saved db args).0
  unfolding exec_save
  save-IsWhole none [] h = simple-IsWhole (codes "OK") (omega arith)
  save-IsWhole (some e) [] h =
      error-IsWhole err_generic (codes "Snapshot failed: " ++ e) (omega arith)
        (All-append _ (codes "Snapshot failed: ") e (omega arith) (h e refl))
  save-IsWhole saved (arg ∷ args) h = format-IsWhole

  -- Every command is answered with one RESP value, which the client reads whole and no further: if the
  -- values in the database and the arguments fit the client's buffer, and the error of a snapshot, if
  -- there is one, holds no newline.
  pub execute_on_db-IsWhole :
      (saved : Option Bytes) (cmd : Cmd)
      → AllFit db
      → All Fits cmd.args
      → ((e : Bytes) → saved ≡ some e → Lacks 10 e)
      → IsWhole (execute_on_db saved db cmd).0
  unfolding execute_on_db
  execute_on_db-IsWhole saved cmd fit args clean = IsWhole-if _ _ _ (ping-IsWhole cmd.args args) (
      IsWhole-if _ _ _ (plain-IsWhole _ (IsPlain-set db cmd.args)) (
        IsWhole-if _ _ _ (get-IsWhole cmd.args fit) (
          IsWhole-if _ _ _ (plain-IsWhole _ (IsPlain-del db cmd.args)) (
            IsWhole-if _ _ _ (plain-IsWhole _ (IsPlain-incr db (pos 1) cmd.args)) (
              IsWhole-if _ _ _ (plain-IsWhole _ (IsPlain-incr db (negsuc 0) cmd.args)) (
                IsWhole-if _ _ _ (plain-IsWhole _ (IsPlain-incrby db cmd.args)) (
                  IsWhole-if _ _ _ (exists-IsWhole cmd.args) (
                    IsWhole-if _ _ _ (save-IsWhole saved cmd.args clean) (
                      error-IsWhole err_generic (codes "Command Unsupported") (omega arith)
                        (omega arith))))))))))
