-- ===== src/Server/Connection/Routing.antt =====
-- Where a command is executed: through Raft, locally, or not at all.
use skiffdb.Prelude.{Option, ◌≡◌, ap, false}
use skiffdb.Core.Cmd.{Cmd, is_write_op}
use skiffdb.Core.Executor.Effects.{execute_on_db_read_only}
use skiffdb.Core.Fsm.{Process, CmdJson}
use skiffdb.Server.Connection.{RaftView, execute_locally, execute_resp_cmd, save_snapshot}

module _ (J : CmdJson) where
  execute_locally_read_only :
      (node : Option (RaftView J)) (p : Process) (cmd : Cmd)
      → is_write_op cmd ≡ false
      → (execute_locally J node p cmd).1 ≡ p
  unfolding execute_locally
  execute_locally_read_only node p cmd h =
      ap (λ db. record p { db = db }) (execute_on_db_read_only (save_snapshot J node) p.db cmd h)

  -- A command that is no write is executed locally and changes nothing, with Raft or without.
  pub execute_resp_cmd_read_only :
      (node : Option (RaftView J)) (p : Process) (cmd : Cmd)
      → is_write_op cmd ≡ false
      → (execute_resp_cmd J node p cmd).1 ≡ p
  unfolding execute_resp_cmd
  execute_resp_cmd_read_only node p cmd h = rw h (execute_locally_read_only node p cmd h)
