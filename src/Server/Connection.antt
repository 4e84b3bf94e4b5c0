-- ===== src/Server/Connection.antt =====
-- src/server/resp_server.go: `executeRESPCmd` and the loop of `handleConnection`, with the functions
-- of src/core/raft.go that choose between Raft and the local database.
pub mod Session
pub mod Routing
use skiffdb.Go.Strings.{contains}
use skiffdb.Prelude.{
  ◌||◌, ℕ, zero, suc, Option, none, some, List, [], ◌∷◌, ◌++◌, Bool, true, false, ◌&&◌, not, Bytes,
  codes, length, if◌then◌else◌,
}
use skiffdb.Resp.Build.{err_invalid_command, err_write_not_allowed, err_no_command_specified}
use skiffdb.Resp.Context.{
  ParserContext, reset, Reader, ParseError, eof, Outcome, ok, err, panicked, out_of_fuel,
}
use skiffdb.Resp.Parser.{parse_resp_command}
use skiffdb.Core.MemDb.{MemDb}
use skiffdb.Core.Cmd.{Cmd, is_write_op, build_cmd}
use skiffdb.Core.Executor.{execute_on_db}
use skiffdb.Core.Fsm.{Process, CmdJson, Future, apply_cmd_via_raft_node}

module _ (J : CmdJson) where
  -- The Raft node of the process, as the server uses it: whether it leads, what `Apply` does, and the
  -- error of a snapshot that it is asked for.
  pub record RaftView : Type 0 where
    pub leader : Bool
    pub apply : Process → J.Payload → Future × Process
    pub snapshot_error : Option Bytes

-- `isBrokenPipe`, on the text of the error.
unfoldable pub is_broken_pipe : Bytes → Bool
is_broken_pipe text =
    contains text (codes "broken pipe") || contains text (codes "connection reset")

-- `SaveSnapshot`: nil when Raft is disabled.
snapshot_message : Option Bytes → Option Bytes
snapshot_message none = none
snapshot_message (some e) = some (codes "raft snapshot: " ++ e)

module _ (J : CmdJson) where
  unfoldable pub save_snapshot : Option (RaftView J) → Option Bytes
  unfolding snapshot_message
  save_snapshot none = none
  save_snapshot (some raft) = snapshot_message raft.snapshot_error

  unfoldable pub raft_enabled : Option (RaftView J) → Bool
  raft_enabled none = false
  raft_enabled (some raft) = true

  unfoldable pub is_leader : Option (RaftView J) → Bool
  is_leader none = false
  is_leader (some raft) = raft.leader

  unfoldable pub execute_locally : Option (RaftView J) → Process → Cmd → Bytes × Process
  unfolding save_snapshot
  execute_locally node p cmd =
      let (reply, db) = execute_on_db (save_snapshot node) p.db cmd in (reply, record p { db = db })

  unfoldable pub apply_cmd_via_raft : Option (RaftView J) → Process → Cmd → Bytes × Process
  apply_cmd_via_raft none p cmd = execute_locally none p cmd
  apply_cmd_via_raft (some raft) p cmd = apply_cmd_via_raft_node J raft.apply p cmd

  unfoldable pub execute_resp_cmd : Option (RaftView J) → Process → Cmd → Bytes × Process
  unfolding raft_enabled is_leader
  execute_resp_cmd node p cmd =
      if is_write_op cmd && raft_enabled node
      then (if not (is_leader node)
          then (err_write_not_allowed, p)
          else apply_cmd_via_raft node p cmd)
      else execute_locally node p cmd

  -- A connection: what the client has sent and the parser's context, the process, and what has been
  -- written back. `unicode` is the argument of `to_upper`.
  pub record Connection : Type 0 where
    pub reader : Reader
    pub process : Process
    pub output : Bytes

  pub data Round : Type 0 where
    goes_on : Connection → Round
    closed : Connection → Round
    crashed : Connection → Round

  write_response : Connection → Bytes → Connection
  write_response s reply = record s { output = s.output ++ reply }

  module _ (unicode : Bytes → Bytes) (node : Option (RaftView J)) where
    -- `parserContext.CmdArgs`, where nil is no argument.
    serve_cmd : Connection → Option Cmd → Round
    unfolding write_response
    serve_cmd s none = goes_on (write_response s err_invalid_command)
    serve_cmd s (some cmd) =
        let (reply, p) = execute_resp_cmd node s.process cmd in
        goes_on (write_response (record s { process = p }) reply)

    args_of : Option (List Bytes) → List Bytes
    args_of none = []
    args_of (some args) = args

    after_parse : Connection → Outcome (Unit {0}) × Reader → Round
    unfolding serve_cmd args_of write_response
    after_parse s (ok u, r) =
        serve_cmd (record s { reader = record r { ctx = reset r.ctx } })
          (build_cmd unicode (args_of r.ctx.cmd_args))
    after_parse s (err eof, r) = closed (record s { reader = record r { ctx = reset r.ctx } })
    after_parse s (err e, r) =
        goes_on (
          write_response (record s { reader = record r { ctx = reset r.ctx } }) err_invalid_command)
    after_parse s (panicked, r) = crashed (record s { reader = r })
    after_parse s (out_of_fuel, r) = crashed (record s { reader = r })

    -- One round of the loop.
    unfoldable pub round : Connection → Round
    unfolding after_parse
    round s = after_parse s (parse_resp_command s.reader)

    -- The loop. `none` is no outcome of the program: each round that goes on uses up input, so that the
    -- length of the input is enough fuel.
    unfoldable pub handle_connection : ℕ → Connection → Option Round
    handle_connection zero s = none
    handle_connection (suc f) s = elim (round s) [
      | goes_on t ↦ handle_connection f t
      | closed t ↦ some (closed t)
      | crashed t ↦ some (crashed t)
    ]
