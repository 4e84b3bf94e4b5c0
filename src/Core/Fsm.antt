-- ===== src/Core/Fsm.antt =====
-- src/core/raft.go: the Raft state machine `fsm` (Apply, Snapshot, Restore), `memSnapshot`, and
-- `applyCmdViaRaftNode`. JSON and Raft itself are parameters.
pub mod Recovery
pub mod Replication
use skiffdb.Prelude.{
  ℕ, Option, none, some, List, [], ◌∷◌, ◌≡◌, ◌⊎◌, Bytes, codes, eq_bytes, if◌then◌else◌, ◌==◌,
}
use mathlib.Core.List.{map}
use skiffdb.Go.Map.{Map, insert}
use skiffdb.Go.Utf8.{coerce_utf8}
use skiffdb.Resp.Build.{ok_reply, err_internal}
use skiffdb.Core.MemDb.{MemDb}
use skiffdb.Core.Cmd.{Cmd}
use skiffdb.Core.Executor.{execute_on_db}

-- `OpLeaderChanged`.
abbrev pub op_leader_changed : Bytes
op_leader_changed = codes "LEADER_CHANGED"

-- The state of a process that commands change: the database, and the variable `leaderAdminAddr`.
pub record Process : Type 0 where
  pub db : MemDb
  pub leader_admin_addr : Bytes

-- What `fsm.Apply` returns: nil, an error, a string, or a value of another type; or it panics.
pub data Response : Type 0 where
  nil_response error_response other_response panic_response : Response
  text : Bytes → Response

-- What is left of a command that has been through JSON.
abbrev pub coerce_cmd : Cmd → Cmd
coerce_cmd cmd = record { op = coerce_utf8 cmd.op; args = map coerce_utf8 cmd.args }

-- `json.Marshal` and `json.Unmarshal` on commands, with what their documentation says of a round trip.
pub record CmdJson : Type 1 where
  pub Payload : Type 0
  pub marshal : Cmd → Option Payload
  pub unmarshal : Payload → Option Cmd
  pub unmarshal-marshal :
      (cmd : Cmd) (p : Payload) → marshal cmd ≡ some p → unmarshal p ≡ some (coerce_cmd cmd)

unfoldable pub leader_changed : Process → List Bytes → Response × Process
leader_changed p [] = (panic_response, p)
leader_changed p (addr ∷ args) = (text ok_reply, record p { leader_admin_addr = addr })

unfoldable pub with_db : Process → Bytes × MemDb → Response × Process
with_db p (reply, db) = (text reply, record p { db = db })

-- `Apply`, from the decoded entry on.
unfoldable pub apply_decoded : Option Bytes → Process → Option Cmd → Response × Process
unfolding leader_changed with_db
apply_decoded saved p none = (error_response, p)
apply_decoded saved p (some cmd) =
    if eq_bytes cmd.op op_leader_changed
    then leader_changed p cmd.args
    else with_db p (execute_on_db saved p.db cmd)

-- The future of `raft.Apply`: an error, or the response.
pub data Future : Type 0 where
  failed : Future
  responded : Response → Future

-- The reply for a response. A panic in `Apply` ends the process, so its case has no caller.
unfoldable pub reply_of : Future → Bytes
reply_of failed = err_internal
reply_of (responded nil_response) = ok_reply
reply_of (responded error_response) = err_internal
reply_of (responded (text msg)) = msg
reply_of (responded other_response) = err_internal
reply_of (responded panic_response) = err_internal

module _ (J : CmdJson) where
  open J use {Payload, marshal, unmarshal}

  unfoldable pub fsm_apply : Option Bytes → Process → Payload → Response × Process
  unfolding apply_decoded
  fsm_apply saved p payload = apply_decoded saved p (unmarshal payload)

  -- `raft.Apply` as this process sees it. Without an error the entry has been applied here, and the
  -- response is what `fsm.Apply` returned; after an error the entry may have been applied or not.
  abbrev pub IsRaftApply : (Process → Payload → Future × Process) → Type 0
  IsRaftApply raft_apply =
      (p : Process) (payload : Payload)
      → ((raft_apply p payload).0 ≡ failed)
        ⊎ ((raft_apply p payload)
            ≡ (responded (fsm_apply none p payload).0, (fsm_apply none p payload).1))

  apply_marshalled :
      (Process → Payload → Future × Process) → Process → Option Payload → Bytes × Process
  apply_marshalled raft_apply p none = (err_internal, p)
  apply_marshalled raft_apply p (some payload) =
      let (future, p') = raft_apply p payload in (reply_of future, p')

  unfoldable pub apply_cmd_via_raft_node :
      (Process → Payload → Future × Process) → Process → Cmd → Bytes × Process
  unfolding apply_marshalled reply_of
  apply_cmd_via_raft_node raft_apply p cmd = apply_marshalled raft_apply p (marshal cmd)

-- Snapshots.
abbrev pub fsm_snapshot_format : Bytes
fsm_snapshot_format = codes "skiffdb-fsm"

abbrev pub fsm_snapshot_version : ℕ
fsm_snapshot_version = 1

-- `keyspace` is `none` for a nil map.
pub record FsmSnapshotPayload : Type 0 where
  pub format : Bytes
  pub version : ℕ
  pub keyspace : Option (Map Bytes)

-- The loop of `Snapshot`, over the pairs in the order in which `range` gives them.
unfoldable pub copy_loop : List (Bytes × Bytes) → Map Bytes → Map Bytes
copy_loop [] cp = cp
copy_loop ((k, v) ∷ pairs) cp = copy_loop pairs (insert k v cp)

unfoldable pub snapshot : List (Bytes × Bytes) → Map Bytes
unfolding copy_loop
snapshot pairs = copy_loop pairs []

abbrev pub payload_of : Map Bytes → FsmSnapshotPayload
payload_of state = record {
  format = fsm_snapshot_format;
  version = fsm_snapshot_version;
  keyspace = some state;
}

-- `Persist`: what it does with the sink, and its error. `encoded` says whether the encoder wrote the
-- payload, `closed` is the error of `sink.Close`.
pub data SinkCall : Type 0 where
  write_call : FsmSnapshotPayload → SinkCall
  cancel_call close_call : SinkCall

unfoldable pub persist : Map Bytes → Option Bytes → Option Bytes → List SinkCall × Option Bytes
persist state (some e) closed = (write_call (payload_of state) ∷ cancel_call ∷ [], some e)
persist state none closed = (write_call (payload_of state) ∷ close_call ∷ [], closed)

-- What follows the first JSON value of a snapshot.
pub data Trailing : Type 0 where
  end_of_file value unreadable : Trailing

pub record Decoded : Type 0 where
  pub first : Option FsmSnapshotPayload
  pub trailing : Trailing

pub data RestoreError : Type 0 where
  decode_failed trailing_value trailing_unreadable keyspace_missing : RestoreError
  unsupported_format : Bytes → RestoreError
  unsupported_version : ℕ → RestoreError

restore_keyspace : MemDb → Option (Map Bytes) → Option RestoreError × MemDb
restore_keyspace db none = (some keyspace_missing, db)
restore_keyspace db (some m) = (none, record db { keyspace = m })

restore_payload : MemDb → FsmSnapshotPayload → Option RestoreError × MemDb
unfolding restore_keyspace
restore_payload db s =
    if eq_bytes s.format fsm_snapshot_format
    then (if s.version == fsm_snapshot_version
        then restore_keyspace db s.keyspace
        else (some (unsupported_version s.version), db))
    else (some (unsupported_format s.format), db)

restore_first : MemDb → Option FsmSnapshotPayload → Trailing → Option RestoreError × MemDb
unfolding restore_payload
restore_first db none t = (some decode_failed, db)
restore_first db (some s) value = (some trailing_value, db)
restore_first db (some s) unreadable = (some trailing_unreadable, db)
restore_first db (some s) end_of_file = restore_payload db s

-- `Restore`: its error, if there is one, and the database.
unfoldable pub restore : MemDb → Decoded → Option RestoreError × MemDb
unfolding restore_first
restore db d = restore_first db d.first d.trailing
