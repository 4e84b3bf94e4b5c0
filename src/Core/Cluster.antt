-- ===== src/Core/Cluster.antt =====
-- A cluster of processes that share one log, with the state machine of src/core/raft.go: what Raft
-- commits, what each node has applied, its newest snapshot, crashes and restarts.
use skiffdb.Prelude.{
  ℕ, zero, ◌+◌, Option, none, some, List, [], ◌∷◌, ◌++◌, ◌≡◌, true, Bytes, get_elem?, take,
  if◌then◌else◌, ◌==◌,
}
use skiffdb.Core.MemDb.{MemDb, init}
use skiffdb.Core.Cmd.{Cmd, is_write_op}
use skiffdb.Core.Fsm.{
  FsmSnapshotPayload, persist, write_call, close_call, op_leader_changed, Process, CmdJson,
  fsm_apply, payload_of, snapshot, restore,
}
use skiffdb.Core.Fsm.Recovery.{IsRange, SnapshotJson}
pub mod Entries
pub mod Views
pub mod Agreement
pub mod LeaderAddr

-- `GetLeaderAdminAddr`, and the command that the observer of a new leader replicates.
unfoldable pub get_leader_admin_addr : Process → Bytes
get_leader_admin_addr p = p.leader_admin_addr

unfoldable pub leader_changed_cmd : Process → Cmd
unfolding get_leader_admin_addr
leader_changed_cmd p = record { op = op_leader_changed; args = get_leader_admin_addr p ∷ [] }

-- A process when it starts.
abbrev pub started : Process
started = record { db = init; leader_admin_addr = [] }

-- A process, the number of entries that it has applied, and its newest snapshot on disk with the number
-- of entries that it covers.
pub record Node (Data : Type 0) : Type 0 where
  pub process : Process
  pub applied : ℕ
  pub durable : Option (ℕ × Data)

abbrev pub restored : MemDb → Process → Process
restored db p = record p { db = db }

module _ (J : CmdJson) where
  -- The process that has applied these entries, one by one, and the database behind the first of a log.
  unfoldable pub process_after : Process → List J.Payload → Process
  process_after p [] = p
  process_after p (payload ∷ rest) = process_after (fsm_apply J none p payload).1 rest

  unfoldable pub db_after : List J.Payload → ℕ → MemDb
  unfolding process_after
  db_after log n = (process_after started (take n log)).db

module _ (J : CmdJson) (S : SnapshotJson) where
  pub record Cluster : Type 0 where
    pub log : List J.Payload
    pub nodes : ℕ → Node S.Data

  abbrev pub update : (ℕ → Node S.Data) → ℕ → Node S.Data → ℕ → Node S.Data
  update nodes i n j = if i == j then n else nodes j

  -- A process that starts restores its newest snapshot; the entries behind it are applied again.
  abbrev pub restarted : Option (ℕ × S.Data) → Node S.Data
  restarted none = record { process = started; applied = 0; durable = none }
  restarted (some (k, bytes)) = record {
    process = restored (restore init (S.decode bytes)).1 started;
    applied = k;
    durable = some (k, bytes);
  }

  abbrev pub installed : Node S.Data → ℕ → S.Data → Node S.Data
  installed n k bytes = record {
    process = restored (restore n.process.db (S.decode bytes)).1 n.process;
    applied = k;
    durable = some (k, bytes);
  }

  -- The write of a client or the announcement of a leader is committed; a node applies an entry,
  -- persists a snapshot without an error, ends and starts again, or is sent the snapshot of another one.
  pub data Step : Cluster → Cluster → Type 0 where
    write :
        (c : Cluster) (cmd : Cmd) (payload : J.Payload)
        → is_write_op cmd ≡ true
        → J.marshal cmd ≡ some payload
        → Step c (record c { log = c.log ++ payload ∷ [] })
    announce :
        (c : Cluster) (i : ℕ) (payload : J.Payload)
        → J.marshal (leader_changed_cmd (c.nodes i).process) ≡ some payload
        → Step c (record c { log = c.log ++ payload ∷ [] })
    apply_entry :
        (c : Cluster) (i : ℕ) (payload : J.Payload)
        → get_elem? c.log (c.nodes i).applied ≡ some payload
        → Step c (record c {
          nodes = update c.nodes i (record (c.nodes i) {
            process = (fsm_apply J none (c.nodes i).process payload).1;
            applied = (c.nodes i).applied + 1;
          });
        })
    persist_snapshot :
        (c : Cluster) (i : ℕ) (pairs : List (Bytes × Bytes)) (encoded closed : Option Bytes)
        (payload : FsmSnapshotPayload) (bytes : S.Data)
        → IsRange pairs (c.nodes i).process.db.keyspace
        → persist (snapshot pairs) encoded closed ≡ (write_call payload ∷ close_call ∷ [], none)
        → S.encode payload ≡ some bytes
        → Step c (record c {
          nodes =
              update c.nodes i (record (c.nodes i) { durable = some ((c.nodes i).applied, bytes) });
        })
    restart :
        (c : Cluster) (i : ℕ)
        → Step c (record c { nodes = update c.nodes i (restarted (c.nodes i).durable) })
    install_snapshot :
        (c : Cluster) (i j k : ℕ) (bytes : S.Data)
        → (c.nodes j).durable ≡ some (k, bytes)
        → Step c (record c { nodes = update c.nodes i (installed (c.nodes i) k bytes) })

  pub data Reach (s : Cluster) : Cluster → Type 0 where
    here : Reach s s
    next : {t u : Cluster} → Reach s t → Step t u → Reach s u

  abbrev pub start : Cluster
  start = record { log = []; nodes = λ i. restarted none }
