-- ===== src/Examples/Clusters.antt =====
-- Examples of a cluster's runs.
use skiffdb.Prelude.{none, some, List, [], ◌∷◌, ◌≡◌, refl, Bytes, codes, eq_bytes}
use skiffdb.Go.Map.{lookup}
use skiffdb.Go.Utf8.{coerce_utf8}
use skiffdb.Core.MemDb.{MemDb, init}
use skiffdb.Core.MemDb
use skiffdb.Core.Cmd.{Cmd}
use skiffdb.Core.Executor.SameView.{SameView}
use skiffdb.Core.Fsm.{
  persist, write_call, close_call, fsm_apply, FsmSnapshotPayload, payload_of, snapshot,
}
use skiffdb.Core.Fsm.Recovery.{IsRange}
use skiffdb.Core.Cluster.{
  started, Reach, here, next, write, announce, apply_entry, persist_snapshot, install_snapshot,
  Cluster, start, leader_changed_cmd, Node, update, installed,
}
use skiffdb.Core.Cluster.LeaderAddr.{leader_admin_addr_empty}
use skiffdb.Core.Cluster.Views.{Valid, Reach-Valid}
use skiffdb.Core.Fsm.{apply_decoded, with_db}
use skiffdb.Core.Executor.{execute_on_db, exec_set}
use skiffdb.Go.Map.{insert}
use skiffdb.Core.Cluster.Agreement.{replicas_agree}
use skiffdb.Examples.Replica.{cmd_json, snapshot_json, set_cmd, set_is_write}

-- A node announces that it leads, and another one applies the announcement.
abbrev announcement : Cmd
announcement = leader_changed_cmd started

abbrev announced : Cluster cmd_json snapshot_json
announced = record (start cmd_json snapshot_json) { log = announcement ∷ [] }

abbrev applied : Cluster cmd_json snapshot_json
applied = record announced {
  nodes = update cmd_json snapshot_json announced.nodes 1 (record {
    process = (fsm_apply cmd_json none started announcement).1;
    applied = 1;
    durable = none;
  });
}

applied_reached : Reach cmd_json snapshot_json (start cmd_json snapshot_json) applied
applied_reached =
    next (next here (announce (start cmd_json snapshot_json) 0 announcement refl))
      (apply_entry announced 1 announcement refl)

leader_admin_addr_empty_example : (applied.nodes 1).process.leader_admin_addr ≡ []
leader_admin_addr_empty_example = leader_admin_addr_empty cmd_json snapshot_json applied_reached 1

-- A write is applied by one node, which persists a snapshot that another one is sent.
abbrev written : Cluster cmd_json snapshot_json
written = record (start cmd_json snapshot_json) { log = set_cmd ∷ [] }

abbrev first : Node FsmSnapshotPayload
first = record {
  process = (fsm_apply cmd_json none started set_cmd).1;
  applied = 1;
  durable = none;
}

abbrev written_first : Cluster cmd_json snapshot_json
written_first = record written { nodes = update cmd_json snapshot_json written.nodes 0 first }

abbrev k_v : List (Bytes × Bytes)
k_v = (codes "k", codes "v") ∷ []

abbrev saved : Node FsmSnapshotPayload
saved = record first { durable = some (1, payload_of (snapshot k_v)) }

abbrev snapshot_taken : Cluster cmd_json snapshot_json
snapshot_taken = record written_first {
  nodes = update cmd_json snapshot_json written_first.nodes 0 saved;
}

abbrev sent : Cluster cmd_json snapshot_json
sent = record snapshot_taken {
  nodes =
      update cmd_json snapshot_json snapshot_taken.nodes 1
        (installed cmd_json snapshot_json (snapshot_taken.nodes 1) 1 (payload_of (snapshot k_v)));
}

k_v-IsRange : IsRange k_v first.process.db.keyspace
unfolding lookup fsm_apply apply_decoded coerce_utf8 eq_bytes execute_on_db exec_set MemDb.set
    insert init with_db
k_v-IsRange = record { unique = (refl, tt); same = λ k. refl }

k_v_persisted :
    persist (snapshot k_v) none none
    ≡ (write_call (payload_of (snapshot k_v)) ∷ close_call ∷ [], none)
unfolding persist
k_v_persisted = refl

written_reached : Reach cmd_json snapshot_json (start cmd_json snapshot_json) written_first
written_reached =
    next (next here (write (start cmd_json snapshot_json) set_cmd set_cmd set_is_write refl))
      (apply_entry written 0 set_cmd refl)

sent_later : Reach cmd_json snapshot_json written_first sent
sent_later =
    next
      (next here (
        persist_snapshot written_first 0 k_v none none (payload_of (snapshot k_v))
          (payload_of (snapshot k_v)) k_v-IsRange k_v_persisted refl))
      (install_snapshot snapshot_taken 1 0 1 (payload_of (snapshot k_v)) refl)

sent_reached : Reach cmd_json snapshot_json (start cmd_json snapshot_json) sent
sent_reached =
    next
      (next written_reached (
        persist_snapshot written_first 0 k_v none none (payload_of (snapshot k_v))
          (payload_of (snapshot k_v)) k_v-IsRange k_v_persisted refl))
      (install_snapshot snapshot_taken 1 0 1 (payload_of (snapshot k_v)) refl)

replicas_agree_example : SameView (written_first.nodes 0).process.db (sent.nodes 1).process.db
replicas_agree_example = replicas_agree cmd_json snapshot_json written_reached sent_later 0 1 refl

Reach-Valid_example : Valid cmd_json snapshot_json sent
Reach-Valid_example = Reach-Valid cmd_json snapshot_json sent_reached
