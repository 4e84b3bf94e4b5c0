-- ===== src/Core/Storage/Open.antt =====
-- src/core/raft_storage.go: `newPersistentRaftStores`, `newInmemRaftStores` and `Close`. `fails` says
-- which calls return an error.
pub mod Trace
use skiffdb.Prelude.{
  Option, none, some, List, [], ◌∷◌, Bool, true, false, not, Bytes, if◌then◌else◌,
}
use skiffdb.Core.Calls.{
  Op, make_dir, chmod_dir, open_store, chmod_store, open_snapshots, chmod_snapshots,
  check_snapshots, close_store, Call, call, calls, attempt, closing,
}
use skiffdb.Core.Config.{Config}
use skiffdb.Core.Storage.{
  StorageError, Result, ok, err, SnapshotEntry, raft_node_data_dir,
  reject_unreadable_finalized_snapshots,
}

-- Which of the fields are set.
pub record RaftStores : Type 0 where
  pub log_store : Bool
  pub stable_store : Bool
  pub snapshot_store : Bool
  pub closer : Bool

abbrev pub persistent_stores : RaftStores
persistent_stores = record {
  log_store = true;
  stable_store = true;
  snapshot_store = true;
  closer = true;
}

abbrev pub new_inmem_raft_stores : RaftStores
new_inmem_raft_stores = record persistent_stores { closer = false }

unfoldable pub close_stores : (Op → Bool) → Option RaftStores → List Call
close_stores fails none = []
close_stores fails (some stores) = if stores.closer then closing fails close_store ∷ [] else []

-- An error behind the opening of the store.
give_up_store : (Op → Bool) → Option RaftStores × List Call
give_up_store fails = (none, closing fails close_store ∷ [])

checked : (Op → Bool) → Option StorageError → Option RaftStores × List Call
unfolding give_up_store
checked fails none = calls (call check_snapshots true) (some persistent_stores, [])
checked fails (some error) = calls (call check_snapshots false) (give_up_store fails)

opened_store : (Op → Bool) → Option StorageError → Option RaftStores × List Call
unfolding give_up_store checked
opened_store fails unreadable =
    attempt (not (fails chmod_store)) chmod_store
      (attempt (not (fails open_snapshots)) open_snapshots
        (attempt (not (fails chmod_snapshots)) chmod_snapshots (checked fails unreadable)
          (give_up_store fails))
        (give_up_store fails))
      (give_up_store fails)

in_directory :
    (Op → Bool)
    → Option StorageError
    → Result (Bytes × Bytes × Bytes)
    → Option RaftStores × List Call
unfolding opened_store
in_directory fails unreadable (err e) = (none, [])
in_directory fails unreadable (ok dir) =
    attempt (not (fails make_dir)) make_dir
      (attempt (not (fails chmod_dir)) chmod_dir
        (attempt (not (fails open_store)) open_store (opened_store fails unreadable) (none, []))
        (none, []))
      (none, [])

-- `newPersistentRaftStores`; `none` is an error. The lists are what `List` and `ReadDir` return of the
-- snapshots.
unfoldable pub new_persistent_raft_stores :
    (Op → Bool)
    → Option (List Bytes)
    → Option (List SnapshotEntry)
    → Config
    → Option RaftStores × List Call
unfolding in_directory
new_persistent_raft_stores fails snapshots entries config =
    in_directory fails (reject_unreadable_finalized_snapshots snapshots entries)
      (raft_node_data_dir config)
