-- ===== src/Core/Storage.antt =====
-- src/core/raft_storage.go: the directory of a node's stores, and the check of its snapshots.
use skiffdb.Prelude.{
  ℕ, zero, Option, none, some, List, [], ◌∷◌, Bool, true, false, ◌&&◌, ◌||◌, not, Bytes, codes,
  eq_bytes, is_empty, if◌then◌else◌,
}
use skiffdb.Go.Filepath.{base, has_byte}
use skiffdb.Core.Config.{Config, get_data_dir, get_raft_id}
pub mod Names
pub mod Open

pub data StorageError : Type 0 where
  id_required list_failed scan_failed unreadable_snapshots : StorageError
  invalid_id : Bytes → StorageError

pub data Result (A : Type 0) : Type 0 where
  ok : A → Result A
  err : StorageError → Result A

-- `raftNodeDataDir`: the three arguments of `filepath.Join`, or an error.
unfoldable pub raft_node_data_dir : Config → Result (Bytes × Bytes × Bytes)
raft_node_data_dir config =
    let id = get_raft_id config in
    if is_empty id
    then err id_required
    else if eq_bytes id (codes ".")
        || eq_bytes id (codes "..")
        || not (eq_bytes (base id) id)
        || has_byte b'\\' id
    then err (invalid_id id)
    else ok (get_data_dir config, codes "raft", id)

-- An entry of the directory: whether it is a directory, and whether its name has the suffix of an
-- unfinished snapshot.
pub record SnapshotEntry : Type 0 where
  pub is_dir : Bool
  pub incomplete : Bool

check_entries : List SnapshotEntry → Option StorageError
check_entries [] = none
check_entries (entry ∷ rest) =
    if entry.is_dir && not entry.incomplete then some unreadable_snapshots else check_entries rest

scan : Option (List SnapshotEntry) → Option StorageError
unfolding check_entries
scan none = some scan_failed
scan (some entries) = check_entries entries

-- `rejectUnreadableFinalizedSnapshots`, with what `List` and `ReadDir` return; `none` is a nil error. The
-- list is that of the snapshots' names.
unfoldable pub reject_unreadable_finalized_snapshots :
    Option (List Bytes) → Option (List SnapshotEntry) → Option StorageError
unfolding scan
reject_unreadable_finalized_snapshots none entries = some list_failed
reject_unreadable_finalized_snapshots (some []) entries = scan entries
reject_unreadable_finalized_snapshots (some (name ∷ names)) entries = none
