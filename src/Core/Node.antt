-- ===== src/Core/Node.antt =====
-- src/core/raft.go: a node's Raft instance with its transport and stores (`initRaftNodeWithDB`,
-- `createNewCluster`, `Close`), and the address that it gives to its peers. Raft, the resolver and the
-- listener are parameters.
pub mod Trace
use skiffdb.Prelude.{
  ℕ, Option, none, some, List, [], ◌∷◌, ◌++◌, Bool, true, false, ◌&&◌, ◌||◌, not, ◌==◌, Bytes,
  is_empty, if◌then◌else◌,
}
use skiffdb.Go.Strings.{trim_space}
use skiffdb.Core.Calls.{
  Op, inspect_state, resolve_address, new_transport, new_raft, shutdown_raft, close_transport, Call,
  call, calls, attempt, closing,
}
use skiffdb.Core.Config.{Config, get_raft_id, get_raft_advertise_addr}
use skiffdb.Core.Membership.{Server, voter}
use skiffdb.Core.Storage.Open.{RaftStores, close_stores}

-- What `net.ResolveTCPAddr` returns: whether there is an IP and whether it is the unspecified one, the
-- port, and the text of the address.
pub record TcpAddr : Type 0 where
  pub has_ip : Bool
  pub unspecified : Bool
  pub port : ℕ
  pub text : Bytes

routable : Option TcpAddr → Option Bytes
routable none = none
routable (some addr) = if not addr.has_ip || addr.unspecified then none else some addr.text

-- `normalizeRaftAdvertiseAddr`; `none` is an error.
unfoldable pub normalize_raft_advertise_addr : (Bytes → Option TcpAddr) → Bytes → Option Bytes
unfolding routable
normalize_raft_advertise_addr resolve address =
    if is_empty (trim_space address) then none else routable (resolve (trim_space address))

-- `local_addr` is the address of the transport; `closed` holds the calls that failed in `Close`, once
-- that has been called.
pub record RaftNode : Type 0 where
  pub has_raft : Bool
  pub has_transport : Bool
  pub local_id : Bytes
  pub local_addr : Bytes
  pub stores : Option RaftStores
  pub had_existing_state : Bool
  pub closed : Option (List Op)

abbrev pub new_node : Bytes → Bytes → Option RaftStores → Bool → RaftNode
new_node id addr stores existing = record {
  has_raft = true;
  has_transport = true;
  local_id = id;
  local_addr = addr;
  stores = stores;
  had_existing_state = existing;
  closed = none;
}

-- What Raft, the resolver and the listener answer: which calls fail, the address that a name stands
-- for, the address of the transport that is bound and advertised, and whether there was state.
pub record NodeAnswers : Type 0 where
  pub fails : Op → Bool
  pub resolve : Bytes → Option TcpAddr
  pub listen : Bytes → Option TcpAddr → Option Bytes
  pub existing_state : Bool

stores_given : Option RaftStores → Bool
stores_given none = false
stores_given (some stores) = stores.log_store && stores.stable_store && stores.snapshot_store

listening : NodeAnswers → Config → Option RaftStores → Option Bytes → Option RaftNode × List Call
listening a config stores none = calls (call new_transport false) (none, [])
listening a config stores (some addr) = calls (call new_transport true) (
    attempt (not (a.fails new_raft)) new_raft
      (some (new_node (get_raft_id config) addr stores a.existing_state), [])
      (none, closing a.fails close_transport ∷ []))

resolved_to :
    NodeAnswers → Config → Option RaftStores → Option TcpAddr → Option RaftNode × List Call
unfolding listening
resolved_to a config stores none = calls (call resolve_address false) (none, [])
resolved_to a config stores (some advertised) = calls (call resolve_address true) (
    listening a config stores
      (a.listen config.raft_addr (if advertised.port == 0 then none else some advertised)))

-- `initRaftNodeWithDB`; `none` is an error.
unfoldable pub init_raft_node_with_db :
    NodeAnswers → Config → Option RaftStores → Bool → Option RaftNode × List Call
unfolding resolved_to stores_given
init_raft_node_with_db a config stores has_db =
    if not (stores_given stores) || not has_db
    then (none, [])
    else attempt (not (a.fails inspect_state)) inspect_state
        (resolved_to a config stores (a.resolve (get_raft_advertise_addr config))) (none, [])

-- `initRaftNode` passes the keyspace of the process.
unfoldable pub init_raft_node :
    NodeAnswers → Config → Option RaftStores → Option RaftNode × List Call
unfolding init_raft_node_with_db
init_raft_node a config stores = init_raft_node_with_db a config stores true

-- The configuration that `createNewCluster` bootstraps.
abbrev pub create_new_cluster : RaftNode → List Server
create_new_cluster node =
    record { suffrage = voter; id = node.local_id; address = node.local_addr } ∷ []

-- The calls that `Close` makes, in their order.
closing_calls : (Op → Bool) → RaftNode → List Call
unfolding close_stores
closing_calls fails node =
    (if node.has_raft then closing fails shutdown_raft ∷ [] else [])
    ++ (if node.has_transport then closing fails close_transport ∷ [] else [])
    ++ close_stores fails node.stores

failures : List Call → List Op
failures [] = []
failures (call op true ∷ rest) = failures rest
failures (call op false ∷ rest) = op ∷ failures rest

close_once : (Op → Bool) → RaftNode → Option (List Op) → RaftNode × List Call
unfolding closing_calls failures
close_once fails node (some errors) = (node, [])
close_once fails node none =
    (record node { closed = some (failures (closing_calls fails node)) }, closing_calls fails node)

-- `Close`, which works once; its error is what `closed` holds.
unfoldable pub close : (Op → Bool) → RaftNode → RaftNode × List Call
unfolding close_once
close fails node = close_once fails node node.closed

-- `ShutdownRaft`, with `raftNode` before and after it.
unfoldable pub shutdown_raft_node : (Op → Bool) → Option RaftNode → Option RaftNode × List Call
unfolding close
shutdown_raft_node fails none = (none, [])
shutdown_raft_node fails (some node) = (none, (close fails node).1)
