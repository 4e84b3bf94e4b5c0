-- ===== src/Core/Startup.antt =====
-- src/core/raft.go, `StartRaft` and its checks. What the stores, Raft and the file system answer is a
-- record; the result is what the call returns and the calls it makes that open, change or close.
use skiffdb.Prelude.{
  Option, none, some, List, [], ◌∷◌, Bool, true, false, ◌&&◌, ◌||◌, not, if◌then◌else◌, Bytes,
  eq_bytes, is_empty,
}
use skiffdb.Go.Strings.{trim_space}
use skiffdb.Core.Config.{Config, get_raft_id, get_raft_advertise_addr}
use skiffdb.Core.Identity.{RaftIdentity, IdentityFile, RaftDirectory, resolve_raft_identity}
use skiffdb.Core.Identity
use skiffdb.Core.Membership.{Server}
use skiffdb.Core.Calls.{
  Op, bootstrap_cluster, join_cluster, wait_for_configuration, persist_identity, publish, Call,
  call, attempt, and_then,
}
use skiffdb.Core.Storage.{SnapshotEntry}
use skiffdb.Core.Storage.Open.{RaftStores, close_stores, new_persistent_raft_stores}
use skiffdb.Core.Node.{
  RaftNode, NodeAnswers, normalize_raft_advertise_addr, init_raft_node, create_new_cluster, close,
}
pub mod Calls
pub mod Safety
pub mod Wait
pub mod Local
pub mod Restart

-- `validateRaftStartupIntent`; `true` is a nil error.
unfoldable pub validate_raft_startup_intent : Config → Bool → Bool
validate_raft_startup_intent config initialized =
    let has_join = not (is_empty (trim_space config.join_addr)) in
    if initialized
    then not (config.bootstrap || has_join)
    else if config.bootstrap
    then not has_join
    else has_join

-- The loop of `validatePersistedRaftConfiguration`; `none` is an error.
find_local : List Server → Bytes → Bytes → Option Bool
find_local [] node_id addr = none
find_local (server ∷ servers) node_id addr =
    if not (eq_bytes server.id node_id)
    then find_local servers node_id addr
    else if not (eq_bytes server.address addr)
    then none
    else some true

unfoldable pub validate_persisted_raft_configuration : Option (List Server) → Config → Option Bool
unfolding find_local
validate_persisted_raft_configuration none config = none
validate_persisted_raft_configuration (some []) config = some false
validate_persisted_raft_configuration (some (server ∷ servers)) config =
    find_local (server ∷ servers) (get_raft_id config) (get_raft_advertise_addr config)

wait_on : Option Bool → Bool → Bool
wait_on none rest = false
wait_on (some true) rest = true
wait_on (some false) rest = rest

-- `waitForLocalRaftConfiguration`, on the configurations that the checks read, one at each tick until
-- the time is out or the context is done; `true` is a nil error.
unfoldable pub wait_for_local_raft_configuration : Config → List (Option (List Server)) → Bool
unfolding wait_on
wait_for_local_raft_configuration config [] = false
wait_for_local_raft_configuration config (c ∷ ticks) =
    wait_on (validate_persisted_raft_configuration c config)
      (wait_for_local_raft_configuration config ticks)

-- The answers to the calls, beside those to the node's: whether `joinCluster` fails is one, and `ticks`
-- are the configurations that are read while the node waits for its own.
pub record Answers : Type 0 where
  pub identity_file : IdentityFile
  pub raft_dir : RaftDirectory
  pub snapshots : Option (List Bytes)
  pub snapshot_entries : Option (List SnapshotEntry)
  pub node_answers : NodeAnswers
  pub configuration : Option (List Server)
  pub ticks : List (Option (List Server))

abbrev pub done : Answers → Op → Bool
done a op = not (a.node_answers.fails op)

pub data Outcome : Type 0 where
  ignored failed : Outcome
  started : RaftNode → Outcome

give_up : Answers → RaftNode → Outcome × List Call
give_up a node = (failed, (close a.node_answers.fails node).1)

publish_node : RaftNode → Outcome × List Call
publish_node node = (started node, call publish true ∷ [])

finish : Option RaftIdentity → Answers → RaftNode → Outcome × List Call
unfolding give_up publish_node
finish (some identity) a node = publish_node node
finish none a node =
    attempt (done a persist_identity) persist_identity (publish_node node) (give_up a node)

enter : Config → Option RaftIdentity → Answers → RaftNode → Outcome × List Call
unfolding give_up finish
enter config identity a node =
    attempt (wait_for_local_raft_configuration config a.ticks) wait_for_configuration
      (finish identity a node) (give_up a node)

has_identity : Option RaftIdentity → Bool
has_identity none = false
has_identity (some identity) = true

-- `createNewCluster` or `joinCluster`.
form : Config → Option RaftIdentity → Answers → RaftNode → Op → Outcome × List Call
unfolding give_up enter
form config identity a node op =
    attempt (done a op) op (enter config identity a node) (give_up a node)

join_or_open : Config → Option RaftIdentity → Bool → Answers → RaftNode → Outcome × List Call
unfolding give_up finish form has_identity
join_or_open config identity initialized a node =
    if has_identity identity && not initialized
    then give_up a node
    else if not (validate_raft_startup_intent config initialized)
    then give_up a node
    else if initialized
    then finish identity a node
    else if config.bootstrap
    then form config identity a node (bootstrap_cluster (create_new_cluster node))
    else form config identity a node join_cluster

validated : Config → Option RaftIdentity → Answers → RaftNode → Option Bool → Outcome × List Call
unfolding give_up join_or_open
validated config identity a node none = give_up a node
validated config identity a node (some initialized) =
    join_or_open config identity initialized a node

other_address : Option RaftIdentity → Config → Bool
other_address none config = false
other_address (some identity) config =
    not (eq_bytes identity.advertise_addr (get_raft_advertise_addr config))

opened : Config → Option RaftIdentity → Answers → RaftNode → Outcome × List Call
unfolding give_up validated other_address
opened config identity a node =
    if other_address identity config
    then give_up a node
    else validated config identity a node
        (validate_persisted_raft_configuration a.configuration config)

with_node :
    Config → Option RaftIdentity → Answers → RaftStores → Option RaftNode → Outcome × List Call
unfolding opened
with_node config identity a stores none = (failed, close_stores a.node_answers.fails (some stores))
with_node config identity a stores (some node) =
    opened (record config { raft_advertise_addr = node.local_addr }) identity a node

with_stores : Config → Option RaftIdentity → Answers → Option RaftStores → Outcome × List Call
unfolding with_node
with_stores config identity a none = (failed, [])
with_stores config identity a (some stores) =
    and_then (init_raft_node a.node_answers config (some stores))
      (with_node config identity a stores)

normalized : Config → Option RaftIdentity → Answers → Option Bytes → Outcome × List Call
unfolding with_stores
normalized config identity a none = (failed, [])
normalized config identity a (some addr) =
    let config' = record config { raft_advertise_addr = addr } in
    and_then
      (new_persistent_raft_stores a.node_answers.fails a.snapshots a.snapshot_entries config')
      (with_stores config' identity a)

resolved : Answers → Identity.Result (Option RaftIdentity × Config) → Outcome × List Call
unfolding normalized
resolved a (Identity.err e) = (failed, [])
resolved a (Identity.ok (identity, config)) =
    normalized config identity a
      (normalize_raft_advertise_addr a.node_answers.resolve (get_raft_advertise_addr config))

-- `StartRaft`; `running` says that `raftNode` is set.
unfoldable pub start_raft : Bool → Config → Answers → Outcome × List Call
unfolding resolved
start_raft running config a =
    if running
    then (failed, [])
    else if not config.enable_raft
    then (ignored, [])
    else resolved a (resolve_raft_identity config a.identity_file a.raft_dir)
