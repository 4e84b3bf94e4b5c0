-- ===== src/Examples/Start.antt =====
-- Examples of a start.
use skiffdb.Prelude.{Bool, List, none, some, [], ◌∷◌, ◌≡◌, refl, true, false, codes, eq_bytes}
use skiffdb.Go.Strings.{trim_space}
use skiffdb.Go.Filepath.{base, has_byte}
use skiffdb.Core.Calls.{
  Op, make_dir, chmod_dir, open_store, chmod_store, open_snapshots, chmod_snapshots,
  check_snapshots, inspect_state, resolve_address, new_transport, new_raft, bootstrap_cluster,
  join_cluster, wait_for_configuration, persist_identity, publish, shutdown_raft, close_transport,
  close_store, call, attempt, and_then,
}
use skiffdb.Core.Lifecycle.{Action, start, shutdown, is_running, lifecycle, lifecycle_held}
use skiffdb.Core.Calls.Trace.{left_held}
use skiffdb.Core.Calls.Trace.{Safe, all_held}
use skiffdb.Core.Config.{Config, get_raft_advertise_addr, get_raft_id, set_raft_id}
use skiffdb.Core.Identity.{IdentityFile, missing, resolve_raft_identity}
use skiffdb.Core.Identity
use skiffdb.Core.Membership.{voter}
use skiffdb.Core.Storage.{raft_node_data_dir, reject_unreadable_finalized_snapshots}
use skiffdb.Core.Storage.Open.{new_persistent_raft_stores, persistent_stores}
use skiffdb.Core.Storage.Open.{close_stores}
use skiffdb.Core.Startup.{failed}
use skiffdb.Core.Node.{
  close, RaftNode, NodeAnswers, new_node, normalize_raft_advertise_addr, init_raft_node,
  init_raft_node_with_db,
}
use skiffdb.Core.Startup.{
  Answers, started, validate_persisted_raft_configuration, validate_raft_startup_intent, start_raft,
}
use skiffdb.Core.Startup.Calls.{Allowed}
use skiffdb.Core.Startup.Safety.{outcome_held, start_raft-Safe}
use skiffdb.Core.Startup.Local.{Listed, start_raft-Listed}
use skiffdb.Examples.Member.{config, stores}

-- Every address is an IP with the port 7000.
abbrev node_answers : NodeAnswers
node_answers = record {
  fails = λ op. false;
  resolve = λ addr. some (record { has_ip = true; unspecified = false; port = 7000; text = addr });
  listen = λ bind advertised. some (codes "10.0.0.1:7000");
  existing_state = false;
}

abbrev new_store : Answers
new_store = record {
  identity_file = missing;
  raft_dir = stores;
  snapshots = some [];
  snapshot_entries = some [];
  node_answers = node_answers;
  configuration = some [];
  ticks = some [] ∷ [];
}

start_raft-Safe_example :
    Safe (Allowed true new_store) (all_held false) outcome_held (start_raft false config new_store)
start_raft-Safe_example = start_raft-Safe false config new_store

-- A store that holds a cluster's configuration, reopened.
abbrev pub old_store : Answers
old_store = record new_store {
  configuration =
      some (record { suffrage = voter; id = codes "n1"; address = codes "10.0.0.1:7000" } ∷ []);
}

abbrev pub reopened : Config
reopened = record config { bootstrap = false }

abbrev pub n1 : RaftNode
n1 = new_node (codes "n1") (codes "10.0.0.1:7000") (some persistent_stores) false

reopens : (start_raft false reopened old_store).0 ≡ started n1
unfolding start_raft resolve_raft_identity Identity.discover_legacy_raft_ids get_raft_id
    get_raft_advertise_addr trim_space set_raft_id eq_bytes validate_persisted_raft_configuration
    validate_raft_startup_intent attempt and_then new_persistent_raft_stores raft_node_data_dir
    reject_unreadable_finalized_snapshots base has_byte init_raft_node init_raft_node_with_db
    normalize_raft_advertise_addr
reopens = refl

start_raft-Listed_example : Listed reopened old_store n1
start_raft-Listed_example = start_raft-Listed false reopened old_store n1 reopens

-- The identity cannot be written.
abbrev refuses_identity : Op → Bool
refuses_identity persist_identity = true
refuses_identity make_dir = false
refuses_identity chmod_dir = false
refuses_identity open_store = false
refuses_identity chmod_store = false
refuses_identity open_snapshots = false
refuses_identity chmod_snapshots = false
refuses_identity check_snapshots = false
refuses_identity inspect_state = false
refuses_identity resolve_address = false
refuses_identity new_transport = false
refuses_identity new_raft = false
refuses_identity (bootstrap_cluster servers) = false
refuses_identity join_cluster = false
refuses_identity wait_for_configuration = false
refuses_identity publish = false
refuses_identity shutdown_raft = false
refuses_identity close_transport = false
refuses_identity close_store = false

abbrev read_only_store : Answers
read_only_store = record old_store {
  node_answers = record node_answers { fails = refuses_identity };
}

gives_up : start_raft false reopened read_only_store ≡ (
  failed,
  call make_dir true
      ∷ call chmod_dir true
      ∷ call open_store true
      ∷ call chmod_store true
      ∷ call open_snapshots true
      ∷ call chmod_snapshots true
      ∷ call check_snapshots true
      ∷ call inspect_state true
      ∷ call resolve_address true
      ∷ call new_transport true
      ∷ call new_raft true
      ∷ call persist_identity false
      ∷ call shutdown_raft true
      ∷ call close_transport true
      ∷ call close_store true
      ∷ [],
)
unfolding start_raft resolve_raft_identity Identity.discover_legacy_raft_ids get_raft_id
    get_raft_advertise_addr trim_space set_raft_id eq_bytes validate_persisted_raft_configuration
    validate_raft_startup_intent attempt and_then new_persistent_raft_stores raft_node_data_dir
    reject_unreadable_finalized_snapshots base has_byte init_raft_node init_raft_node_with_db
    normalize_raft_advertise_addr close close_stores
gives_up = refl

-- A start that fails, one that succeeds, one that is refused, and a shutdown.
abbrev history : List Action
history =
    start reopened read_only_store
    ∷ start reopened old_store
    ∷ start config new_store
    ∷ shutdown (λ op. false)
    ∷ []

lifecycle_held_example :
    left_held (all_held false) (lifecycle none history).1
    ≡ all_held (is_running (lifecycle none history).0)
lifecycle_held_example = lifecycle_held history
