-- ===== src/Core/Startup/Restart.antt =====
-- Starting again, without `--bootstrap` and `--join`, a node whose identity has been written.
use skiffdb.Core.Storage.Open.{persistent_stores}
use skiffdb.Prelude.{true, false, []}
use skiffdb.Prelude.{none, some, [], ◌≡◌, ◌⊎◌, true, false, Bytes, is_empty, if◌then◌else◌, ◌==◌}
use skiffdb.Go.Strings.{trim_space}
use skiffdb.Core.Calls.{Op}
use skiffdb.Core.Config.{Config, get_raft_id, set_raft_id, get_raft_advertise_addr}
use skiffdb.Core.Identity.{holds, new_identity}
use skiffdb.Core.Storage.{raft_node_data_dir, reject_unreadable_finalized_snapshots}
use skiffdb.Core.Storage
use skiffdb.Core.Storage.Open.{persistent_stores}
use skiffdb.Core.Node.{RaftNode, TcpAddr, new_node, normalize_raft_advertise_addr}
use skiffdb.Core.Startup.{Answers, validate_persisted_raft_configuration}

-- The configuration, with the identity that the file holds, and then with an advertised address.
abbrev pub with_addr : Config → Config → Bytes → Config
with_addr old config addr = record (set_raft_id (get_raft_id old) config) {
  raft_advertise_addr = addr;
}

-- The file holds the identity of an earlier start, of this configuration and transport address, and the
-- flags ask for nothing else; all calls succeed, the addresses resolve to a transport at the same
-- address, and the store's configuration lists the node under it.
pub record Reopens (old config : Config) (addr : Bytes) (a : Answers) : Type 0 where
  pub enabled : config.enable_raft ≡ true
  pub not_bootstrap : config.bootstrap ≡ false
  pub not_join : is_empty (trim_space config.join_addr) ≡ true
  pub file : a.identity_file ≡ holds (new_identity old addr)
  pub named : is_empty (trim_space (get_raft_id old)) ≡ false
  pub addressed : is_empty (trim_space (trim_space addr)) ≡ false
  pub addr_given : is_empty (trim_space addr) ≡ false
  pub given : (get_raft_id config ≡ []) ⊎ (get_raft_id config ≡ get_raft_id old)
  pub none_fails : (op : Op) → a.node_answers.fails op ≡ false
  pub normal : Bytes
  pub normalizes :
      normalize_raft_advertise_addr a.node_answers.resolve
        (get_raft_advertise_addr (set_raft_id (get_raft_id old) config))
      ≡ some normal
  pub dir : Bytes × Bytes × Bytes
  pub has_dir : raft_node_data_dir (with_addr old config normal) ≡ Storage.ok dir
  pub readable : reject_unreadable_finalized_snapshots a.snapshots a.snapshot_entries ≡ none
  pub tcp : TcpAddr
  pub resolves :
      a.node_answers.resolve (get_raft_advertise_addr (with_addr old config normal)) ≡ some tcp
  pub listens :
      a.node_answers.listen config.raft_addr (if tcp.port == 0 then none else some tcp) ≡ some addr
  pub listed :
      validate_persisted_raft_configuration a.configuration (with_addr old config addr) ≡ some true

abbrev pub reopened_node : Config → Config → Bytes → Answers → RaftNode
reopened_node old config addr a =
    new_node (get_raft_id (set_raft_id (get_raft_id old) config)) addr (some persistent_stores)
      a.node_answers.existing_state
