-- ===== src/Examples/Process.antt =====
-- Examples of a process from its flags to its end.
use skiffdb.Prelude.{none, some, [], ◌∷◌, ◌≡◌, refl, true, false, codes, eq_bytes, if◌then◌else◌}
use skiffdb.Go.Strings.{trim_space}
use skiffdb.Go.Filepath.{base, has_byte}
use skiffdb.Core.Calls.{attempt, and_then}
use skiffdb.Core.Config.{Flags, init_db_config, get_raft_id, set_raft_id, get_raft_advertise_addr}
use skiffdb.Core.Identity.{resolve_raft_identity}
use skiffdb.Core.Identity
use skiffdb.Core.Storage.{raft_node_data_dir, reject_unreadable_finalized_snapshots}
use skiffdb.Core.Storage.Open.{new_persistent_raft_stores}
use skiffdb.Core.Node.{normalize_raft_advertise_addr, init_raft_node, init_raft_node_with_db}
use skiffdb.Core.Startup.{
  validate_persisted_raft_configuration, validate_raft_startup_intent, start_raft,
}
use skiffdb.Server.Main.{World, fatal_resp, main, connection, accept_failed, accept_loop}
use skiffdb.Examples.Start.{n1, old_store}

-- `--enable-raft --raft-addr " 10.0.0.1:7000 "`.
abbrev flags : Flags
flags = record {
  bools = λ name. if eq_bytes name (codes "enable-raft") then some true else none;
  strings =
      λ name. if eq_bytes name (codes "raft-addr") then some (codes " 10.0.0.1:7000 ") else none;
}

-- The address of the RESP server is taken.
abbrev taken : World
taken = record {
  answers = old_store;
  admin_listens = true;
  resp_listens = false;
  shutdown_fails = λ op. false;
}

ends_open : (main flags taken).0 ≡ fatal_resp (some n1)
unfolding main init_db_config start_raft resolve_raft_identity Identity.discover_legacy_raft_ids
    get_raft_id get_raft_advertise_addr trim_space set_raft_id eq_bytes
    validate_persisted_raft_configuration validate_raft_startup_intent attempt and_then
    new_persistent_raft_stores raft_node_data_dir reject_unreadable_finalized_snapshots base
    has_byte init_raft_node init_raft_node_with_db normalize_raft_advertise_addr
ends_open = refl

-- An error that is no end of the listener is passed over.
accepts :
    accept_loop
      (connection 1 ∷ accept_failed false ∷ connection 2 ∷ accept_failed true ∷ connection 3 ∷ [])
    ≡ 1 ∷ 2 ∷ []
unfolding accept_loop
accepts = refl
