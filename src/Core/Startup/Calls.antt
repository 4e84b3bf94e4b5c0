-- ===== src/Core/Startup/Calls.antt =====
-- What the calls of a start are allowed to do.
use skiffdb.Prelude.{some, List, [], ◌∷◌, ◌≡◌, Bool, true, false, Bytes}
use skiffdb.Core.Membership.{Server, voter}
use skiffdb.Core.Identity.{missing}
use skiffdb.Core.Calls.{
  make_dir, chmod_dir, open_store, chmod_store, open_snapshots, chmod_snapshots, check_snapshots,
  inspect_state, resolve_address, new_transport, new_raft, bootstrap_cluster, join_cluster,
  wait_for_configuration, persist_identity, publish, shutdown_raft, close_transport, close_store,
  Call, call,
}
use skiffdb.Core.Calls.Trace.{FreeOfPlain}
use skiffdb.Core.Startup.{Answers, Outcome, ignored, started, failed}

abbrev pub is_started : Outcome → Bool
is_started ignored = false
is_started (started node) = true
is_started failed = false

-- The cluster has one member, a voter.
abbrev pub OneVoter : List Server → Type 0
OneVoter servers =
    (id addr : Bytes) × (servers ≡ record { suffrage = voter; id = id; address = addr } ∷ [])

abbrev pub Allowed : Bool → Answers → Call → Type 0
Allowed bootstrap a (call (bootstrap_cluster servers) ok) =
    (bootstrap ≡ true) × (a.configuration ≡ some []) × OneVoter servers
Allowed bootstrap a (call join_cluster ok) = (bootstrap ≡ false) × (a.configuration ≡ some [])
Allowed bootstrap a (call persist_identity ok) = a.identity_file ≡ missing
Allowed bootstrap a (call open_store ok) = Unit
Allowed bootstrap a (call new_transport ok) = Unit
Allowed bootstrap a (call new_raft ok) = Unit
Allowed bootstrap a (call close_store ok) = Unit
Allowed bootstrap a (call close_transport ok) = Unit
Allowed bootstrap a (call shutdown_raft ok) = Unit
Allowed bootstrap a (call make_dir ok) = Unit
Allowed bootstrap a (call chmod_dir ok) = Unit
Allowed bootstrap a (call chmod_store ok) = Unit
Allowed bootstrap a (call open_snapshots ok) = Unit
Allowed bootstrap a (call chmod_snapshots ok) = Unit
Allowed bootstrap a (call check_snapshots ok) = Unit
Allowed bootstrap a (call inspect_state ok) = Unit
Allowed bootstrap a (call resolve_address ok) = Unit
Allowed bootstrap a (call wait_for_configuration ok) = Unit
Allowed bootstrap a (call publish ok) = Unit

pub Allowed-FreeOfPlain : (bootstrap : Bool) (a : Answers) → FreeOfPlain (Allowed bootstrap a)
Allowed-FreeOfPlain bootstrap a make_dir ok h = tt
Allowed-FreeOfPlain bootstrap a chmod_dir ok h = tt
Allowed-FreeOfPlain bootstrap a open_store ok h = tt
Allowed-FreeOfPlain bootstrap a chmod_store ok h = tt
Allowed-FreeOfPlain bootstrap a open_snapshots ok h = tt
Allowed-FreeOfPlain bootstrap a chmod_snapshots ok h = tt
Allowed-FreeOfPlain bootstrap a check_snapshots ok h = tt
Allowed-FreeOfPlain bootstrap a inspect_state ok h = tt
Allowed-FreeOfPlain bootstrap a resolve_address ok h = tt
Allowed-FreeOfPlain bootstrap a new_transport ok h = tt
Allowed-FreeOfPlain bootstrap a new_raft ok h = tt
Allowed-FreeOfPlain bootstrap a wait_for_configuration ok h = tt
Allowed-FreeOfPlain bootstrap a publish ok h = tt
Allowed-FreeOfPlain bootstrap a shutdown_raft ok h = tt
Allowed-FreeOfPlain bootstrap a close_transport ok h = tt
Allowed-FreeOfPlain bootstrap a close_store ok h = tt
Allowed-FreeOfPlain bootstrap a (bootstrap_cluster servers) ok h = cc
Allowed-FreeOfPlain bootstrap a join_cluster ok h = cc
Allowed-FreeOfPlain bootstrap a persist_identity ok h = cc
