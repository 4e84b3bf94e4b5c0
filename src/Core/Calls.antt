-- ===== src/Core/Calls.antt =====
-- The calls of src/core/raft.go and src/core/raft_storage.go that open, change or close something, as a
-- trace that a function returns beside its result.
pub mod Trace
use skiffdb.Prelude.{List, ◌∷◌, ◌++◌, Bool, true, false, not, if◌then◌else◌}
use skiffdb.Core.Membership.{Server}

pub data Op : Type 0 where
  make_dir chmod_dir open_store chmod_store open_snapshots chmod_snapshots check_snapshots : Op
  inspect_state resolve_address new_transport new_raft : Op
  bootstrap_cluster : List Server → Op
  join_cluster wait_for_configuration persist_identity publish : Op
  shutdown_raft close_transport close_store : Op

-- A call, and whether it returns without an error.
pub data Call : Type 0 where
  call : Op → Bool → Call

abbrev pub calls {ℓ} : {A : Type ℓ} → Call → A × List Call → A × List Call
calls c (x, rest) = (x, c ∷ rest)

-- One call, and what is done behind it without an error and with one.
unfoldable pub attempt {ℓ} :
    {A : Type ℓ} → Bool → Op → A × List Call → A × List Call → A × List Call
attempt done op next error = if done then calls (call op true) next else calls (call op false) error

unfoldable pub and_then {ℓ κ} :
    {A : Type ℓ} {B : Type κ} → A × List Call → (A → B × List Call) → B × List Call
and_then (x, before) next = ((next x).0, before ++ (next x).1)

-- A call whose error is only collected.
abbrev pub closing : (Op → Bool) → Op → Call
closing fails op = call op (not (fails op))
