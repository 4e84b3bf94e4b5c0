-- ===== src/Core/JoinClient.antt =====
-- src/core/raft.go, `joinCluster`: what a joining node makes of one answer, and of a failed attempt.
-- Core/JoinClient/Retrying has the attempts one behind the other.
use skiffdb.Prelude.{
  ℕ, Option, none, some, List, [], ◌∷◌, ◌≡◌, refl, Bool, true, false, not, if◌then◌else◌, Bytes,
  eq_bytes,
}
use skiffdb.Core.Config.{Config, get_raft_id, get_raft_advertise_addr}
use skiffdb.Proto.{
  ProtoRole, proto_role_unspecified, proto_role_voter, proto_role_non_voter, ProtoMember,
  ProtoCluster, Code, success, code_raft_not_enabled, code_not_leader, other_code,
}
pub mod Voter
pub mod Retrying

-- The connection, the request, or the answer.
pub data Reply : Type 0 where
  connect_failed request_failed : Reply
  answered : Code → Option ProtoCluster → Reply

-- nil, or the error of the attempt.
pub data Attempt : Type 0 where
  joined promotion_pending internal_error unrecoverable : Attempt
  not_leader_error : Bytes → Attempt

unfoldable pub role_result : ProtoRole → Attempt
role_result proto_role_voter = joined
role_result proto_role_non_voter = promotion_pending
role_result proto_role_unspecified = promotion_pending

unfoldable pub own_result : Bytes → List ProtoMember → Attempt
unfolding role_result
own_result id [] = internal_error
own_result id (m ∷ members) =
    if not (eq_bytes m.node_id id) then own_result id members else role_result m.role

unfoldable pub read_join_reply : Config → Reply → Attempt
unfolding own_result
read_join_reply config connect_failed = internal_error
read_join_reply config request_failed = internal_error
read_join_reply config (answered success none) = internal_error
read_join_reply config (answered success (some cluster)) =
    own_result (get_raft_id config) cluster.members
read_join_reply config (answered code_raft_not_enabled cluster) = unrecoverable
read_join_reply config (answered code_not_leader none) = internal_error
read_join_reply config (answered code_not_leader (some cluster)) =
    not_leader_error cluster.leader_admin_addr
read_join_reply config (answered (other_code n) cluster) = internal_error

-- `sendRequest`: one attempt. `connects` says whether the client is made, and `rpc` is the call of the
-- service, with the fields of the request.
unfoldable pub send_request {ℓ} :
    {W : Type ℓ} → Config → Bool → (W → Bytes → Bytes → ℕ → Reply × W) → W → ℕ → Attempt × W
unfolding read_join_reply
send_request config connects rpc w applied =
    if not connects
    then (internal_error, w)
    else (let (reply, w') = rpc w (get_raft_id config) (get_raft_advertise_addr config) applied in
        (read_join_reply config reply, w'))

-- The function given to `retry.OnRetry`.
unfoldable pub on_retry : Attempt → Config → Config
on_retry (not_leader_error addr) config = record config { join_addr = addr }
on_retry joined config = config
on_retry promotion_pending config = config
on_retry internal_error config = config
on_retry unrecoverable config = config
