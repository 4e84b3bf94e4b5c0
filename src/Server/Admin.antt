-- ===== src/Server/Admin.antt =====
-- src/server/raft_server.go: `JoinCluster` of the admin service.
pub mod Joining
pub mod Polling
use skiffdb.Prelude.{ℕ, Option, none, some, List, [], ◌∷◌, ◌||◌, if◌then◌else◌, Bytes, is_empty}
use skiffdb.Go.Strings.{trim_space}
use skiffdb.Proto.{
  ProtoRole, proto_role_unspecified, proto_role_voter, proto_role_non_voter, ProtoState,
  proto_state_unspecified, proto_joining, proto_catching_up, proto_voter, proto_failed, ProtoMember,
  ProtoCluster, Code, success, code_raft_not_enabled, code_not_leader, empty_cluster,
}
use skiffdb.Core.Membership.{
  RaftApi, ClusterRole, role_unspecified, role_voter, role_non_voter, ClusterMemberState,
  state_unspecified, joining, catching_up, voter_state, failed_state, ClusterMember, ClusterInfo,
  JoinError, raft_not_enabled, not_leader,
}
use skiffdb.Core.Membership
use skiffdb.Core.Membership.Join.{Node, join_cluster_with_progress}

-- The response, or the gRPC status of an error.
pub data Answer : Type 0 where
  response : Code → ProtoCluster → Answer
  invalid_argument : Answer
  internal : JoinError → Answer

unfoldable pub to_proto_role : ClusterRole → ProtoRole
to_proto_role role_voter = proto_role_voter
to_proto_role role_non_voter = proto_role_non_voter
to_proto_role role_unspecified = proto_role_unspecified

unfoldable pub to_proto_member_state : ClusterMemberState → ProtoState
to_proto_member_state joining = proto_joining
to_proto_member_state catching_up = proto_catching_up
to_proto_member_state voter_state = proto_voter
to_proto_member_state failed_state = proto_failed
to_proto_member_state state_unspecified = proto_state_unspecified

to_proto_member : ClusterMember → ProtoMember
to_proto_member m = record {
  node_id = m.node_id;
  addr = m.addr;
  role = to_proto_role m.role;
  state = to_proto_member_state m.state;
  applied_index = m.applied_index;
  target_index = m.target_index;
}

to_proto_members : List ClusterMember → List ProtoMember
unfolding to_proto_member
to_proto_members [] = []
to_proto_members (m ∷ members) = to_proto_member m ∷ to_proto_members members

unfoldable pub to_proto_cluster : Option ClusterInfo → ProtoCluster
unfolding to_proto_members
to_proto_cluster none = empty_cluster
to_proto_cluster (some info) = record {
  leader_id = info.leader_id;
  leader_addr = info.leader_addr;
  leader_admin_addr = info.leader_admin_addr;
  members = to_proto_members info.members;
}

answer_error : JoinError → Answer
answer_error raft_not_enabled = response code_raft_not_enabled (to_proto_cluster none)
answer_error (not_leader addr) =
    response code_not_leader (record empty_cluster { leader_admin_addr = addr })
answer_error (Membership.node_required) = internal Membership.node_required
answer_error (Membership.configuration_failed) = internal Membership.configuration_failed
answer_error (Membership.add_failed) = internal Membership.add_failed
answer_error (Membership.promote_failed) = internal Membership.promote_failed
answer_error (Membership.id_registered id addr) = internal (Membership.id_registered id addr)
answer_error (Membership.address_registered addr id) =
    internal (Membership.address_registered addr id)

answer_join : Membership.Result ClusterInfo → Answer
unfolding answer_error
answer_join (Membership.ok info) = response success (to_proto_cluster (some info))
answer_join (Membership.err e) = answer_error e

-- `JoinCluster`, with the fields of the request.
unfoldable pub join_cluster_request :
    (R : RaftApi) → Option (Node R) → Bytes → Bytes → ℕ → (ℕ → ℕ) → Answer × Option (Node R)
unfolding answer_join
join_cluster_request R node id addr applied clock =
    if is_empty (trim_space id) || is_empty (trim_space addr)
    then (invalid_argument, node)
    else (let (r, node') =
          join_cluster_with_progress R node (trim_space id) (trim_space addr) applied clock in
        (answer_join r, node'))
