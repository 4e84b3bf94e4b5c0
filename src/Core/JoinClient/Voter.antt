-- ===== src/Core/JoinClient/Voter.antt =====
-- A node takes itself for joined only as a voter.
use skiffdb.Prelude.{
  none, some, List, [], ◌∷◌, ◌≡◌, ◌⊎◌, inl, inr, refl, Bool, true, false, not, if◌then◌else◌, Bytes,
  eq_bytes, eq_bytes_iff,
}
use skiffdb.Core.Config.{Config, get_raft_id}
use skiffdb.Proto.{
  ProtoRole, proto_role_voter, proto_role_unspecified, proto_role_non_voter, ProtoMember,
  ProtoCluster, success, code_raft_not_enabled, code_not_leader, other_code,
}
use skiffdb.Core.JoinClient.{
  Reply, connect_failed, request_failed, answered, joined, own_result, role_result, read_join_reply,
}

-- A member of this name, with the role of a voter.
abbrev pub HasVoter : Bytes → List ProtoMember → Type 0
HasVoter id [] = ⊥
HasVoter id (m ∷ members) = ((m.node_id ≡ id) × (m.role ≡ proto_role_voter)) ⊎ HasVoter id members

role_result-joined : (role : ProtoRole) → role_result role ≡ joined → role ≡ proto_role_voter
unfolding role_result
role_result-joined proto_role_voter h = refl
role_result-joined proto_role_non_voter h = cc
role_result-joined proto_role_unspecified h = cc

member_joined :
    (id : Bytes) (m : ProtoMember) (members : List ProtoMember) (same : Bool)
    → eq_bytes m.node_id id ≡ same
    → (own_result id members ≡ joined → HasVoter id members)
    → (if not same then own_result id members else role_result m.role) ≡ joined
    → HasVoter id (m ∷ members)
member_joined id m members true e rest h =
    inl ((eq_bytes_iff m.node_id id).0 e, role_result-joined m.role h)
member_joined id m members false e rest h = inr (rest h)

pub own_result-joined :
    (id : Bytes) (members : List ProtoMember) → own_result id members ≡ joined → HasVoter id members
unfolding own_result
own_result-joined id [] h = cc
own_result-joined id (m ∷ members) h =
    member_joined id m members (eq_bytes m.node_id id) refl (own_result-joined id members) h

-- An attempt to join succeeds only on an answer of success in which this node's identity stands with
-- the role of a voter. What a node that does not lead, or has no Raft, answers never counts as success.
pub read_join_reply-HasVoter :
    (config : Config) (reply : Reply)
    → read_join_reply config reply ≡ joined
    → (cluster : ProtoCluster) × (reply ≡ answered success (some cluster))
      × HasVoter (get_raft_id config) cluster.members
unfolding read_join_reply
read_join_reply-HasVoter config connect_failed h = cc
read_join_reply-HasVoter config request_failed h = cc
read_join_reply-HasVoter config (answered success none) h = cc
read_join_reply-HasVoter config (answered success (some cluster)) h =
    (cluster, refl, own_result-joined (get_raft_id config) cluster.members h)
read_join_reply-HasVoter config (answered code_raft_not_enabled cluster) h = cc
read_join_reply-HasVoter config (answered code_not_leader none) h = cc
read_join_reply-HasVoter config (answered code_not_leader (some cluster)) h = cc
read_join_reply-HasVoter config (answered (other_code n) cluster) h = cc
