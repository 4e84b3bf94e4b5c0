-- ===== src/Server/Admin/Joining.antt =====
-- A join from end to end: the joining node's reading of what the leader's admin service answers.
use skiffdb.Prelude.{
  ℕ, ◌+◌, Option, some, List, [], ◌∷◌, ◌≡◌, ◌≢◌, ◌⊎◌, inl, inr, refl, sym, ap, ◌∙◌, Bool, true,
  false, ◌||◌, if◌then◌else◌, Bytes, is_empty,
}
use skiffdb.Go.Map.{Map}
use skiffdb.Go.Strings.{trim_space}
use skiffdb.Proto.{proto_role_voter}
use skiffdb.Core.Config.{Config, get_raft_id}
use skiffdb.Core.Membership.{
  RaftApi, ClusterRole, role_voter, role_non_voter, role_unspecified, role_from_suffrage,
  ClusterMember, ClusterInfo, JoinError, Suffrage, voter, nonvoter, staging, other_suffrage, Server,
  MemberJoinProgress, Result, ok, err,
}
use skiffdb.Core.Membership
use skiffdb.Core.Membership.Report.{AllDescribed}
use skiffdb.Core.Membership.Join.{Node, join_node, join_cluster_with_progress}
use skiffdb.Core.Membership.Join.Reported.{Reported, join_node-Reported}
use skiffdb.Core.JoinClient.{Reply, request_failed, answered, joined, read_join_reply}
use skiffdb.Core.JoinClient.Voter.{HasVoter, own_result-joined}
use skiffdb.Server.Admin.{
  Answer, response, invalid_argument, internal, to_proto_role, to_proto_member, to_proto_members,
  to_proto_cluster, answer_join, answer_error, join_cluster_request,
}

-- What gRPC brings to the caller.
abbrev pub received : Answer → Reply
received (response code cluster) = answered code (some cluster)
received invalid_argument = request_failed
received (internal e) = request_failed

-- A server of this name that votes.
abbrev pub Votes : Bytes → List Server → Type 0
Votes id [] = ⊥
Votes id (s ∷ servers) = ((s.id ≡ id) × (s.suffrage ≡ voter)) ⊎ Votes id servers

role_voter_lem :
    (s : Suffrage) → to_proto_role (role_from_suffrage s) ≡ proto_role_voter → s ≡ voter
unfolding to_proto_role role_from_suffrage
role_voter_lem voter h = refl
role_voter_lem nonvoter h = cc
role_voter_lem staging h = cc
role_voter_lem (other_suffrage n) h = cc

HasVoter-Votes :
    (id : Bytes) (progress : Map MemberJoinProgress) (clock : ℕ → ℕ) (k : ℕ) (servers : List Server)
    (members : List ClusterMember)
    → AllDescribed progress clock k servers members
    → HasVoter id (to_proto_members members)
    → Votes id servers
unfolding to_proto_members to_proto_member
HasVoter-Votes id progress clock k [] [] d h = h
HasVoter-Votes id progress clock k [] (m ∷ members) d h = elim d [ ]
HasVoter-Votes id progress clock k (s ∷ servers) [] d h = elim h [ ]
HasVoter-Votes id progress clock k (s ∷ servers) (m ∷ members) (d, rest) (inl (same, role)) =
    inl (sym d.0 ∙ same, role_voter_lem s.suffrage (ap to_proto_role (sym d.2) ∙ role))
HasVoter-Votes id progress clock k (s ∷ servers) (m ∷ members) (d, rest) (inr h) =
    inr (HasVoter-Votes id progress clock (k + 1) servers members rest h)

error_received :
    (config : Config) (e : JoinError) → read_join_reply config (received (answer_error e)) ≢ joined
unfolding answer_error read_join_reply
error_received config (Membership.raft_not_enabled) h = cc
error_received config (Membership.not_leader addr) h = cc
error_received config (Membership.node_required) h = cc
error_received config (Membership.configuration_failed) h = cc
error_received config (Membership.add_failed) h = cc
error_received config (Membership.promote_failed) h = cc
error_received config (Membership.id_registered id addr) h = cc
error_received config (Membership.address_registered addr id) h = cc

module _ (R : RaftApi) (config : Config) where
  -- The leader's node after the request, and its configuration.
  abbrev pub IsVoter : Option (Node R) → Type 0
  IsVoter after =
      (n : Node R) × (servers : List Server) × (index : ℕ) × (after ≡ some n)
      × (R.get_configuration n.raft ≡ some (servers, index))
      × Votes (get_raft_id config) servers

  answered_lem :
      (r : Result ClusterInfo × Node R)
      → Reported R r
      → read_join_reply config (received (answer_join r.0)) ≡ joined
      → IsVoter (some r.1)
  unfolding answer_join read_join_reply to_proto_cluster
  answered_lem (err e, n) reported h = elim (error_received config e h) [ ]
  answered_lem (ok info, n) reported h =
      let a = reported.agrees info refl in
      (
        n,
        a.servers,
        a.index,
        refl,
        a.configured,
        HasVoter-Votes (get_raft_id config) a.progress a.clock a.k a.servers info.members
            a.described (own_result-joined (get_raft_id config) (to_proto_members info.members) h),
      )

  blank_lem :
      (b : Bool) (before : Option (Node R)) (x : Answer × Option (Node R))
      → (read_join_reply config (received x.0) ≡ joined → IsVoter x.1)
      → read_join_reply config (received (if b then (invalid_argument, before) else x).0) ≡ joined
      → IsVoter (if b then (invalid_argument, before) else x).1
  unfolding read_join_reply
  blank_lem true before x k h = cc
  blank_lem false before x k h = k h

  -- A node that asks a running node to admit it, and reads in the answer that it has joined, is a voter
  -- in the configuration that Raft has there once the request is done.
  pub join_cluster_request-IsVoter :
      (n : Node R) (addr : Bytes) (applied : ℕ) (clock : ℕ → ℕ)
      → read_join_reply config
          (received (join_cluster_request R (some n) (get_raft_id config) addr applied clock).0)
        ≡ joined
      → IsVoter (join_cluster_request R (some n) (get_raft_id config) addr applied clock).1
  unfolding join_cluster_request join_cluster_with_progress
  join_cluster_request-IsVoter n addr applied clock h =
      blank_lem (is_empty (trim_space (get_raft_id config)) || is_empty (trim_space addr)) (some n)
        _
        (answered_lem
          (join_node R n (trim_space (get_raft_id config)) (trim_space addr) applied clock)
          (join_node-Reported R n (trim_space (get_raft_id config)) (trim_space addr) applied
            clock))
        h
