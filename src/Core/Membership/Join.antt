-- ===== src/Core/Membership/Join.antt =====
-- src/core/raft.go: `validateJoiningMember`, `buildClusterInfoForNode` and `JoinClusterWithProgress`.
-- The mutexes make a request one step on the node.
pub mod Validation
pub mod Effects
pub mod Reported
pub mod First
pub mod Waiting
pub mod Admission
use skiffdb.Prelude.{
  ℕ, zero, suc, ◌+◌, max, Option, none, some, List, [], ◌∷◌, Bool, true, false, ◌&&◌, ◌||◌, not,
  ltb, if◌then◌else◌, Bytes, eq_bytes, is_empty,
}
use skiffdb.Go.Map.{Map}
use skiffdb.Go.Strings.{trim_space}
use skiffdb.Core.Membership.{
  ClusterMember, ClusterInfo, Suffrage, Server, MemberJoinProgress, RaftApi, JoinError,
  raft_not_enabled, node_required, configuration_failed, add_failed, promote_failed, not_leader,
  id_registered, address_registered, Result, ok, err, record_join_progress, clear_join_progress,
  is_voter, build_members,
}

-- The loop of `validateJoiningMember`.
unfoldable pub find_member : List Server → Bytes → Bytes → Result (Option Server)
find_member [] id addr = ok none
find_member (server ∷ servers) id addr =
    if eq_bytes server.id id && eq_bytes server.address addr
    then ok (some server)
    else if eq_bytes server.id id
    then err (id_registered id server.address)
    else if eq_bytes server.address addr
    then err (address_registered addr server.id)
    else find_member servers id addr

module _ (R : RaftApi) where
  -- A node that runs Raft.
  pub record Node : Type 0 where
    pub raft : R.State
    pub progress : Map MemberJoinProgress
    pub leader_admin_addr : Bytes

  info_of : Node → List ClusterMember → ClusterInfo
  info_of n members = record {
    leader_id = (R.leader_with_id n.raft).1;
    leader_addr = (R.leader_with_id n.raft).0;
    leader_admin_addr = n.leader_admin_addr;
    members = members;
  }

  report : Node → (ℕ → ℕ) → ℕ → Option (List Server × ℕ) → Result ClusterInfo × Node
  unfolding info_of
  report n clock k none = (err configuration_failed, n)
  report n clock k (some (servers, index)) =
      let (members, progress) = build_members (R.applied_index n.raft) clock k servers n.progress in
      (ok (info_of n members), record n { progress = progress })

  -- `buildClusterInfoForNode`, from the k-th reading of the clock on.
  unfoldable pub build_cluster_info_for_node : Node → (ℕ → ℕ) → ℕ → Result ClusterInfo × Node
  unfolding report
  build_cluster_info_for_node n clock k = report n clock k (R.get_configuration n.raft)

  -- `buildClusterInfo`.
  unfoldable pub build_cluster_info : Option Node → (ℕ → ℕ) → Result ClusterInfo × Option Node
  build_cluster_info none clock = (err raft_not_enabled, none)
  build_cluster_info (some n) clock =
      let (r, n') = build_cluster_info_for_node n clock 0 in (r, some n')

  -- The member is not in the configuration.
  after_add : Node → Bytes → ℕ → (ℕ → ℕ) → Option ℕ × R.State → Result ClusterInfo × Node
  after_add n id applied clock (none, raft) = (err add_failed, record n { raft = raft })
  after_add n id applied clock (some index, raft) =
      let now_applied = R.applied_index raft in
      let (p, progress) =
        record_join_progress now_applied id (max index now_applied) applied (clock 0) n.progress in
      build_cluster_info_for_node (record n { raft = raft; progress = progress }) clock 1

  -- The member is a non-voter that has reached its target.
  after_promote : Node → Bytes → (ℕ → ℕ) → Option ℕ × R.State → Result ClusterInfo × Node
  after_promote n id clock (none, raft) = (err promote_failed, record n { raft = raft })
  after_promote n id clock (some index, raft) =
      build_cluster_info_for_node
        (record n { raft = raft; progress = clear_join_progress id n.progress }) clock 1

  join_nonvoter : Node → Bytes → Bytes → ℕ → ℕ → (ℕ → ℕ) → Result ClusterInfo × Node
  unfolding after_promote
  join_nonvoter n id addr index applied clock =
      let (p, progress) =
        record_join_progress (R.applied_index n.raft) id 0 applied (clock 0) n.progress in
      let n' = record n { progress = progress } in
      if ltb applied p.target_index
      then build_cluster_info_for_node n' clock 1
      else after_promote n' id clock (R.add_voter id addr index n.raft)

  join_member : Node → Bytes → Bytes → ℕ → ℕ → (ℕ → ℕ) → Option Server → Result ClusterInfo × Node
  unfolding after_add join_nonvoter
  join_member n id addr index applied clock none =
      after_add n id applied clock (R.add_nonvoter id addr index n.raft)
  join_member n id addr index applied clock (some member) =
      if is_voter member.suffrage
      then build_cluster_info_for_node
          (record n { progress = clear_join_progress member.id n.progress }) clock 0
      else join_nonvoter n id addr index applied clock

  join_validated :
      Node → Bytes → Bytes → ℕ → ℕ → (ℕ → ℕ) → Result (Option Server) → Result ClusterInfo × Node
  unfolding join_member
  join_validated n id addr index applied clock (err e) = (err e, n)
  join_validated n id addr index applied clock (ok member) =
      join_member n id addr index applied clock member

  join_configured :
      Node → Bytes → Bytes → ℕ → (ℕ → ℕ) → Option (List Server × ℕ) → Result ClusterInfo × Node
  unfolding join_validated
  join_configured n id addr applied clock none = (err configuration_failed, n)
  join_configured n id addr applied clock (some (servers, index)) =
      join_validated n id addr index applied clock (find_member servers id addr)

  join_trimmed : Node → Bytes → Bytes → ℕ → (ℕ → ℕ) → Result ClusterInfo × Node
  unfolding join_configured
  join_trimmed n id addr applied clock =
      if is_empty id || is_empty addr
      then (err node_required, n)
      else join_configured n id addr applied clock (R.get_configuration n.raft)

  -- The request on a node that runs Raft.
  unfoldable pub join_node : Node → Bytes → Bytes → ℕ → (ℕ → ℕ) → Result ClusterInfo × Node
  unfolding join_trimmed
  join_node n id addr applied clock =
      if not (R.is_leader n.raft)
      then (err (not_leader n.leader_admin_addr), n)
      else join_trimmed n (trim_space id) (trim_space addr) applied clock

  -- `JoinClusterWithProgress`; `none` is a process without a Raft node.
  unfoldable pub join_cluster_with_progress :
      Option Node → Bytes → Bytes → ℕ → (ℕ → ℕ) → Result ClusterInfo × Option Node
  join_cluster_with_progress none id addr applied clock = (err raft_not_enabled, none)
  join_cluster_with_progress (some n) id addr applied clock =
      let (r, n') = join_node n id addr applied clock in (r, some n')

  -- `JoinCluster`.
  unfoldable pub join_cluster :
      Option Node → Bytes → Bytes → (ℕ → ℕ) → Result ClusterInfo × Option Node
  join_cluster node id addr clock = join_cluster_with_progress node id addr 0 clock
