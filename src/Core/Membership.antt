-- ===== src/Core/Membership.antt =====
-- src/core/raft.go: joining a cluster. `Node` is what a leader keeps of its members; Raft itself is the
-- parameter `RaftApi`.
pub mod Progress
pub mod Join
pub mod Report
use skiffdb.Prelude.{
  codes, ℕ, zero, suc, ◌+◌, ◌-◌, ◌*◌, ◌^◌, max, Option, none, some, List, [], ◌∷◌, ◌++◌, Bool, true,
  false, ◌&&◌, ◌||◌, not, ltb, leb, ◌==◌, if◌then◌else◌, Bytes, eq_bytes, is_empty,
}
use skiffdb.Go.Map.{Map, lookup, insert, delete}
use skiffdb.Go.Strings.{trim_space}

pub data ClusterRole : Type 0 where
  role_unspecified role_voter role_non_voter : ClusterRole

pub data ClusterMemberState : Type 0 where
  state_unspecified joining catching_up voter_state failed_state : ClusterMemberState

pub record ClusterMember : Type 0 where
  pub node_id : Bytes
  pub addr : Bytes
  pub role : ClusterRole
  pub state : ClusterMemberState
  pub applied_index : ℕ
  pub target_index : ℕ

pub record ClusterInfo : Type 0 where
  pub leader_id : Bytes
  pub leader_addr : Bytes
  pub leader_admin_addr : Bytes
  pub members : List ClusterMember

-- `raftpkg.ServerSuffrage`, a number with three names, and `raftpkg.Server`.
pub data Suffrage : Type 0 where
  voter nonvoter staging : Suffrage
  other_suffrage : ℕ → Suffrage

pub record Server : Type 0 where
  pub suffrage : Suffrage
  pub id : Bytes
  pub address : Bytes

unfoldable pub role_from_suffrage : Suffrage → ClusterRole
role_from_suffrage voter = role_voter
role_from_suffrage nonvoter = role_non_voter
role_from_suffrage staging = role_non_voter
role_from_suffrage (other_suffrage n) = role_unspecified

-- `memberJoinProgress`. Times are nanoseconds.
pub record MemberJoinProgress : Type 0 where
  pub target_index : ℕ
  pub applied_index : ℕ
  pub last_progress_at : ℕ

-- `raftJoinFailureTimeout`, 10 seconds.
abbrev pub raft_join_failure_timeout : ℕ
raft_join_failure_timeout = 10 * 10 ^ 9

-- The calls of HashiCorp Raft. A configuration comes with its index; `none` is an error.
pub record RaftApi : Type 1 where
  pub State : Type 0
  pub is_leader : State → Bool
  pub leader_with_id : State → Bytes × Bytes
  pub get_configuration : State → Option (List Server × ℕ)
  pub applied_index : State → ℕ
  pub add_nonvoter : Bytes → Bytes → ℕ → State → Option ℕ × State
  pub add_voter : Bytes → Bytes → ℕ → State → Option ℕ × State

pub data JoinError : Type 0 where
  raft_not_enabled node_required configuration_failed add_failed promote_failed : JoinError
  not_leader : Bytes → JoinError
  id_registered : Bytes → Bytes → JoinError
  address_registered : Bytes → Bytes → JoinError

-- `Error` of `NotLeaderError`; `none` is a nil pointer.
unfoldable pub not_leader_error : Option Bytes → Bytes
not_leader_error none = codes "not leader"
not_leader_error (some addr) =
    if is_empty addr
    then codes "not leader"
    else codes "not leader (adminAddr=" ++ (addr ++ codes ")")

pub data Result (A : Type 0) : Type 0 where
  ok : A → Result A
  err : JoinError → Result A

-- The part of `recordJoinProgress` behind the lookup.
advance : MemberJoinProgress → ℕ → ℕ → MemberJoinProgress
advance p applied now =
    if ltb p.applied_index applied
    then record p { applied_index = applied; last_progress_at = now }
    else p

new_progress : ℕ → ℕ → ℕ → MemberJoinProgress
new_progress raft_applied target now = record {
  target_index = if target == 0 then raft_applied else target;
  applied_index = 0;
  last_progress_at = now;
}

or_new : Option MemberJoinProgress → MemberJoinProgress → MemberJoinProgress
or_new none fresh = fresh
or_new (some p) fresh = p

-- `recordJoinProgress`: a copy of the entry, and the map. `raft_applied` is `raft.AppliedIndex()`.
unfoldable pub record_join_progress :
    ℕ → Bytes → ℕ → ℕ → ℕ → Map MemberJoinProgress → MemberJoinProgress × Map MemberJoinProgress
unfolding advance new_progress or_new
record_join_progress raft_applied id target applied now progress =
    let p =
      advance (or_new (lookup id progress) (new_progress raft_applied target now)) applied now in
    (p, insert id p progress)

unfoldable pub clear_join_progress : Bytes → Map MemberJoinProgress → Map MemberJoinProgress
clear_join_progress id progress = delete id progress

-- The state that `clusterMemberProgress` derives from the entry.
unfoldable pub progress_state : MemberJoinProgress → ℕ → ClusterMemberState
progress_state p now =
    if ltb p.applied_index p.target_index
      && leb raft_join_failure_timeout (now - p.last_progress_at)
    then failed_state
    else if ltb 0 p.applied_index
    then catching_up
    else joining

-- `clusterMemberProgress`, in the member that it is called for.
member_of : Server → ClusterMemberState → ℕ → ℕ → ClusterMember
member_of server state applied target = record {
  node_id = server.id;
  addr = server.address;
  role = role_from_suffrage server.suffrage;
  state = state;
  applied_index = applied;
  target_index = target;
}

unfoldable pub is_voter : Suffrage → Bool
is_voter voter = true
is_voter nonvoter = false
is_voter staging = false
is_voter (other_suffrage n) = false

unfoldable pub cluster_member_progress :
    ℕ → Server → ℕ → Map MemberJoinProgress → ClusterMember × Map MemberJoinProgress
unfolding member_of is_voter progress_state
cluster_member_progress raft_applied server now progress =
    if is_voter server.suffrage
    then (member_of server voter_state 0 0, progress)
    else (let (p, progress') = record_join_progress raft_applied server.id 0 0 now progress in
        (member_of server (progress_state p now) p.applied_index p.target_index, progress'))

-- The loop of `buildClusterInfoForNode`; `clock k` is what the k-th call of `time.Now()` returns.
unfoldable pub build_members :
    ℕ
    → (ℕ → ℕ)
    → ℕ
    → List Server
    → Map MemberJoinProgress
    → List ClusterMember × Map MemberJoinProgress
build_members raft_applied clock k [] progress = ([], progress)
build_members raft_applied clock k (server ∷ servers) progress =
    let (member, progress') = cluster_member_progress raft_applied server (clock k) progress in
    let (members, progress'') = build_members raft_applied clock (k + 1) servers progress' in
    (member ∷ members, progress'')
