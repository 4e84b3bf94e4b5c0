-- ===== src/Examples/Joining.antt =====
-- Examples of a join from end to end, and of writing the identity.
use skiffdb.Core.Membership.{Server, Suffrage}
use skiffdb.Core.Membership.Join.{Node}
use skiffdb.Core.Membership.Join.Admission.{Adds, first_target}
use skiffdb.Server.Admin.Polling.{attempts-admitted}
use skiffdb.Prelude.{
  List, inl, Bytes, some, arith, some, [], ◌∷◌, ◌≡◌, refl, Bool, true, false, codes, eq_bytes,
}
use skiffdb.Go.Map.{lookup}
use skiffdb.Go.Strings.{trim_space}
use skiffdb.Proto.{ProtoCluster, proto_role_voter, proto_voter, success, empty_cluster}
use skiffdb.Core.Config.{Config, get_raft_advertise_addr, get_raft_id, get_data_dir}
use skiffdb.Go.Filepath.{base, has_byte}
use skiffdb.Core.Storage
use skiffdb.Core.Storage.{raft_node_data_dir}
use skiffdb.Core.Storage.Names.{IsName, raft_node_data_dir-IsName}
use skiffdb.Core.Identity.Persist.{Step, sync_root}
use skiffdb.Core.Identity.Persist.Atomic.{Atomic}
use skiffdb.Core.JoinClient.{answered, joined, read_join_reply, own_result}
use skiffdb.Core.Membership.{
  is_voter, record_join_progress, build_members, cluster_member_progress, role_from_suffrage,
  clear_join_progress,
}
use skiffdb.Core.Membership.Join.{
  find_member, join_node, build_cluster_info_for_node, join_cluster_with_progress,
}
use skiffdb.Core.Membership.Join.Reported.{Reported, join_node-Reported}
use skiffdb.Server.Admin.{join_cluster_request, to_proto_cluster, to_proto_role}
use skiffdb.Server.Admin.Joining.{received, IsVoter, join_cluster_request-IsVoter}
use skiffdb.Core.Membership.{voter, nonvoter}
use skiffdb.Core.Membership.Join.Waiting.{Nonvoter}
use skiffdb.Server.Admin.Polling.{Promotes, attempts}
use skiffdb.Core.JoinClient.{promotion_pending, joined}
use skiffdb.Examples.Member.{raft_api, node}

join_node-Reported_example :
    Reported raft_api (join_node raft_api node (codes "n2") (codes "10.0.0.2:7000") 9 (λ k. 300))
join_node-Reported_example =
    join_node-Reported raft_api node (codes "n2") (codes "10.0.0.2:7000") 9 (λ k. 300)

abbrev pub joiner : Config
joiner = record {
  enable_raft = true;
  bootstrap = false;
  raft_id = codes "n2";
  raft_addr = codes "10.0.0.2:7000";
  raft_advertise_addr = [];
  join_addr = codes "10.0.0.1:7100";
  data_dir = [];
  admin_addr = codes ":50051";
  listen_addr = codes ":6379";
  maxmemory = [];
  log_requests = true;
}

-- The cluster that the leader reports to a voter.
abbrev pub report : ProtoCluster
report = record empty_cluster {
  members =
      record {
        node_id = codes "n2";
        addr = codes "10.0.0.2:7000";
        role = proto_role_voter;
        state = proto_voter;
        applied_index = 0;
        target_index = 0;
      }
      ∷ [];
}

reads_joined : read_join_reply joiner (answered success (some report)) ≡ joined
unfolding read_join_reply own_result get_raft_id trim_space eq_bytes
reads_joined = refl

-- A node that has reported its target's entry asks again, and reads that it has joined.
joins :
    read_join_reply joiner (
      received
        (join_cluster_request raft_api
          (some node)
          (get_raft_id joiner)
          (codes "10.0.0.2:7000")
          9
          (λ k. 300)).0)
    ≡ joined
unfolding join_cluster_request join_cluster_with_progress join_node trim_space find_member eq_bytes
    is_voter record_join_progress lookup build_cluster_info_for_node build_members
    cluster_member_progress role_from_suffrage clear_join_progress to_proto_cluster to_proto_role
    read_join_reply own_result get_raft_id
joins = refl

join_cluster_request-IsVoter_example :
    IsVoter raft_api joiner
      (join_cluster_request raft_api
        (some node)
        (get_raft_id joiner)
        (codes "10.0.0.2:7000")
        9
        (λ k. 300)).1
join_cluster_request-IsVoter_example =
    join_cluster_request-IsVoter raft_api joiner node (codes "10.0.0.2:7000") 9 (λ k. 300) joins

-- Only the directory cannot be synced.
abbrev fails : Step → Bool
fails step = elim step [ sync_root ↦ true | _ ↦ false ]

abbrev rooted : Config
rooted = record joiner { raft_id = codes "/" }

-- The separator is taken for a name: the stores of this node lie among the directories of the others.
takes_root :
    raft_node_data_dir rooted ≡ Storage.ok (codes "/var/lib/skiffdb", codes "raft", codes "/")
unfolding raft_node_data_dir get_raft_id get_data_dir trim_space eq_bytes base has_byte
takes_root = refl

raft_node_data_dir-IsName_example : IsName (get_raft_id rooted)
raft_node_data_dir-IsName_example =
    raft_node_data_dir-IsName rooted (codes "/var/lib/skiffdb", codes "raft", codes "/") takes_root

abbrev n2_address : Bytes
n2_address = codes "10.0.0.2:7000"

abbrev alone : List Server
alone = record { suffrage = voter; id = codes "n1"; address = codes "10.0.0.1:7000" } ∷ []

abbrev with_n2 : Suffrage → List Server → List Server
with_n2 suffrage rest = record { suffrage = suffrage; id = codes "n2"; address = n2_address } ∷ rest

abbrev fresh_leader : Node raft_api
fresh_leader = record { raft = alone; progress = []; leader_admin_addr = [] }

n2-Adds :
    Adds raft_api alone
      (get_raft_id joiner)
      (get_raft_advertise_addr joiner)
      (with_n2 nonvoter alone)
      (with_n2 nonvoter alone)
unfolding get_raft_id get_raft_advertise_addr trim_space find_member eq_bytes
n2-Adds = record {
  leads = refl;
  id_trimmed = refl;
  addr_trimmed = refl;
  id_given = refl;
  addr_given = refl;
  old = alone;
  index = 3;
  configured = refl;
  absent = refl;
  added = 8;
  accepted = refl;
  next_index = 3;
  reconfigured = refl;
}

n2-Nonvoter :
    Nonvoter raft_api
      (with_n2 nonvoter alone)
      (get_raft_id joiner)
      (get_raft_advertise_addr joiner)
      (with_n2 nonvoter alone)
      3
unfolding get_raft_id get_raft_advertise_addr trim_space find_member eq_bytes is_voter
n2-Nonvoter = record {
  leads = refl;
  id_trimmed = refl;
  addr_trimmed = refl;
  id_given = refl;
  addr_given = refl;
  configured = refl;
  member = record { suffrage = nonvoter; id = codes "n2"; address = n2_address };
  found = refl;
  not_voter = refl;
}

n2-Promotes : Promotes raft_api joiner (with_n2 nonvoter alone) 3
unfolding get_raft_id get_raft_advertise_addr trim_space
n2-Promotes = record {
  added = 9;
  after = with_n2 voter (with_n2 nonvoter alone);
  promoted = refl;
  servers = with_n2 voter (with_n2 nonvoter alone);
  next_index = 3;
  configured = refl;
  member = record { suffrage = voter; id = codes "n2"; address = n2_address };
  first = inl (refl, refl);
  votes = refl;
}

-- The entry that adds the node is the eighth, and the leader has applied seven.
n2_target :
    first_target raft_api fresh_leader (get_raft_id joiner) n2-Adds.added (with_n2 nonvoter alone)
    ≡ 8
unfolding lookup n2-Adds
n2_target = refl

-- The first attempt, one below the target, and one at it.
attempts-admitted_example :
    (attempts raft_api joiner
      (some fresh_leader)
      ((0, λ k. 200) ∷ (5, λ k. 300) ∷ (8, λ k. 400) ∷ [])).0
    ≡ promotion_pending ∷ promotion_pending ∷ joined ∷ []
attempts-admitted_example =
    attempts-admitted raft_api joiner (with_n2 nonvoter alone) 3 fresh_leader
      (with_n2 nonvoter alone) 0 (λ k. 200) ((5, λ k. 300) ∷ []) 8 (λ k. 400) n2-Adds n2-Nonvoter
      n2-Promotes (omega (arith, n2_target), tt) (omega (arith, n2_target))
