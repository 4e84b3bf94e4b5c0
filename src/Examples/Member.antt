-- ===== src/Examples/Member.antt =====
-- Examples of membership and of a start.
use skiffdb.Prelude.{ℕ, none, some, List, [], ◌∷◌, ◌≡◌, refl, true, codes, eq_bytes, if◌then◌else◌}
use skiffdb.Go.Map.{Map, lookup}
use skiffdb.Go.Strings.{trim_space}
use skiffdb.Core.Config.{Config, get_raft_id, set_raft_id}
use skiffdb.Core.Identity.{
  holds, RaftIdentity, IdentityFile, missing, holds, RaftDirectory, entries, no_directory, found,
  resolve_raft_identity, raft_identity_format,
}
use skiffdb.Core.Identity
use skiffdb.Core.Identity.Resolve.{Resolved, resolve_raft_identity_lem}
use skiffdb.Core.Membership.{
  Server, is_voter, voter, nonvoter, MemberJoinProgress, record_join_progress, RaftApi,
}
use skiffdb.Core.Membership.Progress.{Recorded, record_join_progress_lem}
use skiffdb.Core.Membership.Join.{Node, find_member, join_node, build_cluster_info_for_node}
use skiffdb.Core.Membership.Join.Effects.{Effect, join_node-Effect}

abbrev pub behind : MemberJoinProgress
behind = record { target_index = 9; applied_index = 4; last_progress_at = 100 }

abbrev pub progress : Map MemberJoinProgress
progress = (codes "n2", behind) ∷ []

record_join_progress_lem_example :
    (let (p, after) = record_join_progress 7 (codes "n2") 0 6 200 progress in
      Recorded (lookup (codes "n2") progress) 7 0 6 200 p
      × (lookup (codes "n3") after
          ≡ (if eq_bytes (codes "n2") (codes "n3") then some p else lookup (codes "n3") progress)))
record_join_progress_lem_example =
    record_join_progress_lem 7 (codes "n2") 0 6 200 progress (codes "n3")

abbrev now : ℕ
now = 10000000100

abbrev pub servers : List Server
servers =
    record { suffrage = voter; id = codes "n1"; address = codes "10.0.0.1:7000" }
    ∷ record { suffrage = nonvoter; id = codes "n2"; address = codes "10.0.0.2:7000" }
    ∷ []

-- Raft as a list of servers, whose calls succeed.
abbrev pub raft_api : RaftApi
raft_api = record {
  State = List Server;
  is_leader = λ s. true;
  leader_with_id = λ s. (codes "10.0.0.1:7000", codes "n1");
  get_configuration = λ s. some (s, 3);
  applied_index = λ s. 7;
  add_nonvoter =
      λ id addr index s. (some 8, record { suffrage = nonvoter; id = id; address = addr } ∷ s);
  add_voter = λ id addr index s. (some 9, record { suffrage = voter; id = id; address = addr } ∷ s);
}

abbrev pub node : Node raft_api
node = record { raft = servers; progress = progress; leader_admin_addr = [] }

join_node-Effect_example :
    Effect raft_api node
      (trim_space (codes " n2"))
      (trim_space (codes "10.0.0.2:7000"))
      9
      (join_node raft_api node (codes " n2") (codes "10.0.0.2:7000") 9 (λ k. 300)).1.raft
join_node-Effect_example =
    join_node-Effect raft_api node (codes " n2") (codes "10.0.0.2:7000") 9 (λ k. 300)

-- A node that has been added and has reported its target's entry is made a voter.
promotes :
    (join_node raft_api node (codes " n2") (codes "10.0.0.2:7000") 9 (λ k. 300)).1.raft
    ≡ record { suffrage = voter; id = codes "n2"; address = codes "10.0.0.2:7000" } ∷ servers
unfolding join_node trim_space find_member eq_bytes is_voter record_join_progress lookup
    build_cluster_info_for_node
promotes = refl

abbrev pub config : Config
config = record {
  enable_raft = true;
  bootstrap = true;
  raft_id = [];
  raft_addr = codes "10.0.0.1:7000";
  raft_advertise_addr = [];
  join_addr = [];
  data_dir = [];
  admin_addr = codes ":50051";
  listen_addr = codes ":6379";
  maxmemory = [];
  log_requests = true;
}

abbrev pub stores : RaftDirectory
stores = entries (record { name = codes "n1"; is_dir = true; raft_db = found } ∷ [])

adopts :
    resolve_raft_identity config missing stores
    ≡ Identity.ok (none, record config { raft_id = codes "n1" })
unfolding resolve_raft_identity Identity.discover_legacy_raft_ids get_raft_id trim_space set_raft_id
adopts = refl

resolve_raft_identity_lem_example :
    Resolved config missing stores none (record config { raft_id = codes "n1" })
resolve_raft_identity_lem_example =
    resolve_raft_identity_lem config (record config { raft_id = codes "n1" }) missing stores none
      adopts
