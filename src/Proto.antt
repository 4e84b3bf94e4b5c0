-- ===== src/Proto.antt =====
-- proto/cluster/cluster.proto: the messages of the admin service, as the code sees them. An
-- enumeration of proto3 may hold a number without a name; only the code of a response is read so.
use skiffdb.Prelude.{ℕ, List, [], Bytes}

pub data ProtoRole : Type 0 where
  proto_role_unspecified proto_role_voter proto_role_non_voter : ProtoRole

pub data ProtoState : Type 0 where
  proto_state_unspecified proto_joining proto_catching_up proto_voter proto_failed : ProtoState

pub record ProtoMember : Type 0 where
  pub node_id : Bytes
  pub addr : Bytes
  pub role : ProtoRole
  pub state : ProtoState
  pub applied_index : ℕ
  pub target_index : ℕ

pub record ProtoCluster : Type 0 where
  pub leader_id : Bytes
  pub leader_addr : Bytes
  pub leader_admin_addr : Bytes
  pub members : List ProtoMember

pub data Code : Type 0 where
  success code_raft_not_enabled code_not_leader : Code
  other_code : ℕ → Code

abbrev pub empty_cluster : ProtoCluster
empty_cluster = record { leader_id = []; leader_addr = []; leader_admin_addr = []; members = [] }
