-- ===== src/Core/Config.antt =====
-- src/core/config.go: the settings of a process, and how they are read.
use skiffdb.Prelude.{
  Option, none, some, true, false, String, Bool, Bytes, codes, is_empty, if◌then◌else◌,
}
use skiffdb.Go.Strings.{trim_space}

pub record Config : Type 0 where
  pub enable_raft : Bool
  pub bootstrap : Bool
  pub raft_id : Bytes
  pub raft_addr : Bytes
  pub raft_advertise_addr : Bytes
  pub join_addr : Bytes
  pub data_dir : Bytes
  pub admin_addr : Bytes
  pub listen_addr : Bytes
  pub maxmemory : Bytes
  pub log_requests : Bool

-- What the command line sets, by the name of the flag; `flag.Parse` is the standard library's.
pub record Flags : Type 0 where
  pub bools : Bytes → Option Bool
  pub strings : Bytes → Option Bytes

abbrev pub or_default {ℓ} : {A : Type ℓ} → Option A → A → A
or_default none value = value
or_default (some given) value = given

bool_flag : Flags → String → Bool → Bool
bool_flag flags name value = or_default (flags.bools (codes name)) value

string_flag : Flags → String → String → Bytes
string_flag flags name value = trim_space (or_default (flags.strings (codes name)) (codes value))

-- `InitDBConfig`: the configuration that it stores in `DBConfig`.
unfoldable pub init_db_config : Flags → Config
unfolding bool_flag string_flag
init_db_config flags = record {
  enable_raft = bool_flag flags "enable-raft" false;
  bootstrap = bool_flag flags "bootstrap" false;
  raft_id = string_flag flags "raft-id" "";
  raft_addr = string_flag flags "raft-addr" ":7000";
  raft_advertise_addr = string_flag flags "raft-advertise-addr" "";
  join_addr = string_flag flags "join" "";
  data_dir = string_flag flags "data-dir" "";
  admin_addr = string_flag flags "admin-addr" ":50051";
  listen_addr = string_flag flags "addr" ":6379";
  maxmemory = string_flag flags "maxmemory" "";
  log_requests = bool_flag flags "log-requests" true;
}

unfoldable pub get_data_dir : Config → Bytes
get_data_dir config = if is_empty config.data_dir then codes "/var/lib/skiffdb" else config.data_dir

unfoldable pub get_raft_id : Config → Bytes
get_raft_id config = trim_space config.raft_id

unfoldable pub set_raft_id : Bytes → Config → Config
set_raft_id node_id config = record config { raft_id = trim_space node_id }

unfoldable pub get_raft_advertise_addr : Config → Bytes
get_raft_advertise_addr config =
    if is_empty (trim_space config.raft_advertise_addr)
    then trim_space config.raft_addr
    else trim_space config.raft_advertise_addr
