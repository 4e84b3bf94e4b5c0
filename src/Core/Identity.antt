-- ===== src/Core/Identity.antt =====
-- src/core/raft_identity.go: which Raft node a data directory belongs to. What the file system and the
-- JSON decoder return is a value of `IdentityFile` and `RaftDirectory`.
use skiffdb.Prelude.{
  ℕ, Option, none, some, List, [], ◌∷◌, Bool, true, false, ◌&&◌, ◌||◌, not, ◌==◌, if◌then◌else◌,
  Bytes, codes, eq_bytes, is_empty,
}
use skiffdb.Go.Strings.{trim_space}
use skiffdb.Core.Config.{Config, get_raft_id, set_raft_id}
pub mod Resolve
pub mod Persist

pub record RaftIdentity : Type 0 where
  pub format : Bytes
  pub version : ℕ
  pub node_id : Bytes
  pub advertise_addr : Bytes

pub data IdentityError : Type 0 where
  id_required identity_unreadable identity_undecodable trailing_value : IdentityError
  unsupported_format identity_incomplete directory_unreadable : IdentityError
  id_ambiguous : List Bytes → IdentityError
  conflicts_with_store : Bytes → List Bytes → IdentityError
  conflicts_with_identity : Bytes → Bytes → IdentityError
  store_uninspectable : Bytes → IdentityError

pub data Result (A : Type 0) : Type 0 where
  ok : A → Result A
  err : IdentityError → Result A

-- `os.Open` of the identity's path, the first value in the file, and what follows it.
pub data IdentityFile : Type 0 where
  missing unreadable undecodable followed : IdentityFile
  holds : RaftIdentity → IdentityFile

-- `os.Stat` of `raft.db` in an entry of the directory.
pub data Stat : Type 0 where
  found not_found stat_failed : Stat

pub record DirEntry : Type 0 where
  pub name : Bytes
  pub is_dir : Bool
  pub raft_db : Stat

pub data RaftDirectory : Type 0 where
  no_directory directory_failed : RaftDirectory
  entries : List DirEntry → RaftDirectory

abbrev pub raft_identity_format : Bytes
raft_identity_format = codes "skiffdb-raft-node"

abbrev pub raft_identity_version : ℕ
raft_identity_version = 1

-- The identity that `persistRaftIdentity` writes.
unfoldable pub new_identity : Config → Bytes → RaftIdentity
new_identity config advertised_address = record {
  format = raft_identity_format;
  version = raft_identity_version;
  node_id = get_raft_id config;
  advertise_addr = trim_space advertised_address;
}

candidate : DirEntry → Stat → Result (List Bytes) → Result (List Bytes)
candidate entry found (ok rest) = ok (entry.name ∷ rest)
candidate entry found (err e) = err e
candidate entry not_found rest = rest
candidate entry stat_failed rest = err (store_uninspectable entry.name)

scan : List DirEntry → Result (List Bytes)
unfolding candidate
scan [] = ok []
scan (entry ∷ rest) =
    let candidates = scan rest in
    if not entry.is_dir then candidates else candidate entry entry.raft_db candidates

unfoldable pub discover_legacy_raft_ids : RaftDirectory → Result (List Bytes)
unfolding scan
discover_legacy_raft_ids no_directory = ok []
discover_legacy_raft_ids directory_failed = err directory_unreadable
discover_legacy_raft_ids (entries list) = scan list

unfoldable pub contains_string : List Bytes → Bytes → Bool
contains_string [] wanted = false
contains_string (value ∷ values) wanted =
    if eq_bytes value wanted then true else contains_string values wanted

-- No identity is persisted: the configuration gets the only store's identity where it names none.
adopt : Config → List Bytes → Result Config
adopt config [] = err id_required
adopt config (id ∷ []) = ok (set_raft_id id config)
adopt config (id ∷ id' ∷ ids) = err (id_ambiguous (id ∷ id' ∷ ids))

from_stores : Config → Result (List Bytes) → Result Config
unfolding adopt
from_stores config (err e) = err e
from_stores config (ok ids) =
    if is_empty (get_raft_id config)
    then adopt config ids
    else if not (is_empty ids) && not (contains_string ids (get_raft_id config))
    then err (conflicts_with_store (get_raft_id config) ids)
    else ok config

check_identity : Config → RaftIdentity → Result Config
check_identity config identity =
    if not (eq_bytes identity.format raft_identity_format)
      || not (identity.version == raft_identity_version)
    then err unsupported_format
    else if is_empty (trim_space identity.node_id) || is_empty (trim_space identity.advertise_addr)
    then err identity_incomplete
    else if not (is_empty (get_raft_id config))
        && not (eq_bytes (get_raft_id config) identity.node_id)
    then err (conflicts_with_identity (get_raft_id config) identity.node_id)
    else ok (set_raft_id identity.node_id config)

with_identity : Option RaftIdentity → Result Config → Result (Option RaftIdentity × Config)
with_identity identity (ok config) = ok (identity, config)
with_identity identity (err e) = err e

-- `resolveRaftIdentity`: the identity, when one is persisted, and the configuration as it is left.
unfoldable pub resolve_raft_identity :
    Config → IdentityFile → RaftDirectory → Result (Option RaftIdentity × Config)
unfolding from_stores check_identity with_identity
resolve_raft_identity config missing dir =
    with_identity none (from_stores config (discover_legacy_raft_ids dir))
resolve_raft_identity config unreadable dir = err identity_unreadable
resolve_raft_identity config undecodable dir = err identity_undecodable
resolve_raft_identity config followed dir = err trailing_value
resolve_raft_identity config (holds identity) dir =
    with_identity (some identity) (check_identity config identity)
