-- ===== src/Core/Storage/Names.antt =====
-- Which identities name a directory of their own.
use skiffdb.Prelude.{
  ◌≡◌, ◌⊎◌, refl, subst, Bool, true, false, ◌||◌, not, Bytes, codes, eq_bytes, eq_bytes_iff,
  is_empty, if◌then◌else◌,
}
use skiffdb.Go.Filepath.{base, has_byte, base-has_byte}
use skiffdb.Core.Config.{Config, get_raft_id}
use skiffdb.Core.Storage.{id_required, invalid_id, ok, err, raft_node_data_dir}

-- A name of one directory, or the root's name.
pub record IsName (id : Bytes) : Type 0 where
  pub given : is_empty id ≡ false
  pub not_dot : eq_bytes id (codes ".") ≡ false
  pub not_dots : eq_bytes id (codes "..") ≡ false
  pub no_backslash : has_byte b'\\' id ≡ false
  pub no_slash : (id ≡ codes "/") ⊎ (has_byte b'/' id ≡ false)

own_base : (id : Bytes) → base id ≡ id → (id ≡ codes "/") ⊎ (has_byte b'/' id ≡ false)
own_base id e = subst (λ s. (s ≡ codes "/") ⊎ (has_byte b'/' s ≡ false)) e (base-has_byte id)

tests_lem :
    (id : Bytes) (x dir : Bytes × Bytes × Bytes) (empty dot dots same back : Bool)
    → is_empty id ≡ empty
    → eq_bytes id (codes ".") ≡ dot
    → eq_bytes id (codes "..") ≡ dots
    → eq_bytes (base id) id ≡ same
    → has_byte b'\\' id ≡ back
    → (if empty
        then err id_required
        else if dot || dots || not same || back
        then err (invalid_id id)
        else ok x)
      ≡ ok dir
    → IsName id
tests_lem id x dir true dot dots same back e d dd s k h = cc
tests_lem id x dir false true dots same back e d dd s k h = cc
tests_lem id x dir false false true same back e d dd s k h = cc
tests_lem id x dir false false false false back e d dd s k h = cc
tests_lem id x dir false false false true true e d dd s k h = cc
tests_lem id x dir false false false true false e d dd s k h = record {
  given = e;
  not_dot = d;
  not_dots = dd;
  no_backslash = k;
  no_slash = own_base id ((eq_bytes_iff (base id) id).0 s);
}

-- A start whose stores get a directory has an identity that is not empty, no dot or two, and without
-- separators, or it is the single separator `/`.
pub raft_node_data_dir-IsName :
    (config : Config) (dir : Bytes × Bytes × Bytes)
    → raft_node_data_dir config ≡ ok dir
    → IsName (get_raft_id config)
unfolding raft_node_data_dir
raft_node_data_dir-IsName config dir h =
    tests_lem (get_raft_id config) _ dir _ _ _ _ _ refl refl refl refl refl h
