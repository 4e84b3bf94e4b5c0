-- ===== src/Core/Identity/Resolve.antt =====
-- What a start may rely on once the identity is resolved.
use skiffdb.Prelude.{
  Option, none, some, List, [], ◌∷◌, ◌≡◌, ◌⊎◌, inl, inr, refl, subst, sym, Bool, true, false, ◌&&◌,
  not, if◌then◌else◌, Bytes, eq_bytes, eq_bytes_iff, is_empty,
}
use skiffdb.Core.Config.{Config, get_raft_id, set_raft_id}
use skiffdb.Core.Identity.{
  RaftIdentity, Result, ok, err, IdentityFile, missing, unreadable, undecodable, followed, holds,
  RaftDirectory, discover_legacy_raft_ids, contains_string, resolve_raft_identity,
  conflicts_with_store, conflicts_with_identity, unsupported_format, identity_incomplete,
  check_identity, with_identity, from_stores, adopt,
}

-- The configuration names the identity that is persisted, or none is and it names the only store, or one
-- of the stores, or there are no stores.
abbrev pub Resolved : Config → IdentityFile → RaftDirectory → Option RaftIdentity → Config → Type 0
Resolved config file dir (some identity) config' =
    (file ≡ holds identity)
    × (config' ≡ set_raft_id identity.node_id config)
    × ((get_raft_id config ≡ []) ⊎ (get_raft_id config ≡ identity.node_id))
Resolved config file dir none config' =
    (file ≡ missing)
    × ((ids : List Bytes) × (discover_legacy_raft_ids dir ≡ ok ids)
        × (((id : Bytes) × (ids ≡ id ∷ [])
              × (get_raft_id config ≡ [])
              × (config' ≡ set_raft_id id config))
            ⊎ ((config' ≡ config)
                × ((ids ≡ []) ⊎ (contains_string ids (get_raft_id config) ≡ true)))))

is_empty_nil : (s : Bytes) → is_empty s ≡ true → s ≡ []
is_empty_nil [] h = refl
is_empty_nil (c ∷ s) h = cc

-- The tests of `from_stores`, with their results as arguments.
tests_lem :
    (config config' : Config) (ids : List Bytes) (empty known : Bool)
    → is_empty (get_raft_id config) ≡ empty
    → contains_string ids (get_raft_id config) ≡ known
    → (if empty
        then adopt config ids
        else if not (is_empty ids) && not known
        then err (conflicts_with_store (get_raft_id config) ids)
        else ok config)
      ≡ ok config'
    → ((id : Bytes) × (ids ≡ id ∷ [])
        × (get_raft_id config ≡ [])
        × (config' ≡ set_raft_id id config))
      ⊎ ((config' ≡ config) × ((ids ≡ []) ⊎ (contains_string ids (get_raft_id config) ≡ true)))
unfolding adopt
tests_lem config config' [] true known e k h = cc
tests_lem config config' (id ∷ []) true known e k h = inl (id, refl, is_empty_nil _ e, cc)
tests_lem config config' (id ∷ id' ∷ ids) true known e k h = cc
tests_lem config config' [] false known e k h = inr (cc, inl refl)
tests_lem config config' (id ∷ ids) false true e k h = inr (cc, inr k)
tests_lem config config' (id ∷ ids) false false e k h = cc

from_stores_lem :
    (config : Config) (dir : RaftDirectory) (found : Result (List Bytes)) (config' : Config)
    → discover_legacy_raft_ids dir ≡ found
    → from_stores config found ≡ ok config'
    → Resolved config missing dir none config'
unfolding from_stores
from_stores_lem config dir (err e) config' d h = cc
from_stores_lem config dir (ok ids) config' d h =
    (refl, (ids, d, tests_lem config config' ids _ _ refl refl h))

with_identity_lem :
    (identity identity' : Option RaftIdentity) (r : Result Config) (config' : Config)
    → with_identity identity r ≡ ok (identity', config')
    → (identity' ≡ identity) × (r ≡ ok config')
unfolding with_identity
with_identity_lem identity identity' (ok config) config' h = (cc, cc)
with_identity_lem identity identity' (err e) config' h = cc

id_tests_lem :
    (config config' : Config) (identity : RaftIdentity) (bad incomplete empty same : Bool)
    → is_empty (get_raft_id config) ≡ empty
    → eq_bytes (get_raft_id config) identity.node_id ≡ same
    → (if bad
        then err unsupported_format
        else if incomplete
        then err identity_incomplete
        else if not empty && not same
        then err (conflicts_with_identity (get_raft_id config) identity.node_id)
        else ok (set_raft_id identity.node_id config))
      ≡ ok config'
    → (config' ≡ set_raft_id identity.node_id config)
      × ((get_raft_id config ≡ []) ⊎ (get_raft_id config ≡ identity.node_id))
id_tests_lem config config' identity true incomplete empty same e k h = cc
id_tests_lem config config' identity false true empty same e k h = cc
id_tests_lem config config' identity false false true same e k h = (cc, inl (is_empty_nil _ e))
id_tests_lem config config' identity false false false true e k h =
    (cc, inr ((eq_bytes_iff (get_raft_id config) identity.node_id).0 k))
id_tests_lem config config' identity false false false false e k h = cc

-- When the identity is resolved, then either one is persisted, the configuration gets it and named
-- none or the same one before; or none is persisted, and the data directory has no store, or one that
-- the configuration names, or exactly one whose identity a configuration without a name adopts.
pub resolve_raft_identity_lem :
    (config config' : Config) (file : IdentityFile) (dir : RaftDirectory)
    (identity : Option RaftIdentity)
    → resolve_raft_identity config file dir ≡ ok (identity, config')
    → Resolved config file dir identity config'
unfolding resolve_raft_identity check_identity
resolve_raft_identity_lem config config' missing dir identity h =
    let (same, found) = with_identity_lem none identity _ config' h in
    subst (λ i. Resolved config missing dir i config') (sym same)
      (from_stores_lem config dir _ config' refl found)
resolve_raft_identity_lem config config' unreadable dir identity h = cc
resolve_raft_identity_lem config config' undecodable dir identity h = cc
resolve_raft_identity_lem config config' followed dir identity h = cc
resolve_raft_identity_lem config config' (holds i) dir identity h =
    let (same, found) = with_identity_lem (some i) identity _ config' h in
    let (set, named) = id_tests_lem config config' i _ _ _ _ refl refl found in
    subst (λ j. Resolved config (holds i) dir j config') (sym same) (refl, set, named)
