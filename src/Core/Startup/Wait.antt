-- ===== src/Core/Startup/Wait.antt =====
-- `waitForLocalRaftConfiguration` and the check that it repeats: what they say of the node itself.
use skiffdb.Prelude.{
  Option, none, some, List, [], ◌∷◌, ◌≡◌, ◌≢◌, ◌⊎◌, inl, inr, refl, arith, Bool, true, false, Bytes,
  eq_bytes_iff,
}
use skiffdb.Core.Config.{Config, get_raft_id, get_raft_advertise_addr}
use skiffdb.Core.Membership.{Server}
use skiffdb.Core.Startup.{
  Answers, find_local, validate_persisted_raft_configuration, wait_on,
  wait_for_local_raft_configuration,
}

-- The first member of this identity has this address.
abbrev pub Lists : List Server → Bytes → Bytes → Type 0
Lists [] id addr = ⊥
Lists (s ∷ servers) id addr =
    ((s.id ≡ id) × (s.address ≡ addr)) ⊎ ((s.id ≢ id) × Lists servers id addr)

find_local-Lists :
    (servers : List Server) (id addr : Bytes)
    → find_local servers id addr ≡ some true
    → Lists servers id addr
unfolding find_local
find_local-Lists [] id addr h = cc
find_local-Lists (s ∷ servers) id addr h =
    ground
      (arith, eq_bytes_iff s.id id, eq_bytes_iff s.address addr, find_local-Lists servers id addr)

pub validate_persisted_raft_configuration-Lists :
    (c : Option (List Server)) (config : Config)
    → validate_persisted_raft_configuration c config ≡ some true
    → (servers : List Server) × (c ≡ some servers)
      × Lists servers (get_raft_id config) (get_raft_advertise_addr config)
unfolding validate_persisted_raft_configuration
validate_persisted_raft_configuration-Lists none config h = cc
validate_persisted_raft_configuration-Lists (some []) config h = cc
validate_persisted_raft_configuration-Lists (some (s ∷ servers)) config h =
    (s ∷ servers, refl, find_local-Lists (s ∷ servers) _ _ h)

abbrev pub Tick : List Server → List (Option (List Server)) → Type 0
Tick servers [] = ⊥
Tick servers (c ∷ ticks) = (c ≡ some servers) ⊎ Tick servers ticks

-- A configuration that the start has read lists the node under its identity and address.
abbrev pub Seen : Config → Answers → Type 0
Seen config a =
    (servers : List Server) × ((a.configuration ≡ some servers) ⊎ Tick servers a.ticks)
    × Lists servers (get_raft_id config) (get_raft_advertise_addr config)

abbrev pub Ticked : Config → List (Option (List Server)) → Type 0
Ticked config ticks =
    (servers : List Server) × Tick servers ticks
    × Lists servers (get_raft_id config) (get_raft_advertise_addr config)

wait_on-Ticked :
    (config : Config) (c : Option (List Server)) (ticks : List (Option (List Server)))
    (v : Option Bool) (rest : Bool)
    → validate_persisted_raft_configuration c config ≡ v
    → (rest ≡ true → Ticked config ticks)
    → wait_on v rest ≡ true
    → Ticked config (c ∷ ticks)
unfolding wait_on
wait_on-Ticked config c ticks none rest e k h = cc
wait_on-Ticked config c ticks (some true) rest e k h =
    let (servers, read, lists) = validate_persisted_raft_configuration-Lists c config e in
    (servers, inl read, lists)
wait_on-Ticked config c ticks (some false) rest e k h =
    let (servers, tick, lists) = k h in (servers, inr tick, lists)

pub wait_for_local_raft_configuration-Ticked :
    (config : Config) (ticks : List (Option (List Server)))
    → wait_for_local_raft_configuration config ticks ≡ true
    → Ticked config ticks
unfolding wait_for_local_raft_configuration
wait_for_local_raft_configuration-Ticked config [] h = cc
wait_for_local_raft_configuration-Ticked config (c ∷ ticks) h =
    wait_on-Ticked config c ticks _ _ refl (wait_for_local_raft_configuration-Ticked config ticks) h
