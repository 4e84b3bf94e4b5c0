-- ===== src/Core/Membership/Report.antt =====
-- `buildClusterInfoForNode`: the report agrees with the configuration and with the recorded progress.
use skiffdb.Prelude.{
  ℕ, ◌+◌, some, List, [], ◌∷◌, ◌≡◌, ◌⊎◌, inl, inr, refl, arith, Bool, true, false, ltb, Bytes,
  eq_bytes, eq_bytes_iff, if◌then◌else◌, Bool-cases,
}
use skiffdb.Go.Map.{Map, lookup, lookup-insert}
use skiffdb.Core.Membership.Progress.{record_join_progress-own}
use skiffdb.Core.Membership.{
  ClusterMember, role_from_suffrage, voter_state, Server, MemberJoinProgress, is_voter,
  record_join_progress, progress_state, cluster_member_progress, build_members, advance, or_new,
  member_of,
}

-- Every entry of the first map is in the second.
abbrev pub Kept : Map MemberJoinProgress → Map MemberJoinProgress → Type 0
Kept before after =
    (id : Bytes) (p : MemberJoinProgress) → lookup id before ≡ some p → lookup id after ≡ some p

-- What the report says of one server at a time, given the recorded progress.
abbrev pub Described : Map MemberJoinProgress → ℕ → Server → ClusterMember → Type 0
Described progress now s m =
    (m.node_id ≡ s.id)
    × (m.addr ≡ s.address)
    × (m.role ≡ role_from_suffrage s.suffrage)
    × (((is_voter s.suffrage ≡ true) × (m.state ≡ voter_state))
        ⊎ ((is_voter s.suffrage ≡ false)
            × ((p : MemberJoinProgress) × (lookup s.id progress ≡ some p)
                × (m.applied_index ≡ p.applied_index)
                × (m.target_index ≡ p.target_index)
                × (m.state ≡ progress_state p now))))

abbrev pub AllDescribed :
    Map MemberJoinProgress → (ℕ → ℕ) → ℕ → List Server → List ClusterMember → Type 0
AllDescribed progress clock k [] [] = Unit
AllDescribed progress clock k [] (m ∷ members) = ⊥
AllDescribed progress clock k (s ∷ servers) [] = ⊥
AllDescribed progress clock k (s ∷ servers) (m ∷ members) =
    Described progress (clock k) s m × AllDescribed progress clock (k + 1) servers members

ltb_zero : (n : ℕ) → ltb n 0 ≡ false
ltb_zero n = ground arith

advance_zero : (p : MemberJoinProgress) (now : ℕ) → advance p 0 now ≡ p
unfolding advance
advance_zero p now = rw (ltb_zero p.applied_index) refl

record_join_progress-Kept :
    (raft_applied : ℕ) (id : Bytes) (now : ℕ) (progress : Map MemberJoinProgress)
    → Kept progress (record_join_progress raft_applied id 0 0 now progress).1
unfolding record_join_progress or_new
record_join_progress-Kept raft_applied id now progress j p e = elim (Bool-cases (eq_bytes id j)) [
  | inl h ↦ rw (lookup-insert id j, h, (eq_bytes_iff id j).0 h, e, ltb_zero p.applied_index) refl
  | inr h ↦ rw (lookup-insert id j, h) e
]

-- The two results of `cluster_member_progress`, by the test that picks one.
cases_lem :
    (raft_applied : ℕ) (s : Server) (now : ℕ) (progress : Map MemberJoinProgress) (b : Bool)
    → is_voter s.suffrage ≡ b
    → (let (p, progress') = record_join_progress raft_applied s.id 0 0 now progress in
        let r : ClusterMember × Map MemberJoinProgress =
          if b
          then (member_of s voter_state 0 0, progress)
          else (member_of s (progress_state p now) p.applied_index p.target_index, progress') in
        Described r.1 now s r.0 × Kept progress r.1)
unfolding member_of
cases_lem raft_applied s now progress true v = ((refl, refl, refl, inl (v, refl)), λ id p e. e)
cases_lem raft_applied s now progress false v =
    let (p, after) = record_join_progress raft_applied s.id 0 0 now progress in
    (
      (
        refl,
        refl,
        refl,
        inr (v, (p, record_join_progress-own raft_applied s.id 0 0 now progress, refl, refl, refl)),
      ),
      record_join_progress-Kept raft_applied s.id now progress,
    )

cluster_member_progress_lem :
    (raft_applied : ℕ) (s : Server) (now : ℕ) (progress : Map MemberJoinProgress)
    → (let (m, after) = cluster_member_progress raft_applied s now progress in
        Described after now s m × Kept progress after)
unfolding cluster_member_progress
cluster_member_progress_lem raft_applied s now progress =
    cases_lem raft_applied s now progress (is_voter s.suffrage) refl

Described-Kept :
    (before after : Map MemberJoinProgress) (now : ℕ) (s : Server) (m : ClusterMember)
    → Kept before after
    → Described before now s m
    → Described after now s m
Described-Kept before after now s m kept (hid, ha, hr, inl v) = (hid, ha, hr, inl v)
Described-Kept before after now s m kept (hid, ha, hr, inr (v, (p, e, hp, ht, hs))) =
    (hid, ha, hr, inr (v, (p, kept s.id p e, hp, ht, hs)))

-- The report has one member for each server of the configuration, in its order, with that server's
-- identity, address and role. A voter is reported as such; for any other server the member shows the
-- progress that is recorded for it. Making the report changes no progress recorded before.
pub build_members_lem :
    (raft_applied : ℕ) (clock : ℕ → ℕ) (k : ℕ) (servers : List Server)
    (progress : Map MemberJoinProgress)
    → (let (members, after) = build_members raft_applied clock k servers progress in
        AllDescribed after clock k servers members × Kept progress after)
unfolding build_members
build_members_lem raft_applied clock k [] progress = (tt, λ id p e. e)
build_members_lem raft_applied clock k (s ∷ servers) progress =
    let (m, progress') = cluster_member_progress raft_applied s (clock k) progress in
    let first = cluster_member_progress_lem raft_applied s (clock k) progress in
    let rest = build_members_lem raft_applied clock (k + 1) servers progress' in
    (
      (Described-Kept progress' _ (clock k) s m rest.1 first.0, rest.0),
      λ id p e. rest.1 id p (first.1 id p e),
    )
