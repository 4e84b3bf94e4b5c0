-- ===== src/Core/Membership/Join/Effects.antt =====
-- What a join request does to Raft.
use skiffdb.Prelude.{
  ℕ, Option, none, some, List, ◌≡◌, ◌⊎◌, inl, inr, refl, subst, arith, Bool, true, false, ◌||◌, not,
  ltb, Bytes, is_empty, if◌then◌else◌,
}
use skiffdb.Go.Map.{lookup}
use skiffdb.Go.Strings.{trim_space}
use skiffdb.Core.Membership.{
  Server, RaftApi, ClusterInfo, not_leader, node_required, clear_join_progress, Result, ok, err,
  is_voter, record_join_progress,
}
use skiffdb.Core.Membership.Progress.{target_after, record_join_progress_lem}
use skiffdb.Core.Membership.Join.{
  find_member, Node, build_cluster_info_for_node, join_node, join_nonvoter, after_add,
  after_promote, join_trimmed, join_configured, join_validated, report,
}
use skiffdb.Core.Membership.Join.Validation.{Member, Absent, Says, find_member-Says}

module _ (R : RaftApi) where
  -- The index that a non-voter has to reach: the one kept for it, or what the leader has applied.
  abbrev pub target_of : Node R → Bytes → ℕ
  target_of n id = target_after (lookup id n.progress) 0 (R.applied_index n.raft)

  -- The configuration that a request reads, as a proposition on its servers and index.
  abbrev pub Configured : Node R → (List Server → ℕ → Type 0) → Type 0
  Configured n P =
      (servers : List Server) × (index : ℕ) × (R.get_configuration n.raft ≡ some (servers, index))
      × P servers index

  abbrev pub Added : Node R → Bytes → Bytes → R.State → Type 0
  Added n id addr after =
      Configured n (λ servers index.
        Absent servers id addr × (after ≡ (R.add_nonvoter id addr index n.raft).1))

  abbrev pub Promoted : Node R → Bytes → Bytes → ℕ → R.State → Type 0
  Promoted n id addr applied after = Configured n (λ servers index.
      (m : Server) × Member m servers
      × (m.id ≡ id)
      × (m.address ≡ addr)
      × (is_voter m.suffrage ≡ false)
      × (ltb applied (target_of n id) ≡ false)
      × (after ≡ (R.add_voter id addr index n.raft).1))

  abbrev pub Effect : Node R → Bytes → Bytes → ℕ → R.State → Type 0
  Effect n id addr applied after =
      (after ≡ n.raft)
      ⊎ ((R.is_leader n.raft ≡ true) × (Added n id addr after ⊎ Promoted n id addr applied after))

  report-raft :
      (n : Node R) (clock : ℕ → ℕ) (k : ℕ) (c : Option (List Server × ℕ))
      → (report R n clock k c).1.raft ≡ n.raft
  unfolding report
  report-raft n clock k none = refl
  report-raft n clock k (some (servers, index)) = refl

  -- Reading the members changes nothing in Raft.
  build_cluster_info_for_node-raft :
      (n : Node R) (clock : ℕ → ℕ) (k : ℕ)
      → (build_cluster_info_for_node R n clock k).1.raft ≡ n.raft
  unfolding build_cluster_info_for_node
  build_cluster_info_for_node-raft n clock k = report-raft n clock k (R.get_configuration n.raft)

  after_promote-raft :
      (n : Node R) (id : Bytes) (clock : ℕ → ℕ) (future : Option ℕ × R.State)
      → (after_promote R n id clock future).1.raft ≡ future.1
  unfolding after_promote
  after_promote-raft n id clock (none, raft) = refl
  after_promote-raft n id clock (some index, raft) = build_cluster_info_for_node-raft _ clock 1

  after_add-raft :
      (n : Node R) (id : Bytes) (applied : ℕ) (clock : ℕ → ℕ) (future : Option ℕ × R.State)
      → (after_add R n id applied clock future).1.raft ≡ future.1
  unfolding after_add
  after_add-raft n id applied clock (none, raft) = refl
  after_add-raft n id applied clock (some index, raft) = build_cluster_info_for_node-raft _ clock 1

  if-raft :
      (b : Bool) (x y : Result ClusterInfo × Node R) (s t : R.State)
      → x.1.raft ≡ s
      → y.1.raft ≡ t
      → ((if b then x else y).1.raft ≡ s) ⊎ ((b ≡ false) × ((if b then x else y).1.raft ≡ t))
  if-raft true x y s t hx hy = inl hx
  if-raft false x y s t hx hy = inr (refl, hy)

  reaches :
      (applied target target' : ℕ) (P Q : Type 0)
      → target ≡ target'
      → P ⊎ ((ltb applied target ≡ false) × Q)
      → P ⊎ ((ltb applied target' ≡ false) × Q)
  reaches applied target target' P Q e h = subst (λ t. P ⊎ ((ltb applied t ≡ false) × Q)) e h

  join_nonvoter-raft :
      (n : Node R) (id addr : Bytes) (index applied : ℕ) (clock : ℕ → ℕ)
      → ((join_nonvoter R n id addr index applied clock).1.raft ≡ n.raft)
        ⊎ ((ltb applied (target_of n id) ≡ false)
            × ((join_nonvoter R n id addr index applied clock).1.raft
                ≡ (R.add_voter id addr index n.raft).1))
  unfolding join_nonvoter
  join_nonvoter-raft n id addr index applied clock =
      let (p, progress) =
        record_join_progress (R.applied_index n.raft) id 0 applied (clock 0) n.progress in
      let n' = record n { progress = progress } in
      let target =
        (record_join_progress_lem (R.applied_index n.raft) id 0 applied (clock 0) n.progress
          id).0.0 in
      reaches applied p.target_index (target_of n id) _ _ target (
        if-raft (ltb applied p.target_index) (build_cluster_info_for_node R n' clock 1)
          (after_promote R n' id clock (R.add_voter id addr index n.raft)) n.raft
          (R.add_voter id addr index n.raft).1 (build_cluster_info_for_node-raft n' clock 1)
          (after_promote-raft n' id clock (R.add_voter id addr index n.raft)))

  -- The member that is found is a voter, or it is not and its progress decides.
  known-Effect :
      (n : Node R) (id addr : Bytes) (servers : List Server) (index applied : ℕ) (m : Server)
      (voter : Bool) (x y : Result ClusterInfo × Node R)
      → R.is_leader n.raft ≡ true
      → R.get_configuration n.raft ≡ some (servers, index)
      → Says servers id addr (ok (some m))
      → is_voter m.suffrage ≡ voter
      → x.1.raft ≡ n.raft
      → (y.1.raft ≡ n.raft)
        ⊎ ((ltb applied (target_of n id) ≡ false)
            × (y.1.raft ≡ (R.add_voter id addr index n.raft).1))
      → Effect n id addr applied (if voter then x else y).1.raft
  known-Effect n id addr servers index applied m true x y leader c says v hx hy = inl hx
  known-Effect n id addr servers index applied m false x y leader c says v hx (inl same) = inl same
  known-Effect n id addr servers index applied m false x y leader c (member, same_id, same_addr) v
        hx (inr (reached, promoted)) =
      inr (leader, inr (servers, index, c, (m, member, same_id, same_addr, v, reached, promoted)))

  join_validated-Effect :
      (n : Node R) (id addr : Bytes) (servers : List Server) (index applied : ℕ) (clock : ℕ → ℕ)
      (found : Result (Option Server))
      → R.is_leader n.raft ≡ true
      → R.get_configuration n.raft ≡ some (servers, index)
      → Says servers id addr found
      → Effect n id addr applied (join_validated R n id addr index applied clock found).1.raft
  unfolding join_validated
  join_validated-Effect n id addr servers index applied clock (err e) leader c says = inl refl
  join_validated-Effect n id addr servers index applied clock (ok none) leader c says =
      inr (leader, inl (servers, index, c, (says, after_add-raft n id applied clock _)))
  join_validated-Effect n id addr servers index applied clock (ok (some m)) leader c says =
      known-Effect n id addr servers index applied m (is_voter m.suffrage)
        (build_cluster_info_for_node R (record n { progress = clear_join_progress m.id n.progress })
          clock 0)
        (join_nonvoter R n id addr index applied clock) leader c says refl
        (build_cluster_info_for_node-raft _ clock 0)
        (join_nonvoter-raft n id addr index applied clock)

  join_configured-Effect :
      (n : Node R) (id addr : Bytes) (applied : ℕ) (clock : ℕ → ℕ)
      (configuration : Option (List Server × ℕ))
      → R.is_leader n.raft ≡ true
      → R.get_configuration n.raft ≡ configuration
      → Effect n id addr applied (join_configured R n id addr applied clock configuration).1.raft
  unfolding join_configured
  join_configured-Effect n id addr applied clock none leader c = inl refl
  join_configured-Effect n id addr applied clock (some (servers, index)) leader c =
      join_validated-Effect n id addr servers index applied clock (find_member servers id addr)
        leader c (find_member-Says servers id addr)

  if-Effect :
      (n : Node R) (id addr : Bytes) (applied : ℕ) (b : Bool) (x y : Result ClusterInfo × Node R)
      → x.1.raft ≡ n.raft
      → (b ≡ false → Effect n id addr applied y.1.raft)
      → Effect n id addr applied (if b then x else y).1.raft
  if-Effect n id addr applied true x y hx hy = inl hx
  if-Effect n id addr applied false x y hx hy = hy refl

  -- A join request leaves Raft as it is, or else the node is the leader and one of two things happened:
  -- no member of the configuration had the identity or the address, and the call that adds a non-voter
  -- was made; or a member with both was no voter and the applied index reported is not below its
  -- target, and the call that makes it a voter was made. The request's strings are trimmed first.
  pub join_node-Effect :
      (n : Node R) (id addr : Bytes) (applied : ℕ) (clock : ℕ → ℕ)
      → Effect n
          (trim_space id)
          (trim_space addr)
          applied
          (join_node R n id addr applied clock).1.raft
  unfolding join_node join_trimmed
  join_node-Effect n id addr applied clock =
      if-Effect n (trim_space id) (trim_space addr) applied (not (R.is_leader n.raft))
        (err (not_leader n.leader_admin_addr), n)
        (join_trimmed R n (trim_space id) (trim_space addr) applied clock) refl
        (λ leader.
          if-Effect n (trim_space id) (trim_space addr) applied
            (is_empty (trim_space id) || is_empty (trim_space addr)) (err node_required, n)
            (join_configured R n (trim_space id) (trim_space addr) applied clock
              (R.get_configuration n.raft))
            refl
            (λ full.
              join_configured-Effect n (trim_space id) (trim_space addr) applied clock
                (R.get_configuration n.raft) (ground arith) refl))
