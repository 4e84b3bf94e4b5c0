-- ===== src/Core/Membership/Join/Reported.antt =====
-- What the leader answers to a join agrees with the configuration that the request leaves.
use skiffdb.Prelude.{
  ℕ, Option, none, some, List, ◌≡◌, refl, ap, subst, Bool, true, false, ◌||◌, not, ltb,
  if◌then◌else◌, Bytes, is_empty,
}
use skiffdb.Go.Map.{Map}
use skiffdb.Go.Strings.{trim_space}
use skiffdb.Core.Membership.{
  Server, RaftApi, ClusterInfo, MemberJoinProgress, JoinError, not_leader, node_required,
  configuration_failed, add_failed, promote_failed, Result, ok, err, is_voter, record_join_progress,
  build_members,
}
use skiffdb.Core.Membership.Report.{AllDescribed, build_members_lem}
use skiffdb.Core.Membership.Join.{
  find_member, Node, build_cluster_info_for_node, join_node, join_nonvoter, join_member, after_add,
  after_promote, join_trimmed, join_configured, join_validated, report, info_of,
}

abbrev info_or : ClusterInfo → Result ClusterInfo → ClusterInfo
info_or info (ok i) = i
info_or info (err e) = info

module _ (R : RaftApi) where
  pub record Agrees (n : Node R) (info : ClusterInfo) : Type 0 where
    pub servers : List Server
    pub index : ℕ
    pub configured : R.get_configuration n.raft ≡ some (servers, index)
    pub progress : Map MemberJoinProgress
    pub clock : ℕ → ℕ
    pub k : ℕ
    pub described : AllDescribed progress clock k servers info.members

  pub record Reported (r : Result ClusterInfo × Node R) : Type 0 where
    pub agrees : (info : ClusterInfo) → r.0 ≡ ok info → Agrees r.1 info

  err-Reported : (e : JoinError) (n : Node R) → Reported (err e, n)
  err-Reported e n = record { agrees = λ info h. cc }

  report-Reported :
      (n : Node R) (clock : ℕ → ℕ) (k : ℕ) (c : Option (List Server × ℕ))
      → R.get_configuration n.raft ≡ c
      → Reported (report R n clock k c)
  unfolding report info_of
  report-Reported n clock k none e = err-Reported configuration_failed n
  report-Reported n clock k (some (servers, index)) e = record {
    agrees = λ info h. record {
      servers = servers;
      index = index;
      configured = e;
      progress = (build_members (R.applied_index n.raft) clock k servers n.progress).1;
      clock = clock;
      k = k;
      described =
          subst
            (λ i.
              AllDescribed (build_members (R.applied_index n.raft) clock k servers n.progress).1
                clock k servers i.members)
            (ap (info_or info) h)
            (build_members_lem (R.applied_index n.raft) clock k servers n.progress).0;
    };
  }

  built-Reported :
      (n : Node R) (clock : ℕ → ℕ) (k : ℕ) → Reported (build_cluster_info_for_node R n clock k)
  unfolding build_cluster_info_for_node
  built-Reported n clock k = report-Reported n clock k (R.get_configuration n.raft) refl

  Reported-if :
      (b : Bool) (x y : Result ClusterInfo × Node R)
      → Reported x
      → Reported y
      → Reported (if b then x else y)
  Reported-if true x y hx hy = hx
  Reported-if false x y hx hy = hy

  after_add-Reported :
      (n : Node R) (id : Bytes) (applied : ℕ) (clock : ℕ → ℕ) (future : Option ℕ × R.State)
      → Reported (after_add R n id applied clock future)
  unfolding after_add
  after_add-Reported n id applied clock (none, raft) = err-Reported add_failed _
  after_add-Reported n id applied clock (some index, raft) = built-Reported _ clock 1

  after_promote-Reported :
      (n : Node R) (id : Bytes) (clock : ℕ → ℕ) (future : Option ℕ × R.State)
      → Reported (after_promote R n id clock future)
  unfolding after_promote
  after_promote-Reported n id clock (none, raft) = err-Reported promote_failed _
  after_promote-Reported n id clock (some index, raft) = built-Reported _ clock 1

  join_nonvoter-Reported :
      (n : Node R) (id addr : Bytes) (index applied : ℕ) (clock : ℕ → ℕ)
      → Reported (join_nonvoter R n id addr index applied clock)
  unfolding join_nonvoter
  join_nonvoter-Reported n id addr index applied clock =
      let (p, progress) =
        record_join_progress (R.applied_index n.raft) id 0 applied (clock 0) n.progress in
      let n' : Node R = record n { progress = progress } in
      Reported-if (ltb applied p.target_index) _ _ (built-Reported n' clock 1)
        (after_promote-Reported n' id clock (R.add_voter id addr index n.raft))

  join_member-Reported :
      (n : Node R) (id addr : Bytes) (index applied : ℕ) (clock : ℕ → ℕ) (m : Option Server)
      → Reported (join_member R n id addr index applied clock m)
  unfolding join_member
  join_member-Reported n id addr index applied clock none =
      after_add-Reported n id applied clock (R.add_nonvoter id addr index n.raft)
  join_member-Reported n id addr index applied clock (some m) =
      Reported-if (is_voter m.suffrage) _ _ (built-Reported _ clock 0)
        (join_nonvoter-Reported n id addr index applied clock)

  join_validated-Reported :
      (n : Node R) (id addr : Bytes) (index applied : ℕ) (clock : ℕ → ℕ)
      (found : Result (Option Server))
      → Reported (join_validated R n id addr index applied clock found)
  unfolding join_validated
  join_validated-Reported n id addr index applied clock (err e) = err-Reported e n
  join_validated-Reported n id addr index applied clock (ok m) =
      join_member-Reported n id addr index applied clock m

  join_configured-Reported :
      (n : Node R) (id addr : Bytes) (applied : ℕ) (clock : ℕ → ℕ) (c : Option (List Server × ℕ))
      → Reported (join_configured R n id addr applied clock c)
  unfolding join_configured
  join_configured-Reported n id addr applied clock none = err-Reported configuration_failed n
  join_configured-Reported n id addr applied clock (some (servers, index)) =
      join_validated-Reported n id addr index applied clock (find_member servers id addr)

  -- A join request that is answered with a report of the cluster: the report describes the servers of
  -- the configuration that Raft has then, one member for each in its order, with its role.
  pub join_node-Reported :
      (n : Node R) (id addr : Bytes) (applied : ℕ) (clock : ℕ → ℕ)
      → Reported (join_node R n id addr applied clock)
  unfolding join_node join_trimmed
  join_node-Reported n id addr applied clock =
      Reported-if (not (R.is_leader n.raft)) _ _ (err-Reported (not_leader n.leader_admin_addr) n) (
        Reported-if (is_empty (trim_space id) || is_empty (trim_space addr)) _ _
          (err-Reported node_required n)
          (join_configured-Reported n (trim_space id) (trim_space addr) applied clock
            (R.get_configuration n.raft)))
