-- ===== src/Core/Membership/Join/Waiting.antt =====
-- A non-voter that asks again: what the leader does below its target and at it.
use skiffdb.Prelude.{
  ltb→lt, ℕ, ◌≤◌, ◌<◌, some, List, ◌≡◌, refl, sym, ap, ◌∙◌, subst, arith, Bool, true, false, ltb,
  if◌then◌else◌, Bytes, is_empty,
}
use skiffdb.Go.Map.{Map, lookup}
use skiffdb.Go.Strings.{trim_space}
use skiffdb.Core.Membership.{
  ClusterInfo, Server, RaftApi, MemberJoinProgress, Result, ok, is_voter, record_join_progress,
  clear_join_progress, build_members,
}
use skiffdb.Core.Membership.Progress.{
  target_after, record_join_progress_lem, record_join_progress-own,
}
use skiffdb.Core.Membership.Report.{AllDescribed, Kept, build_members_lem}
use skiffdb.Core.Membership.Join.{
  Node, find_member, join_node, join_trimmed, join_configured, join_validated, join_member,
  join_nonvoter, after_promote, build_cluster_info_for_node, report, info_of,
}

ltb-false : (a b : ℕ) → ltb a b ≡ false → b ≤ a
ltb-false a b h = ground arith

module _ (R : RaftApi) where
  -- The node is told of these servers, and the leader keeps this state of Raft and what it has recorded.
  pub record Told (servers : List Server) (raft : R.State) (before : Map MemberJoinProgress)
      (r : Result ClusterInfo × Node R) : Type 0 where
    pub info : ClusterInfo
    pub told : r.0 ≡ ok info
    pub progress : Map MemberJoinProgress
    pub clock : ℕ → ℕ
    pub k : ℕ
    pub described : AllDescribed progress clock k servers info.members
    pub same_raft : r.1.raft ≡ raft
    pub kept : Kept before r.1.progress

  report-Told :
      (n : Node R) (clock : ℕ → ℕ) (k : ℕ) (servers : List Server) (index : ℕ)
      → Told servers n.raft n.progress (report R n clock k (some (servers, index)))
  unfolding report info_of
  report-Told n clock k servers index =
      let b = build_members_lem (R.applied_index n.raft) clock k servers n.progress in
      record {
        info = info_of R n (build_members (R.applied_index n.raft) clock k servers n.progress).0;
        told = refl;
        progress = (build_members (R.applied_index n.raft) clock k servers n.progress).1;
        clock = clock;
        k = k;
        described = b.0;
        same_raft = refl;
        kept = b.1;
      }

  pub build-Told :
      (n : Node R) (clock : ℕ → ℕ) (k : ℕ) (servers : List Server) (index : ℕ)
      → R.get_configuration n.raft ≡ some (servers, index)
      → Told servers n.raft n.progress (build_cluster_info_for_node R n clock k)
  unfolding build_cluster_info_for_node
  build-Told n clock k servers index e =
      subst (λ c. Told servers n.raft n.progress (report R n clock k c)) (sym e)
        (report-Told n clock k servers index)

  Told-if :
      (servers : List Server) (raft : R.State) (before : Map MemberJoinProgress) (b : Bool)
      (x y : Result ClusterInfo × Node R)
      → (b ≡ true → Told servers raft before x)
      → (b ≡ false → Told servers raft before y)
      → Told servers raft before (if b then x else y)
  Told-if servers raft before true x y hx hy = hx refl
  Told-if servers raft before false x y hx hy = hy refl

  -- The target that the leader has recorded for a member, or records for a new one.
  abbrev pub target_of : Node R → Bytes → ℕ
  target_of n id = target_after (lookup id n.progress) 0 (R.applied_index n.raft)

  recorded_target :
      (n : Node R) (id : Bytes) (applied now : ℕ)
      → (record_join_progress (R.applied_index n.raft) id 0 applied now n.progress).0.target_index
        ≡ target_of n id
  recorded_target n id applied now =
      (record_join_progress_lem (R.applied_index n.raft) id 0 applied now n.progress id).0.0

  -- Below the target the non-voter is told of the configuration as it is.
  nonvoter-below :
      (n : Node R) (id addr : Bytes) (index applied : ℕ) (clock : ℕ → ℕ) (servers : List Server)
      → R.get_configuration n.raft ≡ some (servers, index)
      → applied < target_of n id
      → Told servers n.raft
          (record_join_progress (R.applied_index n.raft) id 0 applied (clock 0) n.progress).1
          (join_nonvoter R n id addr index applied clock)
  unfolding join_nonvoter
  nonvoter-below n id addr index applied clock servers e below =
      let (p, progress) =
        record_join_progress (R.applied_index n.raft) id 0 applied (clock 0) n.progress in
      Told-if servers n.raft progress (ltb applied p.target_index) _ _
        (λ t. build-Told (record n { progress = progress }) clock 1 servers index e)
        (λ t. absurd (
          omega (
            arith,
            recorded_target n id applied (clock 0),
            below,
            ltb-false applied p.target_index t,
          )))

  -- At the target it is promoted, if Raft takes it for a voter.
  nonvoter-reached :
      (n : Node R) (id addr : Bytes) (index applied : ℕ) (clock : ℕ → ℕ) (servers : List Server)
      (added next_index : ℕ) (raft : R.State)
      → target_of n id ≤ applied
      → R.add_voter id addr index n.raft ≡ (some added, raft)
      → R.get_configuration raft ≡ some (servers, next_index)
      → (before : Map MemberJoinProgress) × Told servers raft before
          (join_nonvoter R n id addr index applied clock)
  unfolding join_nonvoter after_promote
  nonvoter-reached n id addr index applied clock servers added next_index raft reached a e =
      let (p, progress) =
        record_join_progress (R.applied_index n.raft) id 0 applied (clock 0) n.progress in
      let cleared : Map MemberJoinProgress = clear_join_progress id progress in
      (
        cleared,
        Told-if servers raft cleared (ltb applied p.target_index) _ _
            (λ t. absurd (
              omega (
                arith,
                recorded_target n id applied (clock 0),
                reached,
                ltb→lt applied p.target_index t,
              )))
            (λ t.
              subst
                (λ f.
                  Told servers raft cleared
                    (after_promote R (record n { progress = progress }) id clock f))
                (sym a)
                (build-Told (record n { raft = raft; progress = cleared }) clock 1 servers
                  next_index e)),
      )

  -- Waiting leaves the target as it is.
  pub below-target :
      (n : Node R) (id : Bytes) (applied now : ℕ) (servers : List Server)
      (r : Result ClusterInfo × Node R)
      → Told servers n.raft
          (record_join_progress (R.applied_index n.raft) id 0 applied now n.progress).1
          r
      → target_of r.1 id ≡ target_of n id
  below-target n id applied now servers r t =
      let (p, progress) =
        record_join_progress (R.applied_index n.raft) id 0 applied now n.progress in
      let e : lookup id r.1.progress ≡ some p =
        t.kept id p
          (record_join_progress-own (R.applied_index n.raft) id 0 applied now n.progress) in
      ap (λ o. target_after o 0 (R.applied_index r.1.raft)) e ∙ recorded_target n id applied now

  -- A leader in this state of Raft has a configuration that lists a non-voter under this identity and
  -- this address, which are not blank and have no spaces around them.
  pub record Nonvoter (raft : R.State) (id addr : Bytes) (servers : List Server) (index : ℕ)
      : Type 0 where
    pub leads : R.is_leader raft ≡ true
    pub id_trimmed : trim_space id ≡ id
    pub addr_trimmed : trim_space addr ≡ addr
    pub id_given : is_empty id ≡ false
    pub addr_given : is_empty addr ≡ false
    pub configured : R.get_configuration raft ≡ some (servers, index)
    pub member : Server
    pub found : find_member servers id addr ≡ ok (some member)
    pub not_voter : is_voter member.suffrage ≡ false

  join_node-Nonvoter :
      (n : Node R) (id addr : Bytes) (index applied : ℕ) (clock : ℕ → ℕ) (servers : List Server)
      → Nonvoter n.raft id addr servers index
      → join_node R n id addr applied clock ≡ join_nonvoter R n id addr index applied clock
  unfolding join_node join_trimmed join_configured join_validated join_member
  join_node-Nonvoter n id addr index applied clock servers v =
      rw (v.leads, v.id_trimmed, v.addr_trimmed, v.id_given, v.addr_given, v.configured)
        (rw (v.found, v.not_voter) refl)

  pub join_node-below :
      (n : Node R) (id addr : Bytes) (index applied : ℕ) (clock : ℕ → ℕ) (servers : List Server)
      → Nonvoter n.raft id addr servers index
      → applied < target_of n id
      → Told servers n.raft
          (record_join_progress (R.applied_index n.raft) id 0 applied (clock 0) n.progress).1
          (join_node R n id addr applied clock)
  join_node-below n id addr index applied clock servers v below =
      subst (Told servers n.raft _)
        (sym (join_node-Nonvoter n id addr index applied clock servers v))
        (nonvoter-below n id addr index applied clock servers v.configured below)

  pub join_node-reached :
      (n : Node R) (id addr : Bytes) (index applied : ℕ) (clock : ℕ → ℕ)
      (servers next : List Server) (added next_index : ℕ) (raft : R.State)
      → Nonvoter n.raft id addr servers index
      → target_of n id ≤ applied
      → R.add_voter id addr index n.raft ≡ (some added, raft)
      → R.get_configuration raft ≡ some (next, next_index)
      → (before : Map MemberJoinProgress) × Told next raft before
          (join_node R n id addr applied clock)
  join_node-reached n id addr index applied clock servers next added next_index raft v reached a e =
      let (before, t) =
        nonvoter-reached n id addr index applied clock next added next_index raft reached a e in
      (
        before,
        subst (Told next raft before)
            (sym (join_node-Nonvoter n id addr index applied clock servers v)) t,
      )
