-- ===== src/Core/Membership/Join/Admission.antt =====
-- The first request of a node: the leader adds it as a non-voter and sets its target.
use skiffdb.Prelude.{
  ℕ, max, none, some, List, ◌≡◌, refl, sym, ap, ◌∙◌, subst, true, false, Bytes, is_empty,
}
use skiffdb.Go.Map.{Map, lookup}
use skiffdb.Go.Strings.{trim_space}
use skiffdb.Core.Membership.{
  ClusterInfo, Server, RaftApi, MemberJoinProgress, Result, ok, record_join_progress,
}
use skiffdb.Core.Membership.Progress.{
  target_after, record_join_progress_lem, record_join_progress-own,
}
use skiffdb.Core.Membership.Join.{
  Node, find_member, join_node, join_trimmed, join_configured, join_validated, join_member,
  after_add,
}
use skiffdb.Core.Membership.Join.Waiting.{Told, build-Told, target_of}

module _ (R : RaftApi) where
  -- A leader in this state of Raft has a configuration without this identity and this address, and Raft
  -- takes the node as a non-voter: the state and the configuration then.
  pub record Adds (raft : R.State) (id addr : Bytes) (after : R.State) (servers : List Server)
      : Type 0 where
    pub leads : R.is_leader raft ≡ true
    pub id_trimmed : trim_space id ≡ id
    pub addr_trimmed : trim_space addr ≡ addr
    pub id_given : is_empty id ≡ false
    pub addr_given : is_empty addr ≡ false
    pub old : List Server
    pub index : ℕ
    pub configured : R.get_configuration raft ≡ some (old, index)
    pub absent : find_member old id addr ≡ ok none
    pub added : ℕ
    pub accepted : R.add_nonvoter id addr index raft ≡ (some added, after)
    pub next_index : ℕ
    pub reconfigured : R.get_configuration after ≡ some (servers, next_index)

  -- The target of the node: the later of its own entry and what the leader has applied, unless the leader
  -- has recorded one for this identity before.
  abbrev pub first_target : Node R → Bytes → ℕ → R.State → ℕ
  first_target n id added after =
      target_after (lookup id n.progress) (max added (R.applied_index after))
        (R.applied_index after)

  after_add-Told :
      (n : Node R) (id : Bytes) (applied : ℕ) (clock : ℕ → ℕ) (added next_index : ℕ)
      (after : R.State) (servers : List Server)
      → R.get_configuration after ≡ some (servers, next_index)
      → Told R servers after
          (record_join_progress
            (R.applied_index after)
            id
            (max added (R.applied_index after))
            applied
            (clock 0)
            n.progress).1
          (after_add R n id applied clock (some added, after))
  unfolding after_add
  after_add-Told n id applied clock added next_index after servers e =
      build-Told R _ clock 1 servers next_index e

  join_node-after_add :
      (n : Node R) (id addr : Bytes) (applied : ℕ) (clock : ℕ → ℕ) (after : R.State)
      (servers : List Server) (v : Adds n.raft id addr after servers)
      → join_node R n id addr applied clock ≡ after_add R n id applied clock (some v.added, after)
  unfolding join_node join_trimmed join_configured join_validated join_member
  join_node-after_add n id addr applied clock after servers v =
      rw (v.leads, v.id_trimmed, v.addr_trimmed, v.id_given, v.addr_given, v.configured)
        (rw (v.absent, v.accepted) refl)

  pub join_node-Told :
      (n : Node R) (id addr : Bytes) (applied : ℕ) (clock : ℕ → ℕ) (after : R.State)
      (servers : List Server) (v : Adds n.raft id addr after servers)
      → (before : Map MemberJoinProgress) × Told R servers after before
          (join_node R n id addr applied clock)
        × (target_of R (join_node R n id addr applied clock).1 id ≡ first_target n id v.added after)
  join_node-Told n id addr applied clock after servers v =
      let now_applied = R.applied_index after in
      let (p, progress) =
        record_join_progress now_applied id (max v.added now_applied) applied (clock 0)
          n.progress in
      let r : Result ClusterInfo × Node R = join_node R n id addr applied clock in
      let t : Told R servers after progress r =
        subst (Told R servers after progress)
          (sym (join_node-after_add n id addr applied clock after servers v))
          (after_add-Told n id applied clock v.added v.next_index after servers v.reconfigured) in
      let e : lookup id r.1.progress ≡ some p = t.kept id p (
        record_join_progress-own now_applied id (max v.added now_applied) applied (clock 0)
          n.progress) in
      (
        progress,
        t,
        ap (λ o. target_after o 0 (R.applied_index r.1.raft)) e
            ∙ (record_join_progress_lem now_applied id (max v.added now_applied) applied (clock 0)
                n.progress id).0.0,
      )
