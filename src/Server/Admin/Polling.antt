-- ===== src/Server/Admin/Polling.antt =====
-- A joining node that asks the leader again and again, as `joinCluster` does.
use mathlib.Core.List.{map}
use skiffdb.Prelude.{
  ◌++◌, ap, ◌∙◌, ◌<◌, ◌≤◌, All, ℕ, ◌+◌, ◌≤◌, ◌<◌, Option, some, List, [], ◌∷◌, ◌≡◌, inl, inr, refl,
  sym, ap, ◌∙◌, subst, true, false, Bytes, All, eq_bytes_ne, eq_bytes_self, is_empty,
}
use skiffdb.Go.Map.{Map}
use skiffdb.Go.Strings.{trim_space}
use skiffdb.Core.Config.{Config, get_raft_id, get_raft_advertise_addr}
use skiffdb.Core.Membership.{
  RaftApi, role_from_suffrage, ClusterMember, ClusterInfo, Suffrage, voter, nonvoter, staging,
  other_suffrage, Server, MemberJoinProgress, Result, is_voter,
}
use skiffdb.Core.Membership.Report.{AllDescribed}
use skiffdb.Core.Membership.Join.{Node, join_node, join_cluster_with_progress}
use skiffdb.Core.Membership.Join.Admission.{Adds, first_target, join_node-Told}
use skiffdb.Core.Membership.Join.First.{First, find_member-First}
use skiffdb.Core.Membership.Join.Waiting.{
  Told, Nonvoter, target_of, below-target, join_node-below, join_node-reached,
}
use skiffdb.Core.JoinClient.{
  joined, promotion_pending, Reply, Attempt, joined, promotion_pending, own_result, role_result,
  read_join_reply, send_request,
}
use skiffdb.Server.Admin.{
  to_proto_role, to_proto_member, to_proto_members, to_proto_cluster, answer_join,
  join_cluster_request,
}
use skiffdb.Server.Admin.Joining.{received}

own_result-First :
    (id : Bytes) (progress : Map MemberJoinProgress) (clock : ℕ → ℕ) (k : ℕ) (servers : List Server)
    (members : List ClusterMember) (m : Server)
    → AllDescribed progress clock k servers members
    → First id servers m
    → own_result id (to_proto_members members)
      ≡ role_result (to_proto_role (role_from_suffrage m.suffrage))
unfolding own_result to_proto_members to_proto_member
own_result-First id progress clock k [] members m d f = elim f [ ]
own_result-First id progress clock k (s ∷ servers) [] m d f = elim d [ ]
own_result-First id progress clock k (s ∷ servers) (x ∷ members) m (d, rest) (inl (same, e)) =
    rw (d.0, same, eq_bytes_self id, d.2, e) refl
own_result-First id progress clock k (s ∷ servers) (x ∷ members) m (d, rest) (inr (other, f)) =
    rw (d.0, eq_bytes_ne s.id id other)
      (own_result-First id progress clock (k + 1) servers members m rest f)

module _ (R : RaftApi) (config : Config) where
  abbrev id : Bytes
  id = get_raft_id config

  abbrev addr : Bytes
  addr = get_raft_advertise_addr config

  -- The call of the service of a process, in which the clock reads so.
  abbrev pub rpc : (ℕ → ℕ) → Option (Node R) → Bytes → Bytes → ℕ → Reply × Option (Node R)
  rpc clock node id addr applied =
      let (answer, after) = join_cluster_request R node id addr applied clock in
      (received answer, after)

  -- The attempts of a node, with the index that it has applied at each.
  unfoldable pub attempts : Option (Node R) → List (ℕ × (ℕ → ℕ)) → List Attempt × Option (Node R)
  attempts node [] = ([], node)
  attempts node ((applied, clock) ∷ rest) =
      let (result, after) = send_request config true (rpc clock) node applied in
      let (results, last) = attempts after rest in (result ∷ results, last)

  -- An answer that tells of these servers, as the node reads it.
  answer_read :
      (servers : List Server) (m : Server) (r : Result ClusterInfo × Node R) (raft : R.State)
      (before : Map MemberJoinProgress)
      → Told R servers raft before r
      → First id servers m
      → read_join_reply config (received (answer_join r.0))
        ≡ role_result (to_proto_role (role_from_suffrage m.suffrage))
  unfolding answer_join read_join_reply to_proto_cluster
  answer_read servers m r raft before t f =
      rw t.told (own_result-First id t.progress t.clock t.k servers t.info.members m t.described f)

  request_lem :
      (n : Node R) (applied : ℕ) (clock : ℕ → ℕ)
      → trim_space id ≡ id
      → trim_space addr ≡ addr
      → is_empty id ≡ false
      → is_empty addr ≡ false
      → send_request config true (rpc clock) (some n) applied ≡ (
        read_join_reply config (received (answer_join (join_node R n id addr applied clock).0)),
        some (join_node R n id addr applied clock).1,
      )
  unfolding send_request join_cluster_request join_cluster_with_progress
  request_lem n applied clock ti ta gi ga = rw (ti, ta, gi, ga) refl

  -- What Raft does with the promotion: it succeeds, and the configuration that follows has the node's
  -- identity first as a voter.
  pub record Promotes (raft : R.State) (index : ℕ) : Type 0 where
    pub added : ℕ
    pub after : R.State
    pub promoted : R.add_voter id addr index raft ≡ (some added, after)
    pub servers : List Server
    pub next_index : ℕ
    pub configured : R.get_configuration after ≡ some (servers, next_index)
    pub member : Server
    pub first : First id servers member
    pub votes : member.suffrage ≡ voter

  pending_role :
      (s : Suffrage)
      → is_voter s ≡ false
      → role_result (to_proto_role (role_from_suffrage s)) ≡ promotion_pending
  unfolding is_voter role_result to_proto_role role_from_suffrage
  pending_role voter h = cc
  pending_role nonvoter h = refl
  pending_role staging h = refl
  pending_role (other_suffrage k) h = refl

  voter_role :
      (s : Suffrage) → s ≡ voter → role_result (to_proto_role (role_from_suffrage s)) ≡ joined
  unfolding role_result to_proto_role role_from_suffrage
  voter_role s h = rw h refl

  module _ (servers : List Server) (index : ℕ) where
    below_lem :
        (n : Node R) (applied : ℕ) (clock : ℕ → ℕ)
        → Nonvoter R n.raft id addr servers index
        → applied < target_of R n id
        → (send_request config true (rpc clock) (some n) applied).0 ≡ promotion_pending
    below_lem n applied clock v below =
        let t = join_node-below R n id addr index applied clock servers v below in
        ap (λ r. r.0)
          (request_lem n applied clock v.id_trimmed v.addr_trimmed v.id_given v.addr_given)
        ∙ answer_read servers v.member _ n.raft _ t
            (find_member-First servers id addr v.member v.found)
        ∙ pending_role v.member.suffrage v.not_voter

    reached_lem :
        (n : Node R) (applied : ℕ) (clock : ℕ → ℕ)
        → Nonvoter R n.raft id addr servers index
        → Promotes n.raft index
        → target_of R n id ≤ applied
        → (send_request config true (rpc clock) (some n) applied).0 ≡ joined
    reached_lem n applied clock v p reached =
        let (before, t) =
          join_node-reached R n id addr index applied clock servers p.servers p.added p.next_index
            p.after v reached p.promoted p.configured in
        ap (λ r. r.0)
          (request_lem n applied clock v.id_trimmed v.addr_trimmed v.id_given v.addr_given)
        ∙ answer_read p.servers p.member _ p.after before t p.first
        ∙ voter_role p.member.suffrage p.votes

    -- A non-voter of the leader's configuration that has applied less than its target is told to wait,
    -- however often it asks, and the target stays; the first attempt at which it has applied as much as
    -- the target says that it has joined, if Raft takes the promotion. So its last attempt succeeds.
    pub attempts-joined :
        (n : Node R) (waits : List (ℕ × (ℕ → ℕ))) (applied : ℕ) (clock : ℕ → ℕ)
        → Nonvoter R n.raft id addr servers index
        → Promotes n.raft index
        → All (λ w. w.0 < target_of R n id) waits
        → target_of R n id ≤ applied
        → (attempts (some n) (waits ++ (applied, clock) ∷ [])).0
          ≡ map (λ w. promotion_pending) waits ++ joined ∷ []
    unfolding attempts
    attempts-joined n [] applied clock v p below reached =
        ap (λ a. a ∷ []) (reached_lem n applied clock v p reached)
    attempts-joined n ((w, at) ∷ waits) applied clock v p below reached =
        let t = join_node-below R n id addr index w at servers v below.0 in
        let kept : target_of R (join_node R n id addr w at).1 id ≡ target_of R n id =
          below-target R n id w (at 0) servers _ t in
        ap
          (λ a.
            a
            ∷ (attempts (send_request config true (rpc at) (some n) w).1
                (waits ++ (applied, clock) ∷ [])).0)
          (below_lem n w at v below.0)
        ∙ ap (λ l. promotion_pending ∷ l)
            (ap (λ r. (attempts r.1 (waits ++ (applied, clock) ∷ [])).0)
                (request_lem n w at v.id_trimmed v.addr_trimmed v.id_given v.addr_given)
              ∙ attempts-joined (join_node R n id addr w at).1 waits applied clock
                  (subst (λ s. Nonvoter R s id addr servers index) (sym t.same_raft) v)
                  (subst (λ s. Promotes s index) (sym t.same_raft) p)
                  (subst (λ k. All (λ x. x.0 < k) waits) (sym kept) below.1)
                  (subst (λ k. k ≤ applied) (sym kept) reached))

    -- A node with an identity and an address that the leader's configuration does not list is added as a non-voter at its first attempt
    -- and told to wait, and so it is as long as it has applied less than its target, which is then fixed.
    -- The first attempt at which it has applied that much says that it has joined. Raft is assumed to
    -- take both changes.
    pub attempts-admitted :
        (n : Node R) (after : R.State) (first : ℕ) (at : ℕ → ℕ) (waits : List (ℕ × (ℕ → ℕ)))
        (applied : ℕ) (clock : ℕ → ℕ) (v : Adds R n.raft id addr after servers)
        → Nonvoter R after id addr servers index
        → Promotes after index
        → All (λ w. w.0 < first_target R n id v.added after) waits
        → first_target R n id v.added after ≤ applied
        → (attempts (some n) ((first, at) ∷ waits ++ (applied, clock) ∷ [])).0
          ≡ promotion_pending ∷ map (λ w. promotion_pending) waits ++ joined ∷ []
    unfolding attempts
    attempts-admitted n after first at waits applied clock v u p below reached =
        let (before, t, target) = join_node-Told R n id addr first at after servers v in
        let asked = request_lem n first at v.id_trimmed v.addr_trimmed v.id_given v.addr_given in
        ap
          (λ a.
            a
            ∷ (attempts (send_request config true (rpc at) (some n) first).1
                (waits ++ (applied, clock) ∷ [])).0)
          (ap (λ r. r.0) asked
            ∙ answer_read servers u.member _ after before t
                (find_member-First servers id addr u.member u.found)
            ∙ pending_role u.member.suffrage u.not_voter)
        ∙ ap (λ l. promotion_pending ∷ l)
            (ap (λ r. (attempts r.1 (waits ++ (applied, clock) ∷ [])).0) asked
              ∙ attempts-joined (join_node R n id addr first at).1 waits applied clock
                  (subst (λ s. Nonvoter R s id addr servers index) (sym t.same_raft) u)
                  (subst (λ s. Promotes s index) (sym t.same_raft) p)
                  (subst (λ k. All (λ x. x.0 < k) waits) (sym target) below)
                  (subst (λ k. k ≤ applied) (sym target) reached))
