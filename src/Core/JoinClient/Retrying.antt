-- ===== src/Core/JoinClient/Retrying.antt =====
-- src/core/raft.go, `joinCluster`: the attempts, and the address that they go to. `retry.Do` is the
-- parameter, with what its documentation says.
use skiffdb.Prelude.{
  ℕ, ◌+◌, ◌*◌, ◌/◌, some, ◌≡◌, refl, ◌∙◌, subst, Bool, true, false, not, if◌then◌else◌, Bytes,
}
use skiffdb.Core.Config.{Config, get_raft_id, get_raft_advertise_addr}
use skiffdb.Proto.{ProtoCluster, success}
use skiffdb.Core.JoinClient.{
  Reply, answered, Attempt, joined, promotion_pending, internal_error, unrecoverable,
  not_leader_error, read_join_reply, send_request, on_retry,
}
use skiffdb.Core.JoinClient.Voter.{HasVoter, read_join_reply-HasVoter}

-- `raftJoinRetryInterval` and `raftJoinPromotionTimeout`, in milliseconds, and the number of attempts.
abbrev pub raft_join_retry_interval : ℕ
raft_join_retry_interval = 200

abbrev pub raft_join_promotion_timeout : ℕ
raft_join_promotion_timeout = 30 * 1000

abbrev pub join_attempts : ℕ
join_attempts = raft_join_promotion_timeout / raft_join_retry_interval + 1

-- The network and the node as the joining process sees them: which addresses get a client, the service
-- behind an address, and `raft.AppliedIndex()`.
pub record Network : Type 1 where
  pub State : Type 0
  pub connects : Bytes → Bool
  pub rpc : Bytes → State → Bytes → Bytes → ℕ → Reply × State
  pub applied_index : State → ℕ

-- The states in which the attempts `f` may be made, with `g` behind a failed one.
pub data Tries {W : Type 0} (f : W → Attempt × W) (g : Attempt → W → W) (w : W) : W → Type 0 where
  first : Tries f g w w
  again : {v : W} → Tries f g w v → Tries f g w (g (f v).0 (f v).1)

-- `retry.Do` makes attempts up to a number, with the call of `OnRetry` behind a failed one, and returns
-- nil only if one of them succeeds.
pub record RetryDo (W : Type 0) : Type 0 where
  pub retry_do : ℕ → (W → Attempt × W) → (Attempt → W → W) → W → Bool × W
  pub succeeds :
      (n : ℕ) (f : W → Attempt × W) (g : Attempt → W → W) (w : W)
      → (retry_do n f g w).0 ≡ true
      → (v : W) × Tries f g w v × ((f v).0 ≡ joined)

module _ (N : Network) where
  -- One call of `sendRequest`, at the address that the configuration holds then.
  unfoldable pub send : Config × N.State → Attempt × (Config × N.State)
  send (config, s) =
      let (attempt, s') =
        send_request config (N.connects config.join_addr) (N.rpc config.join_addr) s
          (N.applied_index s) in
      (attempt, (config, s'))

  unfoldable pub redirect : Attempt → Config × N.State → Config × N.State
  redirect attempt (config, s) = (on_retry attempt config, s)

  -- `joinCluster`; `true` is a nil error.
  unfoldable pub join_cluster :
      RetryDo (Config × N.State) → Config → N.State → Bool × (Config × N.State)
  join_cluster r config s = r.retry_do join_attempts send redirect (config, s)

  on_retry_id :
      (a : Attempt) (config : Config) → get_raft_id (on_retry a config) ≡ get_raft_id config
  unfolding on_retry get_raft_id
  on_retry_id joined config = refl
  on_retry_id promotion_pending config = refl
  on_retry_id internal_error config = refl
  on_retry_id unrecoverable config = refl
  on_retry_id (not_leader_error addr) config = refl

  Tries-id : (w v : Config × N.State) → Tries send redirect w v → get_raft_id v.0 ≡ get_raft_id w.0
  unfolding send redirect
  Tries-id w v first = refl
  Tries-id w v (again {v = u} t) = on_retry_id (send u).0 u.0 ∙ Tries-id w u t

  -- A service has answered with success, at the address of the state, and says that the node votes.
  abbrev pub Confirmed : Bytes → Config × N.State → Type 0
  Confirmed id (config, s) =
      (cluster : ProtoCluster) × ((N.rpc config.join_addr s id (get_raft_advertise_addr config)
          (N.applied_index s)).0
        ≡ answered success (some cluster))
      × HasVoter id cluster.members

  connected :
      (b : Bool) (config : Config) (s : N.State) (reply : Reply × N.State)
      → (let r : Attempt × N.State =
            if not b then (internal_error, s) else (read_join_reply config reply.0, reply.1) in
          r.0 ≡ joined)
      → (cluster : ProtoCluster) × (reply.0 ≡ answered success (some cluster))
        × HasVoter (get_raft_id config) cluster.members
  connected true config s reply h = read_join_reply-HasVoter config reply.0 h
  connected false config s reply h = cc

  send-Confirmed : (v : Config × N.State) → (send v).0 ≡ joined → Confirmed (get_raft_id v.0) v
  unfolding send send_request
  send-Confirmed (config, s) h = connected (N.connects config.join_addr) config s _ h

  -- If joining the cluster returns without an error, then one of the processes that the node has asked, at
  -- the address of `--join` or at one that it was redirected to, has answered with success and with the
  -- node's own identity as that of a voter.
  pub join_cluster-Confirmed :
      (r : RetryDo (Config × N.State)) (config : Config) (s : N.State)
      → (join_cluster r config s).0 ≡ true
      → (v : Config × N.State) × Tries send redirect (config, s) v
        × Confirmed (get_raft_id config) v
  unfolding join_cluster
  join_cluster-Confirmed r config s h =
      let (v, tries, done) = r.succeeds join_attempts send redirect (config, s) h in
      (
        v,
        tries,
        subst (λ id. Confirmed id v) (Tries-id (config, s) v tries) (send-Confirmed v done),
      )
