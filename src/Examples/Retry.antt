-- ===== src/Examples/Retry.antt =====
-- An example of joining at the second attempt, behind a redirection.
use skiffdb.Prelude.{
  ℕ, zero, suc, some, ◌≡◌, refl, Bool, true, false, Bytes, codes, eq_bytes, if◌then◌else◌,
}
use skiffdb.Go.Strings.{trim_space}
use skiffdb.Core.Config.{Config, get_raft_id}
use skiffdb.Proto.{success, code_not_leader, empty_cluster}
use skiffdb.Core.JoinClient.{
  answered, Attempt, joined, promotion_pending, internal_error, unrecoverable, not_leader_error,
  send_request, read_join_reply, own_result, on_retry, role_result,
}
use skiffdb.Core.JoinClient.Retrying.{
  Network, send, redirect, Tries, first, again, RetryDo, Confirmed, join_cluster,
  join_cluster-Confirmed,
}
use skiffdb.Examples.Joining.{joiner, report}

abbrev is_joined : Attempt → Bool
is_joined joined = true
is_joined promotion_pending = false
is_joined internal_error = false
is_joined unrecoverable = false
is_joined (not_leader_error addr) = false

is_joined-joined : (a : Attempt) → is_joined a ≡ true → a ≡ joined
is_joined-joined joined h = refl
is_joined-joined promotion_pending h = cc
is_joined-joined internal_error h = cc
is_joined-joined unrecoverable h = cc
is_joined-joined (not_leader_error addr) h = cc

module _ {W : Type 0} (f : W → Attempt × W) (g : Attempt → W → W) where
  -- Attempts until one succeeds.
  unfoldable loop : ℕ → W → Bool × W
  loop zero w = (false, w)
  loop (suc n) w =
      let rest = loop n (g (f w).0 (f w).1) in if is_joined (f w).0 then (true, (f w).1) else rest

  abbrev Found : W → Type 0
  Found w = (v : W) × Tries f g w v × ((f v).0 ≡ joined)

  tested :
      (b : Bool) (start w : W) (rest : Bool × W)
      → Tries f g start w
      → is_joined (f w).0 ≡ b
      → (rest.0 ≡ true → Found start)
      → (let r : Bool × W = if b then (true, (f w).1) else rest in r.0 ≡ true)
      → Found start
  tested true start w rest t e h k = (w, t, is_joined-joined _ e)
  tested false start w rest t e h k = h k

  loop-Found : (n : ℕ) (start w : W) → Tries f g start w → (loop n w).0 ≡ true → Found start
  unfolding loop
  loop-Found zero start w t h = cc
  loop-Found (suc n) start w t h =
      tested (is_joined (f w).0) start w _ t refl (loop-Found n start (g (f w).0 (f w).1) (again t))
        h

abbrev leader : Bytes
leader = codes "10.0.0.1:7100"

abbrev network : Network
network = record {
  State = Unit {0};
  connects = λ addr. true;
  rpc = λ addr s id own applied.
      if eq_bytes addr leader then (answered success (some report), s) else (
        answered code_not_leader (some (record empty_cluster { leader_admin_addr = leader })),
        s,
      );
  applied_index = λ s. 0;
}

abbrev World : Type 0
World = Config × Unit {0}

abbrev retry : RetryDo World
retry = record {
  retry_do = λ n f g w. loop f g n w;
  succeeds = λ n f g w h. loop-Found f g n w w first h;
}

abbrev asks_follower : Config
asks_follower = record joiner { join_addr = codes "10.0.0.3:7100" }

joins : (join_cluster network retry asks_follower tt).0 ≡ true
unfolding join_cluster loop send redirect send_request read_join_reply own_result role_result
    on_retry get_raft_id trim_space eq_bytes
joins = refl

join_cluster-Confirmed_example :
    (v : World) × Tries (send network) (redirect network) (asks_follower, tt) v
    × Confirmed network (get_raft_id asks_follower) v
join_cluster-Confirmed_example = join_cluster-Confirmed network retry asks_follower tt joins
