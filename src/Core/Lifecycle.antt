-- ===== src/Core/Lifecycle.antt =====
-- src/core/raft.go: `raftNode`, which `StartRaft` sets and `ShutdownRaft` clears, over any sequence of
-- their calls. A start that fails leaves it as it is.
use skiffdb.Prelude.{
  Option, none, some, List, [], ◌∷◌, ◌++◌, ◌≡◌, refl, ap, sym, ◌∙◌, subst, Bool, true, false,
}
use skiffdb.Core.Calls.{Op, Call}
use skiffdb.Core.Calls.Trace.{all_held, left_held, left_held-append}
use skiffdb.Core.Config.{Config}
use skiffdb.Core.Node.{RaftNode, close, shutdown_raft_node}
use skiffdb.Core.Node.Trace.{Fresh, close-new_node}
use skiffdb.Core.Startup.{Answers, Outcome, ignored, started, failed, start_raft}
use skiffdb.Core.Startup.Safety.{outcome_held, start_raft-Safe}
use skiffdb.Core.Startup.Local.{start_raft-Listed}

pub data Action : Type 0 where
  start : Config → Answers → Action
  shutdown : (Op → Bool) → Action

abbrev pub is_running : Option RaftNode → Bool
is_running none = false
is_running (some n) = true

set_node : Option RaftNode → Outcome → Option RaftNode
set_node now ignored = now
set_node now failed = now
set_node now (started n) = some n

act : Option RaftNode → Action → Option RaftNode × List Call
unfolding set_node
act now (start config a) =
    let (outcome, made) = start_raft (is_running now) config a in (set_node now outcome, made)
act now (shutdown fails) = shutdown_raft_node fails now

unfoldable pub lifecycle : Option RaftNode → List Action → Option RaftNode × List Call
unfolding act
lifecycle now [] = (now, [])
lifecycle now (action ∷ actions) =
    let (next, made) = act now action in
    let (last, rest) = lifecycle next actions in (last, made ++ rest)

-- A node that runs has not been closed.
abbrev pub FreshIf : Option RaftNode → Type 0
FreshIf none = Unit
FreshIf (some n) = Fresh n

-- What the calls leave open is what the node holds.
record Kept (now next : Option RaftNode) (made : List Call) : Type 0 where
  held : left_held (all_held (is_running now)) made ≡ all_held (is_running next)
  fresh : FreshIf next

started-Kept :
    (config : Config) (a : Answers) (o : Outcome)
    → (start_raft false config a).0 ≡ o
    → Kept none (set_node none o) (start_raft false config a).1
unfolding set_node
started-Kept config a ignored e = record {
  held = (start_raft-Safe false config a).kept ∙ ap outcome_held e;
  fresh = tt;
}
started-Kept config a failed e = record {
  held = (start_raft-Safe false config a).kept ∙ ap outcome_held e;
  fresh = tt;
}
started-Kept config a (started n) e =
    let (identity, config', known, (fresh, id, seen)) = start_raft-Listed false config a n e in
    record { held = (start_raft-Safe false config a).kept ∙ ap outcome_held e; fresh = fresh }

shutdown-Kept : (fails : Op → Bool) (n : RaftNode) → Fresh n → Kept (some n) none (close fails n).1
shutdown-Kept fails n fresh =
    subst (Kept (some n) none)
      (sym (
        ap (λ m. (close fails m).1) fresh
        ∙ close-new_node fails n.local_id n.local_addr n.had_existing_state))
      (record { held = refl; fresh = tt })

act-Kept :
    (now : Option RaftNode) (action : Action)
    → FreshIf now
    → Kept now (act now action).0 (act now action).1
unfolding act start_raft shutdown_raft_node set_node
act-Kept none (start config a) fresh = started-Kept config a _ refl
act-Kept (some n) (start config a) fresh = record { held = refl; fresh = fresh }
act-Kept none (shutdown fails) fresh = record { held = refl; fresh = tt }
act-Kept (some n) (shutdown fails) fresh = shutdown-Kept fails n fresh

lifecycle-Kept :
    (now : Option RaftNode) (actions : List Action)
    → FreshIf now
    → Kept now (lifecycle now actions).0 (lifecycle now actions).1
unfolding lifecycle
lifecycle-Kept now [] fresh = record { held = refl; fresh = fresh }
lifecycle-Kept now (action ∷ actions) fresh =
    let k = act-Kept now action fresh in
    let l = lifecycle-Kept (act now action).0 actions k.fresh in
    record {
      held =
          left_held-append (all_held (is_running now)) (act now action).1 _
          ∙ ap (λ h. left_held h (lifecycle (act now action).0 actions).1) k.held
          ∙ l.held;
      fresh = l.fresh;
    }

-- Over any sequence of starts and shutdowns, with any failures, the store, the transport and Raft are
-- all open while a node runs, and none of them is while none runs.
pub lifecycle_held :
    (actions : List Action)
    → left_held (all_held false) (lifecycle none actions).1
      ≡ all_held (is_running (lifecycle none actions).0)
lifecycle_held actions = (lifecycle-Kept none actions tt).held
