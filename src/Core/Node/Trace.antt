-- ===== src/Core/Node/Trace.antt =====
-- Making a node: with an error, neither Raft nor its transport is left open. Closing it releases all.
use skiffdb.Prelude.{
  ◌==◌, Bytes, if◌then◌else◌, false, sym, ◌∙◌, ap, Option, none, some, [], ◌∷◌, ◌≡◌, refl, Bool,
  true, false, not, ◌||◌, Bytes,
}
use skiffdb.Core.Calls.{
  Op, inspect_state, resolve_address, new_transport, new_raft, shutdown_raft, close_transport,
  close_store, Call, closing,
}
use skiffdb.Core.Calls.Trace.{
  attempt_done, Held, all_held, FreeOfPlain, Safe, Safe-if, attempt-Safe, if_result, attempt_result,
}
use skiffdb.Core.Config.{get_raft_advertise_addr, Config, get_raft_id}
use skiffdb.Core.Storage.Open.{RaftStores, persistent_stores, close_stores}
use skiffdb.Core.Node.{
  TcpAddr, RaftNode, NodeAnswers, new_node, listening, resolved_to, init_raft_node,
  init_raft_node_with_db, close, close_once, closing_calls, stores_given,
}

abbrev pub store_only : Held
store_only = record { store = true; transport = false; raft = false }

abbrev pub node_held : Option RaftNode → Held
node_held none = store_only
node_held (some node) = all_held true

module _ (P : Call → Type 0) (free : FreeOfPlain P) (a : NodeAnswers) where
  no_node : Safe P store_only node_held (none, [])
  no_node = record { kept = refl; allowed = tt }

  listening-Safe :
      (config : Config) (stores : Option RaftStores) (addr : Option Bytes)
      → Safe P store_only node_held (listening a config stores addr)
  unfolding listening
  listening-Safe config stores none = record {
    kept = refl;
    allowed = (free new_transport false refl, tt);
  }
  listening-Safe config stores (some addr) =
      let s =
        attempt-Safe P node_held (record { store = true; transport = true; raft = false }) _
          new_raft _ _ (free new_raft true refl) (free new_raft false refl)
          (λ t. record { kept = refl; allowed = tt })
          (λ t. record { kept = refl; allowed = (free close_transport _ refl, tt) }) in
      record { kept = s.kept; allowed = (free new_transport true refl, s.allowed) }

  resolved_to-Safe :
      (config : Config) (stores : Option RaftStores) (addr : Option TcpAddr)
      → Safe P store_only node_held (resolved_to a config stores addr)
  unfolding resolved_to
  resolved_to-Safe config stores none = record {
    kept = refl;
    allowed = (free resolve_address false refl, tt);
  }
  resolved_to-Safe config stores (some addr) =
      let s = listening-Safe config stores _ in
      record { kept = s.kept; allowed = (free resolve_address true refl, s.allowed) }

  pub init_raft_node-Safe :
      (config : Config) (stores : Option RaftStores)
      → Safe P store_only node_held (init_raft_node a config stores)
  unfolding init_raft_node init_raft_node_with_db
  init_raft_node-Safe config stores =
      Safe-if P node_held store_only (not (stores_given stores) || not true) _ _ (λ t. no_node)
        (λ t.
          attempt-Safe P node_held store_only _ inspect_state _ _ (free inspect_state true refl)
            (free inspect_state false refl) (λ u. resolved_to-Safe config stores _) (λ u. no_node))

module _ (a : NodeAnswers) (config : Config) (stores : Option RaftStores) where
  -- A node that is made has this identity and these stores, and has not been closed.
  abbrev pub Made : Option RaftNode → Type 0
  Made none = Unit
  Made (some node) = node ≡ new_node (get_raft_id config) node.local_addr stores a.existing_state

  listening-Made : (addr : Option Bytes) → Made (listening a config stores addr).0
  unfolding listening
  listening-Made none = tt
  listening-Made (some addr) = attempt_result Made _ new_raft _ _ refl tt

  resolved_to-Made : (addr : Option TcpAddr) → Made (resolved_to a config stores addr).0
  unfolding resolved_to
  resolved_to-Made none = tt
  resolved_to-Made (some addr) = listening-Made _

  pub init_raft_node-Made : Made (init_raft_node a config stores).0
  unfolding init_raft_node init_raft_node_with_db
  init_raft_node-Made =
      if_result Made (not (stores_given stores) || not true) _ _ tt
        (attempt_result Made _ inspect_state _ _ (resolved_to-Made _) tt)

-- The calls of closing a node that a start has made.
pub close-new_node :
    (fails : Op → Bool) (id addr : Bytes) (existing : Bool)
    → (close fails (new_node id addr (some persistent_stores) existing)).1
      ≡ closing fails shutdown_raft ∷ closing fails close_transport ∷ closing fails close_store ∷ []
unfolding close close_once closing_calls close_stores
close-new_node fails id addr existing = refl

-- A node that has not been closed, over the stores of its directory.
abbrev pub Fresh : RaftNode → Type 0
Fresh n = n ≡ new_node n.local_id n.local_addr (some persistent_stores) n.had_existing_state

pub Made-Fresh :
    (a : NodeAnswers) (config : Config) (n : RaftNode)
    → Made a config (some persistent_stores) (some n)
    → Fresh n
Made-Fresh a config n made =
    made
    ∙ sym (
        ap (λ m. new_node m.local_id m.local_addr (some persistent_stores) m.had_existing_state)
          made)

-- A node is made if no call fails, the address resolves and the transport is bound.
pub init_raft_node-new_node :
    (a : NodeAnswers) (config : Config) (resolved : TcpAddr) (addr : Bytes)
    → ((op : Op) → a.fails op ≡ false)
    → a.resolve (get_raft_advertise_addr config) ≡ some resolved
    → a.listen config.raft_addr (if resolved.port == 0 then none else some resolved) ≡ some addr
    → (init_raft_node a config (some persistent_stores)).0
      ≡ some (new_node (get_raft_id config) addr (some persistent_stores) a.existing_state)
unfolding init_raft_node init_raft_node_with_db stores_given
init_raft_node-new_node a config resolved addr none_fails r l =
    attempt_done a.fails inspect_state _ _ _ none_fails (
      ap (λ o. (resolved_to a config (some persistent_stores) o).0) r
      ∙ (unfold resolved_to in ap (λ o. (listening a config (some persistent_stores) o).0) l)
      ∙ (unfold listening in attempt_done a.fails new_raft _ _ _ none_fails refl))
