-- ===== src/Core/Startup/Local.antt =====
-- A start that succeeds: the node is listed in a configuration that was read.
use skiffdb.Prelude.{
  if◌then◌else◌, Option, none, some, [], ◌≡◌, inl, inr, refl, ap, sym, ◌∙◌, subst, ◌&&◌, Bool, true,
  false, not, Bytes,
}
use skiffdb.Core.Calls.{
  Op, bootstrap_cluster, join_cluster, wait_for_configuration, persist_identity, and_then,
}
use skiffdb.Core.Calls.Trace.{if_cases, attempt_cases, if_result, attempt_result}
use skiffdb.Core.Config.{Config, get_raft_id}
use skiffdb.Core.Identity.{RaftIdentity, resolve_raft_identity}
use skiffdb.Core.Identity
use skiffdb.Core.Storage.Open.{RaftStores}
use skiffdb.Core.Node.{RaftNode, create_new_cluster}
use skiffdb.Core.Storage.Open.{persistent_stores}
use skiffdb.Core.Storage.Open.Trace.{Persistent, new_persistent_raft_stores-Persistent}
use skiffdb.Core.Node.Trace.{Fresh, Made-Fresh, Made, init_raft_node-Made}
use skiffdb.Core.Startup.{
  Answers, Outcome, started, ignored, failed, give_up, publish_node, finish, enter, form,
  join_or_open, validated, opened, with_node, with_stores, normalized, resolved, start_raft,
  other_address, has_identity, validate_raft_startup_intent, validate_persisted_raft_configuration,
}
use skiffdb.Core.Startup.Wait.{
  Seen, validate_persisted_raft_configuration-Lists, wait_for_local_raft_configuration-Ticked,
}

module _ (config : Config) (a : Answers) (n : RaftNode) where
  -- If this is a success, then it is this node's, which has been seen.
  abbrev Local : Outcome → Type 0
  Local ignored = Unit
  Local failed = Unit
  Local (started m) = (m ≡ n) × Seen config a

  give_up-Local : Local (give_up a n).0
  unfolding give_up
  give_up-Local = tt

  finish-Local : (identity : Option RaftIdentity) → Seen config a → Local (finish identity a n).0
  unfolding finish publish_node
  finish-Local (some identity) seen = (refl, seen)
  finish-Local none seen = attempt_result Local _ persist_identity _ _ (refl, seen) give_up-Local

  form-Local : (identity : Option RaftIdentity) (op : Op) → Local (form config identity a n op).0
  unfolding form enter
  form-Local identity op =
      attempt_result Local _ op _ _
        (attempt_cases Local _ wait_for_configuration _ _
          (λ waited.
            let (servers, tick, lists) =
              wait_for_local_raft_configuration-Ticked config a.ticks waited in
            finish-Local identity (servers, inr tick, lists))
          (λ late. give_up-Local))
        give_up-Local

  join_or_open-Local :
      (identity : Option RaftIdentity) (initialized : Bool)
      → validate_persisted_raft_configuration a.configuration config ≡ some initialized
      → Local (join_or_open config identity initialized a n).0
  unfolding join_or_open
  join_or_open-Local identity initialized e =
      if_result Local (has_identity identity && not initialized) _ _ give_up-Local (
        if_result Local (not (validate_raft_startup_intent config initialized)) _ _ give_up-Local (
          if_cases Local initialized _ _
            (λ old.
              let (servers, read, lists) =
                validate_persisted_raft_configuration-Lists a.configuration config
                  (e ∙ ap some old) in
              finish-Local identity (servers, inl read, lists))
            (λ new.
              if_result Local config.bootstrap _ _
                (form-Local identity (bootstrap_cluster (create_new_cluster n)))
                (form-Local identity join_cluster))))

  validated-Local :
      (identity : Option RaftIdentity) (v : Option Bool)
      → validate_persisted_raft_configuration a.configuration config ≡ v
      → Local (validated config identity a n v).0
  unfolding validated
  validated-Local identity none e = give_up-Local
  validated-Local identity (some initialized) e = join_or_open-Local identity initialized e

  opened-Local : (identity : Option RaftIdentity) → Local (opened config identity a n).0
  unfolding opened
  opened-Local identity =
      if_result Local (other_address identity config) _ _ give_up-Local
        (validated-Local identity _ refl)

-- The node has the identity of the configuration, and a configuration that has been read lists it under
-- this identity and the address of its transport.
abbrev pub SeenAt : Config → Answers → RaftNode → Type 0
SeenAt config a n =
    Fresh n
    × (n.local_id ≡ get_raft_id config)
    × Seen (record config { raft_advertise_addr = n.local_addr }) a

abbrev IfStarted : (RaftNode → Type 0) → Outcome → Type 0
IfStarted P ignored = Unit
IfStarted P failed = Unit
IfStarted P (started n) = P n

Local-SeenAt :
    (config : Config) (a : Answers) (n : RaftNode) (o : Outcome)
    → Fresh n
    → n.local_id ≡ get_raft_id config
    → Local (record config { raft_advertise_addr = n.local_addr }) a n o
    → IfStarted (SeenAt config a) o
Local-SeenAt config a n ignored fresh e l = tt
Local-SeenAt config a n failed fresh e l = tt
Local-SeenAt config a n (started m) fresh e (same, seen) =
    subst (SeenAt config a) (sym same) (fresh, e, seen)

with_node-SeenAt :
    (config : Config) (identity : Option RaftIdentity) (a : Answers) (o : Option RaftNode)
    → Made a.node_answers config (some persistent_stores) o
    → IfStarted (SeenAt config a) (with_node config identity a persistent_stores o).0
unfolding with_node
with_node-SeenAt config identity a none made = tt
with_node-SeenAt config identity a (some n) made =
    Local-SeenAt config a n _ (Made-Fresh a.node_answers config n made) (ap (λ m. m.local_id) made)
      (opened-Local (record config { raft_advertise_addr = n.local_addr }) a n identity)

with_stores-SeenAt :
    (config : Config) (identity : Option RaftIdentity) (a : Answers) (o : Option RaftStores)
    → Persistent o
    → IfStarted (SeenAt config a) (with_stores config identity a o).0
unfolding with_stores and_then
with_stores-SeenAt config identity a none p = tt
with_stores-SeenAt config identity a (some stores) p =
    subst (λ s. IfStarted (SeenAt config a) (with_stores config identity a (some s)).0) (sym p)
      (with_node-SeenAt config identity a _
        (init_raft_node-Made a.node_answers config (some persistent_stores)))

normalized-SeenAt :
    (config : Config) (identity : Option RaftIdentity) (a : Answers) (o : Option Bytes)
    → IfStarted (SeenAt config a) (normalized config identity a o).0
unfolding normalized and_then get_raft_id
normalized-SeenAt config identity a none = tt
normalized-SeenAt config identity a (some addr) =
    with_stores-SeenAt (record config { raft_advertise_addr = addr }) identity a _
      (new_persistent_raft_stores-Persistent _ _ _ _)

-- The identity that the start resolves, and the node of this identity.
abbrev pub Listed : Config → Answers → RaftNode → Type 0
Listed config a n =
    (identity : Option RaftIdentity) × (config' : Config) × (resolve_raft_identity config
        a.identity_file a.raft_dir
      ≡ Identity.ok (identity, config'))
    × SeenAt config' a n

IfStarted-at :
    (P : RaftNode → Type 0) (o : Outcome) (n : RaftNode) → IfStarted P o → o ≡ started n → P n
IfStarted-at P o n h e = subst (IfStarted P) e h

resolved-Listed :
    (config : Config) (a : Answers) (r : Identity.Result (Option RaftIdentity × Config))
    (n : RaftNode)
    → resolve_raft_identity config a.identity_file a.raft_dir ≡ r
    → (resolved a r).0 ≡ started n
    → Listed config a n
unfolding resolved
resolved-Listed config a (Identity.err e) n k h = cc
resolved-Listed config a (Identity.ok (identity, config')) n k h =
    (identity, config', k, IfStarted-at _ _ n (normalized-SeenAt config' identity a _) h)

enabled-Listed :
    (enabled : Bool) (config : Config) (a : Answers) (n : RaftNode)
    → (if not enabled
        then (ignored, [])
        else resolved a (resolve_raft_identity config a.identity_file a.raft_dir)).0
      ≡ started n
    → Listed config a n
enabled-Listed false config a n h = cc
enabled-Listed true config a n h = resolved-Listed config a _ n refl h

-- A start that succeeds has resolved an identity, and starts a node of this identity that is listed
-- under it and the address of its transport in a configuration that has been read: the one in the
-- store, or one that the start waited for.
pub start_raft-Listed :
    (running : Bool) (config : Config) (a : Answers) (n : RaftNode)
    → (start_raft running config a).0 ≡ started n
    → Listed config a n
unfolding start_raft
start_raft-Listed true config a n h = cc
start_raft-Listed false config a n h = enabled-Listed config.enable_raft config a n h
