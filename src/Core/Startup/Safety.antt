-- ===== src/Core/Startup/Safety.antt =====
-- What a start never does: leave something open when it fails, or form a cluster over existing state.
use skiffdb.Prelude.{
  Option, none, some, List, [], ◌∷◌, ◌≡◌, ◌≢◌, subst, inl, inr, refl, ap, sym, ◌∙◌, arith, Bool,
  true, false, ◌&&◌, not, Bytes,
}
use skiffdb.Core.Config.{Config, set_raft_id, get_raft_advertise_addr}
use skiffdb.Core.Calls.{
  bootstrap_cluster, join_cluster, persist_identity, wait_for_configuration, Call, call,
}
use skiffdb.Core.Calls.Trace.{Held, all_held, Safe, Safe-if, attempt-Safe, and_then-Safe}
use skiffdb.Core.Identity.{RaftIdentity, IdentityFile, missing, resolve_raft_identity}
use skiffdb.Core.Identity
use skiffdb.Core.Identity.Resolve.{Resolved, resolve_raft_identity_lem}
use skiffdb.Core.Membership.{Server}
use skiffdb.Core.Storage.Open.{RaftStores, persistent_stores, close_stores}
use skiffdb.Core.Storage.Open.Trace.{
  store_held, Persistent, new_persistent_raft_stores-Safe, new_persistent_raft_stores-Persistent,
}
use skiffdb.Core.Node.{RaftNode, close, create_new_cluster, normalize_raft_advertise_addr}
use skiffdb.Core.Node.Trace.{
  Fresh, Made-Fresh, store_only, node_held, Made, init_raft_node-Safe, init_raft_node-Made,
  close-new_node,
}
use skiffdb.Core.Startup.Calls.{Allowed, Allowed-FreeOfPlain, is_started}
use skiffdb.Core.Startup.{
  Answers, Outcome, failed, give_up, publish_node, finish, enter, form, join_or_open, validated,
  opened, with_node, with_stores, normalized, resolved, start_raft, find_local,
  validate_persisted_raft_configuration, validate_raft_startup_intent, other_address, has_identity,
}

-- No identity stands in the directory, if the start goes on without one.
abbrev Known : Answers → Option RaftIdentity → Type 0
Known a identity = identity ≡ none → a.identity_file ≡ missing

-- What an outcome leaves open: all, or nothing.
abbrev pub outcome_held : Outcome → Held
outcome_held o = all_held (is_started o)

find_local_true :
    (servers : List Server) (id addr : Bytes) → find_local servers id addr ≢ some false
unfolding find_local
find_local_true [] id addr h = cc
find_local_true (s ∷ servers) id addr h = ground (arith, find_local_true servers id addr)

-- Only an empty configuration counts as no configuration.
validate_persisted_raft_configuration-false :
    (c : Option (List Server)) (config : Config)
    → validate_persisted_raft_configuration c config ≡ some false
    → c ≡ some []
unfolding validate_persisted_raft_configuration
validate_persisted_raft_configuration-false none config h = cc
validate_persisted_raft_configuration-false (some []) config h = refl
validate_persisted_raft_configuration-false (some (s ∷ servers)) config h =
    elim (find_local_true (s ∷ servers) _ _ h) [ ]

module _ (bootstrap : Bool) (a : Answers) (n : RaftNode) (fresh : Fresh n) where
  abbrev P : Call → Type 0
  P = Allowed bootstrap a

  give_up-Safe : Safe P (all_held true) outcome_held (give_up a n)
  unfolding give_up
  give_up-Safe =
      let e =
        ap (λ m. (close a.node_answers.fails m).1) fresh
        ∙ close-new_node a.node_answers.fails n.local_id n.local_addr n.had_existing_state in
      subst (λ l. Safe P (all_held true) outcome_held (failed, l)) (sym e)
        (record { kept = refl; allowed = (tt, (tt, (tt, tt))) })

  publish_node-Safe : Safe P (all_held true) outcome_held (publish_node n)
  unfolding publish_node
  publish_node-Safe = record { kept = refl; allowed = (tt, tt) }

  finish-Safe :
      (identity : Option RaftIdentity)
      → Known a identity
      → Safe P (all_held true) outcome_held (finish identity a n)
  unfolding finish
  finish-Safe (some identity) known = publish_node-Safe
  finish-Safe none known =
      attempt-Safe P outcome_held (all_held true) _ persist_identity _ _ (known refl) (known refl)
        (λ t. publish_node-Safe) (λ t. give_up-Safe)

  enter-Safe :
      (config : Config) (identity : Option RaftIdentity)
      → Known a identity
      → Safe P (all_held true) outcome_held (enter config identity a n)
  unfolding enter
  enter-Safe config identity known =
      attempt-Safe P outcome_held (all_held true) _ wait_for_configuration _ _ tt tt
        (λ t. finish-Safe identity known) (λ t. give_up-Safe)

  join_or_open-Safe :
      (config : Config) (identity : Option RaftIdentity) (initialized : Bool)
      → config.bootstrap ≡ bootstrap
      → (initialized ≡ false → a.configuration ≡ some [])
      → Known a identity
      → Safe P (all_held true) outcome_held (join_or_open config identity initialized a n)
  unfolding join_or_open form
  join_or_open-Safe config identity initialized b empty known =
      Safe-if P outcome_held (all_held true) (has_identity identity && not initialized) _ _
        (λ t. give_up-Safe)
        (λ t.
          Safe-if P outcome_held (all_held true)
            (not (validate_raft_startup_intent config initialized)) _ _ (λ u. give_up-Safe)
            (λ u.
              Safe-if P outcome_held (all_held true) initialized _ _
                (λ old. finish-Safe identity known)
                (λ new.
                  Safe-if P outcome_held (all_held true) config.bootstrap _ _
                    (λ asked.
                      let p : P (call (bootstrap_cluster (create_new_cluster n)) true) =
                        (sym b ∙ asked, empty new, (n.local_id, n.local_addr, refl)) in
                      attempt-Safe P outcome_held (all_held true) _
                        (bootstrap_cluster (create_new_cluster n)) _ _ p p
                        (λ v. enter-Safe config identity known) (λ v. give_up-Safe))
                    (λ other.
                      let p : P (call join_cluster true) = (sym b ∙ other, empty new) in
                      attempt-Safe P outcome_held (all_held true) _ join_cluster _ _ p p
                        (λ v. enter-Safe config identity known) (λ v. give_up-Safe)))))

  validated-Safe :
      (config : Config) (identity : Option RaftIdentity) (v : Option Bool)
      → config.bootstrap ≡ bootstrap
      → validate_persisted_raft_configuration a.configuration config ≡ v
      → Known a identity
      → Safe P (all_held true) outcome_held (validated config identity a n v)
  unfolding validated
  validated-Safe config identity none b e known = give_up-Safe
  validated-Safe config identity (some initialized) b e known =
      join_or_open-Safe config identity initialized b
        (λ new.
          validate_persisted_raft_configuration-false a.configuration config (e ∙ ap some new))
        known

  opened-Safe :
      (config : Config) (identity : Option RaftIdentity)
      → config.bootstrap ≡ bootstrap
      → Known a identity
      → Safe P (all_held true) outcome_held (opened config identity a n)
  unfolding opened
  opened-Safe config identity b known =
      Safe-if P outcome_held (all_held true) (other_address identity config) _ _ (λ t. give_up-Safe)
        (λ t. validated-Safe config identity _ b refl known)

module _ (a : Answers) (config : Config) (identity : Option RaftIdentity)
    (known : Known a identity) where
  with_node-Safe :
      (o : Option RaftNode)
      → Made a.node_answers config (some persistent_stores) o
      → Safe
          (Allowed config.bootstrap a)
          (node_held o)
          outcome_held
          (with_node config identity a persistent_stores o)
  unfolding with_node close_stores
  with_node-Safe none made = record { kept = refl; allowed = (tt, tt) }
  with_node-Safe (some n) made =
      opened-Safe config.bootstrap a n (Made-Fresh a.node_answers config n made)
        (record config { raft_advertise_addr = n.local_addr }) identity refl known

  with_stores-Safe :
      (o : Option RaftStores)
      → Persistent o
      → Safe
          (Allowed config.bootstrap a)
          (store_held o)
          outcome_held
          (with_stores config identity a o)
  unfolding with_stores
  with_stores-Safe none p = record { kept = refl; allowed = tt }
  with_stores-Safe (some stores) p =
      let P = Allowed config.bootstrap a in
      subst (λ s. Safe P store_only outcome_held (with_stores config identity a (some s))) (sym p)
        (and_then-Safe P store_only node_held outcome_held _ _
          (init_raft_node-Safe P (Allowed-FreeOfPlain config.bootstrap a) a.node_answers config
            (some persistent_stores))
          (with_node-Safe _ (init_raft_node-Made a.node_answers config (some persistent_stores))))

normalized-Safe :
    (config : Config) (identity : Option RaftIdentity) (a : Answers) (addr : Option Bytes)
    → Known a identity
    → Safe
        (Allowed config.bootstrap a)
        (all_held false)
        outcome_held
        (normalized config identity a addr)
unfolding normalized
normalized-Safe config identity a none known = record { kept = refl; allowed = tt }
normalized-Safe config identity a (some addr) known =
    let P = Allowed config.bootstrap a in
    let config' : Config = record config { raft_advertise_addr = addr } in
    and_then-Safe P (all_held false) store_held outcome_held _ _
      (new_persistent_raft_stores-Safe P (Allowed-FreeOfPlain config.bootstrap a)
        a.node_answers.fails a.snapshots a.snapshot_entries config')
      (with_stores-Safe a config' identity known _ (
        new_persistent_raft_stores-Persistent a.node_answers.fails a.snapshots a.snapshot_entries
          config'))

Resolved-bootstrap :
    (config config' : Config) (a : Answers) (identity : Option RaftIdentity)
    → Resolved config a.identity_file a.raft_dir identity config'
    → (config'.bootstrap ≡ config.bootstrap) × Known a identity
unfolding set_raft_id
Resolved-bootstrap config config' a (some i) (file, set, named) =
    (ap (λ c. c.bootstrap) set, λ e. cc)
Resolved-bootstrap config config' a none (file, (ids, dir, inl (id, one, named, set))) =
    (ap (λ c. c.bootstrap) set, λ e. file)
Resolved-bootstrap config config' a none (file, (ids, dir, inr (same, known))) =
    (ap (λ c. c.bootstrap) same, λ e. file)

resolved-Safe :
    (config : Config) (a : Answers) (r : Identity.Result (Option RaftIdentity × Config))
    → resolve_raft_identity config a.identity_file a.raft_dir ≡ r
    → Safe (Allowed config.bootstrap a) (all_held false) outcome_held (resolved a r)
unfolding resolved
resolved-Safe config a (Identity.err e) h = record { kept = refl; allowed = tt }
resolved-Safe config a (Identity.ok (identity, config')) h =
    let (same, known) =
      Resolved-bootstrap config config' a identity
        (resolve_raft_identity_lem config config' a.identity_file a.raft_dir identity h) in
    subst
      (λ b. Safe (Allowed b a) (all_held false) outcome_held (
        normalized config' identity a
          (normalize_raft_advertise_addr a.node_answers.resolve (get_raft_advertise_addr config'))))
      same (normalized-Safe config' identity a _ known)

-- A start that returns an error, or that Raft is not enabled for, leaves none of the store, the transport
-- and Raft open, and one that succeeds leaves them all open. A cluster is bootstrapped or joined only
-- where the local store has no cluster configuration, and the identity is written only where no file
-- holds one; bootstrapping is done only if the configuration asks for it, and with one voter, and
-- joining only if it does not.
pub start_raft-Safe :
    (running : Bool) (config : Config) (a : Answers)
    → Safe (Allowed config.bootstrap a) (all_held false) outcome_held (start_raft running config a)
unfolding start_raft
start_raft-Safe running config a =
    let P = Allowed config.bootstrap a in
    Safe-if P outcome_held (all_held false) running _ _ (λ t. record { kept = refl; allowed = tt })
      (λ t.
        Safe-if P outcome_held (all_held false) (not config.enable_raft) _ _
          (λ u. record { kept = refl; allowed = tt }) (λ u. resolved-Safe config a _ refl))
