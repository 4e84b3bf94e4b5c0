-- ===== src/Core/Cluster/LeaderAddr.antt =====
-- The address that followers give for the leader: what `OpLeaderChanged` makes of it in a cluster.
use mathlib.Core.Option.{some-injective}
use skiffdb.Prelude.{
  Option, subst, eq_bytes_self, zero, ℕ, suc, none, some, List, [], ◌∷◌, ◌≡◌, ◌≢◌, refl, ◌∙◌, Bool,
  true, false, arith, codes, eq_bytes_ne, eq_bytes_iff, get_elem?, All, All-append, if◌then◌else◌,
  ◌==◌,
}
use skiffdb.Go.Utf8.{coerce_utf8, coerce_utf8_ascii}
use skiffdb.Core.Cmd.{Cmd, is_write_op}
use skiffdb.Core.Fsm.Recovery.{SnapshotJson}
use skiffdb.Core.Cluster.{
  leader_changed_cmd, Node, Cluster, restarted, Step, write, announce, apply_entry,
  persist_snapshot, restart, install_snapshot, Reach, here, next, start,
}
use skiffdb.Core.Fsm.{op_leader_changed, Process, CmdJson, coerce_cmd, apply_decoded, fsm_apply}

module _ (J : CmdJson) (S : SnapshotJson) where
  -- The entry does not set an address other than the empty one.
  abbrev Harmless : J.Payload → Type 0
  Harmless payload =
      (p : Process)
      → p.leader_admin_addr ≡ []
      → (fsm_apply J none p payload).1.leader_admin_addr ≡ []

  pub record NoAddr (c : Cluster J S) : Type 0 where
    pub entries : All Harmless c.log
    pub addrs : (i : ℕ) → (c.nodes i).process.leader_admin_addr ≡ []

pub write_op_ne : (cmd : Cmd) → is_write_op cmd ≡ true → coerce_utf8 cmd.op ≢ op_leader_changed
unfolding is_write_op
write_op_ne cmd h e = ground (
  arith,
  eq_bytes_iff cmd.op (codes "SET"),
  eq_bytes_iff cmd.op (codes "DEL"),
  eq_bytes_iff cmd.op (codes "INCR"),
  eq_bytes_iff cmd.op (codes "DECR"),
  eq_bytes_iff cmd.op (codes "INCRBY"),
  coerce_utf8_ascii (codes "SET") (omega arith),
  coerce_utf8_ascii (codes "DEL") (omega arith),
  coerce_utf8_ascii (codes "INCR") (omega arith),
  coerce_utf8_ascii (codes "DECR") (omega arith),
  coerce_utf8_ascii (codes "INCRBY") (omega arith),
)

node_if :
    {Data : Type 0} (b : Bool) (n m : Node Data)
    → n.process.leader_admin_addr ≡ []
    → m.process.leader_admin_addr ≡ []
    → (if b then n else m).process.leader_admin_addr ≡ []
node_if true n m hn hm = hn
node_if false n m hn hm = hm

other_addr :
    (p : Process) (cmd : Cmd)
    → cmd.op ≢ op_leader_changed
    → (apply_decoded none p (some cmd)).1.leader_admin_addr ≡ p.leader_admin_addr
unfolding apply_decoded
other_addr p cmd h = rw (eq_bytes_ne cmd.op op_leader_changed h) refl

module _ (J : CmdJson) (S : SnapshotJson) where
  write-Harmless :
      (cmd : Cmd) (payload : J.Payload)
      → is_write_op cmd ≡ true
      → J.marshal cmd ≡ some payload
      → Harmless J S payload
  unfolding fsm_apply
  write-Harmless cmd payload w e p h =
      rw (J.unmarshal-marshal cmd payload e) (other_addr p (coerce_cmd cmd) (write_op_ne cmd w) ∙ h)

  announce-Harmless :
      (q : Process) (payload : J.Payload)
      → q.leader_admin_addr ≡ []
      → J.marshal (leader_changed_cmd q) ≡ some payload
      → Harmless J S payload
  unfolding fsm_apply leader_changed_cmd apply_decoded coerce_utf8
  announce-Harmless q payload empty e p h = rw (J.unmarshal-marshal _ payload e) (
      rw (coerce_utf8_ascii op_leader_changed (omega arith), eq_bytes_self op_leader_changed, empty)
        refl)

  Harmless-get_elem? :
      (log : List J.Payload) (i : ℕ) (payload : J.Payload)
      → All (Harmless J S) log
      → get_elem? log i ≡ some payload
      → Harmless J S payload
  Harmless-get_elem? [] i payload all e = cc
  Harmless-get_elem? (x ∷ log) zero payload all e =
      subst (Harmless J S) (some-injective x payload e) all.0
  Harmless-get_elem? (x ∷ log) (suc i) payload all e = Harmless-get_elem? log i payload all.1 e

  restarted-addr :
      (durable : Option (ℕ × S.Data)) → (restarted J S durable).process.leader_admin_addr ≡ []
  restarted-addr none = refl
  restarted-addr (some (k, bytes)) = refl

  Step-NoAddr : {c d : Cluster J S} → Step J S c d → NoAddr J S c → NoAddr J S d
  Step-NoAddr (write c cmd payload w e) v = record {
    entries =
        All-append (Harmless J S) c.log (payload ∷ []) v.entries
          (write-Harmless cmd payload w e, tt);
    addrs = v.addrs;
  }
  Step-NoAddr (announce c i payload e) v = record {
    entries =
        All-append (Harmless J S) c.log (payload ∷ []) v.entries
          (announce-Harmless (c.nodes i).process payload (v.addrs i) e, tt);
    addrs = v.addrs;
  }
  Step-NoAddr (apply_entry c i payload e) v = record {
    entries = v.entries;
    addrs = λ j.
        node_if (i == j) _ (c.nodes j)
          (Harmless-get_elem? c.log (c.nodes i).applied payload v.entries e (c.nodes i).process
            (v.addrs i))
          (v.addrs j);
  }
  Step-NoAddr (persist_snapshot c i pairs encoded closed payload bytes r p e) v = record {
    entries = v.entries;
    addrs = λ j. node_if (i == j) _ (c.nodes j) (v.addrs i) (v.addrs j);
  }
  Step-NoAddr (restart c i) v = record {
    entries = v.entries;
    addrs = λ j. node_if (i == j) _ (c.nodes j) (restarted-addr (c.nodes i).durable) (v.addrs j);
  }
  Step-NoAddr (install_snapshot c i j k bytes e) v = record {
    entries = v.entries;
    addrs = λ l. node_if (i == l) _ (c.nodes l) (v.addrs i) (v.addrs l);
  }

  Reach-NoAddr : {c d : Cluster J S} → NoAddr J S c → Reach J S c d → NoAddr J S d
  Reach-NoAddr v here = v
  Reach-NoAddr v (next r st) = Step-NoAddr st (Reach-NoAddr v r)

  -- In no state that the cluster reaches does a node know an address of the leader: what the leader
  -- announces is the address that it has itself been told, and no node ever sets its own.
  pub leader_admin_addr_empty :
      {c : Cluster J S}
      → Reach J S (start J S) c
      → (i : ℕ) → (c.nodes i).process.leader_admin_addr ≡ []
  leader_admin_addr_empty r i =
      (Reach-NoAddr (record { entries = tt; addrs = λ j. refl }) r).addrs i
