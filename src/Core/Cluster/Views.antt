-- ===== src/Core/Cluster/Views.antt =====
-- Every node of a cluster holds the database of the entries that it has applied, whatever snapshots it
-- has been restored from.
use skiffdb.Prelude.{
  ℕ, ◌≤◌, Option, none, some, List, [], ◌∷◌, ◌++◌, ◌≡◌, refl, sym, ◌∙◌, subst, Bool, true, false,
  arith, Bytes, All, All-append, length, length-append, if◌then◌else◌, ◌==◌,
}
use skiffdb.Core.MemDb
use skiffdb.Core.MemDb.{MemDb, init}
use skiffdb.Core.Cmd.{Cmd}
use skiffdb.Core.Executor.SameView.{SameView}
use skiffdb.Core.Executor.Texts.{TextDb}
use skiffdb.Core.Fsm.{CmdJson, payload_of, snapshot, restore}
use skiffdb.Core.Fsm.Recovery.{persist_lem, IsRange, SnapshotJson, replay, snapshot_recovery}
use skiffdb.Core.Cluster.{
  Node, Cluster, update, restarted, installed, Step, write, announce, apply_entry, persist_snapshot,
  restart, install_snapshot, Reach, here, next, start, db_after,
}
use skiffdb.Core.Cluster.Entries.{
  Good, get_elem?-length, db_after-TextDb, db_after-append, db_after-apply,
}

SameView-trans : (a b c : MemDb) → SameView a b → SameView b c → SameView a c
SameView-trans a b c h g k = h k ∙ g k

TextDb-SameView : (a b : MemDb) → SameView a b → TextDb b → TextDb a
TextDb-SameView a b same t = record { texts = λ k v h. t.texts k v (sym (same k) ∙ h) }

module _ (J : CmdJson) (S : SnapshotJson) where
  -- A snapshot on disk covers entries of the log, and restores to the database behind them.
  abbrev pub Durable : List J.Payload → Option (ℕ × S.Data) → Type 0
  Durable log none = Unit
  Durable log (some (k, bytes)) =
      (k ≤ length log)
      × ((old : MemDb)
          → ((restore old (S.decode bytes)).0 ≡ none)
            × SameView (restore old (S.decode bytes)).1 (db_after J log k))

  pub record Consistent (log : List J.Payload) (n : Node S.Data) : Type 0 where
    pub reached : n.applied ≤ length log
    pub view : SameView n.process.db (db_after J log n.applied)
    pub durable : Durable log n.durable

  pub record Valid (c : Cluster J S) : Type 0 where
    pub entries : All (Good J) c.log
    pub nodes : (i : ℕ) → Consistent c.log (c.nodes i)

  Durable-append :
      (log : List J.Payload) (x : J.Payload) (o : Option (ℕ × S.Data))
      → Durable log o
      → Durable (log ++ x ∷ []) o
  Durable-append log x none d = tt
  Durable-append log x (some (k, bytes)) (le, restores) = (
    omega (arith, length-append log (x ∷ [])),
    λ old. (
      (restores old).0,
      subst (SameView (restore old (S.decode bytes)).1) (sym (db_after-append J log (x ∷ []) k le))
          (restores old).1,
    ),
  )

  Consistent-append :
      (log : List J.Payload) (x : J.Payload) (n : Node S.Data)
      → Consistent log n
      → Consistent (log ++ x ∷ []) n
  Consistent-append log x n v = record {
    reached = omega (arith, length-append log (x ∷ []), v.reached);
    view =
        subst (SameView n.process.db) (sym (db_after-append J log (x ∷ []) n.applied v.reached))
          v.view;
    durable = Durable-append log x n.durable v.durable;
  }

  Valid-append :
      (c : Cluster J S) (cmd : Cmd) (x : J.Payload)
      → J.marshal cmd ≡ some x
      → Valid c
      → Valid (record c { log = c.log ++ x ∷ [] })
  Valid-append c cmd x e v = record {
    entries = All-append (Good J) c.log (x ∷ []) v.entries ((cmd, J.unmarshal-marshal cmd x e), tt);
    nodes = λ i. Consistent-append c.log x (c.nodes i) (v.nodes i);
  }

  Consistent-if :
      (log : List J.Payload) (b : Bool) (n m : Node S.Data)
      → Consistent log n
      → Consistent log m
      → Consistent log (if b then n else m)
  Consistent-if log true n m hn hm = hn
  Consistent-if log false n m hn hm = hm

  Valid-update :
      (c : Cluster J S) (i : ℕ) (n : Node S.Data)
      → Consistent c.log n
      → Valid c
      → Valid (record c { nodes = update J S c.nodes i n })
  Valid-update c i n h v = record {
    entries = v.entries;
    nodes = λ j. Consistent-if c.log (i == j) n (c.nodes j) h (v.nodes j);
  }

  start-Consistent : (log : List J.Payload) → Consistent log (restarted J S none)
  start-Consistent log = record {
    reached = omega arith;
    view = λ k. unfold db_after in refl;
    durable = tt;
  }

  persisted-Durable :
      (log : List J.Payload) (n : Node S.Data) (pairs : List (Bytes × Bytes)) (bytes : S.Data)
      → All (Good J) log
      → Consistent log n
      → IsRange pairs n.process.db.keyspace
      → S.encode (payload_of (snapshot pairs)) ≡ some bytes
      → Durable log (some (n.applied, bytes))
  persisted-Durable log n pairs bytes good v r e =
      let t : TextDb n.process.db =
        TextDb-SameView n.process.db _ v.view (db_after-TextDb J log n.applied good) in
      (
        v.reached,
        λ old.
            let (done, same) =
              snapshot_recovery S n.process.db old pairs bytes [] r
                (λ k v h. t.texts k v (unfold MemDb.get in h)) e in
            (done, unfold replay in SameView-trans _ n.process.db _ same v.view),
      )

  restarted-Consistent :
      (log : List J.Payload) (o : Option (ℕ × S.Data))
      → Durable log o
      → Consistent log (restarted J S o)
  restarted-Consistent log none d = start-Consistent log
  restarted-Consistent log (some (k, bytes)) d = record {
    reached = d.0;
    view = (d.1 init).1;
    durable = d;
  }

  installed-Consistent :
      (log : List J.Payload) (n : Node S.Data) (o : Option (ℕ × S.Data)) (k : ℕ) (bytes : S.Data)
      → o ≡ some (k, bytes)
      → Durable log o
      → Consistent log (installed J S n k bytes)
  installed-Consistent log n o k bytes e h =
      let d : Durable log (some (k, bytes)) = subst (Durable log) e h in
      record { reached = d.0; view = (d.1 n.process.db).1; durable = d }

  Step-Valid : {c d : Cluster J S} → Step J S c d → Valid c → Valid d
  Step-Valid (write c cmd x w e) v = Valid-append c cmd x e v
  Step-Valid (announce c i x e) v = Valid-append c _ x e v
  Step-Valid (apply_entry c i x e) v =
      let n = v.nodes i in
      Valid-update c i _
        (record {
          reached = omega (arith, get_elem?-length (c.nodes i).applied c.log x e);
          view = db_after-apply J c.log (c.nodes i).applied x (c.nodes i).process e n.view;
          durable = n.durable;
        })
        v
  Step-Valid (persist_snapshot c i pairs encoded closed payload bytes r p e) v =
      let n = v.nodes i in
      Valid-update c i _
        (record {
          reached = n.reached;
          view = n.view;
          durable = persisted-Durable c.log (c.nodes i) pairs bytes v.entries n r (
              subst (λ q. S.encode q ≡ some bytes)
                (persist_lem (snapshot pairs) encoded closed payload p) e);
        })
        v
  Step-Valid (restart c i) v =
      Valid-update c i _ (restarted-Consistent c.log (c.nodes i).durable (v.nodes i).durable) v
  Step-Valid (install_snapshot c i j k bytes e) v =
      Valid-update c i _
        (installed-Consistent c.log (c.nodes i) (c.nodes j).durable k bytes e (v.nodes j).durable) v

  -- In every state that the cluster reaches, with any crashes, restarts and snapshots, a node holds the
  -- database of the entries that it has applied, and its snapshot restores to the database behind the
  -- entries that it covers.
  pub Reach-Valid : {c : Cluster J S} → Reach J S (start J S) c → Valid c
  Reach-Valid here = record { entries = tt; nodes = λ i. start-Consistent [] }
  Reach-Valid (next r st) = Step-Valid st (Reach-Valid r)
