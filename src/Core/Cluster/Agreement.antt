-- ===== src/Core/Cluster/Agreement.antt =====
-- Nodes of a cluster that have applied as much hold the same pairs.
use skiffdb.Prelude.{ℕ, List, [], ◌∷◌, ◌++◌, ◌≡◌, refl, sym, ap, ◌∙◌, append_assoc, append-nil}
use skiffdb.Core.MemDb
use skiffdb.Core.Executor.SameView.{SameView}
use skiffdb.Core.Fsm.{CmdJson}
use skiffdb.Core.Fsm.Recovery.{SnapshotJson}
use skiffdb.Core.Cluster.{
  Cluster, Step, write, announce, apply_entry, persist_snapshot, restart, install_snapshot, Reach,
  here, next, start, db_after,
}
use skiffdb.Core.Cluster.Entries.{db_after-append}
use skiffdb.Core.Cluster.Views.{Reach-Valid}

module _ (J : CmdJson) (S : SnapshotJson) where
  step_grown :
      {c d : Cluster J S} → Step J S c d → (more : List J.Payload) × (d.log ≡ c.log ++ more)
  step_grown (write c cmd x w e) = (x ∷ [], refl)
  step_grown (announce c i x e) = (x ∷ [], refl)
  step_grown (apply_entry c i x e) = ([], sym (append-nil c.log))
  step_grown (persist_snapshot c i pairs encoded closed payload bytes r p e) =
      ([], sym (append-nil c.log))
  step_grown (restart c i) = ([], sym (append-nil c.log))
  step_grown (install_snapshot c i j k bytes e) = ([], sym (append-nil c.log))

  Reach-trans : {b c d : Cluster J S} → Reach J S b c → Reach J S c d → Reach J S b d
  Reach-trans r here = r
  Reach-trans r (next q st) = next (Reach-trans r q) st

  -- Two states of a run, one behind the other: the log has only grown.
  grown : {c d : Cluster J S} → Reach J S c d → (more : List J.Payload) × (d.log ≡ c.log ++ more)
  grown {c} here = ([], sym (append-nil c.log))
  grown {c} (next r st) =
      let (more, e) = grown r in
      let (added, f) = step_grown st in
      (more ++ added, f ∙ ap (λ l. l ++ added) e ∙ append_assoc c.log more added)

  -- In any run of the cluster, with any crashes, restarts and snapshots, two nodes hold the same pairs
  -- whenever they have applied the same number of entries, one in an earlier state and one in a later
  -- state or the same.
  pub replicas_agree :
      {c d : Cluster J S}
      → Reach J S (start J S) c
      → Reach J S c d
      → (i j : ℕ) → (c.nodes i).applied ≡ (d.nodes j).applied
      → SameView (c.nodes i).process.db (d.nodes j).process.db
  replicas_agree {c} {d} r later i j same k =
      let (more, e) = grown later in
      let early = (Reach-Valid J S r).nodes i in
      let late = (Reach-Valid J S (Reach-trans r later)).nodes j in
      let one : MemDb.get (db_after J c.log (c.nodes i).applied) k
          ≡ MemDb.get (db_after J d.log (d.nodes j).applied) k =
        ap (λ db. MemDb.get db k)
          (sym (db_after-append J c.log more (c.nodes i).applied early.reached)
            ∙ ap (λ l. db_after J l (c.nodes i).applied) (sym e)
            ∙ ap (db_after J d.log) same) in
      early.view k ∙ one ∙ sym (late.view k)
