-- ===== src/Core/Fsm/Replication.antt =====
-- `applyCmdViaRaftNode`: the reply to the client is that of the state machine, on the command as JSON
-- carries it.
use skiffdb.Prelude.{
  none, some, [], ◌∷◌, ◌≡◌, ◌≢◌, ◌⊎◌, inl, inr, refl, ap, ◌∙◌, arith, Bytes, codes, eq_bytes_ne,
  eq_bytes_self, Option-cases,
}
use skiffdb.Go.Utf8.{coerce_utf8, coerce_utf8_ascii}
use skiffdb.Resp.Build.{ok_reply, err_internal}
use skiffdb.Core.MemDb
use skiffdb.Core.MemDb.{MemDb}
use skiffdb.Core.MemDb.Laws.{get-set}
use skiffdb.Core.Cmd.{Cmd}
use skiffdb.Core.Executor.{exec_set, execute_on_db}
use skiffdb.Core.Executor.Commands.{run-set}
use skiffdb.Core.Fsm.{
  op_leader_changed, Process, CmdJson, coerce_cmd, apply_decoded, Future, text, fsm_apply,
  IsRaftApply, apply_marshalled, apply_cmd_via_raft_node,
}

abbrev pub executed : Process → Cmd → Bytes × Process
executed p cmd =
    ((execute_on_db none p.db cmd).0, record p { db = (execute_on_db none p.db cmd).1 })

apply_decoded_cmd :
    (p : Process) (cmd : Cmd)
    → cmd.op ≢ op_leader_changed
    → apply_decoded none p (some cmd) ≡ (text (executed p cmd).0, (executed p cmd).1)
unfolding apply_decoded
apply_decoded_cmd p cmd h = rw (eq_bytes_ne cmd.op op_leader_changed h) refl

module _ (J : CmdJson) (raft_apply : Process → J.Payload → Future × Process) where
  -- A command other than `LEADER_CHANGED` that is replicated gets the internal error, or the reply that
  -- the database gives to the command as JSON carries it, and then the database is changed as that
  -- command changes it: if Raft, without an error, has applied the entry and returns its response.
  pub apply_cmd_via_raft_node_lem :
      (p : Process) (cmd : Cmd)
      → IsRaftApply J raft_apply
      → coerce_utf8 cmd.op ≢ op_leader_changed
      → ((apply_cmd_via_raft_node J raft_apply p cmd).0 ≡ err_internal)
        ⊎ (apply_cmd_via_raft_node J raft_apply p cmd ≡ executed p (coerce_cmd cmd))
  unfolding apply_cmd_via_raft_node fsm_apply
  apply_cmd_via_raft_node_lem p cmd law h = elim (Option-cases (J.marshal cmd)) [
    | inl e ↦ inl (rw (e, apply_marshalled) refl)
    | inr (payload, e) ↦ elim (law p payload) [
      | inl lost ↦ inl (rw (e, apply_marshalled) (rw lost refl))
      | inr done ↦ inr (
          rw (e, apply_marshalled)
            (rw done (
              rw (J.unmarshal-marshal cmd payload e)
                (rw (apply_decoded_cmd p (coerce_cmd cmd) h) refl))))
    ]
  ]

  -- A replicated SET gets the internal error, or it is answered with `OK` and stores the coercion to
  -- UTF-8 of its value under that of its key: if Raft, without an error, has applied the entry and returns
  -- its response.
  pub raft_set_coerces :
      (p : Process) (key value : Bytes)
      → IsRaftApply J raft_apply
      → let r =
          apply_cmd_via_raft_node J raft_apply p
            (record { op = codes "SET"; args = key ∷ value ∷ [] }) in
        (r.0 ≡ err_internal)
        ⊎ ((r.0 ≡ ok_reply) × (MemDb.get r.1.db (coerce_utf8 key) ≡ some (coerce_utf8 value)))
  raft_set_coerces p key value law =
      elim (apply_cmd_via_raft_node_lem p set_cmd law
        (rw (coerce_utf8_ascii (codes "SET") (omega arith)) (cc))) [
          | inl lost ↦ inl lost
          | inr done ↦ inr (
            ap (λ t. t.0) done ∙ ap (λ t. t.0) stored,
            ap (λ t. MemDb.get t.1.db (coerce_utf8 key)) done
                ∙ ap (λ t. MemDb.get t.1 (coerce_utf8 key)) stored
                ∙ rw get-set (rw eq_bytes_self),
          )
        ]
    where
      set_cmd : Cmd
      set_cmd = record { op = codes "SET"; args = key ∷ value ∷ [] }

      stored :
          execute_on_db none p.db (coerce_cmd set_cmd)
          ≡ (ok_reply, MemDb.set p.db (coerce_utf8 key) (coerce_utf8 value))
      stored =
          rw (coerce_utf8_ascii (codes "SET") (omega arith))
            (run-set p.db (coerce_utf8 key ∷ coerce_utf8 value ∷ []) ∙ (unfold exec_set in refl))
