-- ===== src/Examples/Replica.antt =====
-- Examples of replication: a JSON that carries commands as they are coerced, and a Raft that applies.
use mathlib.Core.Option.{some-injective}
use skiffdb.Prelude.{
  none, some, List, [], ◌∷◌, ◌≡◌, ◌⊎◌, inr, ◌↔◌, refl, sym, ap, subst, Bool, true, false, Bytes,
  codes, eq_bytes, eq_bytes_iff, if◌then◌else◌,
}
use skiffdb.Go.Map.{lookup}
use skiffdb.Go.Utf8.{coerce_utf8}
use skiffdb.Resp.Build.{err_internal, ok_reply}
use skiffdb.Core.MemDb.{MemDb, init}
use skiffdb.Core.MemDb
use skiffdb.Core.Cmd.{Cmd, is_write_op}
use skiffdb.Core.Executor.SameView.{SameView}
use skiffdb.Core.Fsm.{
  CmdJson, coerce_cmd, Process, Future, responded, fsm_apply, IsRaftApply, apply_cmd_via_raft_node,
  Decoded, end_of_file, value, FsmSnapshotPayload, payload_of, snapshot, restore, trailing_value,
}
use skiffdb.Core.Fsm.Replication.{executed, apply_cmd_via_raft_node_lem, raft_set_coerces}
use skiffdb.Core.Fsm.Recovery.{
  IsRange, IsText, SnapshotJson, replay, snapshot_recovery, restore_iff,
}
use skiffdb.Core.Cluster.{started}
use skiffdb.Core.Cluster.LeaderAddr.{write_op_ne}

abbrev pub cmd_json : CmdJson
cmd_json = record {
  Payload = Cmd;
  marshal = λ cmd. some cmd;
  unmarshal = λ p. some (coerce_cmd p);
  unmarshal-marshal = λ cmd p h. ap (λ c. some (coerce_cmd c)) (sym (some-injective cmd p h));
}

-- Raft that commits and applies every entry.
abbrev pub raft_apply : Process → Cmd → Future × Process
raft_apply p cmd = (responded (fsm_apply cmd_json none p cmd).0, (fsm_apply cmd_json none p cmd).1)

raft_apply-IsRaftApply : IsRaftApply cmd_json raft_apply
raft_apply-IsRaftApply p cmd = inr refl

abbrev pub set_cmd : Cmd
set_cmd = record { op = codes "SET"; args = codes "k" ∷ codes "v" ∷ [] }

pub set_is_write : is_write_op set_cmd ≡ true
unfolding is_write_op eq_bytes
set_is_write = refl

apply_cmd_via_raft_node_lem_example :
    ((apply_cmd_via_raft_node cmd_json raft_apply started set_cmd).0 ≡ err_internal)
    ⊎ (apply_cmd_via_raft_node cmd_json raft_apply started set_cmd
        ≡ executed started (coerce_cmd set_cmd))
apply_cmd_via_raft_node_lem_example =
    apply_cmd_via_raft_node_lem cmd_json raft_apply started set_cmd raft_apply-IsRaftApply
      (write_op_ne set_cmd set_is_write)

-- One byte that is not UTF-8, and what is stored of it.
raft_set_coerces_example :
    let r =
      apply_cmd_via_raft_node cmd_json raft_apply started
        (record { op = codes "SET"; args = codes "k" ∷ (0xff ∷ []) ∷ [] }) in
    (r.0 ≡ err_internal)
    ⊎ ((r.0 ≡ ok_reply)
        × (MemDb.get r.1.db (coerce_utf8 (codes "k")) ≡ some (coerce_utf8 (0xff ∷ []))))
raft_set_coerces_example =
    raft_set_coerces cmd_json raft_apply started (codes "k") (0xff ∷ []) raft_apply-IsRaftApply

replaced : coerce_utf8 (0xff ∷ []) ≡ 0xef ∷ 0xbf ∷ 0xbd ∷ []
unfolding coerce_utf8
replaced = refl

-- Snapshots that are kept as they are.
abbrev pub snapshot_json : SnapshotJson
snapshot_json = record {
  Data = FsmSnapshotPayload;
  encode = λ p. some p;
  decode = λ p. record { first = some p; trailing = end_of_file };
  decode-encode = λ m bytes text h. (
    m,
    ap (λ p. record { first = some p; trailing = end_of_file })
        (sym (some-injective (payload_of m) bytes h)),
    λ k. refl,
  );
}

abbrev pairs : List (Bytes × Bytes)
pairs = (codes "a", codes "1") ∷ []

abbrev store : MemDb
store = record init { keyspace = pairs }

pairs-IsRange : IsRange pairs pairs
unfolding lookup
pairs-IsRange = record { unique = (refl, tt); same = λ k. refl }

-- The one pair's strings, by the test of its key.
pair_text :
    (k v : Bytes) (same : Bool)
    → eq_bytes (codes "a") k ≡ same
    → (if same then some (codes "1") else none) ≡ some v
    → (coerce_utf8 k ≡ k) × (coerce_utf8 v ≡ v)
unfolding coerce_utf8
pair_text k v true e h = (
  subst (λ s. coerce_utf8 s ≡ s) ((eq_bytes_iff (codes "a") k).0 e) refl,
  subst (λ s. coerce_utf8 s ≡ s) (some-injective (codes "1") v h) refl,
)
pair_text k v false e h = cc

pairs-IsText : IsText pairs
unfolding lookup
pairs-IsText k v h = pair_text k v (eq_bytes (codes "a") k) refl h

snapshot_recovery_example :
    ((restore init
        (record { first = some (payload_of (snapshot pairs)); trailing = end_of_file })).0
      ≡ none)
    × SameView
        (replay
          (restore init
            (record { first = some (payload_of (snapshot pairs)); trailing = end_of_file })).1
          (set_cmd ∷ []))
        (replay store (set_cmd ∷ []))
snapshot_recovery_example =
    snapshot_recovery snapshot_json store init pairs (payload_of (snapshot pairs)) (set_cmd ∷ [])
      pairs-IsRange pairs-IsText refl

abbrev readable : Decoded
readable = record { first = some (payload_of pairs); trailing = end_of_file }

restore_iff_example :
    (restore init readable ≡ (none, record { keyspace = pairs }))
    ↔ (readable ≡ record { first = some (payload_of pairs); trailing = end_of_file })
restore_iff_example = restore_iff init readable pairs

restore_fails :
    (restore store (record { first = some (payload_of []); trailing = value })).0
    ≡ some trailing_value
unfolding restore
restore_fails = refl
