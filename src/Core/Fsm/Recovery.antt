-- ===== src/Core/Fsm/Recovery.antt =====
-- Snapshots: what `Snapshot` copies, what `Restore` accepts, and recovery from a snapshot and a log.
use skiffdb.Prelude.{
  Option, none, some, List, [], ◌∷◌, ◌≡◌, ◌↔◌, refl, sym, ap, ◌∙◌, arith, Bytes, eq_bytes_iff,
  eq_bytes_self,
}
use skiffdb.Go.Map.{Map, lookup, insert, lookup-insert}
use skiffdb.Go.Utf8.{coerce_utf8}
use skiffdb.Core.MemDb
use skiffdb.Core.MemDb.{MemDb}
use skiffdb.Core.Cmd.{Cmd}
use skiffdb.Core.Executor.{execute_on_db}
use skiffdb.Core.Executor.SameView.{SameView, execute_on_db-Agree}
use skiffdb.Core.Fsm.{
  persist, write_call, close_call, FsmSnapshotPayload, payload_of, fsm_snapshot_format, copy_loop,
  snapshot, Decoded, Trailing, end_of_file, value, unreadable, RestoreError, restore_first, restore,
}

-- A list of the pairs of a map, each key once: what `range` may give.
abbrev pub Unique : List (Bytes × Bytes) → Type 0
Unique [] = Unit
Unique ((k, v) ∷ pairs) = (lookup k pairs ≡ none) × Unique pairs

pub record IsRange (pairs : List (Bytes × Bytes)) (m : Map Bytes) : Type 0 where
  pub unique : Unique pairs
  pub same : (k : Bytes) → lookup k pairs ≡ lookup k m

abbrev or_else : Option Bytes → Option Bytes → Option Bytes
or_else (some v) o = some v
or_else none o = o

or_else-none : (o : Option Bytes) → or_else o none ≡ o
or_else-none none = refl
or_else-none (some v) = refl

copy_loop_lem :
    (pairs : List (Bytes × Bytes)) (cp : Map Bytes) (k : Bytes)
    → Unique pairs
    → lookup k (copy_loop pairs cp) ≡ or_else (lookup k pairs) (lookup k cp)
unfolding copy_loop lookup
copy_loop_lem [] cp k u = refl
copy_loop_lem ((j, v) ∷ pairs) cp k (fresh, u) =
    ground
      (arith, copy_loop_lem pairs (insert j v cp) k u, lookup-insert j k v cp, eq_bytes_iff j k)

-- The copy holds the pairs of the map, in whatever order `range` goes through them.
pub lookup-snapshot :
    (pairs : List (Bytes × Bytes)) (m : Map Bytes) (k : Bytes)
    → IsRange pairs m
    → lookup k (snapshot pairs) ≡ lookup k m
unfolding snapshot lookup
lookup-snapshot pairs m k r =
    copy_loop_lem pairs [] k r.unique ∙ or_else-none (lookup k pairs) ∙ r.same k

-- A restore that fails leaves the database as it was.
pub restore_error :
    (db : MemDb) (d : Decoded) (e : RestoreError)
    → (restore db d).0 ≡ some e
    → (restore db d).1 ≡ db
unfolding restore
restore_error db d e h = ground arith

restore_forward :
    (db : MemDb) (first : Option FsmSnapshotPayload) (trailing : Trailing) (m : Map Bytes)
    → restore_first db first trailing ≡ (none, record { keyspace = m })
    → ◌≡◌ {A = Decoded}
        (record { first = first; trailing = trailing })
        (record { first = some (payload_of m); trailing = end_of_file })
unfolding restore_first
restore_forward db none t m h = cc
restore_forward db (some s) value m h = cc
restore_forward db (some s) unreadable m h = cc
restore_forward db (some s) end_of_file m h =
    ground (arith, eq_bytes_iff s.format fsm_snapshot_format)

restore_backward :
    (db : MemDb) (d : Decoded) (m : Map Bytes)
    → d ≡ record { first = some (payload_of m); trailing = end_of_file }
    → restore db d ≡ (none, record { keyspace = m })
unfolding restore
restore_backward db d m h = ap (restore db) h ∙ rw (eq_bytes_self fsm_snapshot_format) refl

-- A restore succeeds exactly on one readable payload of this format and version with a keyspace and
-- nothing behind it, and then that keyspace is the database.
pub restore_iff :
    (db : MemDb) (d : Decoded) (m : Map Bytes)
    → (restore db d ≡ (none, record { keyspace = m }))
      ↔ (d ≡ record { first = some (payload_of m); trailing = end_of_file })
unfolding restore
restore_iff db d m =
    ((λ h. restore_forward db d.first d.trailing m h), (λ h. restore_backward db d m h))

-- `json` on snapshots, with what its documentation says of a round trip: strings that are UTF-8 come
-- back as they were, so a keyspace of such strings comes back with the same pairs, and nothing follows.
abbrev pub IsText : Map Bytes → Type 0
IsText m = (k v : Bytes) → lookup k m ≡ some v → (coerce_utf8 k ≡ k) × (coerce_utf8 v ≡ v)

pub record SnapshotJson : Type 1 where
  pub Data : Type 0
  pub encode : FsmSnapshotPayload → Option Data
  pub decode : Data → Decoded
  pub decode-encode :
      (m : Map Bytes) (bytes : Data)
      → IsText m
      → encode (payload_of m) ≡ some bytes
      → (m' : Map Bytes) × (decode bytes
          ≡ record { first = some (payload_of m'); trailing = end_of_file })
        × ((k : Bytes) → lookup k m' ≡ lookup k m)

-- A snapshot that is written and closed without an error is the payload of the state.
pub persist_lem :
    (state : Map Bytes) (encoded closed : Option Bytes) (payload : FsmSnapshotPayload)
    → persist state encoded closed ≡ (write_call payload ∷ close_call ∷ [], none)
    → payload ≡ payload_of state
unfolding persist
persist_lem state (some e) closed payload h = cc
persist_lem state none closed payload h = cc

IsText-snapshot :
    (pairs : List (Bytes × Bytes)) (m : Map Bytes)
    → IsRange pairs m
    → IsText m
    → IsText (snapshot pairs)
IsText-snapshot pairs m r t k v h = t k v (sym (lookup-snapshot pairs m k r) ∙ h)

-- The commands of a log, in order, on a database.
unfoldable pub replay : MemDb → List Cmd → MemDb
replay db [] = db
replay db (cmd ∷ log) = replay (execute_on_db none db cmd).1 log

pub replay-SameView :
    (log : List Cmd) (db db' : MemDb) → SameView db db' → SameView (replay db log) (replay db' log)
unfolding replay
replay-SameView [] db db' h = h
replay-SameView (cmd ∷ log) db db' h =
    replay-SameView log _ _ (execute_on_db-Agree db db' h none cmd).view

module _ (J : SnapshotJson) where
  open J use {Data, encode, decode, decode-encode}

  -- A process that restores a snapshot of a database whose strings are UTF-8, whatever it held before,
  -- and then replays the log behind the snapshot, holds the pairs that the database has after that log.
  -- The snapshot may have gone through the pairs in any order; its encoding is assumed to have succeeded.
  pub snapshot_recovery :
      (db old : MemDb) (pairs : List (Bytes × Bytes)) (bytes : Data) (log : List Cmd)
      → IsRange pairs db.keyspace
      → IsText db.keyspace
      → encode (payload_of (snapshot pairs)) ≡ some bytes
      → ((restore old (decode bytes)).0 ≡ none)
        × SameView (replay (restore old (decode bytes)).1 log) (replay db log)
  unfolding MemDb.get
  snapshot_recovery db old pairs bytes log r t e =
      let (m', decoded, same) =
        decode-encode (snapshot pairs) bytes (IsText-snapshot pairs db.keyspace r t) e in
      let done : restore old (decode bytes) ≡ (none, record { keyspace = m' }) =
        restore_backward old (decode bytes) m' decoded in
      (
        ap (λ p. p.0) done,
        rw done (
            replay-SameView log (record { keyspace = m' }) db
              (λ k. same k ∙ lookup-snapshot pairs db.keyspace k r)),
      )
