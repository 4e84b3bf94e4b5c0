-- ===== src/Core/Executor/Abstract.antt =====
-- The database as a client can know it: what its keys hold, without the order in which a map keeps them.
use mathlib.Core.Quot
use mathlib.Core.Quot.{Quot, Quot-set}
use skiffdb.Prelude.{Option, ◌≡◌, sym, ◌∙◌, ap, true, false, Bytes, Bool-cases, inl, inr}
use skiffdb.Core.MemDb
use skiffdb.Core.MemDb.{MemDb}
use skiffdb.Core.Cmd.{Cmd}
use skiffdb.Core.Executor.{execute_on_db}
use skiffdb.Core.Executor.SameView.{SameView, Agree, execute_on_db-Agree}
use skiffdb.Core.Executor.Locality.{among, keys_of, SameOn}
use skiffdb.Core.Executor.Locality.Commands.{execute_on_db-Local}

abbrev pub Store : Type 0
Store = Quot SameView

abbrev outcome : Bytes × MemDb → Bytes × Store
outcome (reply, db) = (reply, Quot.mk db)

pub outcome-Agree : (p q : Bytes × MemDb) → Agree p q → outcome p ≡ outcome q
outcome-Agree (r, db) (r', db') agree = rw (agree.reply) (ap (λ s. (r', s)) (Quot.sound agree.view))

abbrev pub other_way : Bytes × Bytes × Store → Bytes × Bytes × Store
other_way (q, r, store) = (r, q, store)

triple_set : IsSet (Bytes × Bytes × Store)
triple_set = hlevel (Quot-set)

module _ (saved : Option Bytes) where
  unfoldable pub execute : Cmd → Store → Bytes × Store
  execute cmd =
      Quot.lift (hlevel (Quot-set)) (λ db. outcome (execute_on_db saved db cmd))
        (λ db db' same. outcome-Agree _ _ (execute_on_db-Agree db db' same saved cmd))

  abbrev exec : Cmd → MemDb → Bytes × MemDb
  exec cmd db = execute_on_db saved db cmd

  -- No key is named by both.
  abbrev pub Apart : Cmd → Cmd → Type 0
  Apart c d = (k : Bytes) → among k (keys_of c) ≡ true → among k (keys_of d) ≡ false

  Apart-sym : (c d : Cmd) → Apart c d → Apart d c
  Apart-sym c d apart k h = elim (Bool-cases (among k (keys_of c))) [
    | inl named ↦ cc (apart k named)
    | inr other ↦ other
  ]

  module _ (c d : Cmd) (apart : Apart c d) (db : MemDb) where
    behind : SameOn (keys_of c) (exec d db).1 db
    behind k h = (execute_on_db-Local saved d).frame db k (apart k h)

    answer_behind : (exec c (exec d db).1).0 ≡ (exec c db).0
    answer_behind = (execute_on_db-Local saved c).answer _ _ behind

    named_same :
        (k : Bytes)
        → among k (keys_of c) ≡ true
        → MemDb.get (exec d (exec c db).1).1 k ≡ MemDb.get (exec c (exec d db).1).1 k
    named_same k h =
        (execute_on_db-Local saved d).frame (exec c db).1 k (apart k h)
        ∙ sym ((execute_on_db-Local saved c).result _ _ behind k h)

  swapped :
      (c d : Cmd) (db : MemDb)
      → Apart c d
      → SameView (exec d (exec c db).1).1 (exec c (exec d db).1).1
  swapped c d db apart k = elim (Bool-cases (among k (keys_of c))) [
    | inl named ↦ named_same c d apart db k named
    | inr other ↦ elim (Bool-cases (among k (keys_of d))) [
      | inl named ↦ sym (named_same d c (Apart-sym c d apart) db k named)
      | inr neither ↦
          (execute_on_db-Local saved d).frame _ k neither
          ∙ (execute_on_db-Local saved c).frame db k other
          ∙ sym ((execute_on_db-Local saved d).frame db k neither)
          ∙ sym ((execute_on_db-Local saved c).frame _ k other)
    ]
  ]

  -- One command and then another: the reply of each, and the store.
  abbrev pub both : Cmd → Cmd → Store → Bytes × Bytes × Store
  both c d store =
      let (r, after) = execute c store in let (q, last) = execute d after in (r, q, last)

  -- On what the keys hold, without the order in which the map keeps them, two commands that name no
  -- key both can change places: each gets the reply that it had, and the store afterwards is equal.
  pub execute_comm :
      (c d : Cmd) (store : Store) → Apart c d → both c d store ≡ other_way (both d c store)
  unfolding execute
  execute_comm c d store apart =
      Quot.ind (λ s. triple_set (both c d s) (other_way (both d c s)))
        (λ db.
          rw (sym (answer_behind c d apart db), answer_behind d c (Apart-sym c d apart) db)
            (ap (λ s. ((exec c (exec d db).1).0, (exec d db).0, s))
              (Quot.sound (swapped c d db apart))))
        store
