-- ===== src/Core/Executor/Texts.antt =====
-- A database of UTF-8 strings stays one under commands whose arguments are UTF-8.
use mathlib.Core.Option.{some-injective}
use skiffdb.Prelude.{
  codes, suc, ◌<◌, Option, none, some, List, [], ◌∷◌, ◌≡◌, refl, sym, ◌∙◌, subst, Bool, true, false,
  arith, All, Bytes, eq_bytes, eq_bytes_iff, if◌then◌else◌,
}
use skiffdb.Prelude.Int.{ℤ, pos, negsuc}
use skiffdb.Go.Strconv.{IsDigit, itoa, atoi, format_nat-IsDigit}
use skiffdb.Go.Utf8.{coerce_utf8, coerce_utf8_ascii}
use skiffdb.Resp.Build.{err_command_unsupported}
use skiffdb.Core.MemDb
use skiffdb.Core.MemDb.{MemDb}
use skiffdb.Core.MemDb.Laws.{get-set, get-remove}
use skiffdb.Core.Cmd.{Cmd}
use skiffdb.Core.Executor.{
  exec_ping, exec_set, exec_get, exec_del, reply_incr, exec_incr, incr_by, exec_incrby, exec_exists,
  exec_save, execute_on_db,
}
use skiffdb.Core.Executor.Commands.{stored, reply_incr_lem}

abbrev pub Text : Bytes → Type 0
Text s = coerce_utf8 s ≡ s

pub record TextDb (db : MemDb) : Type 0 where
  pub texts : (k v : Bytes) → MemDb.get db k ≡ some v → Text k × Text v

pub record Keeps (r : Bytes × MemDb) : Type 0 where
  pub after : TextDb r.1

ascii_digits : (s : Bytes) → All IsDigit s → All (λ c. c < 0x80) s
ascii_digits [] h = tt
ascii_digits (c ∷ s) (d, h) = (omega (arith, d), ascii_digits s h)

itoa-Text : (z : ℤ) → Text (itoa z)
unfolding itoa
itoa-Text (pos n) = coerce_utf8_ascii _ (ascii_digits _ (format_nat-IsDigit n))
itoa-Text (negsuc n) =
    coerce_utf8_ascii _ (omega arith, ascii_digits _ (format_nat-IsDigit (suc n)))

set_texts :
    (key value k v : Bytes) (o : Option Bytes) (same : Bool)
    → eq_bytes key k ≡ same
    → Text key
    → Text value
    → (o ≡ some v → Text k × Text v)
    → (if same then some value else o) ≡ some v
    → Text k × Text v
set_texts key value k v o true e tk tv h g =
    (subst Text ((eq_bytes_iff key k).0 e) tk, subst Text (some-injective value v g) tv)
set_texts key value k v o false e tk tv h g = h g

remove_texts :
    (k v : Bytes) (o : Option Bytes) (same : Bool)
    → (o ≡ some v → Text k × Text v)
    → (if same then none else o) ≡ some v
    → Text k × Text v
remove_texts k v o true h g = cc
remove_texts k v o false h g = h g

module _ (db : MemDb) (t : TextDb db) where
  set-TextDb : (key value : Bytes) → Text key → Text value → TextDb (MemDb.set db key value)
  set-TextDb key value tk tv = record {
    texts = λ k v h.
        set_texts key value k v (MemDb.get db k) _ refl tk tv (t.texts k v)
          (sym (get-set db key value k) ∙ h);
  }

  remove-TextDb : (key : Bytes) → TextDb (MemDb.remove db key)
  remove-TextDb key = record {
    texts = λ k v h.
        remove_texts k v (MemDb.get db k) (eq_bytes key k) (t.texts k v)
          (sym (get-remove db key k) ∙ h);
  }

  same : (r : Bytes) → Keeps (r, db)
  same r = record { after = t }

  stored-Keeps : (key : Bytes) (o : Option ℤ) → Text key → Keeps (stored db key o)
  stored-Keeps key none tk = same _
  stored-Keeps key (some z) tk = record { after = set-TextDb key (itoa z) tk (itoa-Text z) }

  reply_incr-Keeps :
      (key : Bytes) (delta : ℤ) → Text key → Keeps (reply_incr (MemDb.incr db key delta))
  reply_incr-Keeps key delta tk =
      subst Keeps (sym (reply_incr_lem db key delta)) (stored-Keeps key _ tk)

  exec_set-Keeps : (args : List Bytes) → All Text args → Keeps (exec_set db args)
  unfolding exec_set
  exec_set-Keeps [] h = same _
  exec_set-Keeps (key ∷ []) h = same _
  exec_set-Keeps (key ∷ value ∷ []) (tk, (tv, h)) = record { after = set-TextDb key value tk tv }
  exec_set-Keeps (key ∷ value ∷ a ∷ args) h = same _

  exec_get-Keeps : (args : List Bytes) → Keeps (exec_get db args)
  unfolding exec_get
  exec_get-Keeps [] = same _
  exec_get-Keeps (key ∷ []) = same _
  exec_get-Keeps (key ∷ a ∷ args) = same _

  exec_del-Keeps : (args : List Bytes) → Keeps (exec_del db args)
  unfolding exec_del
  exec_del-Keeps [] = same _
  exec_del-Keeps (key ∷ []) = record { after = remove-TextDb key }
  exec_del-Keeps (key ∷ a ∷ args) = same _

  exec_incr-Keeps :
      (delta : ℤ) (args : List Bytes) → All Text args → Keeps (exec_incr delta db args)
  unfolding exec_incr
  exec_incr-Keeps delta [] h = same _
  exec_incr-Keeps delta (key ∷ []) (tk, h) = reply_incr-Keeps key delta tk
  exec_incr-Keeps delta (key ∷ a ∷ args) h = same _

  incr_by-Keeps : (key : Bytes) (o : Option ℤ) → Text key → Keeps (incr_by db key o)
  unfolding incr_by
  incr_by-Keeps key none tk = same _
  incr_by-Keeps key (some delta) tk = reply_incr-Keeps key delta tk

  exec_incrby-Keeps : (args : List Bytes) → All Text args → Keeps (exec_incrby db args)
  unfolding exec_incrby
  exec_incrby-Keeps [] h = same _
  exec_incrby-Keeps (key ∷ []) h = same _
  exec_incrby-Keeps (key ∷ by ∷ []) (tk, h) = incr_by-Keeps key (atoi by) tk
  exec_incrby-Keeps (key ∷ by ∷ a ∷ args) h = same _

  exec_ping-Keeps : (args : List Bytes) → Keeps (exec_ping db args)
  unfolding exec_ping
  exec_ping-Keeps [] = same _
  exec_ping-Keeps (a ∷ args) = same _

  exec_exists-Keeps : (args : List Bytes) → Keeps (exec_exists db args)
  unfolding exec_exists
  exec_exists-Keeps [] = same _
  exec_exists-Keeps (a ∷ args) = same _

  exec_save-Keeps : (saved : Option Bytes) (args : List Bytes) → Keeps (exec_save saved db args)
  unfolding exec_save
  exec_save-Keeps none [] = same _
  exec_save-Keeps (some e) [] = same _
  exec_save-Keeps saved (a ∷ args) = same _

  Keeps-if : (b : Bool) {x y : Bytes × MemDb} → Keeps x → Keeps y → Keeps (if b then x else y)
  Keeps-if true kx ky = kx
  Keeps-if false kx ky = ky

  pub execute_on_db-Keeps :
      (saved : Option Bytes) (cmd : Cmd) → All Text cmd.args → Keeps (execute_on_db saved db cmd)
  unfolding execute_on_db
  execute_on_db-Keeps saved cmd h =
      Keeps-if (eq_bytes cmd.op (codes "PING")) (exec_ping-Keeps cmd.args) (
        Keeps-if (eq_bytes cmd.op (codes "SET")) (exec_set-Keeps cmd.args h) (
          Keeps-if (eq_bytes cmd.op (codes "GET")) (exec_get-Keeps cmd.args) (
            Keeps-if (eq_bytes cmd.op (codes "DEL")) (exec_del-Keeps cmd.args) (
              Keeps-if (eq_bytes cmd.op (codes "INCR")) (exec_incr-Keeps (pos 1) cmd.args h) (
                Keeps-if (eq_bytes cmd.op (codes "DECR")) (exec_incr-Keeps (negsuc 0) cmd.args h) (
                  Keeps-if (eq_bytes cmd.op (codes "INCRBY")) (exec_incrby-Keeps cmd.args h) (
                    Keeps-if (eq_bytes cmd.op (codes "EXISTS")) (exec_exists-Keeps cmd.args) (
                      Keeps-if (eq_bytes cmd.op (codes "SAVE")) (exec_save-Keeps saved cmd.args)
                        (same err_command_unsupported)))))))))
