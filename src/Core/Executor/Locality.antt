-- ===== src/Core/Executor/Locality.antt =====
-- What a command reads and changes: the keys that it names, and nothing else.
pub mod Commands
use skiffdb.Prelude.{
  Bool-cases, inl, inr, Option, none, some, List, [], ◌∷◌, ◌≡◌, refl, ap, sym, ◌∙◌, Bool, true,
  false, ◌||◌, Bytes, codes, arith, eq_bytes, eq_bytes_iff, eq_bytes_self, if◌then◌else◌,
}
use skiffdb.Prelude.Int.{ℤ, pos, negsuc}
use skiffdb.Go.Strconv.{itoa, atoi}
use skiffdb.Resp.Build.{
  build_bulk_string, build_integer, ok_reply, err_wrong_data_type, err_command_unsupported,
}
use skiffdb.Core.MemDb
use skiffdb.Core.MemDb.{MemDb}
use skiffdb.Core.MemDb.Laws.{get-set, get-remove, count_present, count_keys_lem}
use skiffdb.Core.Cmd.{Cmd}
use skiffdb.Core.Executor.{
  exec_ping, exec_set, exec_get, exec_del, reply_incr, exec_incr, incr_by, exec_incrby, exec_exists,
  exec_save, execute_on_db,
}
use skiffdb.Core.Executor.Commands.{added, stored, reply_incr_lem}

abbrev pub among : Bytes → List Bytes → Bool
among k [] = false
among k (key ∷ keys) = eq_bytes key k || among k keys

abbrev pub first : List Bytes → List Bytes
first [] = []
first (arg ∷ args) = arg ∷ []

-- The keys of a command: all arguments of EXISTS, and of any other command the first.
abbrev pub keys_of : Cmd → List Bytes
keys_of cmd = if eq_bytes cmd.op (codes "EXISTS") then cmd.args else first cmd.args

abbrev pub SameOn : List Bytes → MemDb → MemDb → Type 0
SameOn keys db db' = (k : Bytes) → among k keys ≡ true → MemDb.get db k ≡ MemDb.get db' k

-- The keys are all that the step reads, and all that it changes.
pub record Local (keys : List Bytes) (f : MemDb → Bytes × MemDb) : Type 0 where
  pub frame :
      (db : MemDb) (k : Bytes) → among k keys ≡ false → MemDb.get (f db).1 k ≡ MemDb.get db k
  pub answer : (db db' : MemDb) → SameOn keys db db' → (f db).0 ≡ (f db').0
  pub result : (db db' : MemDb) → SameOn keys db db' → SameOn keys (f db).1 (f db').1

pub Local-const : (keys : List Bytes) (s : Bytes) → Local keys (λ db. (s, db))
Local-const keys s = record {
  frame = λ db k h. refl;
  answer = λ db db' same. refl;
  result = λ db db' same. same;
}

pub Local-if :
    (b : Bool) {keys : List Bytes} {f g : MemDb → Bytes × MemDb}
    → Local keys f
    → Local keys g
    → Local keys (λ db. if b then f db else g db)
Local-if true l m = l
Local-if false l m = m

module _ (key : Bytes) where
  -- A step on the value of one key.
  pub Local-cell :
      (f : MemDb → Bytes × MemDb) (reply : Option Bytes → Bytes)
      (write : Option Bytes → Option Bytes)
      → ((db : MemDb) → (f db).0 ≡ reply (MemDb.get db key))
      → ((db : MemDb) (k : Bytes)
          → MemDb.get (f db).1 k
            ≡ (if eq_bytes key k then write (MemDb.get db key) else MemDb.get db k))
      → Local (key ∷ []) f
  Local-cell f reply write r w = record {
    frame = λ db k h. ground (arith, w db k);
    answer = λ db db' same. r db ∙ ap reply (same key (rw eq_bytes_self)) ∙ sym (r db');
    result = λ db db' same k h. rw (w db k, w db' k, same key (rw eq_bytes_self), same k h);
  }

  pub unchanged :
      (db : MemDb) (k : Bytes)
      → MemDb.get db k ≡ (if eq_bytes key k then MemDb.get db key else MemDb.get db k)
  unchanged db k = ground (arith, eq_bytes_iff key k)

pub Local-widen :
    {keys more : List Bytes} {f : MemDb → Bytes × MemDb}
    → ((k : Bytes) → among k keys ≡ true → among k more ≡ true)
    → Local keys f
    → Local more f
Local-widen {keys = keys} {more = more} {f = f} wider l = record {
  frame = λ db k h. l.frame db k (ground (arith, h, wider k));
  answer = λ db db' same. l.answer db db' (λ k h. same k (wider k h));
  result = λ db db' same k h. elim (Bool-cases (among k keys)) [
    | inl named ↦ l.result db db' (λ j i. same j (wider j i)) k named
    | inr other ↦ l.frame db k other ∙ same k h ∙ sym (l.frame db' k other)
  ];
}

pub first-among :
    (args : List Bytes) (k : Bytes) → among k (first args) ≡ true → among k args ≡ true
first-among [] k h = h
first-among (key ∷ args) k h = ground (arith, h)
