-- ===== src/Core/Cluster/Entries.antt =====
-- The entries of a cluster's log: what one of them does to a database, and the database behind a prefix
-- of the log.
use mathlib.Core.Option.{some-injective}
use mathlib.Core.List.{map}
use skiffdb.Prelude.{
  ℕ, zero, suc, ◌+◌, ◌≤◌, ◌<◌, Option, none, some, List, [], ◌∷◌, ◌++◌, ◌≡◌, refl, sym, ap, ◌∙◌,
  subst, Bool, true, false, arith, Bytes, All, get_elem?, take, length, eq_bytes, if◌then◌else◌,
}
use skiffdb.Go.Utf8.{coerce_utf8}
use skiffdb.Go.Utf8.Idempotent.{coerce_utf8_idempotent}
use skiffdb.Go.Map.{lookup}
use skiffdb.Core.MemDb
use skiffdb.Core.MemDb.{MemDb, init}
use skiffdb.Core.Cmd.{Cmd}
use skiffdb.Core.Executor.SameView.{SameView, execute_on_db-Agree}
use skiffdb.Core.Executor.Texts.{Text, TextDb, execute_on_db-Keeps}
use skiffdb.Core.Fsm.{
  op_leader_changed, Process, CmdJson, coerce_cmd, leader_changed, with_db, apply_decoded,
  fsm_apply, Response,
}
use skiffdb.Core.Cluster.{process_after, db_after, started}

module _ {A : Type 0} where
  pub take-append : (n : ℕ) (xs ys : List A) → n ≤ length xs → take n (xs ++ ys) ≡ take n xs
  take-append zero xs ys h = refl
  take-append (suc n) [] ys h = absurd (omega arith)
  take-append (suc n) (x ∷ xs) ys h = ap (λ zs. x ∷ zs) (take-append n xs ys (omega arith))

  pub take-suc :
      (n : ℕ) (xs : List A) (x : A)
      → get_elem? xs n ≡ some x
      → take (suc n) xs ≡ take n xs ++ x ∷ []
  take-suc n [] x h = cc
  take-suc zero (y ∷ xs) x h = ap (λ z. z ∷ []) (some-injective y x h)
  take-suc (suc n) (y ∷ xs) x h = ap (λ zs. y ∷ zs) (take-suc n xs x h)

  pub get_elem?-length : (n : ℕ) (xs : List A) (x : A) → get_elem? xs n ≡ some x → n < length xs
  get_elem?-length n [] x h = cc
  get_elem?-length zero (y ∷ xs) x h = omega arith
  get_elem?-length (suc n) (y ∷ xs) x h = omega (arith, get_elem?-length n xs x h)

  pub All-get_elem? :
      (P : A → Type 0) (n : ℕ) (xs : List A) (x : A) → All P xs → get_elem? xs n ≡ some x → P x
  All-get_elem? P n [] x all h = cc
  All-get_elem? P zero (y ∷ xs) x all h = subst P (some-injective y x h) all.0
  All-get_elem? P (suc n) (y ∷ xs) x all h = All-get_elem? P n xs x all.1 h

  pub All-take : (P : A → Type 0) (n : ℕ) (xs : List A) → All P xs → All P (take n xs)
  All-take P zero xs all = tt
  All-take P (suc n) [] all = tt
  All-take P (suc n) (x ∷ xs) all = (all.0, All-take P n xs all.1)

-- The databases of two processes hold the same pairs.
record SameDb (p q : Response × Process) : Type 0 where
  view : SameView p.1.db q.1.db

SameDb-if :
    (b : Bool) (p q p' q' : Response × Process)
    → SameDb p q
    → SameDb p' q'
    → SameDb (if b then p else p') (if b then q else q')
SameDb-if true p q p' q' h h' = h
SameDb-if false p q p' q' h h' = h'

leader_changed-SameDb :
    (p q : Process) (args : List Bytes)
    → SameView p.db q.db
    → SameDb (leader_changed p args) (leader_changed q args)
unfolding leader_changed
leader_changed-SameDb p q [] h = record { view = h }
leader_changed-SameDb p q (addr ∷ args) h = record { view = h }

apply_decoded-SameDb :
    (p q : Process) (o : Option Cmd)
    → SameView p.db q.db
    → SameDb (apply_decoded none p o) (apply_decoded none q o)
unfolding apply_decoded
apply_decoded-SameDb p q none h = record { view = h }
apply_decoded-SameDb p q (some cmd) h =
    SameDb-if (eq_bytes cmd.op op_leader_changed) _ _ _ _ (leader_changed-SameDb p q cmd.args h)
      (record { view = unfold with_db in (execute_on_db-Agree p.db q.db h none cmd).view })

coerced-Text : (args : List Bytes) → All Text (map coerce_utf8 args)
coerced-Text [] = tt
coerced-Text (arg ∷ args) = (coerce_utf8_idempotent arg, coerced-Text args)

record TextProcess (p : Response × Process) : Type 0 where
  text : TextDb p.1.db

TextProcess-if :
    (b : Bool) (p q : Response × Process)
    → TextProcess p
    → TextProcess q
    → TextProcess (if b then p else q)
TextProcess-if true p q h h' = h
TextProcess-if false p q h h' = h'

leader_changed-TextProcess :
    (p : Process) (args : List Bytes) → TextDb p.db → TextProcess (leader_changed p args)
unfolding leader_changed
leader_changed-TextProcess p [] t = record { text = t }
leader_changed-TextProcess p (addr ∷ args) t = record { text = t }

apply_decoded-TextProcess :
    (p : Process) (cmd : Cmd)
    → TextDb p.db
    → TextProcess (apply_decoded none p (some (coerce_cmd cmd)))
unfolding apply_decoded
apply_decoded-TextProcess p cmd t =
    TextProcess-if (eq_bytes (coerce_utf8 cmd.op) op_leader_changed) _ _
      (leader_changed-TextProcess p _ t)
      (record {
        text =
            unfold with_db in
            (execute_on_db-Keeps p.db t none (coerce_cmd cmd) (coerced-Text cmd.args)).after;
      })

init-TextDb : TextDb init
init-TextDb = record { texts = λ k v h. unfold init MemDb.get lookup in cc }

module _ (J : CmdJson) where
  -- An entry is a command that has been marshalled.
  abbrev pub Good : J.Payload → Type 0
  Good payload = (cmd : Cmd) × (J.unmarshal payload ≡ some (coerce_cmd cmd))

  pub fsm_apply-SameView :
      (p q : Process) (payload : J.Payload)
      → SameView p.db q.db
      → SameView (fsm_apply J none p payload).1.db (fsm_apply J none q payload).1.db
  unfolding fsm_apply
  fsm_apply-SameView p q payload h = (apply_decoded-SameDb p q (J.unmarshal payload) h).view

  fsm_apply-TextDb :
      (p : Process) (payload : J.Payload)
      → Good payload
      → TextDb p.db
      → TextDb (fsm_apply J none p payload).1.db
  unfolding fsm_apply
  fsm_apply-TextDb p payload (cmd, e) t =
      subst (λ o. TextDb (apply_decoded none p o).1.db) (sym e)
        (apply_decoded-TextProcess p cmd t).text

  process_after-append :
      (p : Process) (xs : List J.Payload) (x : J.Payload)
      → process_after J p (xs ++ x ∷ []) ≡ (fsm_apply J none (process_after J p xs) x).1
  unfolding process_after
  process_after-append p [] x = refl
  process_after-append p (y ∷ xs) x = process_after-append (fsm_apply J none p y).1 xs x

  process_after-TextDb :
      (p : Process) (xs : List J.Payload)
      → All Good xs
      → TextDb p.db
      → TextDb (process_after J p xs).db
  unfolding process_after
  process_after-TextDb p [] all t = t
  process_after-TextDb p (x ∷ xs) all t =
      process_after-TextDb (fsm_apply J none p x).1 xs all.1 (fsm_apply-TextDb p x all.0 t)

  pub db_after-TextDb : (log : List J.Payload) (n : ℕ) → All Good log → TextDb (db_after J log n)
  unfolding db_after
  db_after-TextDb log n all =
      process_after-TextDb started (take n log) (All-take Good n log all) init-TextDb

  pub db_after-append :
      (log more : List J.Payload) (n : ℕ)
      → n ≤ length log
      → db_after J (log ++ more) n ≡ db_after J log n
  unfolding db_after
  db_after-append log more n h =
      ap (λ xs. (process_after J started xs).db) (take-append n log more h)

  -- One more entry: what the state machine makes of it on the database before it.
  pub db_after-apply :
      (log : List J.Payload) (n : ℕ) (x : J.Payload) (p : Process)
      → get_elem? log n ≡ some x
      → SameView p.db (db_after J log n)
      → SameView (fsm_apply J none p x).1.db (db_after J log (n + 1))
  unfolding db_after
  db_after-apply log n x p h same =
      let e : process_after J started (take (n + 1) log)
          ≡ (fsm_apply J none (process_after J started (take n log)) x).1 =
        ap (λ m. process_after J started (take m log)) {y = suc n} (omega arith)
        ∙ ap (process_after J started) (take-suc n log x h)
        ∙ process_after-append started (take n log) x in
      subst (λ q. SameView (fsm_apply J none p x).1.db q.db) (sym e)
        (fsm_apply-SameView p (process_after J started (take n log)) x same)
