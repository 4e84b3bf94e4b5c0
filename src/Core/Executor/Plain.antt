-- ===== src/Core/Executor/Plain.antt =====
-- The commands that change the database reply with one of three texts.
use skiffdb.Prelude.{Option, none, some, List, [], ◌∷◌, ◌≡◌, ◌⊎◌, inl, inr, refl, Bytes}
use skiffdb.Prelude.Int.{ℤ}
use skiffdb.Go.Strconv.{atoi}
use skiffdb.Resp.Build.{ok_reply, err_wrong_data_type, err_command_format_error}
use skiffdb.Core.MemDb
use skiffdb.Core.MemDb.{MemDb}
use skiffdb.Core.Executor.{exec_set, exec_del, reply_incr, exec_incr, incr_by, exec_incrby}

abbrev pub IsPlain : Bytes → Type 0
IsPlain r = (r ≡ ok_reply) ⊎ ((r ≡ err_wrong_data_type) ⊎ (r ≡ err_command_format_error))

IsPlain-reply_incr : (p : Option Bytes × MemDb) → IsPlain (reply_incr p).0
unfolding reply_incr
IsPlain-reply_incr (none, db) = inl refl
IsPlain-reply_incr (some e, db) = inr (inl refl)

IsPlain-incr_by : (db : MemDb) (key : Bytes) (o : Option ℤ) → IsPlain (incr_by db key o).0
unfolding incr_by
IsPlain-incr_by db key none = inr (inr refl)
IsPlain-incr_by db key (some delta) = IsPlain-reply_incr (MemDb.incr db key delta)

module _ (db : MemDb) where
  pub IsPlain-set : (args : List Bytes) → IsPlain (exec_set db args).0
  unfolding exec_set
  IsPlain-set [] = inr (inr refl)
  IsPlain-set (key ∷ []) = inr (inr refl)
  IsPlain-set (key ∷ value ∷ []) = inl refl
  IsPlain-set (key ∷ value ∷ a ∷ args) = inr (inr refl)

  pub IsPlain-del : (args : List Bytes) → IsPlain (exec_del db args).0
  unfolding exec_del
  IsPlain-del [] = inr (inr refl)
  IsPlain-del (key ∷ []) = inl refl
  IsPlain-del (key ∷ a ∷ args) = inr (inr refl)

  pub IsPlain-incr : (delta : ℤ) (args : List Bytes) → IsPlain (exec_incr delta db args).0
  unfolding exec_incr
  IsPlain-incr delta [] = inr (inr refl)
  IsPlain-incr delta (key ∷ []) = IsPlain-reply_incr (MemDb.incr db key delta)
  IsPlain-incr delta (key ∷ a ∷ args) = inr (inr refl)

  pub IsPlain-incrby : (args : List Bytes) → IsPlain (exec_incrby db args).0
  unfolding exec_incrby
  IsPlain-incrby [] = inr (inr refl)
  IsPlain-incrby (key ∷ []) = inr (inr refl)
  IsPlain-incrby (key ∷ by ∷ []) = IsPlain-incr_by db key (atoi by)
  IsPlain-incrby (key ∷ by ∷ a ∷ args) = inr (inr refl)
