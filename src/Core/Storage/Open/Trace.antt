-- ===== src/Core/Storage/Open/Trace.antt =====
-- Opening the stores: with an error, no store is left open.
use skiffdb.Prelude.{ap, ◌∙◌, ◌≡◌, Option, none, some, List, [], refl, Bool, true, false, Bytes}
use skiffdb.Core.Calls.{
  Op, make_dir, chmod_dir, open_store, chmod_store, open_snapshots, chmod_snapshots,
  check_snapshots, close_store, Call,
}
use skiffdb.Core.Calls.Trace.{
  attempt_done, Held, all_held, FreeOfPlain, Safe, attempt-Safe, attempt_result,
}
use skiffdb.Core.Config.{Config}
use skiffdb.Core.Storage.{
  raft_node_data_dir, reject_unreadable_finalized_snapshots, StorageError, SnapshotEntry, Result,
  ok, err,
}
use skiffdb.Core.Storage.Open.{
  persistent_stores, RaftStores, give_up_store, checked, opened_store, in_directory,
  new_persistent_raft_stores,
}

abbrev pub store_held : Option RaftStores → Held
store_held none = all_held false
store_held (some stores) = record { store = true; transport = false; raft = false }

module _ (P : Call → Type 0) (free : FreeOfPlain P) (fails : Op → Bool) where
  abbrev open_held : Held
  open_held = record { store = true; transport = false; raft = false }

  give_up_store-Safe : Safe P open_held store_held (give_up_store fails)
  unfolding give_up_store
  give_up_store-Safe = record { kept = refl; allowed = (free close_store _ refl, tt) }

  checked-Safe :
      (unreadable : Option StorageError) → Safe P open_held store_held (checked fails unreadable)
  unfolding checked
  checked-Safe none = record { kept = refl; allowed = (free check_snapshots true refl, tt) }
  checked-Safe (some e) =
      let s = give_up_store-Safe in
      record { kept = s.kept; allowed = (free check_snapshots false refl, s.allowed) }

  opened_store-Safe :
      (unreadable : Option StorageError)
      → Safe P open_held store_held (opened_store fails unreadable)
  unfolding opened_store
  opened_store-Safe unreadable =
      attempt-Safe P store_held open_held _ chmod_store _ _ (free chmod_store true refl)
        (free chmod_store false refl)
        (λ t.
          attempt-Safe P store_held open_held _ open_snapshots _ _ (free open_snapshots true refl)
            (free open_snapshots false refl)
            (λ u.
              attempt-Safe P store_held open_held _ chmod_snapshots _ _
                (free chmod_snapshots true refl) (free chmod_snapshots false refl)
                (λ v. checked-Safe unreadable) (λ v. give_up_store-Safe))
            (λ u. give_up_store-Safe))
        (λ t. give_up_store-Safe)

  closed : Safe P (all_held false) store_held (none, [])
  closed = record { kept = refl; allowed = tt }

  in_directory-Safe :
      (unreadable : Option StorageError) (dir : Result (Bytes × Bytes × Bytes))
      → Safe P (all_held false) store_held (in_directory fails unreadable dir)
  unfolding in_directory
  in_directory-Safe unreadable (err e) = closed
  in_directory-Safe unreadable (ok dir) =
      attempt-Safe P store_held (all_held false) _ make_dir _ _ (free make_dir true refl)
        (free make_dir false refl)
        (λ t.
          attempt-Safe P store_held (all_held false) _ chmod_dir _ _ (free chmod_dir true refl)
            (free chmod_dir false refl)
            (λ u.
              attempt-Safe P store_held (all_held false) _ open_store _ _
                (free open_store true refl) (free open_store false refl)
                (λ v. opened_store-Safe unreadable) (λ v. closed))
            (λ u. closed))
        (λ t. closed)

  pub new_persistent_raft_stores-Safe :
      (snapshots : Option (List Bytes)) (entries : Option (List SnapshotEntry)) (config : Config)
      → Safe P
          (all_held false)
          store_held
          (new_persistent_raft_stores fails snapshots entries config)
  unfolding new_persistent_raft_stores
  new_persistent_raft_stores-Safe snapshots entries config = in_directory-Safe _ _

-- The stores that are opened are those of a directory.
abbrev pub Persistent : Option RaftStores → Type 0
Persistent none = Unit
Persistent (some stores) = stores ≡ persistent_stores

checked-Persistent :
    (fails : Op → Bool) (unreadable : Option StorageError) → Persistent (checked fails unreadable).0
unfolding checked give_up_store
checked-Persistent fails none = refl
checked-Persistent fails (some e) = tt

in_directory-Persistent :
    (fails : Op → Bool) (unreadable : Option StorageError) (dir : Result (Bytes × Bytes × Bytes))
    → Persistent (in_directory fails unreadable dir).0
unfolding in_directory opened_store give_up_store
in_directory-Persistent fails unreadable (err e) = tt
in_directory-Persistent fails unreadable (ok dir) =
    attempt_result Persistent _ make_dir _ _
      (attempt_result Persistent _ chmod_dir _ _
        (attempt_result Persistent _ open_store _ _
          (attempt_result Persistent _ chmod_store _ _
            (attempt_result Persistent _ open_snapshots _ _
              (attempt_result Persistent _ chmod_snapshots _ _ (checked-Persistent fails unreadable)
                tt)
              tt)
            tt)
          tt)
        tt)
      tt

pub new_persistent_raft_stores-Persistent :
    (fails : Op → Bool) (snapshots : Option (List Bytes)) (entries : Option (List SnapshotEntry))
    (config : Config)
    → Persistent (new_persistent_raft_stores fails snapshots entries config).0
unfolding new_persistent_raft_stores
new_persistent_raft_stores-Persistent fails snapshots entries config =
    in_directory-Persistent fails _ _

pair_eq : {A B : Type 0} {a a' : A} {b b' : B} → a ≡ a' → b ≡ b' → ◌≡◌ {A = A × B} (a, b) (a', b')
pair_eq p q = cc

-- The stores are opened if no call fails, the identity names a directory, and the snapshots are readable.
pub new_persistent_raft_stores-opened :
    (fails : Op → Bool) (snapshots : Option (List Bytes)) (entries : Option (List SnapshotEntry))
    (config : Config) (dir : Bytes × Bytes × Bytes)
    → ((op : Op) → fails op ≡ false)
    → raft_node_data_dir config ≡ ok dir
    → reject_unreadable_finalized_snapshots snapshots entries ≡ none
    → (new_persistent_raft_stores fails snapshots entries config).0 ≡ some persistent_stores
unfolding new_persistent_raft_stores in_directory opened_store checked
new_persistent_raft_stores-opened fails snapshots entries config dir none_fails d r =
    ap (λ q. (in_directory fails q.0 q.1).0) (pair_eq r d)
    ∙ attempt_done fails make_dir _ _ _ none_fails (
        attempt_done fails chmod_dir _ _ _ none_fails (
          attempt_done fails open_store _ _ _ none_fails (
            attempt_done fails chmod_store _ _ _ none_fails (
              attempt_done fails open_snapshots _ _ _ none_fails
                (attempt_done fails chmod_snapshots _ _ _ none_fails refl)))))
