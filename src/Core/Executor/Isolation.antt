-- ===== src/Core/Executor/Isolation.antt =====
-- Clients that use different keys: what one of them is answered does not depend on the others.
use skiffdb.Prelude.{Option, List, [], ◌∷◌, ◌≡◌, refl, ◌∙◌, Bool, true, false, Bytes}
use skiffdb.Core.MemDb.{MemDb}
use skiffdb.Core.Cmd.{Cmd}
use skiffdb.Core.Executor.{execute_on_db}
use skiffdb.Core.Executor.Locality.{among, keys_of, SameOn, Local-widen}
use skiffdb.Core.Executor.Locality.Commands.{execute_on_db-Local}

module _ (saved : Option Bytes) where
  -- The replies to commands one behind the other.
  abbrev pub replies : MemDb → List Cmd → List Bytes
  replies db [] = []
  replies db (cmd ∷ cmds) =
      let (reply, db') = execute_on_db saved db cmd in reply ∷ replies db' cmds

  -- Commands of one client, marked `true`, between those of others: the replies that it gets.
  abbrev pub own_replies : MemDb → List (Bool × Cmd) → List Bytes
  own_replies db [] = []
  own_replies db ((true, cmd) ∷ s) =
      let (reply, db') = execute_on_db saved db cmd in reply ∷ own_replies db' s
  own_replies db ((false, cmd) ∷ s) = own_replies (execute_on_db saved db cmd).1 s

  abbrev pub own : List (Bool × Cmd) → List Cmd
  own [] = []
  own ((true, cmd) ∷ s) = cmd ∷ own s
  own ((false, cmd) ∷ s) = own s

  -- The client names these keys only, and the others name none of them.
  abbrev pub Separate : List Bytes → List (Bool × Cmd) → Type 0
  Separate keys [] = Unit
  Separate keys ((true, cmd) ∷ s) =
      ((k : Bytes) → among k (keys_of cmd) ≡ true → among k keys ≡ true) × Separate keys s
  Separate keys ((false, cmd) ∷ s) =
      ((k : Bytes) → among k keys ≡ true → among k (keys_of cmd) ≡ false) × Separate keys s

  isolated_from :
      (keys : List Bytes) (s : List (Bool × Cmd)) (db db' : MemDb)
      → Separate keys s
      → SameOn keys db db'
      → own_replies db s ≡ replies db' (own s)
  isolated_from keys [] db db' apart same = refl
  isolated_from keys ((true, cmd) ∷ s) db db' (inside, apart) same =
      let step = Local-widen inside (execute_on_db-Local saved cmd) in
      rw (step.answer db db' same, isolated_from keys s _ _ apart (step.result db db' same))
  isolated_from keys ((false, cmd) ∷ s) db db' (outside, apart) same =
      isolated_from keys s _ db' apart
        (λ k h. (execute_on_db-Local saved cmd).frame db k (outside k h) ∙ same k h)

  -- Commands of one client between those of others, in any order: if the others name none of the keys
  -- that the client names, then its replies are those that it would get alone. The keys of EXISTS are
  -- all its arguments, that of any other command its first.
  pub own_replies-replies :
      (keys : List Bytes) (s : List (Bool × Cmd)) (db : MemDb)
      → Separate keys s
      → own_replies db s ≡ replies db (own s)
  own_replies-replies keys s db apart = isolated_from keys s db db apart (λ k h. refl)
