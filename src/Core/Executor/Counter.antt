-- ===== src/Core/Executor/Counter.antt =====
-- A number under a key, and the INCRBYs that it gets: a counter of 64 bits.
use skiffdb.Prelude.{ℕ, ◌+◌, List, [], ◌∷◌, Bytes, codes}
use skiffdb.Prelude.Int.{ℤ, to_word}
use skiffdb.Go.Strconv.{itoa}
use skiffdb.Core.MemDb
use skiffdb.Core.MemDb.{MemDb}
use skiffdb.Core.Executor.Commands.{run}

-- `INCRBY key d` for each of the numbers.
unfoldable pub incrby_all : List ℤ → MemDb → Bytes → MemDb
incrby_all [] db key = db
incrby_all (d ∷ ds) db key = incrby_all ds (run db (codes "INCRBY") (key ∷ itoa d ∷ [])).1 key

abbrev pub words : List ℤ → ℕ
words [] = 0
words (d ∷ ds) = to_word d + words ds
