-- ===== src/Core/Identity/Persist/Atomic.antt =====
-- The identity is replaced as a whole.
use skiffdb.Prelude.{Option, none, some, ◌≡◌, ◌⊎◌, true, Bytes, All}
use skiffdb.Core.Identity.Persist.{Step, File, Disk, Run}

-- The file as it should be: all of the bytes, on the disk.
abbrev pub whole : Bytes → File
whole bytes = record { content = bytes; synced = true }

abbrev pub Whole : Option File → Bytes → Disk → Type 0
Whole old bytes d = (d.identity ≡ old) ⊎ (d.identity ≡ some (whole bytes))

abbrev pub Installed : Bytes → Option Step → Disk → Type 0
Installed bytes none d = d.identity ≡ some (whole bytes)
Installed bytes (some step) d = Unit

pub record Atomic (old : Option File) (bytes : Bytes) (r : Run) : Type 0 where
  pub always : All (Whole old bytes) r.moments
  pub clean : r.disk.temporary ≡ none
  pub installed : Installed bytes r.error r.disk
