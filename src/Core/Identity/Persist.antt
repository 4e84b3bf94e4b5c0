-- ===== src/Core/Identity/Persist.antt =====
-- src/core/raft_identity.go: `persistRaftIdentity`, on the two files that it touches: the identity's and
-- the temporary one. `fails` says which calls return an error.
use skiffdb.Prelude.{
  Option, none, some, List, [], ◌∷◌, ◌++◌, Bool, true, false, if◌then◌else◌, Bytes,
}
pub mod Atomic

pub data Step : Type 0 where
  mkdir chmod_root encode create_temp chmod_temp write sync close rename : Step
  open_root sync_root close_root : Step

pub record File : Type 0 where
  pub content : Bytes
  pub synced : Bool

pub record Disk : Type 0 where
  pub identity : Option File
  pub temporary : Option File

-- The error, the disk in each moment in which the process may end, and the disk on return.
pub record Run : Type 0 where
  pub error : Option Step
  pub moments : List Disk
  pub disk : Disk

abbrev pub change : (File → File) → Disk → Disk
change f d = record d { temporary = elim d.temporary [ none ↦ none | some file ↦ some (f file) ] }

abbrev pub written : Bytes → Disk → Disk
written bytes d = change (λ f. record { content = f.content ++ bytes; synced = false }) d

abbrev pub synced_disk : Disk → Disk
synced_disk d = change (λ f. record f { synced = true }) d

abbrev pub renamed : Disk → Disk
renamed d = record { identity = d.temporary; temporary = none }

-- The deferred `os.Remove`.
abbrev pub removed : Disk → Disk
removed d = record d { temporary = none }

returns : Option Step → Disk → Run
returns error d = record { error = error; moments = d ∷ []; disk = d }

visit : Disk → Run → Run
visit d r = record r { moments = d ∷ r.moments }

-- A return behind the creation of the temporary file and before its renaming.
gives_up : Step → Disk → Run
unfolding returns visit
gives_up step d = visit d (returns (some step) (removed d))

sync_directory : (Step → Bool) → Disk → Run
unfolding returns
sync_directory fails d =
    if fails open_root
    then returns (some open_root) d
    else if fails sync_root
    then returns (some sync_root) d
    else if fails close_root
    then returns (some close_root) d
    else returns none d

install : (Step → Bool) → Disk → Run
unfolding gives_up visit sync_directory
install fails d =
    if fails close
    then gives_up close d
    else if fails rename
    then gives_up rename d
    else visit d (sync_directory fails (renamed d))

-- `some_bytes` is what a write that fails leaves in the file.
fill : (Step → Bool) → Bytes → Bytes → Disk → Run
unfolding gives_up visit install
fill fails bytes some_bytes d =
    if fails chmod_temp
    then gives_up chmod_temp d
    else if fails write
    then visit d (gives_up write (written some_bytes d))
    else visit d (
        if fails sync
        then gives_up sync (written bytes d)
        else visit (written bytes d) (install fails (synced_disk (written bytes d))))

-- `bytes` is the encoded identity with its newline; no temporary file is there before.
unfoldable pub persist_raft_identity : (Step → Bool) → Bytes → Bytes → Option File → Run
unfolding returns visit fill
persist_raft_identity fails bytes some_bytes old =
    let d : Disk = record { identity = old; temporary = none } in
    if fails mkdir
    then returns (some mkdir) d
    else if fails chmod_root
    then returns (some chmod_root) d
    else if fails encode
    then returns (some encode) d
    else if fails create_temp
    then returns (some create_temp) d
    else visit d (
        fill fails bytes some_bytes
          (record d { temporary = some (record { content = []; synced = false }) }))
