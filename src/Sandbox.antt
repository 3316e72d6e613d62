-- ===== src/Sandbox.antt =====
-- src/server/sandbox.c: the directories ./data/master and ./data/users/<key>. A directory is the list
-- of its files doc_<id>.dat in the order of `readdir`, by identifier; a key is the name of a directory,
-- so it holds no slash and is neither "." nor "..". `writable` says whether `open` with O_CREAT,
-- `rename`, `unlink` and `mkdir` are let through.
pub mod Files
pub mod Move
mod Tests
use under_flow.Base.{
  ℕ, zero, suc, ◌+◌, ◌-◌, Bool, true, false, ◌&&◌, ◌||◌, Option, none, some, List, [], ◌∷◌, ◌++◌,
  if◌then◌else◌, map, length, ltb,
}
use under_flow.Base.Int.{ℤ, pos, eq_ℤ}
use under_flow.Base.Text.{Text, same_text, strncpy}

-- The contents of a file.
pub record DocFile : Type 0 where
  pub doc_id : ℤ
  pub tags : ℕ
  pub base_price : ℤ
  pub name : Text

-- protocol.h
pub record InvenItem : Type 0 where
  pub doc_id : ℤ
  pub tags : ℕ
  pub name : Text
  pub is_frozen : Bool

abbrev pub Dir : Type 0
Dir = List (ℤ × DocFile)

pub record Disk : Type 0 where
  pub writable : Bool
  pub master : Dir
  pub users : List (Text × Dir)

-- `open` and `stat` of doc_<id>.dat in a directory.
unfoldable pub dir_get : ℤ → Dir → Option DocFile
dir_get id [] = none
dir_get id ((i, f) ∷ d) = if eq_ℤ i id then some f else dir_get id d

-- The directory after the file was written, or renamed into it; an old file of the name is replaced.
unfoldable pub dir_put : ℤ → DocFile → Dir → Dir
dir_put id f [] = (id, f) ∷ []
dir_put id f ((i, g) ∷ d) = if eq_ℤ i id then (id, f) ∷ d else (i, g) ∷ dir_put id f d

-- The directory after the file was unlinked, or renamed out of it.
unfoldable pub dir_remove : ℤ → Dir → Dir
dir_remove id [] = []
dir_remove id ((i, g) ∷ d) = if eq_ℤ i id then d else (i, g) ∷ dir_remove id d

unfoldable pub user_dir_in : Text → List (Text × Dir) → Option Dir
user_dir_in key [] = none
user_dir_in key ((k, d) ∷ us) = if same_text k key then some d else user_dir_in key us

unfoldable pub set_user_dir_in : Text → Dir → List (Text × Dir) → List (Text × Dir)
set_user_dir_in key d [] = []
set_user_dir_in key d ((k, e) ∷ us) =
    if same_text k key then (k, d) ∷ us else (k, e) ∷ set_user_dir_in key d us

-- `opendir` of the user's directory.
abbrev pub user_dir : Text → Disk → Option Dir
user_dir key disk = user_dir_in key disk.users

abbrev pub set_user_dir : Text → Dir → Disk → Disk
set_user_dir key d disk = record disk { users = set_user_dir_in key d disk.users }

-- `mkdir`, where EEXIST counts as success.
unfoldable pub sandbox_user_init : Text → Disk → Bool × Disk
sandbox_user_init key disk = elim (user_dir key disk) [
  | some d ↦ (true, disk)
  | none ↦
      if disk.writable
      then (true, record disk { users = disk.users ++ ((key, []) ∷ []) })
      else (false, disk)
]

-- The number of the user's files; `none` is the return value -1.
unfoldable pub sandbox_count : Text → Disk → Option ℕ
sandbox_count key disk = elim (user_dir key disk) [ none ↦ none | some d ↦ some (length d) ]

unfoldable pub sandbox_read_doc : Text → ℤ → Disk → Option DocFile
sandbox_read_doc key id disk = elim (user_dir key disk) [ none ↦ none | some d ↦ dir_get id d ]

unfoldable pub sandbox_has : Text → ℤ → Disk → Bool
unfolding sandbox_read_doc
sandbox_has key id disk = elim (sandbox_read_doc key id disk) [ none ↦ false | some f ↦ true ]

-- `stat` of the source and `rename`, which fails where the user's directory is missing.
unfoldable pub sandbox_buy : Text → ℤ → Disk → Bool × Disk
sandbox_buy key id disk = elim (dir_get id disk.master) [
  | none ↦ (false, disk)
  | some f ↦ elim (user_dir key disk) [
    | none ↦ (false, disk)
    | some d ↦
        if disk.writable
        then (
          true,
          record disk {
            master = dir_remove id disk.master;
            users = set_user_dir_in key (dir_put id f d) disk.users;
          },
        )
        else (false, disk)
  ]
]

unfoldable pub sandbox_dispose : Text → ℤ → Disk → Bool × Disk
unfolding sandbox_has
sandbox_dispose key id disk = elim (user_dir key disk) [
  | none ↦ (false, disk)
  | some d ↦
      if sandbox_has key id disk && disk.writable
      then (true, set_user_dir key (dir_remove id d) disk)
      else (false, disk)
]

-- The loop of `sandbox_list` over the entries, with the room left in `out`. Each file is read by the
-- identifier in its name.
unfoldable list_files : ℕ → Dir → List InvenItem
list_files zero d = []
list_files (suc room) [] = []
list_files (suc room) ((i, f) ∷ d) =
    record { doc_id = f.doc_id; tags = f.tags; name = strncpy 63 f.name; is_frozen = false }
    ∷ list_files room d

unfoldable pub sandbox_list : Text → ℕ → Disk → List InvenItem
unfolding list_files
sandbox_list key max disk = elim (user_dir key disk) [ none ↦ [] | some d ↦ list_files max d ]

unfoldable pub master_write_doc : DocFile → Disk → Bool × Disk
master_write_doc doc disk =
    if disk.writable
    then (true, record disk { master = dir_put doc.doc_id doc disk.master })
    else (false, disk)

unfoldable pub master_remove_doc : ℤ → Disk → Bool × Disk
master_remove_doc id disk = elim (dir_get id disk.master) [
  | none ↦ (false, disk)
  | some f ↦
      if disk.writable
      then (true, record disk { master = dir_remove id disk.master })
      else (false, disk)
]

-- `purge_docs_in`: every `unlink` of the loop succeeds or none does.
abbrev purge_docs_in : Bool → Dir → Dir
purge_docs_in writable d = if writable then [] else d

unfoldable pub sandbox_purge_user : Text → Disk → Disk
sandbox_purge_user key disk = elim (user_dir key disk) [
  | none ↦ disk
  | some d ↦ set_user_dir key (purge_docs_in disk.writable d) disk
]

purge_all : Bool → List (Text × Dir) → List (Text × Dir)
purge_all writable [] = []
purge_all writable ((k, d) ∷ us) = (k, purge_docs_in writable d) ∷ purge_all writable us

unfoldable pub sandbox_global_reset : Disk → Disk
unfolding purge_all
sandbox_global_reset disk = record disk {
  master = purge_docs_in disk.writable disk.master;
  users = purge_all disk.writable disk.users;
}
