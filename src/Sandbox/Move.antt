-- ===== src/Sandbox/Move.antt =====
-- Where a document is, before and after each operation of src/server/sandbox.c: a purchase moves it
-- from the master directory to one user's, a disposal and a purge remove it, and nothing else moves.
use under_flow.Base.{
  subst, ℕ, ◌+◌, ◌≡◌, true, false, ◌&&◌, none, some, [], if◌then◌else◌, arith, inl, inr, Bool-cases,
  Option-cases, ◌⊎◌,
}
use under_flow.Base.Int.{ℤ, eq_ℤ, eq_ℤ_iff}
use under_flow.Base.Text.{Text, same_text, same_text_iff}
use under_flow.Sandbox.{
  DocFile, Dir, Disk, dir_get, dir_put, dir_remove, user_dir, set_user_dir, sandbox_count,
  sandbox_read_doc, sandbox_has, sandbox_buy, sandbox_dispose, sandbox_purge_user,
}
use under_flow.Sandbox.Files.{
  IsDir, dir_get-put, dir_get-remove, user_dir-set, length-dir_put, IsDir-remove,
}

-- Each directory holds one file of a name.
pub record IsSound (disk : Disk) : Type 0 where
  pub master_dir : IsDir disk.master
  pub user_dirs : (key : Text) (d : Dir) → user_dir key disk ≡ some d → IsDir d

-- What a key reads after its directory, or another's, was replaced.
read-set :
    (key key' : Text) (j : ℤ) (d e : Dir) (disk : Disk)
    → user_dir key disk ≡ some e
    → sandbox_read_doc key' j (set_user_dir key d disk)
      ≡ (if same_text key key' then dir_get j d else sandbox_read_doc key' j disk)
unfolding sandbox_read_doc
read-set key key' j d e disk h = ground (arith, user_dir-set key key' d e disk.users h)

-- On a sound disk that can be written, a purchase of a file of the master directory by a user with a
-- directory succeeds: the file is gone from the master directory, the buyer has it with its contents,
-- and every other file of every directory is as it was.
pub buy_moves :
    (key : Text) (i : ℤ) (disk : Disk) (f : DocFile) (d : Dir) (key' : Text) (j : ℤ)
    → IsSound disk
    → dir_get i disk.master ≡ some f
    → user_dir key disk ≡ some d
    → disk.writable ≡ true
    → let (done, disk') = sandbox_buy key i disk in
      (done ≡ true)
      × (dir_get j disk'.master ≡ (if eq_ℤ i j then none else dir_get j disk.master))
      × (sandbox_read_doc key' j disk'
          ≡ (if same_text key key' && eq_ℤ i j then some f else sandbox_read_doc key' j disk))
unfolding sandbox_buy sandbox_read_doc
buy_moves key i disk f d key' j sound has dir w = ground (
  arith,
  dir_get-remove i j disk.master sound.master_dir,
  user_dir-set key key' (dir_put i f d) d disk.users dir,
  dir_get-put i j f d,
  same_text_iff key key',
)

-- Where the master directory lacks the file, the user has no directory or the disk cannot be written, a
-- purchase is refused and nothing changes.
buy_refused :
    (key : Text) (i : ℤ) (disk : Disk)
    → (dir_get i disk.master ≡ none) ⊎ (user_dir key disk ≡ none) ⊎ (disk.writable ≡ false)
    → sandbox_buy key i disk ≡ (false, disk)
unfolding sandbox_buy
buy_refused key i disk h = ground arith

-- A disposal succeeds exactly when the user has the file and the disk can be written, and removes that
-- file alone; otherwise nothing changes.
dispose_lem :
    (key : Text) (i : ℤ) (disk : Disk) (key' : Text) (j : ℤ)
    → IsSound disk
    → let (done, disk') = sandbox_dispose key i disk in
      (done ≡ sandbox_has key i disk && disk.writable)
      × (disk'.master ≡ disk.master)
      × (sandbox_read_doc key' j disk'
          ≡ (if done && same_text key key' && eq_ℤ i j then none else sandbox_read_doc key' j disk))
unfolding sandbox_dispose sandbox_read_doc
dispose_lem key i disk key' j sound = elim (Option-cases (user_dir key disk)) [
  | inl e ↦ ground (arith, e)
  | inr (d, e) ↦ ground (
    arith,
    e,
    user_dir-set key key' (dir_remove i d) d disk.users e,
    dir_get-remove i j d (sound.user_dirs key d e),
    same_text_iff key key',
  )
]

-- A user's files after a purchase are one more, or as many if the file replaced one of its name.
count-buy :
    (key : Text) (i : ℤ) (disk : Disk) (n : ℕ)
    → sandbox_count key disk ≡ some n
    → (sandbox_buy key i disk).0 ≡ true
    → sandbox_count key (sandbox_buy key i disk).1
      ≡ some (n + (if sandbox_has key i disk then 0 else 1))
unfolding sandbox_buy sandbox_count sandbox_has
count-buy key i disk n c done = elim (Option-cases (user_dir key disk)) [
  | inl e ↦ absurd (ground (arith, e))
  | inr (d, e) ↦ elim (Option-cases (dir_get i disk.master)) [
    | inl e' ↦ absurd (ground (arith, e'))
    | inr (f, e') ↦ ground (
      arith,
      e,
      e',
      user_dir-set key key (dir_put i f d) d disk.users e,
      length-dir_put i f d,
      same_text_iff key key,
    )
  ]
]

-- A purge on a disk that can be written leaves the user's directory in place and empty, and every
-- other directory as it was.
pub purge_lem :
    (key : Text) (disk : Disk) (d : Dir) (key' : Text) (j : ℤ)
    → user_dir key disk ≡ some d
    → disk.writable ≡ true
    → let disk' = sandbox_purge_user key disk in
      (sandbox_count key disk' ≡ some 0)
      × (disk'.master ≡ disk.master)
      × (sandbox_read_doc key' j disk'
          ≡ (if same_text key key' then none else sandbox_read_doc key' j disk))
unfolding sandbox_purge_user sandbox_count sandbox_read_doc dir_get
purge_lem key disk d key' j e w = ground (
  arith,
  e,
  user_dir-set key key' [] d disk.users e,
  user_dir-set key key [] d disk.users e,
  same_text_iff key key,
)

set_user_dir-IsSound :
    (key : Text) (d e : Dir) (disk : Disk)
    → user_dir key disk ≡ some e
    → IsDir d
    → IsSound disk
    → IsSound (set_user_dir key d disk)
set_user_dir-IsSound key d e disk h one sound = record {
  master_dir = sound.master_dir;
  user_dirs = λ key' d' h'. elim (Bool-cases (same_text key key')) [
    | inl same ↦
        let q : d ≡ d' = ground (arith, user_dir-set key key' d e disk.users h) in subst IsDir q one
    | inr other ↦ sound.user_dirs key' d' (ground (arith, user_dir-set key key' d e disk.users h))
  ];
}

pub dispose-IsSound :
    (key : Text) (i : ℤ) (disk : Disk) → IsSound disk → IsSound (sandbox_dispose key i disk).1
unfolding sandbox_dispose
dispose-IsSound key i disk sound = elim (Option-cases (user_dir key disk)) [
  | inl e ↦ rw (e, sandbox_dispose) sound
  | inr (d, e) ↦ elim (Bool-cases (sandbox_has key i disk && disk.writable)) [
    | inl go ↦
        let e' : sandbox_dispose key i disk ≡ (true, set_user_dir key (dir_remove i d) disk) =
          ground (arith, e) in
        rw e' (
          set_user_dir-IsSound key (dir_remove i d) d disk e
            (IsDir-remove i d (sound.user_dirs key d e)) sound)
    | inr stop ↦ rw (e, sandbox_dispose) (rw stop sound)
  ]
]

-- What is read after a disposal on a disk that can be written, whether or not the file was there.
pub dispose-read :
    (key : Text) (i : ℤ) (disk : Disk) (key' : Text) (j : ℤ)
    → IsSound disk
    → disk.writable ≡ true
    → ((sandbox_dispose key i disk).1.writable ≡ true)
      × ((sandbox_dispose key i disk).1.master ≡ disk.master)
      × (sandbox_read_doc key' j (sandbox_dispose key i disk).1
          ≡ (if same_text key key' && eq_ℤ i j then none else sandbox_read_doc key' j disk))
unfolding sandbox_dispose sandbox_read_doc
dispose-read key i disk key' j sound w = elim (Option-cases (user_dir key disk)) [
  | inl e ↦ ground (arith, e, same_text_iff key key')
  | inr (d, e) ↦ elim (Option-cases (dir_get i d)) [
    | inl m ↦ ground (arith, e, m, same_text_iff key key', eq_ℤ_iff i j)
    | inr (f, m) ↦ ground (
      arith,
      e,
      m,
      user_dir-set key key' (dir_remove i d) d disk.users e,
      dir_get-remove i j d (sound.user_dirs key d e),
      same_text_iff key key',
    )
  ]
]
