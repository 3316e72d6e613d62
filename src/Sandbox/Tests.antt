-- ===== src/Sandbox/Tests.antt =====
-- The directories of src/server/sandbox.c with two users.
use under_flow.Base.{
  ◌≤◌, ℕ, ◌≡◌, refl, ◌+◌, Bool, true, false, Option, none, some, List, [], ◌∷◌, arith, inl, inr,
  if◌then◌else◌,
}
use under_flow.Base.Int.{ℤ, pos}
use under_flow.Base.Text.{Text}
use under_flow.Sandbox.{
  user_dir_in, DocFile, Dir, Disk, dir_get, user_dir, sandbox_read_doc, sandbox_buy,
}
use under_flow.Sandbox.Files.{files_of, IsDir}
use under_flow.Sandbox.Move.{IsSound, buy_moves}

abbrev ada : Text
ada = 0x61 ∷ []

abbrev bob : Text
bob = 0x62 ∷ []

abbrev doc : ℤ → DocFile
doc id = record { doc_id = id; tags = 18; base_price = pos 800; name = 0x64 ∷ [] }

-- One document in the master directory, one of ada's, and bob with an empty directory.
abbrev disk : Disk
disk = record {
  writable = true;
  master = (pos 5, doc (pos 5)) ∷ [];
  users = (ada, (pos 7, doc (pos 7)) ∷ []) ∷ (bob, []) ∷ [];
}

one_file : (i j : ℤ) (f : DocFile) → files_of j ((i, f) ∷ []) ≤ 1
unfolding files_of
one_file i j f = ground arith

user_dirs-IsDir : (key : Text) (d : Dir) → user_dir key disk ≡ some d → IsDir d
unfolding files_of user_dir_in
user_dirs-IsDir key d e j = ground (arith, e)

disk-IsSound : IsSound disk
disk-IsSound = record {
  master_dir = λ j. one_file (pos 5) j (doc (pos 5));
  user_dirs = user_dirs-IsDir;
}

buy_moves_example :
    let (done, disk') = sandbox_buy bob (pos 5) disk in
    (done ≡ true)
    × (dir_get (pos 5) disk'.master ≡ none)
    × (sandbox_read_doc bob (pos 5) disk' ≡ some (doc (pos 5)))
unfolding dir_get user_dir_in under_flow.Base.Text.same_text
buy_moves_example =
    buy_moves bob (pos 5) disk (doc (pos 5)) [] bob (pos 5) disk-IsSound refl refl refl
