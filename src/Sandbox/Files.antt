-- ===== src/Sandbox/Files.antt =====
-- Files and directories of src/server/sandbox.c as tables: lookups after a write or a removal.
use under_flow.Base.{
  max, ℕ, ◌+◌, ◌-◌, ◌≤◌, max, ◌≡◌, refl, false, none, some, List, [], ◌∷◌, if◌then◌else◌, length,
  arith, inl, inr, Bool-cases,
}
use under_flow.Base.Int.{ℤ, eq_ℤ, eq_ℤ_iff}
use under_flow.Base.Text.{Text, same_text, same_text_iff}
use under_flow.Sandbox.{DocFile, Dir, dir_get, dir_put, dir_remove, user_dir_in, set_user_dir_in}

pub dir_get-put :
    (i j : ℤ) (f : DocFile) (d : Dir)
    → dir_get j (dir_put i f d) ≡ (if eq_ℤ i j then some f else dir_get j d)
unfolding dir_get dir_put
dir_get-put i j f [] = refl
dir_get-put i j f ((k, g) ∷ d) =
    ground (arith, dir_get-put i j f d, eq_ℤ_iff i j, eq_ℤ_iff k i, eq_ℤ_iff k j)

-- How many files of a directory have an identifier.
unfoldable pub files_of : ℤ → Dir → ℕ
files_of i [] = 0
files_of i ((k, g) ∷ d) = (if eq_ℤ k i then 1 else 0) + files_of i d

-- A directory holds one file of a name.
abbrev pub IsDir : Dir → Type 0
IsDir d = (i : ℤ) → files_of i d ≤ 1

dir_get-none : (i : ℤ) (d : Dir) → files_of i d ≡ 0 → dir_get i d ≡ none
unfolding dir_get files_of
dir_get-none i [] h = refl
dir_get-none i ((k, g) ∷ d) h = ground (arith, dir_get-none i d)

files_of-remove :
    (i j : ℤ) (d : Dir) → files_of j (dir_remove i d) ≡ files_of j d - (if eq_ℤ i j then 1 else 0)
unfolding files_of dir_remove
files_of-remove i j [] = ground arith
files_of-remove i j ((k, g) ∷ d) =
    ground (arith, files_of-remove i j d, eq_ℤ_iff i j, eq_ℤ_iff k i, eq_ℤ_iff k j)

pub dir_get-remove_ne :
    (i j : ℤ) (d : Dir) → eq_ℤ i j ≡ false → dir_get j (dir_remove i d) ≡ dir_get j d
unfolding dir_get dir_remove
dir_get-remove_ne i j [] h = refl
dir_get-remove_ne i j ((k, g) ∷ d) h =
    ground (arith, dir_get-remove_ne i j d h, eq_ℤ_iff i j, eq_ℤ_iff k i, eq_ℤ_iff k j)

pub dir_get-remove :
    (i j : ℤ) (d : Dir)
    → IsDir d
    → dir_get j (dir_remove i d) ≡ (if eq_ℤ i j then none else dir_get j d)
dir_get-remove i j d one = elim (Bool-cases (eq_ℤ i j)) [
  | inl same ↦ rw same (dir_get-none j _ (ground (arith, files_of-remove i j d, one j)))
  | inr other ↦ rw other (dir_get-remove_ne i j d other)
]

pub IsDir-remove : (i : ℤ) (d : Dir) → IsDir d → IsDir (dir_remove i d)
IsDir-remove i d one j = omega (arith, files_of-remove i j d, one j)

length-dir_remove :
    (i : ℤ) (d : Dir) (f : DocFile) → dir_get i d ≡ some f → length (dir_remove i d) + 1 ≡ length d
unfolding dir_get dir_remove
length-dir_remove i [] f e = cc
length-dir_remove i ((k, g) ∷ d) f e = ground (arith, length-dir_remove i d f)

pub length-dir_put :
    (i : ℤ) (f : DocFile) (d : Dir)
    → length (dir_put i f d) ≡ length d + elim (dir_get i d) [ none ↦ 1 | some g ↦ 0 ]
unfolding dir_get dir_put
length-dir_put i f [] = omega arith
length-dir_put i f ((k, g) ∷ d) = ground (arith, length-dir_put i f d)

files_of-put :
    (i j : ℤ) (f : DocFile) (d : Dir)
    → files_of j (dir_put i f d) ≡ max (files_of j d) (if eq_ℤ i j then 1 else 0)
unfolding files_of dir_put
files_of-put i j f [] = ground arith
files_of-put i j f ((k, g) ∷ d) =
    ground (arith, files_of-put i j f d, eq_ℤ_iff i j, eq_ℤ_iff k i, eq_ℤ_iff k j)

IsDir-put : (i : ℤ) (f : DocFile) (d : Dir) → IsDir d → IsDir (dir_put i f d)
IsDir-put i f d one j = ground (arith, files_of-put i j f d, one j)

pub user_dir-set :
    (key key' : Text) (d e : Dir) (us : List (Text × Dir))
    → user_dir_in key us ≡ some e
    → user_dir_in key' (set_user_dir_in key d us)
      ≡ (if same_text key key' then some d else user_dir_in key' us)
unfolding user_dir_in set_user_dir_in
user_dir-set key key' d e [] h = cc
user_dir-set key key' d e ((k, x) ∷ us) h = ground (
  arith,
  user_dir-set key key' d e us,
  same_text_iff key key',
  same_text_iff k key,
  same_text_iff k key',
)
