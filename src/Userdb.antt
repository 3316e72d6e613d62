-- ===== src/Userdb.antt =====
-- userdb/userdb.c: the file users.dat as the sequence of its records, behind one mutex. Each function
-- is one critical section. A file offset is counted in records: every offset that the program uses is
-- a multiple of `sizeof(UserRecord)`. A write stores a whole record or fails.
pub mod Lookup
pub mod Burn
mod Tests
use under_flow.Base.{
  ℕ, zero, suc, ◌+◌, Bool, true, false, ◌&&◌, ◌||◌, not, Option, none, some, List, [], ◌∷◌, ◌++◌,
  if◌then◌else◌, map, length, get_elem?, replicate,
}
use under_flow.Base.Int.{ℤ, pos, negsuc, eq_ℤ}
use under_flow.Base.Text.{Text, strncmp_eq}

abbrev pub max_key_len : ℕ
max_key_len = 32

abbrev pub max_inven_size : ℕ
max_inven_size = 7

pub record UserRecord : Type 0 where
  pub key : Text
  pub money : ℤ
  pub inventory_count : ℤ
  pub inventory_doc_ids : List ℤ

-- users.dat: whether `open` finds it, whether `write` stores a whole record, and its records.
pub record Userdb : Type 0 where
  pub openable : Bool
  pub writable : Bool
  pub records : List UserRecord

-- A record of zero bytes.
abbrev pub zero_record : UserRecord
zero_record = record {
  key = [];
  money = pos 0;
  inventory_count = pos 0;
  inventory_doc_ids = replicate max_inven_size (pos 0);
}

-- `dir_ready`: `mkdir` succeeded or said EEXIST; `creates`: `open` with O_CREAT succeeded.
unfoldable userdb_init : Bool → Bool → Userdb → Bool × Userdb
userdb_init dir_ready creates db =
    if dir_ready && creates then (true, record db { openable = true }) else (false, db)

-- The read loop of `userdb_find`, from the record at `offset`.
unfoldable pub find_from : Text → ℕ → List UserRecord → Option (UserRecord × ℕ)
find_from key offset [] = none
find_from key offset (r ∷ rs) =
    let later = find_from key (offset + 1) rs in
    elim (strncmp_eq max_key_len key r.key) [ true ↦ some (r, offset) | false ↦ later ]

-- The record and its offset; `none` is the return value -1.
unfoldable pub userdb_find : Text → Userdb → Option (UserRecord × ℕ)
userdb_find key db = if db.openable then find_from key 0 db.records else none

-- The offset of the new record; `none` is the return value -1.
unfoldable pub userdb_append : UserRecord → Userdb → Option ℕ × Userdb
userdb_append rec db =
    if db.openable && db.writable
    then (some (length db.records), record db { records = db.records ++ (rec ∷ []) })
    else (none, db)

-- `lseek` and `write`; beyond the end of the file the gap reads as zero bytes.
unfoldable pub write_at : ℕ → UserRecord → List UserRecord → List UserRecord
write_at zero rec [] = rec ∷ []
write_at zero rec (r ∷ rs) = rec ∷ rs
write_at (suc offset) rec [] = zero_record ∷ write_at offset rec []
write_at (suc offset) rec (r ∷ rs) = r ∷ write_at offset rec rs

unfoldable pub userdb_update_at : ℕ → UserRecord → Userdb → Bool × Userdb
userdb_update_at offset rec db =
    if db.openable && db.writable
    then (true, record db { records = write_at offset rec db.records })
    else (false, db)

-- The record that `userdb_burn_at` writes back.
abbrev pub burned : UserRecord → UserRecord
burned rec = record rec {
  money = negsuc 0;
  inventory_count = pos 0;
  inventory_doc_ids = replicate max_inven_size (pos 0);
}

unfoldable pub userdb_burn_at : ℕ → Userdb → Bool × Userdb
userdb_burn_at offset db = elim (get_elem? db.records offset) [
  | none ↦ (false, db)
  | some rec ↦
      if db.openable && db.writable
      then (true, record db { records = write_at offset (burned rec) db.records })
      else (false, db)
]

abbrev pub userdb_is_burned : UserRecord → Bool
userdb_is_burned rec = eq_ℤ rec.money (negsuc 0)

abbrev pub reset_record : ℤ → UserRecord → UserRecord
reset_record initial_money rec = if eq_ℤ rec.money (negsuc 0) then rec else record rec {
  money = initial_money;
  inventory_count = pos 0;
  inventory_doc_ids = replicate max_inven_size (pos 0);
}

-- The loop of `userdb_reset_round`; it stops with `false` at the first write that fails.
unfoldable pub reset_from : Bool → ℤ → List UserRecord → Bool × List UserRecord
reset_from writable initial_money [] = (true, [])
reset_from writable initial_money (r ∷ rs) =
    let rest = reset_from writable initial_money rs in
    elim (eq_ℤ r.money (negsuc 0) || writable) [
      | true ↦ (rest.0, reset_record initial_money r ∷ rest.1)
      | false ↦ (false, r ∷ rs)
    ]

unfoldable pub userdb_reset_round : ℤ → Userdb → Bool × Userdb
userdb_reset_round initial_money db =
    if db.openable
    then (let (done, rs) = reset_from db.writable initial_money db.records in
        (done, record db { records = rs }))
    else (false, db)
