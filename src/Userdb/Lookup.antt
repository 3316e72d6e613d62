-- ===== src/Userdb/Lookup.antt =====
-- userdb/userdb.c as a table by key: what a lookup finds after a record was appended or overwritten.
use under_flow.Base.{
  ℕ, zero, suc, ◌+◌, ◌≡◌, refl, Bool, true, none, some, List, [], ◌∷◌, ◌++◌, if◌then◌else◌, arith,
  inl, inr, Bool-cases, length, get_elem?, ◌∙◌,
}
use under_flow.Base.Text.{Text, strncmp_eq, strncmp_eq_cong, strncmp_eq_comm}
use under_flow.Userdb.{
  UserRecord, Userdb, max_key_len, find_from, userdb_find, userdb_append, write_at,
  userdb_update_at, userdb_burn_at, burned,
}

abbrev pub same_key : Text → Text → Bool
same_key a b = strncmp_eq max_key_len a b

-- A record that was found stands at its offset and has the key asked for.
find_from-at :
    (key : Text) (off : ℕ) (rs : List UserRecord) (r : UserRecord) (at : ℕ)
    → find_from key off rs ≡ some (r, at)
    → (i : ℕ) × (at ≡ off + i) × (get_elem? rs i ≡ some r) × (same_key key r.key ≡ true)
unfolding find_from
find_from-at key off [] r at e = cc
find_from-at key off (x ∷ rs) r at e = elim (Bool-cases (same_key key x.key)) [
  | inl hit ↦ (0, ground (arith, hit), ground (arith, hit), ground (arith, hit))
  | inr miss ↦
      let (i, p, q, k) = find_from-at key (off + 1) rs r at (ground (arith, miss)) in
      (suc i, omega arith, q, k)
]

-- Overwriting the record that a lookup found, under the same key, changes what that key finds and
-- nothing else.
find_from-write_at :
    (key key' : Text) (off : ℕ) (rs : List UserRecord) (i : ℕ) (r rec : UserRecord)
    → find_from key off rs ≡ some (r, off + i)
    → rec.key ≡ r.key
    → find_from key' off (write_at i rec rs)
      ≡ (if same_key key key' then some (rec, off + i) else find_from key' off rs)
unfolding find_from write_at
find_from-write_at key key' off [] i r rec e k = cc
find_from-write_at key key' off (x ∷ rs) zero r rec e k = elim (Bool-cases (same_key key x.key)) [
  | inl hit ↦
      ground (arith, hit, strncmp_eq_cong 32 key x.key key' hit, strncmp_eq_comm 32 key' x.key)
  | inr miss ↦
      let (i, p, _, _) = find_from-at key (off + 1) rs r (off + 0) (ground (arith, miss)) in
      absurd (omega arith)
]
find_from-write_at key key' off (x ∷ rs) (suc i) r rec e k =
    elim (Bool-cases (same_key key x.key)) [
      | inl hit ↦ absurd (ground (arith, hit))
      | inr miss ↦
          let e' : find_from key (off + 1) rs ≡ some (r, off + 1 + i) = ground (arith, miss) in
          ground (
            arith,
            miss,
            find_from-write_at key key' (off + 1) rs i r rec e' k,
            strncmp_eq_cong 32 key key' x.key,
          )
    ]

-- After `userdb_update_at` at the offset that `userdb_find` gave for a key, with a record of that key,
-- the key finds the new record at the same offset, and every other key finds what it found before.
pub update-find :
    (key key' : Text) (offset : ℕ) (r rec : UserRecord) (db : Userdb)
    → userdb_find key db ≡ some (r, offset)
    → rec.key ≡ r.key
    → db.writable ≡ true
    → let (done, db') = userdb_update_at offset rec db in
      (done ≡ true)
      × (userdb_find key' db'
          ≡ (if same_key key key' then some (rec, offset) else userdb_find key' db))
unfolding userdb_find userdb_update_at
update-find key key' offset r rec db e k w =
    let o : db.openable ≡ true = ground arith in
    let e' : find_from key 0 db.records ≡ some (r, 0 + offset) = ground arith in
    rw (w, o) (refl, find_from-write_at key key' 0 db.records offset r rec e' k ∙ ground arith)

find_from-append :
    (key : Text) (off : ℕ) (rs : List UserRecord) (rec : UserRecord)
    → find_from key off (rs ++ (rec ∷ [])) ≡ elim (find_from key off rs) [
      | some hit ↦ some hit
      | none ↦ if same_key key rec.key then some (rec, off + length rs) else none
    ]
unfolding find_from
find_from-append key off [] rec = ground arith
find_from-append key off (x ∷ rs) rec = ground (arith, find_from-append key (off + 1) rs rec)

find_from-same :
    (key key' : Text) (off : ℕ) (rs : List UserRecord)
    → same_key key key' ≡ true
    → find_from key off rs ≡ find_from key' off rs
unfolding find_from
find_from-same key key' off [] h = refl
find_from-same key key' off (x ∷ rs) h =
    ground (arith, strncmp_eq_cong 32 key key' x.key h, find_from-same key key' (off + 1) rs h)

pub find-same :
    (key key' : Text) (db : Userdb)
    → same_key key key' ≡ true
    → userdb_find key db ≡ userdb_find key' db
unfolding userdb_find
find-same key key' db h = ground (arith, find_from-same key key' 0 db.records h)

-- After `userdb_append` of a record whose key was not in the file, that key finds the record at the
-- offset that `userdb_append` returned, and every other key finds what it found before.
pub append-find :
    (key' : Text) (rec : UserRecord) (db : Userdb)
    → userdb_find rec.key db ≡ none
    → db.openable ≡ true
    → db.writable ≡ true
    → (offset : ℕ) × ((userdb_append rec db).0 ≡ some offset)
      × (userdb_find key' (userdb_append rec db).1
          ≡ (if same_key rec.key key' then some (rec, offset) else userdb_find key' db))
unfolding userdb_find userdb_append
append-find key' rec db fresh o w = (
  length db.records,
  ground arith,
  ground (
    arith,
    find_from-append key' 0 db.records rec,
    strncmp_eq_comm 32 rec.key key',
    find_from-same rec.key key' 0 db.records,
  ),
)

burn_at-update_at :
    (offset : ℕ) (r : UserRecord) (db : Userdb)
    → get_elem? db.records offset ≡ some r
    → userdb_burn_at offset db ≡ userdb_update_at offset (burned r) db
unfolding userdb_burn_at userdb_update_at
burn_at-update_at offset r db e = rw (e, userdb_burn_at)

-- A record that `userdb_find` gave is the one that stands at its offset.
find-get_elem? :
    (key : Text) (offset : ℕ) (r : UserRecord) (db : Userdb)
    → userdb_find key db ≡ some (r, offset)
    → (db.openable ≡ true) × (get_elem? db.records offset ≡ some r) × (same_key key r.key ≡ true)
unfolding userdb_find
find-get_elem? key offset r db e =
    let (i, p, q, k) = find_from-at key 0 db.records r offset (ground arith) in
    let p' : i ≡ offset = omega arith in (ground arith, rw (← p') q, k)

-- `userdb_burn_at`, at the offset that `userdb_find` gave for a key, marks that record: the key finds
-- it burned, and every other key finds what it found before.
pub burn-find :
    (key key' : Text) (offset : ℕ) (r : UserRecord) (db : Userdb)
    → userdb_find key db ≡ some (r, offset)
    → db.writable ≡ true
    → let (done, db') = userdb_burn_at offset db in
      (done ≡ true)
      × (userdb_find key' db'
          ≡ (if same_key key key' then some (burned r, offset) else userdb_find key' db))
burn-find key key' offset r db e w =
    rw as_update (update-find key key' offset r (burned r) db e refl w)
  where
    as_update : userdb_burn_at offset db ≡ userdb_update_at offset (burned r) db
    as_update = burn_at-update_at offset r db (find-get_elem? key offset r db e).1
