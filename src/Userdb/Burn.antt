-- ===== src/Userdb/Burn.antt =====
-- Burned accounts in userdb/userdb.c: the marker -1 outlives every append, burn and round reset, while
-- a reset gives everybody else a fresh start.
use under_flow.Base.{
  subst, sym, ◌⊎◌, ℕ, zero, suc, ◌≡◌, refl, Bool, true, false, some, List, [], ◌∷◌, ◌++◌, arith,
  inl, inr, Bool-cases, Option-cases, get_elem?, map, ◌||◌, ◌&&◌,
}
use under_flow.Base.Int.{ℤ, pos}
use under_flow.Userdb.{
  UserRecord, Userdb, userdb_append, write_at, userdb_burn_at, burned, userdb_is_burned,
  reset_record, reset_from, userdb_reset_round,
}

reset_from-map :
    (initial_money : ℤ) (rs : List UserRecord)
    → reset_from true initial_money rs ≡ (true, map (reset_record initial_money) rs)
unfolding reset_from
reset_from-map initial_money [] = refl
reset_from-map initial_money (r ∷ rs) = ground (arith, reset_from-map initial_money rs)

get_elem?-map :
    (g : UserRecord → UserRecord) (rs : List UserRecord) (i : ℕ) (r : UserRecord)
    → get_elem? rs i ≡ some r
    → get_elem? (map g rs) i ≡ some (g r)
get_elem?-map g [] i r e = cc
get_elem?-map g (x ∷ rs) zero r e = ground arith
get_elem?-map g (x ∷ rs) (suc i) r e = get_elem?-map g rs i r e

-- What a round reset leaves of a record: a burned one as it is, any other with the initial money, an
-- empty inventory and its key.
Restored : ℤ → UserRecord → UserRecord → Type 0
Restored initial_money r r' =
    (userdb_is_burned r ≡ true → r' ≡ r)
    × (userdb_is_burned r ≡ false
        → (r'.key ≡ r.key) × (r'.money ≡ initial_money) × (r'.inventory_count ≡ pos 0))

reset_record-Restored :
    (initial_money : ℤ) (r : UserRecord) → Restored initial_money r (reset_record initial_money r)
unfolding Restored
reset_record-Restored initial_money r = ground arith

-- On a file that can be written, `userdb_reset_round` succeeds and treats the record at each offset as
-- `Restored` says: burned accounts stay burned, every other account starts afresh under its key.
reset_round_lem :
    (initial_money : ℤ) (db : Userdb) (i : ℕ) (r : UserRecord)
    → db.openable ≡ true
    → db.writable ≡ true
    → get_elem? db.records i ≡ some r
    → let (done, db') = userdb_reset_round initial_money db in
      (done ≡ true)
      × ((r' : UserRecord) × (get_elem? db'.records i ≡ some r') × Restored initial_money r r')
unfolding userdb_reset_round
reset_round_lem initial_money db i r o w e =
    rw (o, w, reset_from-map initial_money db.records)
      (
        refl,
        (
          reset_record initial_money r,
          get_elem?-map (reset_record initial_money) db.records i r e,
          reset_record-Restored initial_money r,
        ),
      )

-- The ways in which the server changes the file other than by a whole-record update.
pub data Change : Type 0 where
  append : UserRecord → Change
  burn : ℕ → Change
  reset : ℤ → Change

apply : Change → Userdb → Userdb
apply (append rec) db = (userdb_append rec db).1
apply (burn offset) db = (userdb_burn_at offset db).1
apply (reset initial_money) db = (userdb_reset_round initial_money db).1

pub apply_all : List Change → Userdb → Userdb
apply_all [] db = db
apply_all (c ∷ cs) db = apply_all cs (apply c db)

-- The record at an offset is burned.
abbrev pub BurnedAt : ℕ → List UserRecord → Type 0
BurnedAt i [] = ⊥
BurnedAt zero (r ∷ rs) = userdb_is_burned r ≡ true
BurnedAt (suc i) (r ∷ rs) = BurnedAt i rs

BurnedAt-append :
    (i : ℕ) (rs : List UserRecord) (r : UserRecord) → BurnedAt i rs → BurnedAt i (rs ++ (r ∷ []))
BurnedAt-append i [] r h = absurd h
BurnedAt-append zero (x ∷ rs) r h = h
BurnedAt-append (suc i) (x ∷ rs) r h = BurnedAt-append i rs r h

BurnedAt-write_at :
    (i j : ℕ) (rs : List UserRecord) (r : UserRecord)
    → userdb_is_burned r ≡ true
    → BurnedAt i rs
    → BurnedAt i (write_at j r rs)
unfolding write_at
BurnedAt-write_at i j [] r b h = absurd h
BurnedAt-write_at zero zero (x ∷ rs) r b h = b
BurnedAt-write_at zero (suc j) (x ∷ rs) r b h = h
BurnedAt-write_at (suc i) zero (x ∷ rs) r b h = h
BurnedAt-write_at (suc i) (suc j) (x ∷ rs) r b h = BurnedAt-write_at i j rs r b h

BurnedAt-reset :
    (i : ℕ) (w : Bool) (m : ℤ) (rs : List UserRecord)
    → BurnedAt i rs
    → BurnedAt i (reset_from w m rs).1
unfolding reset_from
BurnedAt-reset i w m [] h = absurd h
BurnedAt-reset zero w m (r ∷ rs) h = ground (arith, h)
BurnedAt-reset (suc i) w m (r ∷ rs) h = elim (Bool-cases (userdb_is_burned r || w)) [
  | inl go ↦ rw (go, reset_from) (BurnedAt-reset i w m rs h)
  | inr stop ↦ rw (stop, reset_from) h
]

append-cases :
    (rec : UserRecord) (db : Userdb)
    → ((userdb_append rec db).1.records ≡ db.records)
      ⊎ ((userdb_append rec db).1.records ≡ db.records ++ (rec ∷ []))
unfolding userdb_append
append-cases rec db = elim (Bool-cases (db.openable && db.writable)) [
  | inl go ↦ inr (ground arith)
  | inr stop ↦ inl (ground arith)
]

burn-cases :
    (offset : ℕ) (db : Userdb)
    → ((userdb_burn_at offset db).1.records ≡ db.records)
      ⊎ ((r : UserRecord) × ((userdb_burn_at offset db).1.records
            ≡ write_at offset (burned r) db.records))
unfolding userdb_burn_at
burn-cases offset db = elim (Option-cases (get_elem? db.records offset)) [
  | inl e ↦ inl (ground (arith, e))
  | inr (r, e) ↦ elim (Bool-cases (db.openable && db.writable)) [
    | inl go ↦ inr (r, ground (arith, e))
    | inr stop ↦ inl (ground (arith, e))
  ]
]

reset-cases :
    (m : ℤ) (db : Userdb)
    → ((userdb_reset_round m db).1.records ≡ db.records)
      ⊎ ((userdb_reset_round m db).1.records ≡ (reset_from db.writable m db.records).1)
unfolding userdb_reset_round
reset-cases m db = elim (Bool-cases db.openable) [
  | inl go ↦ inr (ground arith)
  | inr stop ↦ inl (ground arith)
]

apply-BurnedAt :
    (i : ℕ) (c : Change) (db : Userdb) → BurnedAt i db.records → BurnedAt i (apply c db).records
unfolding apply
apply-BurnedAt i (append rec) db h = elim (append-cases rec db) [
  | inl e ↦ subst (BurnedAt i) (sym e) h
  | inr e ↦ subst (BurnedAt i) (sym e) (BurnedAt-append i db.records rec h)
]
apply-BurnedAt i (burn offset) db h = elim (burn-cases offset db) [
  | inl e ↦ subst (BurnedAt i) (sym e) h
  | inr (r, e) ↦
      subst (BurnedAt i) (sym e) (BurnedAt-write_at i offset db.records (burned r) refl h)
]
apply-BurnedAt i (reset m) db h = elim (reset-cases m db) [
  | inl e ↦ subst (BurnedAt i) (sym e) h
  | inr e ↦ subst (BurnedAt i) (sym e) (BurnedAt-reset i db.writable m db.records h)
]

-- A record that carries the marker still carries it after any sequence of appends, burns and round
-- resets, whether or not they succeed.
pub burned_forever :
    (i : ℕ) (cs : List Change) (db : Userdb)
    → BurnedAt i db.records
    → BurnedAt i (apply_all cs db).records
unfolding apply_all
burned_forever i [] db h = h
burned_forever i (c ∷ cs) db h = burned_forever i cs (apply c db) (apply-BurnedAt i c db h)
