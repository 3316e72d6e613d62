-- ===== src/Server/Raid/Burning.antt =====
-- Whom the raid of src/server/server_main.c burns.
use under_flow.Base.{
  ℕ, ◌+◌, ◌≡◌, refl, ap, ◌∙◌, Bool, true, false, ◌||◌, Option, none, some, List, [], ◌∷◌,
  if◌then◌else◌, arith, Option-cases, inl, inr,
}
use under_flow.Base.Text.{Text, strncmp_eq_cong, strncmp_eq_iff}
use under_flow.Userdb.{UserRecord, Userdb, find_from, userdb_find, userdb_burn_at, burned}
use under_flow.Userdb.Lookup.{same_key, burn-find}
use under_flow.Protocol.{game_over, burned_account}
use under_flow.Server.{Server}
use under_flow.Server.Sending.{unicast-state}
use under_flow.Server.Raid.{
  sandbox_purge_user, burn_user_by_key, burn_all, victims_of, no_pending, clear_raid,
  periodic_raid_timeout,
}

pub same_key_refl : (key : Text) → same_key key key ≡ true
same_key_refl key = (strncmp_eq_iff 32 key key).1 refl

find_from-cong :
    (a b : Text) (off : ℕ) (rs : List UserRecord)
    → same_key a b ≡ true
    → find_from a off rs ≡ find_from b off rs
unfolding find_from
find_from-cong a b off [] h = refl
find_from-cong a b off (r ∷ rs) h =
    ground (arith, h, strncmp_eq_cong 32 a b r.key, find_from-cong a b (off + 1) rs h)

userdb_find-cong :
    (a b : Text) (db : Userdb) → same_key a b ≡ true → userdb_find a db ≡ userdb_find b db
unfolding userdb_find
userdb_find-cong a b db h = ground (arith, find_from-cong a b 0 db.records h)

-- What was found, burned.
abbrev pub burn_hit : Option (UserRecord × ℕ) → Option (UserRecord × ℕ)
burn_hit none = none
burn_hit (some (rec, offset)) = some (burned rec, offset)

-- Whether a key is among those of a list.
abbrev pub named : Text → List Text → Bool
named key [] = false
named key (k ∷ ks) = same_key k key || named key ks

burn_hit_twice : (o : Option (UserRecord × ℕ)) → burn_hit (burn_hit o) ≡ burn_hit o
burn_hit_twice none = refl
burn_hit_twice (some (rec, offset)) = refl

burn_at-writable : (offset : ℕ) (db : Userdb) → (userdb_burn_at offset db).1.writable ≡ db.writable
unfolding userdb_burn_at
burn_at-writable offset db = ground arith

-- The state after a burn, but for the log.
unburned :
    (key : Text) (s : Server)
    → userdb_find key s.users ≡ none
    → record (burn_user_by_key key s) { out = s.out }
      ≡ record s { disk = sandbox_purge_user key s.disk }
unfolding burn_user_by_key
unburned key s e =
    let told =
      unicast-state key (game_over burned_account)
        (record s { disk = sandbox_purge_user key s.disk }) in
    ground (arith, e, told)

burned_state :
    (key : Text) (s : Server) (rec : UserRecord) (offset : ℕ)
    → userdb_find key s.users ≡ some (rec, offset)
    → record (burn_user_by_key key s) { out = s.out }
      ≡ record s { users = (userdb_burn_at offset s.users).1; disk = sandbox_purge_user key s.disk }
unfolding burn_user_by_key
burned_state key s rec offset e =
    let told = unicast-state key (game_over burned_account) (record s {
      users = (userdb_burn_at offset s.users).1;
      disk = sandbox_purge_user key s.disk;
    }) in
    ground (arith, e, told)

pub burn-keeps :
    (key : Text) (s : Server)
    → let s' = burn_user_by_key key s in
      (record s' { users = s.users; disk = s.disk; out = s.out } ≡ s)
      × (s'.users.writable ≡ s.users.writable)
      × ((key' : Text)
          → s.users.writable ≡ true
          → userdb_find key' s'.users ≡ (
              if same_key key key'
              then burn_hit (userdb_find key' s.users)
              else userdb_find key' s.users))
burn-keeps key s = elim (Option-cases (userdb_find key s.users)) [
  | inl e ↦
      let kept = unburned key s e in
      (
        ap {A = Server} (λ t. record t { users = s.users; disk = s.disk; out = s.out }) kept,
        ap (λ t. t.users.writable) kept,
        λ key' w.
            ap (λ t. userdb_find key' t.users) kept
            ∙ ground (arith, e, userdb_find-cong key key' s.users),
      )
  | inr ((rec, offset), e) ↦
      let kept = burned_state key s rec offset e in
      (
        ap {A = Server} (λ t. record t { users = s.users; disk = s.disk; out = s.out }) kept,
        ap (λ t. t.users.writable) kept ∙ burn_at-writable offset s.users,
        λ key' w.
            ap (λ t. userdb_find key' t.users) kept
            ∙ (burn-find key key' offset rec s.users e w).1
            ∙ ground (arith, e, userdb_find-cong key key' s.users),
      )
]

burn_all-keeps :
    (keys : List Text) (key' : Text) (s : Server)
    → s.users.writable ≡ true
    → let s' = burn_all keys s in
      (record s' { users = s.users; disk = s.disk; out = s.out } ≡ s)
      × (userdb_find key' s'.users ≡ (
          if named key' keys
          then burn_hit (userdb_find key' s.users)
          else userdb_find key' s.users))
unfolding burn_all
burn_all-keeps [] key' s w = (refl, refl)
burn_all-keeps (k ∷ ks) key' s w =
    let t = burn_user_by_key k s in
    let (same, writes, found) = burn-keeps k s in
    let (same', found') = burn_all-keeps ks key' t (writes ∙ w) in
    (
      ap {A = Server} (λ u. record u { users = s.users; disk = s.disk; out = s.out }) same' ∙ same,
      found' ∙ ground (arith, found key' w, burn_hit_twice (userdb_find key' s.users)),
    )

-- When the time of a raid is up, exactly the accounts whose keys are still pending are burned, on a file
-- that can be written, and every other account is as it was; the raid is over with nobody pending,
-- and board, offers, round and clients are as they were.
pub raid_timeout_lem :
    (key' : Text) (s : Server)
    → s.users.writable ≡ true
    → let s' = periodic_raid_timeout s in
      (userdb_find key' s'.users ≡ (
        if named key' (victims_of s.raid.pending_keys)
        then burn_hit (userdb_find key' s.users)
        else userdb_find key' s.users))
      × (s'.raid ≡ record s.raid { deadline = 0; pending_keys = no_pending })
      × (record s' { users = s.users; disk = s.disk; raid = s.raid; out = s.out } ≡ s)
unfolding periodic_raid_timeout
raid_timeout_lem key' s w =
    let (same, found) = burn_all-keeps (victims_of s.raid.pending_keys) key' (clear_raid s) w in
    (found, ap (λ t. t.raid) same, ap {A = Server} (λ t. record t { raid = s.raid }) same)
