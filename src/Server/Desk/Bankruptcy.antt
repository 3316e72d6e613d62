-- ===== src/Server/Desk/Bankruptcy.antt =====
-- Who is bankrupt in `check_bankruptcy` of src/server/server_main.c.
use under_flow.Base.{
  if◌then◌else◌, ℕ, zero, suc, ◌≡◌, refl, true, false, ◌&&◌, not, some, ◌==◌, arith, Bool-cases,
  inl, inr,
}
use under_flow.Base.Int.{pos, lt_ℤ}
use under_flow.Base.Text.{Text}
use under_flow.Userdb.{UserRecord, userdb_find, userdb_burn_at, burned}
use under_flow.Userdb.Lookup.{same_key, burn-find}
use under_flow.Sandbox.{sandbox_count}
use under_flow.Protocol.{game_over, bankrupt}
use under_flow.Server.{Server, packet_send}
use under_flow.Server.Desk.{check_bankruptcy}

bankrupt_state :
    (sock : ℕ) (key : Text) (s : Server) (rec : UserRecord) (offset n : ℕ)
    → userdb_find key s.users ≡ some (rec, offset)
    → sandbox_count key s.disk ≡ some n
    → check_bankruptcy sock key s ≡ (
        if not (lt_ℤ (pos 0) rec.money) && (n == 0)
        then (
          true,
          packet_send sock
              (game_over bankrupt)
              (record s { users = (userdb_burn_at offset s.users).1 }),
        )
        else (false, s))
unfolding check_bankruptcy
bankrupt_state sock key s rec offset zero e c = ground (arith, e, c)
bankrupt_state sock key s rec offset (suc n) e c = ground (arith, e, c)

-- A user with an account and a directory is bankrupt exactly with no money and no document. Then, on a
-- file that can be written, the account is burned and no other account changes; a user who is not
-- bankrupt is left alone.
bankruptcy_lem :
    (sock : ℕ) (key key' : Text) (s : Server) (rec : UserRecord) (offset n : ℕ)
    → userdb_find key s.users ≡ some (rec, offset)
    → sandbox_count key s.disk ≡ some n
    → s.users.writable ≡ true
    → let r = check_bankruptcy sock key s in
      let broke = not (lt_ℤ (pos 0) rec.money) && (n == 0) in
      (r.0 ≡ broke)
      × (broke ≡ true
          → userdb_find key' r.1.users
            ≡ (if same_key key key' then some (burned rec, offset) else userdb_find key' s.users))
      × (broke ≡ false → r.1 ≡ s)
bankruptcy_lem sock key key' s rec offset n e c w =
    let state = bankrupt_state sock key s rec offset n e c in
    let found = (burn-find key key' offset rec s.users e w).1 in
    elim (Bool-cases (not (lt_ℤ (pos 0) rec.money) && (n == 0))) [
      | inl broke ↦ rw (state, broke) (refl, λ h. found, λ h. absurd (ground (arith, h)))
      | inr fine ↦ rw (state, fine) (refl, λ h. absurd (ground (arith, h)), λ h. refl)
    ]
