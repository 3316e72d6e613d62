-- ===== src/Server/Desk/Rumor.antt =====
-- The shared cooldown of `handle_rumor` in src/server/server_main.c.
use under_flow.Base.{ℕ, ◌+◌, ◌<◌, ◌≡◌, refl, ap, ◌∙◌, true, false, some, if◌then◌else◌, arith, ltb}
use under_flow.Base.Int.{lt_ℤ, sub32}
use under_flow.Base.Text.{Text}
use under_flow.Userdb.{UserRecord, userdb_find}
use under_flow.Userdb.Lookup.{same_key, update-find}
use under_flow.Protocol.{rumor_cooldown, rumor_glitch}
use under_flow.Server.{Server, send_error}
use under_flow.Server.Sending.{unicast-state}
use under_flow.Server.Round.{copy_key}
use under_flow.Server.Desk.{rumor_fee, pay_rumor, handle_inventory, handle_rumor}

paid-state :
    (now sock : ℕ) (key target : Text) (s : Server) (rec : UserRecord) (offset : ℕ)
    → ltb now s.rumor_cd_until ≡ false
    → userdb_find key s.users ≡ some (rec, offset)
    → lt_ℤ rec.money rumor_fee ≡ false
    → let s' = handle_rumor now sock key target s in
      record s' { out = s.out } ≡ pay_rumor now rec offset s
unfolding handle_rumor handle_inventory pay_rumor
paid-state now sock key target s rec offset c e m =
    let told = unicast-state (copy_key target) rumor_glitch (pay_rumor now rec offset s) in
    ground (arith, c, e, m, told)

cooling :
    (now sock : ℕ) (key target : Text) (s : Server)
    → now < s.rumor_cd_until
    → handle_rumor now sock key target s ≡ send_error sock rumor_cooldown s
unfolding handle_rumor
cooling now sock key target s h = ground (arith, h)

-- A rumor that is paid costs the sender the fee and no other account anything; it starts a cooldown that
-- every user shares: until 30 seconds later, each rumor of anybody gets the cooldown error and changes
-- nothing. The file can be written.
rumor_lem :
    (now now' sock sock' : ℕ) (key target key' target' : Text) (s : Server) (rec : UserRecord)
    (offset : ℕ)
    → ltb now s.rumor_cd_until ≡ false
    → userdb_find key s.users ≡ some (rec, offset)
    → lt_ℤ rec.money rumor_fee ≡ false
    → s.users.writable ≡ true
    → let s' = handle_rumor now sock key target s in
      let paid : UserRecord = record rec { money = sub32 rec.money rumor_fee } in
      (userdb_find key' s'.users
        ≡ (if same_key key key' then some (paid, offset) else userdb_find key' s.users))
      × (now' < now + 30
          → handle_rumor now' sock' key' target' s' ≡ send_error sock' rumor_cooldown s')
unfolding pay_rumor
rumor_lem now now' sock sock' key target key' target' s rec offset c e m w =
    let state = paid-state now sock key target s rec offset c e m in
    let paid : UserRecord = record rec { money = sub32 rec.money rumor_fee } in
    (
      ap (λ t. userdb_find key' t.users) state
          ∙ (update-find key key' offset rec paid s.users e refl w).1,
      λ early.
          cooling now' sock' key' target' (handle_rumor now sock key target s)
            (omega (arith, early, ap (λ t. t.rumor_cd_until) state)),
    )
