-- ===== src/Server/Payoff/Effect.antt =====
-- What `handle_payoff` of src/server/server_main.c does on each of its branches.
use under_flow.Base.{
  ℕ, ◌+◌, ◌≡◌, refl, ap, ◌∙◌, Bool, true, false, ◌&&◌, ◌||◌, none, some, if◌then◌else◌, leb, arith,
  Bool-cases, inl, inr,
}
use under_flow.Base.Int.{ℤ, lt_ℤ}
use under_flow.Base.Text.{Text, same_text}
use under_flow.Userdb.{UserRecord, userdb_find}
use under_flow.Userdb.Lookup.{same_key, update-find}
use under_flow.Sandbox.{sandbox_purge_user, Dir, user_dir, sandbox_count, sandbox_read_doc}
use under_flow.Sandbox.Move.{purge_lem}
use under_flow.Protocol.{three_escaped, Notice, initial_money, invalid_session, not_enough_money}
use under_flow.Server.{Server, send_error}
use under_flow.Server.Round.{fire_round_end_countdown}
use under_flow.Server.Payoff.{
  userdb_update_at, announce_escape, record_escape, pay_off, handle_payoff, renew_account,
}

-- Without an account, or with less money than the goal, a payoff changes nothing and the client is
-- told which of the two it was.
payoff_refused :
    (now : ℕ) (spawned : Bool) (sock : ℕ) (key : Text) (s : Server)
    → (userdb_find key s.users ≡ none
        → handle_payoff now spawned sock key s ≡ send_error sock invalid_session s)
      × ((rec : UserRecord) (offset : ℕ)
          → userdb_find key s.users ≡ some (rec, offset)
          → lt_ℤ rec.money s.round.goal_money ≡ true
          → handle_payoff now spawned sock key s ≡ send_error sock not_enough_money s)
unfolding handle_payoff
payoff_refused now spawned sock key s =
    (λ e. ground (arith, e), λ rec offset e h. ground (arith, e, h))

-- A countdown, fired or not, changes only the flag of the round and the log of packets.
countdown-keeps :
    (spawned : Bool) (announce : Notice) (s : Server)
    → let s' = fire_round_end_countdown spawned announce s in
      (record s' { round = s.round; out = s.out } ≡ s)
      × (record s'.round { round_end_active = s.round.round_end_active } ≡ s.round)
      × (s'.round.round_end_active ≡ (s.round.round_end_active || spawned))
unfolding fire_round_end_countdown
countdown-keeps spawned announce s = elim (Bool-cases s.round.round_end_active) [
  | inl on ↦ ground (arith, on)
  | inr off ↦ elim (Bool-cases spawned) [
    | inl starts ↦ ground (arith, off, starts)
    | inr fails ↦ ground (arith, off, fails)
  ]
]

or-false : (b : Bool) → b ≡ (b || false)
or-false true = refl
or-false false = refl

pay_off-now :
    (now : ℕ) (spawned : Bool) (sock : ℕ) (key : Text) (s : Server) (rec : UserRecord) (offset : ℕ)
    → userdb_find key s.users ≡ some (rec, offset)
    → lt_ℤ rec.money s.round.goal_money ≡ false
    → handle_payoff now spawned sock key s ≡ pay_off now spawned sock key rec offset s
unfolding handle_payoff
pay_off-now now spawned sock key s rec offset e enough = ground (arith, e, enough)

pay_off-keeps :
    (now : ℕ) (spawned : Bool) (sock : ℕ) (key : Text) (s : Server) (rec : UserRecord) (offset : ℕ)
    → let s' = pay_off now spawned sock key rec offset s in
      let r = record_escape now key s.round in
      (s'.users ≡ (userdb_update_at offset (record rec { money = initial_money }) s.users).1)
      × (s'.disk ≡ sandbox_purge_user key s.disk)
      × (record s'.round { round_end_active = r.round_end_active } ≡ r)
      × (s'.round.round_end_active
          ≡ (s.round.round_end_active || (leb 3 r.escaped_count && spawned)))
      × (record s' { users = s.users; disk = s.disk; round = s.round; out = s.out } ≡ s)
unfolding pay_off renew_account announce_escape record_escape
pay_off-keeps now spawned sock key s rec offset =
    let r = record_escape now key s.round in
    let told =
      announce_escape sock key s.round.goal_money r.goal_money
        (renew_account key rec offset (record s { round = r })) in
    let kept = countdown-keeps spawned three_escaped told in
    elim (Bool-cases (leb 3 (s.round.escaped_count + 1))) [
      | inl third ↦ rw third (
        ap (λ t. t.users) kept.0,
        ap (λ t. t.disk) kept.0,
        kept.1,
        kept.2,
        ap {A = Server}
            (λ t. record t { users = s.users; disk = s.disk; round = s.round; out = s.out }) kept.0,
      )
      | inr early ↦ rw early (refl, refl, refl, or-false _, refl)
    ]

-- What a payoff with enough money leaves, on files that can be written: the account has the initial
-- money, its documents are gone, no other account and no other directory changes, the round has
-- recorded the escape, the countdown runs if it ran before or if this is the third escape or a later
-- one and its thread starts, and market, offers and raid are as they were.
pub payoff_succeeds :
    (now : ℕ) (spawned : Bool) (sock : ℕ) (key : Text) (s : Server) (rec : UserRecord) (offset : ℕ)
    (d : Dir) (key' : Text) (j : ℤ)
    → userdb_find key s.users ≡ some (rec, offset)
    → lt_ℤ rec.money s.round.goal_money ≡ false
    → user_dir key s.disk ≡ some d
    → s.disk.writable ≡ true
    → s.users.writable ≡ true
    → let s' = handle_payoff now spawned sock key s in
      let r = record_escape now key s.round in
      (userdb_find key' s'.users ≡ (
        if same_key key key'
        then some (record rec { money = initial_money }, offset)
        else userdb_find key' s.users))
      × (sandbox_count key s'.disk ≡ some 0)
      × (s'.disk.master ≡ s.disk.master)
      × (sandbox_read_doc key' j s'.disk
          ≡ (if same_text key key' then none else sandbox_read_doc key' j s.disk))
      × (record s'.round { round_end_active = r.round_end_active } ≡ r)
      × (s'.round.round_end_active
          ≡ (s.round.round_end_active || (leb 3 r.escaped_count && spawned)))
      × (record s' { users = s.users; disk = s.disk; round = s.round; out = s.out } ≡ s)
payoff_succeeds now spawned sock key s rec offset d key' j e enough dir dw uw =
    let purged = purge_lem key s.disk d key' j dir dw in
    let paid =
      update-find key key' offset rec (record rec { money = initial_money }) s.users e refl uw in
    let (us, ds, rd, on, rest) = pay_off-keeps now spawned sock key s rec offset in
    rw (pay_off-now now spawned sock key s rec offset e enough) (
      ap (userdb_find key') us ∙ paid.1,
      ap (sandbox_count key) ds ∙ purged.0,
      ap (λ k. k.master) ds ∙ purged.1,
      ap (sandbox_read_doc key' j) ds ∙ purged.2,
      rd,
      on,
      rest,
    )
