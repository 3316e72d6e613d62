-- ===== src/Server/Desk.antt =====
-- The smaller handlers of src/server/server_main.c: dispose, inventory, rumor, bankruptcy and the debug
-- command that fills an account.
pub mod Rumor
pub mod Bankruptcy
use under_flow.Base.{
  ℕ, zero, suc, ◌+◌, Bool, true, false, not, Option, none, some, List, [], ◌∷◌, map, if◌then◌else◌,
  ltb,
}
use under_flow.Base.Int.{ℤ, pos, lt_ℤ, sub32}
use under_flow.Base.Text.{Text}
use under_flow.Market.{Market, is_tag_frozen}
use under_flow.Userdb.{UserRecord, max_inven_size, userdb_find, userdb_update_at, userdb_burn_at}
use under_flow.Sandbox.{InvenItem, sandbox_has, sandbox_dispose, sandbox_list, sandbox_count}
use under_flow.Protocol.{
  inven_info, dispose_ok, rumor_glitch, game_over, bankrupt, chat, filled_up, doc_not_found,
  rumor_cooldown, invalid_session, not_enough_money,
}
use under_flow.Server.{Server, packet_send, send_error, unicast_to_key}
use under_flow.Server.Round.{copy_key}

abbrev pub rumor_fee : ℤ
rumor_fee = pos 500

abbrev rumor_cooldown_sec : ℕ
rumor_cooldown_sec = 30

unfoldable pub handle_dispose : ℕ → Text → ℤ → Server → Server
handle_dispose sock key doc_id s =
    let (disposed, disk) = sandbox_dispose key doc_id s.disk in
    if not (sandbox_has key doc_id s.disk)
    then send_error sock doc_not_found s
    else if not disposed
    then send_error sock doc_not_found (record s { disk = disk })
    else packet_send sock dispose_ok (record s { disk = disk })

-- `sandbox_list` with the frozen documents marked.
abbrev inventory_of : Text → Server → List InvenItem
inventory_of key s =
    map (λ (item : InvenItem). (record item { is_frozen = is_tag_frozen item.tags s.market }))
      (sandbox_list key max_inven_size s.disk)

-- Without an account the money field keeps the 0 of `memset`.
abbrev money_of : Text → Server → ℤ
money_of key s = elim (userdb_find key s.users) [ none ↦ pos 0 | some (rec, offset) ↦ rec.money ]

unfoldable pub handle_inventory : ℕ → Text → Server → Server
handle_inventory sock key s = packet_send sock (inven_info (inventory_of key s) (money_of key s)) s

-- The critical section behind `g_rumor_mutex` when the fee is paid.
unfoldable pub pay_rumor : ℕ → UserRecord → ℕ → Server → Server
pay_rumor now rec offset s = record s {
  users = (userdb_update_at offset (record rec { money = sub32 rec.money rumor_fee }) s.users).1;
  rumor_cd_until = now + rumor_cooldown_sec;
}

unfoldable pub handle_rumor : ℕ → ℕ → Text → Text → Server → Server
unfolding pay_rumor handle_inventory
handle_rumor now sock key target s =
    if ltb now s.rumor_cd_until
    then send_error sock rumor_cooldown s
    else elim (userdb_find key s.users) [
      | none ↦ send_error sock invalid_session s
      | some (rec, offset) ↦
          if lt_ℤ rec.money rumor_fee
          then send_error sock not_enough_money s
          else handle_inventory sock key
              (unicast_to_key (copy_key target) rumor_glitch (pay_rumor now rec offset s))
    ]

-- Whether the account was burned, and the state after.
unfoldable pub check_bankruptcy : ℕ → Text → Server → Bool × Server
check_bankruptcy sock key s = elim (userdb_find key s.users) [
  | none ↦ (false, s)
  | some (rec, offset) ↦
      if lt_ℤ (pos 0) rec.money then (false, s) else elim (sandbox_count key s.disk) [
        | none ↦ (false, s)
        | some zero ↦ (
          true,
          packet_send sock (game_over bankrupt)
              (record s { users = (userdb_burn_at offset s.users).1 }),
        )
        | some (suc n) ↦ (false, s)
      ]
]

unfoldable pub handle_fake_rich : ℕ → Text → Server → Server
handle_fake_rich sock key s = elim (userdb_find key s.users) [
  | none ↦ send_error sock invalid_session s
  | some (rec, offset) ↦
      let goal = s.round.goal_money in
      let users = (userdb_update_at offset (record rec { money = goal }) s.users).1 in
      packet_send sock (chat (filled_up goal))
        (packet_send sock (inven_info (inventory_of key s) goal) (record s { users = users }))
]
