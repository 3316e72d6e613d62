-- ===== src/Server/Buy.antt =====
-- `handle_buy` of src/server/server_main.c. Between the checks and the critical section of
-- `market_take` the other threads may run: what they do is the argument `other`. Each branch of the
-- handler is a branch below, the rollback after a failed file move included.
pub mod Effect
pub mod Race
use under_flow.Base.{ℕ, Bool, true, false, Option, none, some, List, ltb, leb, if◌then◌else◌, not}
use under_flow.Base.Int.{ℤ, lt_ℤ, sub32}
use under_flow.Base.Text.{Text}
use under_flow.Market.{
  MarketSlot, market_find, market_take, market_add, taken, frozen_slot, not_listed,
}
use under_flow.Userdb.{UserRecord, userdb_find, userdb_update_at, max_inven_size}
use under_flow.Sandbox.{sandbox_count, sandbox_buy}
use under_flow.Protocol.{
  Packet, buy_ok, market_remove, not_enough_money, inventory_full, doc_not_found, doc_frozen,
  invalid_session,
}
use under_flow.Server.{Server, packet_send, send_error, broadcast_packet}

-- `sandbox_count(key) >= MAX_INVEN_SIZE`; the error value -1 is below it.
abbrev pub inventory_is_full : Text → Server → Bool
inventory_is_full key s = elim (sandbox_count key s.disk) [
  | none ↦ false
  | some n ↦ leb max_inven_size n
]

-- Steps 7 to 9: payment, answer and announcement.
unfoldable pub buy_pay : ℕ → ℤ → MarketSlot → UserRecord → ℕ → Server → Server
buy_pay sock doc_id slot rec offset s =
    let money = sub32 rec.money slot.base_price in
    let users = (userdb_update_at offset (record rec { money = money }) s.users).1 in
    broadcast_packet (market_remove doc_id)
      (packet_send sock (buy_ok doc_id money slot.tags slot.name) (record s { users = users }))

-- Steps 5 and 6: the slot is taken, and the file moved or the slot put back. `now` and `roll` are the
-- `time` and `rand` of the `market_add` that puts it back.
unfoldable pub buy_commit : ℕ → ℕ → ℕ → Text → ℤ → UserRecord → ℕ → Server → Server
unfolding buy_pay
buy_commit now roll sock key doc_id rec offset s =
    let (answer, market) = market_take doc_id s.market in
    elim answer [
      | frozen_slot ↦ send_error sock doc_frozen s
      | not_listed ↦ send_error sock doc_not_found s
      | taken slot ↦
          let (moved, disk) = sandbox_buy key doc_id s.disk in
          if moved
          then buy_pay sock doc_id slot rec offset (record s { market = market; disk = disk })
          else send_error sock doc_not_found (record s {
            market = (market_add now roll slot.doc_id slot.tags slot.base_price slot.name market).1;
          })
    ]

-- Steps 1 to 4, the checks, and then the rest in the state that the other threads leave.
unfoldable pub handle_buy : (Server → Server) → ℕ → ℕ → ℕ → Text → ℤ → Server → Server
handle_buy other now roll sock key doc_id s = elim (market_find doc_id s.market) [
  | none ↦ send_error sock doc_not_found s
  | some slot ↦
      if slot.is_frozen
      then send_error sock doc_frozen s
      else if inventory_is_full key s
      then send_error sock inventory_full s
      else elim (userdb_find key s.users) [
        | none ↦ send_error sock invalid_session s
        | some (rec, offset) ↦
            if lt_ℤ rec.money slot.base_price
            then send_error sock not_enough_money s
            else buy_commit now roll sock key doc_id rec offset (other s)
      ]
]
