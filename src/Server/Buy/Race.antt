-- ===== src/Server/Buy/Race.antt =====
-- A purchase of src/server/server_main.c with other threads between its checks and its commit.
use under_flow.Base.{some, ℕ, ◌≡◌, refl, true, arith, inl, inr, Bool-cases, Option-cases, ◌⊎◌}
use under_flow.Base.Int.{ℤ, lt_ℤ, sub32}
use under_flow.Base.Text.{Text}
use under_flow.Market.{MarketSlot, market_find, market_take, taken, frozen_slot, not_listed, Take}
use under_flow.Userdb.{UserRecord, userdb_find, userdb_update_at}
use under_flow.Sandbox.{sandbox_buy}
use under_flow.Protocol.{
  ErrorCode, doc_not_found, doc_frozen, inventory_full, invalid_session, not_enough_money,
}
use under_flow.Server.{Server, send_error}
use under_flow.Server.Buy.{handle_buy, buy_commit, buy_pay, inventory_is_full}

-- What a purchase leaves that goes through, checked in the state `s` and committed in `t`: the slot was taken
-- from the board, its file moved to the buyer, and the buyer's own record, as the checks found it, written at
-- its place less the price of that slot.
abbrev pub PaidForFile : Text → ℤ → Server → Server → Server → Type 0
PaidForFile key doc_id s t s' =
    (slot : MarketSlot) × (rec : UserRecord) × (offset : ℕ) × ((market_take doc_id t.market).0
      ≡ taken slot)
    × (userdb_find key s.users ≡ some (rec, offset))
    × ((sandbox_buy key doc_id t.disk).0 ≡ true)
    × (s'.disk ≡ (sandbox_buy key doc_id t.disk).1)
    × (s'.users
        ≡ (userdb_update_at offset (record rec { money = sub32 rec.money slot.base_price })
            t.users).1)
    × (s'.market ≡ (market_take doc_id t.market).1)

pub Untouched : Server → Server → Type 0
Untouched t s' = (s'.users ≡ t.users) × (s'.disk ≡ t.disk)

commit_outcome :
    (now roll sock : ℕ) (key : Text) (doc_id : ℤ) (rec : UserRecord) (offset : ℕ) (s t : Server)
    → userdb_find key s.users ≡ some (rec, offset)
    → let s' = buy_commit now roll sock key doc_id rec offset t in
      Untouched t s' ⊎ PaidForFile key doc_id s t s'
unfolding buy_commit buy_pay Untouched
commit_outcome now roll sock key doc_id rec offset s t found =
    go (market_take doc_id t.market).0 refl
  where
    go :
        (r : Take)
        → (market_take doc_id t.market).0 ≡ r
        → let s' = buy_commit now roll sock key doc_id rec offset t in
          Untouched t s' ⊎ PaidForFile key doc_id s t s'
    go frozen_slot e = inl (ground (arith, e), ground (arith, e))
    go not_listed e = inl (ground (arith, e), ground (arith, e))
    go (taken slot) e = elim (Bool-cases (sandbox_buy key doc_id t.disk).0) [
      | inl moved ↦ inr (
        slot,
        rec,
        offset,
        e,
        found,
        moved,
        ground (arith, e),
        ground (arith, e),
        ground (arith, e),
      )
      | inr stuck ↦ inl (ground (arith, e), ground (arith, e))
    ]

-- The checks either refuse in the state that they see, or hand over to the commit.
checked :
    (other : Server → Server) (now roll sock : ℕ) (key : Text) (doc_id : ℤ) (s : Server)
    → ((code : ErrorCode) × (handle_buy other now roll sock key doc_id s ≡ send_error sock code s))
      ⊎ ((rec : UserRecord) × (offset : ℕ) × (userdb_find key s.users ≡ some (rec, offset))
          × (handle_buy other now roll sock key doc_id s
              ≡ buy_commit now roll sock key doc_id rec offset (other s)))
unfolding handle_buy
checked other now roll sock key doc_id s = elim (Option-cases (market_find doc_id s.market)) [
  | inl e ↦ inl (doc_not_found, ground (arith, e))
  | inr (slot, e) ↦ elim (Bool-cases slot.is_frozen) [
    | inl h ↦ inl (doc_frozen, ground (arith, e))
    | inr h ↦ elim (Bool-cases (inventory_is_full key s)) [
      | inl h' ↦ inl (inventory_full, rw (e, handle_buy) (rw (h, h')))
      | inr h' ↦ elim (Option-cases (userdb_find key s.users)) [
        | inl u ↦ inl (invalid_session, rw (e, handle_buy) (rw (h, h', u)))
        | inr (ro, u) ↦ elim (Bool-cases (lt_ℤ ro.0.money slot.base_price)) [
          | inl poor ↦ inl (not_enough_money, rw (e, handle_buy) (rw (h, h', u, poor)))
          | inr rich ↦ inr (ro.0, ro.1, u, rw (e, handle_buy) (rw (h, h', u, rich)))
        ]
      ]
    ]
  ]
]

-- Whatever other threads do between the checks and the commit: a purchase leaves the accounts and the
-- directories as they were when it was refused, in the state before the others ran or in the one after; or it
-- took a slot from the board, moved the file to the buyer, and wrote the record that the checks found under
-- the buyer's key, at the offset where they found it, less the price of that slot. Where users.dat cannot be
-- written this last write has no effect, and the buyer has the file.
pub buy_all_or_nothing :
    (other : Server → Server) (now roll sock : ℕ) (key : Text) (doc_id : ℤ) (s : Server)
    → let s' = handle_buy other now roll sock key doc_id s in
      Untouched s s' ⊎ Untouched (other s) s' ⊎ PaidForFile key doc_id s (other s) s'
unfolding Untouched
buy_all_or_nothing other now roll sock key doc_id s =
    elim (checked other now roll sock key doc_id s) [
      | inl (code, e) ↦ inl (rw e refl, rw e refl)
      | inr (rec, offset, found, e) ↦
          inr (rw e (commit_outcome now roll sock key doc_id rec offset s (other s) found))
    ]
