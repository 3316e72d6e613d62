-- ===== src/Server/Buy/Effect.antt =====
-- What a purchase in src/server/server_main.c does to the money, the files and the board.
use under_flow.Base.{ℕ, ◌≡◌, refl, true, false, none, some, List, if◌then◌else◌, arith, ◌∙◌, ◌&&◌}
use under_flow.Base.Int.{
  ℤ, pos, lt_ℤ, ◌≤ℤ◌, ◌-ℤ◌, InInt32, eq_ℤ, sub32-eq, sub-nonneg, nonneg_of_ge,
}
use under_flow.Base.Text.{Text, same_text}
use under_flow.Market.{MarketSlot, Market, market_find, market_take, taken}
use under_flow.Market.Listing.{Distinct, take-verdict, take_exclusive}
use under_flow.Userdb.{UserRecord, userdb_find}
use under_flow.Userdb.Lookup.{same_key, update-find}
use under_flow.Sandbox.{DocFile, dir_get, user_dir, sandbox_buy, sandbox_read_doc}
use under_flow.Sandbox.Move.{IsSound, buy_moves}
use under_flow.Server.{Server}
use under_flow.Server.Buy.{handle_buy, buy_commit, buy_pay, inventory_is_full}

-- Everything that a purchase needs, for a buyer with record `rec` at `offset` and a slot on the board.
pub record CanBuy (key : Text) (doc_id : ℤ) (s : Server) (slot : MarketSlot) (rec : UserRecord)
    (offset : ℕ) (f : DocFile) : Type 0 where
  pub listed_as : market_find doc_id s.market ≡ some slot
  pub not_frozen : slot.is_frozen ≡ false
  pub has_room : inventory_is_full key s ≡ false
  pub known : userdb_find key s.users ≡ some (rec, offset)
  pub affordable : lt_ℤ rec.money slot.base_price ≡ false
  pub on_disk : dir_get doc_id s.disk.master ≡ some f

pub take_now :
    (doc_id : ℤ) (m : Market) (slot : MarketSlot)
    → market_find doc_id m ≡ some slot
    → slot.is_frozen ≡ false
    → (market_take doc_id m).0 ≡ taken slot
take_now doc_id m slot e h = (take-verdict doc_id m).0 ∙ rw (e, h)

pub buy_now :
    (now roll sock : ℕ) (key : Text) (doc_id : ℤ) (s : Server) (slot : MarketSlot)
    (rec : UserRecord) (offset : ℕ) (f : DocFile)
    → CanBuy key doc_id s slot rec offset f
    → (sandbox_buy key doc_id s.disk).0 ≡ true
    → handle_buy (λ t. t) now roll sock key doc_id s
      ≡ buy_pay sock doc_id slot rec offset (record s {
        market = (market_take doc_id s.market).1;
        disk = (sandbox_buy key doc_id s.disk).1;
      })
unfolding handle_buy buy_commit
buy_now now roll sock key doc_id s slot rec offset f c moved =
    ground (arith, take_now doc_id s.market slot c.listed_as c.not_frozen)

-- A purchase with all that it needs, in a state where no document stands twice on the board or in a
-- directory and no other thread comes between: the buyer has exactly the price less and is not in
-- debt, no other account changes, the document is the buyer's and off the board, every other document
-- is where it was, and nothing is changed beside the accounts, the board, the directories and the log.
pub buy_succeeds :
    (now roll sock : ℕ) (key : Text) (doc_id : ℤ) (s : Server) (slot : MarketSlot)
    (rec : UserRecord) (offset : ℕ) (f : DocFile) (d : List (ℤ × DocFile)) (key' : Text) (j : ℤ)
    → CanBuy key doc_id s slot rec offset f
    → Distinct s.market
    → IsSound s.disk
    → user_dir key s.disk ≡ some d
    → s.disk.writable ≡ true
    → s.users.writable ≡ true
    → InInt32 rec.money
    → InInt32 slot.base_price
    → pos 0 ≤ℤ slot.base_price
    → let s' = handle_buy (λ t. t) now roll sock key doc_id s in
      let paid = record rec { money = rec.money -ℤ slot.base_price } in
      (userdb_find key' s'.users
        ≡ (if same_key key key' then some (paid, offset) else userdb_find key' s.users))
      × (pos 0 ≤ℤ paid.money)
      × (market_find j s'.market ≡ (if eq_ℤ doc_id j then none else market_find j s.market))
      × (dir_get j s'.disk.master ≡ (if eq_ℤ doc_id j then none else dir_get j s.disk.master))
      × (sandbox_read_doc key' j s'.disk ≡ (
          if same_text key key' && eq_ℤ doc_id j then some f else sandbox_read_doc key' j s.disk))
      × (record s' { market = s.market; users = s.users; disk = s.disk; out = s.out } ≡ s)
unfolding buy_pay
buy_succeeds now roll sock key doc_id s slot rec offset f d key' j c distinct sound dir dw uw rm rp
      price =
    let moves = buy_moves key doc_id s.disk f d key' j sound c.on_disk dir dw in
    let taking = take_now doc_id s.market slot c.listed_as c.not_frozen in
    let gone = take_exclusive doc_id j s.market slot distinct taking in
    let exact =
      sub32-eq rec.money slot.base_price (nonneg_of_ge _ _ price c.affordable) price rm rp in
    let paid =
      update-find key key' offset rec (record rec { money = rec.money -ℤ slot.base_price }) s.users
        c.known refl uw in
    rw (buy_now now roll sock key doc_id s slot rec offset f c moves.0, exact)
      (paid.1, sub-nonneg _ _ c.affordable, gone.1, moves.1, moves.2, refl)
