-- ===== src/Sessions/Login.antt =====
-- The login of src/server/server_main.c: the account that it finds or makes, and what a client is sent.
use mathlib.Core.List.{append-nil, append_assoc}
use under_flow.Base.{
  Bool-cases, Bool, sym, ℕ, ◌-◌, ◌≤◌, ◌≡◌, refl, ◌∙◌, ap, true, none, some, List, [], ◌∷◌, ◌++◌,
  map, ◌==◌, if◌then◌else◌, arith, Option-cases, inl, inr, length, filter_by, take_all,
}
use under_flow.Base.Text.{Text}
use under_flow.Market.{MarketSlot, max_market_slots, market_snapshot, market_frozen_mask}
use under_flow.Market.Aging.{snapshot_lem}
use under_flow.Npc.{NpcSlot, max_npc_slots, npc_snapshot}
use under_flow.Npc.Aging.{npc_snapshot_lem}
use under_flow.Userdb.{UserRecord, Userdb, max_key_len, zero_record, userdb_find, userdb_append}
use under_flow.Userdb.Lookup.{find-same, append-find, same_key}
use under_flow.Protocol.{Packet, initial_money, market_spawn, npc_spawn, news_leak}
use under_flow.Server.{Server}
use under_flow.Sessions.{find_or_append, sync_slots, sync_offers, sync_boards}

three : {A : Type 0} → (a b c d : List A) → ((a ++ b) ++ c) ++ d ≡ a ++ (b ++ (c ++ d))
three a b c d = append_assoc (a ++ b) c d ∙ append_assoc a b (c ++ d)

sync_slots-out :
    (sock : ℕ) (ms : List MarketSlot) (s : Server)
    → sync_slots sock ms s ≡ record s {
      out = s.out ++ map (λ m. (sock, market_spawn m.doc_id m.tags m.base_price m.name)) ms;
    }
unfolding sync_slots
sync_slots-out sock [] s = ap (λ o. record s { out = o }) (sym (append-nil s.out))
sync_slots-out sock (m ∷ ms) s =
    sync_slots-out sock ms _
    ∙ ap (λ o. record s { out = o })
        (append_assoc s.out ((sock, market_spawn m.doc_id m.tags m.base_price m.name) ∷ []) _)

sync_offers-out :
    (sock : ℕ) (ns : List NpcSlot) (s : Server)
    → sync_offers sock ns s ≡ record s {
      out = s.out ++ map (λ n. (sock, npc_spawn n.npc_id n.required_tags n.bounty)) ns;
    }
unfolding sync_offers
sync_offers-out sock [] s = ap (λ o. record s { out = o }) (sym (append-nil s.out))
sync_offers-out sock (n ∷ ns) s =
    sync_offers-out sock ns _
    ∙ ap (λ o. record s { out = o })
        (append_assoc s.out ((sock, npc_spawn n.npc_id n.required_tags n.bounty) ∷ []) _)

-- The packets that show a client the two boards and the frozen tags.
abbrev pub boards_of : ℕ → Server → List (ℕ × Packet)
boards_of sock s =
    map (λ m. (sock, market_spawn m.doc_id m.tags m.base_price m.name))
      (filter_by (λ m. m.active) s.market.slots)
    ++ (map (λ n. (sock, npc_spawn n.npc_id n.required_tags n.bounty))
          (filter_by (λ n. n.active) s.npcs)
        ++ (if s.market.frozen == 0 then [] else (sock, news_leak s.market.frozen 0) ∷ []))

pub length-filter_by :
    {A : Type 0} → (p : A → Bool) (xs : List A) → length (filter_by p xs) ≤ length xs
length-filter_by p [] = omega arith
length-filter_by p (x ∷ xs) = ground (arith, length-filter_by p xs)

whole_market :
    (s : Server)
    → length s.market.slots ≤ max_market_slots
    → market_snapshot max_market_slots s.market ≡ filter_by (λ m. m.active) s.market.slots
whole_market s room =
    snapshot_lem max_market_slots s.market
    ∙ take_all max_market_slots _
        (omega (arith, room, length-filter_by (λ m. m.active) s.market.slots))

whole_board :
    (s : Server)
    → length s.npcs ≤ max_npc_slots
    → npc_snapshot max_npc_slots s.npcs ≡ filter_by (λ n. n.active) s.npcs
whole_board s room =
    npc_snapshot_lem max_npc_slots s.npcs
    ∙ take_all max_npc_slots _ (omega (arith, room, length-filter_by (λ n. n.active) s.npcs))

-- A client that logs in is shown the whole boards: with 32 slots and 16 offers at most it is sent, in
-- this order, each active document, each active offer, and, if any tag is frozen, the mask of the frozen
-- tags; nothing else is sent to anybody, and the rest of the state is as it was.
pub sync_lem :
    (sock : ℕ) (s : Server)
    → length s.market.slots ≤ max_market_slots
    → length s.npcs ≤ max_npc_slots
    → sync_boards sock s ≡ record s { out = s.out ++ boards_of sock s }
unfolding sync_boards market_frozen_mask
sync_lem sock s room room' =
    rw
      (
        sync_slots-out sock (market_snapshot max_market_slots s.market) s,
        whole_market s room,
        sync_offers-out sock (npc_snapshot max_npc_slots s.npcs),
        whole_board s room',
      )
      (elim (Bool-cases (s.market.frozen == 0)) [
        | inl z ↦ rw z (ap (λ o. record s { out = o }) (sym (append-nil _) ∙ three s.out _ _ []))
        | inr z ↦ rw z (ap (λ o. record s { out = o }) (three s.out _ _ _))
      ])

-- After the login of a key that users.dat lets through, the key has an account: the one it had, or a
-- new one with the initial money; and the account of every other key is what it was.
account_lem :
    (key key' : Text) (db : Userdb)
    → length key ≤ max_key_len - 1
    → db.openable ≡ true
    → db.writable ≡ true
    → let (rec, db') = find_or_append key db in
      (offset : ℕ) × (userdb_find key' db'
        ≡ (if same_key key key' then some (rec, offset) else userdb_find key' db))
      × (rec.money ≡ elim (userdb_find key db) [ none ↦ initial_money | some hit ↦ hit.0.money ])
unfolding find_or_append
account_lem key key' db short o w = elim (Option-cases (userdb_find key db)) [
  | inl q ↦
      let short' = take_all (max_key_len - 1) key short in
      let new = record zero_record { key = key; money = initial_money } in
      let made : find_or_append key db ≡ (new, (userdb_append new db).1) =
        rw (q, find_or_append, short') refl in
      let find = append-find key' new db q o w in rw (made, q) (find.0, find.2, refl)
  | inr (hit, q) ↦
      let had : find_or_append key db ≡ (hit.0, db) = rw (q, find_or_append) refl in
      rw (had, q) (hit.1, found hit q, refl)
]
  where
    found :
        (hit : UserRecord × ℕ)
        → userdb_find key db ≡ some hit
        → userdb_find key' db ≡ (if same_key key key' then some hit else userdb_find key' db)
    found hit q = elim (Bool-cases (same_key key key')) [
      | inl same ↦ rw same (sym (find-same key key' db same) ∙ q)
      | inr other ↦ rw other refl
    ]
