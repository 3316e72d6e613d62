-- ===== src/Client/Mirror.antt =====
-- The screen of src/client/ui_client.c after the login of src/server/server_main.c: what the server sends a
-- late client puts the server's boards on it.
use mathlib.Core.List.{append-nil, append_assoc}
use under_flow.Base.{
  length-append, ℕ, zero, suc, ◌+◌, ◌-◌, ◌≤◌, ◌≡◌, refl, ◌∙◌, ap, sym, true, false, List, [], ◌∷◌,
  ◌++◌, map, arith, All, length, filter_by, ltb, bit_or, bit_and, if◌then◌else◌, ◌==◌, Bool-cases,
  inl, inr,
}
use under_flow.Base.Bits.{zero_of_bits, bit-bit_and, bit-zero, bit-bit_or, eq_of_bits}
use under_flow.Base.Masks.{meets}
use under_flow.Base.Int.{ℤ}
use under_flow.Base.Text.{strncpy}
use under_flow.Market.{MarketSlot, max_name_len, max_market_slots}
use under_flow.Market.Freeze.{IsCoherent, SlotAgrees}
use under_flow.Npc.{NpcSlot, max_npc_slots}
use under_flow.Protocol.{Packet, market_spawn, npc_spawn, news_leak}
use under_flow.Server.{Server}
use under_flow.Sessions.{sync_boards}
use under_flow.Sessions.Login.{sync_lem, boards_of, length-filter_by}
use under_flow.Client.{ClientState, UiMarket, UiNpc, ui_item, mark, received, receive_all, start}

receive_all-append :
    (ps qs : List (ℕ × Packet)) (c : ClientState)
    → receive_all (ps ++ qs) c ≡ receive_all qs (receive_all ps c)
unfolding receive_all
receive_all-append [] qs c = refl
receive_all-append ((now, p) ∷ ps) qs c = receive_all-append ps qs (received now p c)

-- The entries of the screen for the slots of the server.
abbrev pub shown : MarketSlot → UiMarket
shown m = record {
  doc_id = m.doc_id;
  tags = m.tags;
  base_price = m.base_price;
  name = strncpy (max_name_len - 1) m.name;
  is_frozen = m.is_frozen;
}

abbrev pub shown_npc : NpcSlot → UiNpc
shown_npc n = record { npc_id = n.npc_id; required_tags = n.required_tags; bounty = n.bounty }

abbrev shown_under : ℕ → MarketSlot → UiMarket
shown_under mask m = ui_item mask m.doc_id m.tags m.base_price m.name

receive-slots :
    (now : ℕ) (ms : List MarketSlot) (c : ClientState)
    → length c.mkt + length ms ≤ 32
    → receive_all (map (λ m. (now, market_spawn m.doc_id m.tags m.base_price m.name)) ms) c
      ≡ record c { mkt = c.mkt ++ map (shown_under c.frozen_mask) ms }
unfolding receive_all received
receive-slots now [] c room = ap (λ t. record c { mkt = t }) (sym (append-nil c.mkt))
receive-slots now (m ∷ ms) c room =
    let c' = record c { mkt = c.mkt ++ (shown_under c.frozen_mask m ∷ []) } in
    let free : ltb (length c.mkt) 32 ≡ true = ground arith in
    let rest =
      receive-slots now ms c'
        (omega (arith, room, length-append c.mkt (shown_under c.frozen_mask m ∷ []))) in
    let step : received now (market_spawn m.doc_id m.tags m.base_price m.name) c ≡ c' =
      ground (arith, free) in
    ap (receive_all (map (λ m. (now, market_spawn m.doc_id m.tags m.base_price m.name)) ms)) step
    ∙ rest
    ∙ ap (λ t. record c { mkt = t })
        (append_assoc c.mkt (shown_under c.frozen_mask m ∷ []) (map (shown_under c.frozen_mask) ms))

receive-offers :
    (now : ℕ) (ns : List NpcSlot) (c : ClientState)
    → length c.npc + length ns ≤ 16
    → receive_all (map (λ n. (now, npc_spawn n.npc_id n.required_tags n.bounty)) ns) c
      ≡ record c { npc = c.npc ++ map shown_npc ns }
unfolding receive_all received
receive-offers now [] c room = ap (λ t. record c { npc = t }) (sym (append-nil c.npc))
receive-offers now (n ∷ ns) c room =
    let c' = record c { npc = c.npc ++ (shown_npc n ∷ []) } in
    let free : ltb (length c.npc) 16 ≡ true = ground arith in
    let rest =
      receive-offers now ns c' (omega (arith, room, length-append c.npc (shown_npc n ∷ []))) in
    let step : received now (npc_spawn n.npc_id n.required_tags n.bounty) c ≡ c' =
      ground (arith, free) in
    ap (receive_all (map (λ n. (now, npc_spawn n.npc_id n.required_tags n.bounty)) ns)) step
    ∙ rest
    ∙ ap (λ t. record c { npc = t }) (append_assoc c.npc (shown_npc n ∷ []) (map shown_npc ns))

zero-bit_or : (m : ℕ) → bit_or 0 m ≡ m
zero-bit_or m = eq_of_bits _ _ (λ i. omega (arith, bit-bit_or 0 m i, bit-zero i))

meets-zero : (t : ℕ) → meets t 0 ≡ false
unfolding meets
meets-zero t = let z = clear t in ground arith
  where
    clear : (t : ℕ) → bit_and t 0 ≡ 0
    clear t = zero_of_bits _ (λ i. omega (arith, bit-bit_and t 0 i, bit-zero i))

-- The entries that were sent unmarked, after the mask.
marked_slots :
    (frozen : ℕ) (ss : List MarketSlot)
    → All (SlotAgrees frozen) ss
    → map (mark frozen) (map (shown_under 0) (filter_by (λ m. m.active) ss))
      ≡ map shown (filter_by (λ m. m.active) ss)
marked_slots frozen [] agree = refl
marked_slots frozen (s ∷ ss) agree = elim (Bool-cases s.active) [
  | inl on ↦ ground (arith, on, marked_slots frozen ss agree.1, agree.0 on, meets-zero s.tags)
  | inr off ↦ ground (arith, off, marked_slots frozen ss agree.1)
]

unmarked_slots :
    (ss : List MarketSlot)
    → All (SlotAgrees 0) ss
    → map (shown_under 0) (filter_by (λ m. m.active) ss) ≡ map shown (filter_by (λ m. m.active) ss)
unmarked_slots [] agree = refl
unmarked_slots (s ∷ ss) agree = elim (Bool-cases s.active) [
  | inl on ↦ ground (arith, on, unmarked_slots ss agree.1, agree.0 on)
  | inr off ↦ ground (arith, off, unmarked_slots ss agree.1)
]

-- The packets of one socket, as they arrive at a time.
abbrev pub arrive : ℕ → List (ℕ × Packet) → List (ℕ × Packet)
arrive now ps = map (λ p. (now, p.1)) ps

arrive-append :
    (now : ℕ) (ps qs : List (ℕ × Packet)) → arrive now (ps ++ qs) ≡ arrive now ps ++ arrive now qs
arrive-append now [] qs = refl
arrive-append now (p ∷ ps) qs = ap (λ r. (now, p.1) ∷ r) (arrive-append now ps qs)

arrive-map :
    {A : Type 0}
    → (now sock : ℕ) (f : A → Packet) (xs : List A)
    → arrive now (map (λ x. (sock, f x)) xs) ≡ map (λ x. (now, f x)) xs
arrive-map now sock f [] = refl
arrive-map now sock f (x ∷ xs) = ap (λ r. (now, f x) ∷ r) (arrive-map now sock f xs)

abbrev leak_of : ℕ → ℕ → List (ℕ × Packet)
leak_of now frozen = if frozen == 0 then [] else (now, news_leak frozen 0) ∷ []

arrive-leak :
    (now sock frozen : ℕ)
    → arrive now (if frozen == 0 then [] else (sock, news_leak frozen 0) ∷ []) ≡ leak_of now frozen
arrive-leak now sock frozen = ground arith

-- The client between the documents and the mask.
abbrev filled : ℤ → ℤ → List UiMarket → List UiNpc → ℕ → ClientState
filled money goal mkt npc mask = record (start money goal) {
  mkt = mkt;
  npc = npc;
  frozen_mask = mask;
}

receive-leak :
    (now : ℕ) (money goal : ℤ) (frozen : ℕ) (npc : List UiNpc) (ss : List MarketSlot)
    → All (SlotAgrees frozen) ss
    → let active = filter_by (λ m. m.active) ss in
      receive_all (leak_of now frozen) (filled money goal (map (shown_under 0) active) npc 0)
      ≡ filled money goal (map shown active) npc frozen
unfolding receive_all received
receive-leak now money goal zero npc ss agree =
    ap (λ m. filled money goal m npc 0) (unmarked_slots ss agree)
receive-leak now money goal (suc n) npc ss agree =
    let some_tag : (suc n == 0) ≡ false = ground arith in
    rw (some_tag, zero-bit_or (suc n))
      (ap (λ m. filled money goal m npc (suc n)) (marked_slots (suc n) ss agree))

arrive-boards :
    (now sock : ℕ) (s : Server)
    → arrive now (boards_of sock s)
      ≡ map
          (λ m. (now, market_spawn m.doc_id m.tags m.base_price m.name))
          (filter_by (λ m. m.active) s.market.slots)
        ++ (map
              (λ n. (now, npc_spawn n.npc_id n.required_tags n.bounty))
              (filter_by (λ n. n.active) s.npcs)
            ++ leak_of now s.market.frozen)
arrive-boards now sock s =
    let slots = filter_by (λ (m : MarketSlot). m.active) s.market.slots in
    let offers = filter_by (λ (n : NpcSlot). n.active) s.npcs in
    rw
      (
        arrive-append now
            (map (λ m. (sock, market_spawn m.doc_id m.tags m.base_price m.name)) slots),
        arrive-append now (map (λ n. (sock, npc_spawn n.npc_id n.required_tags n.bounty)) offers),
        arrive-map now sock (λ m. market_spawn m.doc_id m.tags m.base_price m.name) slots,
        arrive-map now sock (λ n. npc_spawn n.npc_id n.required_tags n.bounty) offers,
        arrive-leak now sock s.market.frozen,
      )
      refl

receive-boards :
    (now sock : ℕ) (money goal : ℤ) (s : Server)
    → IsCoherent s.market
    → length s.market.slots ≤ max_market_slots
    → length s.npcs ≤ max_npc_slots
    → receive_all (arrive now (boards_of sock s)) (start money goal)
      ≡ filled money goal
          (map shown (filter_by (λ m. m.active) s.market.slots))
          (map shown_npc (filter_by (λ n. n.active) s.npcs))
          s.market.frozen
receive-boards now sock money goal s coherent room room' =
    let slots = filter_by (λ (m : MarketSlot). m.active) s.market.slots in
    let offers = filter_by (λ (n : NpcSlot). n.active) s.npcs in
    let spawns : List (ℕ × Packet) =
      map (λ m. (now, market_spawn m.doc_id m.tags m.base_price m.name)) slots in
    let calls : List (ℕ × Packet) =
      map (λ n. (now, npc_spawn n.npc_id n.required_tags n.bounty)) offers in
    let leak = leak_of now s.market.frozen in
    let listed = filled money goal (map (shown_under 0) slots) [] 0 in
    let fits : length slots ≤ 32 =
      omega (arith, room, length-filter_by (λ (m : MarketSlot). m.active) s.market.slots) in
    let fits' : length offers ≤ 16 =
      omega (arith, room', length-filter_by (λ (n : NpcSlot). n.active) s.npcs) in
    ap (λ ps. receive_all ps (start money goal)) (arrive-boards now sock s)
    ∙ receive_all-append spawns (calls ++ leak) (start money goal)
    ∙ ap (receive_all (calls ++ leak))
        (receive-slots now slots (start money goal) (omega (arith, fits)))
    ∙ receive_all-append calls leak listed
    ∙ ap (receive_all leak) (receive-offers now offers listed (omega (arith, fits')))
    ∙ receive-leak now money goal s.market.frozen (map shown_npc offers) s.market.slots
        coherent.agree

-- A client that has just logged in shows the server's boards: of a coherent market of 32 slots and 16
-- offers at most, its tables hold after the packets of `sync_boards` exactly the active documents and
-- offers, in the order of the slots, each document with the server's own mark of whether it is frozen,
-- and it keeps the server's mask.
pub mirror_lem :
    (now sock : ℕ) (money goal : ℤ) (s : Server)
    → IsCoherent s.market
    → length s.market.slots ≤ max_market_slots
    → length s.npcs ≤ max_npc_slots
    → let sent = (sync_boards sock (record s { out = [] })).out in
      let c = receive_all (arrive now sent) (start money goal) in
      (c.mkt ≡ map shown (filter_by (λ m. m.active) s.market.slots))
      × (c.npc ≡ map shown_npc (filter_by (λ n. n.active) s.npcs))
      × (c.frozen_mask ≡ s.market.frozen)
mirror_lem now sock money goal s coherent room room' =
    let quiet = record s { out = [] } in
    let same =
      ap (λ t. receive_all (arrive now t.out) (start money goal)) (sync_lem sock quiet room room')
      ∙ receive-boards now sock money goal quiet coherent room room' in
    (ap (λ c. c.mkt) same, ap (λ c. c.npc) same, ap (λ c. c.frozen_mask) same)
