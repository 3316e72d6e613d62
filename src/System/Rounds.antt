-- ===== src/System/Rounds.antt =====
-- The seed, the reset and the boot of src/server/server_main.c: the boards and the goal that they leave.
use under_flow.Base.{ℕ, ◌^◌, ◌<◌, ◌≡◌, refl, sym, subst, ◌∙◌, List, [], ◌∷◌, arith}
use under_flow.Base.Int.{ℤ}
use under_flow.Base.Text.{Text}
use under_flow.Market.{MarketSlot, market_init}
use under_flow.Npc.{NpcSlot, npc_init}
use under_flow.Userdb.{Userdb}
use under_flow.Sandbox.{Disk}
use under_flow.Protocol.{default_goal_money}
use under_flow.Server.{Server}
use under_flow.Server.Round.{
  fresh_round, trigger_round_reset, announce_slots, announce_offers, cleared, round_end_timer,
}
use under_flow.Server.Seed.{seed_market_and_npc, seed_doc}
use under_flow.System.{boot}
use under_flow.System.Handlers.{View, view}
use under_flow.System.Sane.{IsSane, SaneView, init-IsBoard, add-IsBoard, length-npc_add, unmoved}
use under_flow.System.Trades.{market-IsSane, npcs-IsSane, either}

announce_slots-view :
    (slots : List MarketSlot) (s : Server) → view (announce_slots slots s) ≡ view s
unfolding announce_slots
announce_slots-view [] s = refl
announce_slots-view (m ∷ ms) s = announce_slots-view ms _

announce_offers-view :
    (offers : List NpcSlot) (s : Server) → view (announce_offers offers s) ≡ view s
unfolding announce_offers
announce_offers-view [] s = refl
announce_offers-view (n ∷ ns) s = announce_offers-view ns _

seed_doc-IsSane :
    (now roll : ℕ) (doc_id : ℤ) (tags : ℕ) (name : Text) (s : Server)
    → tags < 2 ^ 32
    → IsSane s
    → IsSane (seed_doc now roll doc_id tags name s)
unfolding seed_doc
seed_doc-IsSane now roll doc_id tags name s w h =
    unmoved refl
      (market-IsSane s _ h (add-IsBoard now roll doc_id tags _ name s.market w h.sane.board))

seed-IsSane :
    (now : ℕ) (rolls : ℕ → ℕ) (s : Server) → IsSane s → IsSane (seed_market_and_npc now rolls s)
unfolding seed_market_and_npc
seed-IsSane now rolls s h =
    let s1 = seed_doc-IsSane now (rolls 0) _ _ _ s (omega arith) h in
    let s2 = seed_doc-IsSane now (rolls 1) _ _ _ _ (omega arith) s1 in
    let s3 = seed_doc-IsSane now (rolls 2) _ _ _ _ (omega arith) s2 in
    let s4 = seed_doc-IsSane now (rolls 3) _ _ _ _ (omega arith) s3 in
    npcs-IsSane _ _ s4 (length-npc_add now _ _ _ _ ∙ length-npc_add now _ _ _ _)

abbrev fresh_view : View
fresh_view = record { market = market_init; npcs = npc_init; goal = default_goal_money }

fresh_view-SaneView : SaneView fresh_view
unfolding npc_init
fresh_view-SaneView = record {
  board = init-IsBoard;
  offers = refl;
  floor = omega arith;
  cap = omega arith;
}

fresh-IsSane : (s : Server) → view s ≡ fresh_view → IsSane s
fresh-IsSane s e = record { sane = subst SaneView (sym e) fresh_view-SaneView }

reset-IsSane : (now : ℕ) (rolls : ℕ → ℕ) (s : Server) → IsSane (trigger_round_reset now rolls s)
unfolding trigger_round_reset
reset-IsSane now rolls s =
    unmoved (announce_offers-view _ _ ∙ announce_slots-view _ _)
      (seed-IsSane now rolls (cleared s) (fresh-IsSane (cleared s) refl))

pub timer-IsSane :
    (now : ℕ) (rolls : ℕ → ℕ) (s : Server) → IsSane s → IsSane (round_end_timer now rolls s)
unfolding round_end_timer
timer-IsSane now rolls s h = either s.round.round_end_active (reset-IsSane now rolls s) h

pub boot-IsSane :
    (now : ℕ) (rolls : ℕ → ℕ) (users : Userdb) (disk : Disk) → IsSane (boot now rolls users disk)
unfolding boot
boot-IsSane now rolls users disk = seed-IsSane now rolls _ (fresh-IsSane _ refl)

pub new_round-IsSane : (s : Server) → IsSane s → IsSane (record s { round = fresh_round })
new_round-IsSane s h = record {
  sane = record {
    board = h.sane.board;
    offers = h.sane.offers;
    floor = omega arith;
    cap = omega arith;
  };
}
