-- ===== src/System/Packets.antt =====
-- Each packet that `client_handler` of src/server/server_main.c takes keeps the boards and the goal sane.
use under_flow.Base.{
  ◌-◌, ℕ, ◌==◌, ◌≡◌, refl, ◌∙◌, Option, Bool, ◌&&◌, not, none, some, List, [], ◌∷◌, inl, inr,
  Option-cases, Bool-cases, ltb,
}
use under_flow.Base.Text.{Text, same_text, strncpy, bytes}
use under_flow.Market.{MarketSlot, market_snapshot, max_market_slots}
use under_flow.Npc.{NpcSlot, npc_snapshot, max_npc_slots}
use under_flow.Protocol.{
  Request, req_login, req_chat, req_minigame_submit, trigger_raid, trigger_leak, trigger_rich,
  trigger_endround, req_buy, req_sell, doc_not_found, req_dispose, req_inven, req_rumor, unknown,
  max_text_len,
}
use under_flow.Server.{Server, send_error}
use under_flow.Server.Raid.{handle_minigame_submit, pending_idx, answered}
use under_flow.Sessions.{
  Session, waiting, serving, closed, Outside, dispatch, handle_packet, handle_login, finish_login,
  sync_slots, sync_offers, sync_boards, say, demand_leak, find_or_append, is_duplicate,
}
use under_flow.Server.Desk.{handle_inventory, handle_rumor}
use under_flow.Userdb.{userdb_is_burned}
use under_flow.Events.Leak.{LeakRecoveryArg, fire_public_leak}
use under_flow.System.Handlers.{
  view, burn-view, self_raid-view, endround-view, dispose-view, rumor-view, rich-view,
  bankruptcy-view,
}
use under_flow.System.Sane.{IsSane, unmoved}
use under_flow.System.Trades.{either, buy-IsSane, sell-IsSane, payoff-IsSane}
use under_flow.System.Engine.{leak-IsSane}

sync_slots-IsSane :
    (sock : ℕ) (slots : List MarketSlot) (s : Server) → IsSane s → IsSane (sync_slots sock slots s)
unfolding sync_slots
sync_slots-IsSane sock [] s h = h
sync_slots-IsSane sock (m ∷ ms) s h = sync_slots-IsSane sock ms _ (unmoved refl h)

sync_offers-IsSane :
    (sock : ℕ) (offers : List NpcSlot) (s : Server) → IsSane s → IsSane (sync_offers sock offers s)
unfolding sync_offers
sync_offers-IsSane sock [] s h = h
sync_offers-IsSane sock (n ∷ ns) s h = sync_offers-IsSane sock ns _ (unmoved refl h)

sync_boards-IsSane : (sock : ℕ) (s : Server) → IsSane s → IsSane (sync_boards sock s)
unfolding sync_boards
sync_boards-IsSane sock s h =
    let listed = sync_slots-IsSane sock (market_snapshot max_market_slots s.market) s h in
    let offered =
      sync_offers-IsSane sock
        (npc_snapshot max_npc_slots
          (sync_slots sock (market_snapshot max_market_slots s.market) s).npcs)
        (sync_slots sock (market_snapshot max_market_slots s.market) s) listed in
    either _ offered (unmoved refl offered)

minigame-IsSane :
    (other : Server → Server) (now sock : ℕ) (key passcode : Text) (s : Server)
    → IsSane s
    → IsSane (other s)
    → IsSane (handle_minigame_submit other now sock key passcode s)
minigame-IsSane other now sock key passcode s h k =
    elim (Option-cases (pending_idx key s.raid.pending_keys)) [
      | inl e ↦
          unfold handle_minigame_submit in
          rw e (
            either (not (s.raid.deadline == 0) && ltb now s.raid.deadline) (unmoved refl h)
              (unmoved refl h))
      | inr (i, e) ↦
          unfold handle_minigame_submit in
          rw e (
            either (not (s.raid.deadline == 0) && ltb now s.raid.deadline)
              (either (same_text passcode (strncpy (max_text_len - 1) s.raid.passcode))
                (unmoved refl k) (unmoved (burn-view key (answered i (other s))) k))
              (unmoved refl h))
    ]

finish_login-IsSane :
    (sock : ℕ) (key : Text) (s : Server) → IsSane s → IsSane (finish_login sock key s).1
unfolding finish_login
finish_login-IsSane sock key s h =
    elim (Bool-cases (userdb_is_burned (find_or_append key s.users).0)) [
      | inl q ↦ rw q (unmoved refl h)
      | inr q ↦ rw q (sync_boards-IsSane sock _ (unmoved refl h))
    ]

login-IsSane :
    (other : Server → Server) (sock : ℕ) (key : Text) (s : Server)
    → IsSane s
    → IsSane (other s)
    → IsSane (handle_login other sock key s).1
unfolding handle_login
login-IsSane other sock key s h k = elim (Bool-cases (is_duplicate sock key s.clients)) [
  | inl q ↦ rw q (unmoved refl h)
  | inr q ↦ rw q (finish_login-IsSane sock key (other s) k)
]

inventory-view : (sock : ℕ) (key : Text) (s : Server) → view (handle_inventory sock key s) ≡ view s
unfolding handle_inventory
inventory-view sock key s = refl

say-IsSane :
    (spawned : Bool) (now sock : ℕ) (key text : Text) (s : Server)
    → IsSane s
    → IsSane (say spawned now sock key text s)
unfolding say
say-IsSane spawned now sock key text s h =
    either (same_text text (bytes "/payoff")) (payoff-IsSane now spawned sock key s h)
      (unmoved refl h)

demand_leak-IsSane :
    (o : Outside) (sock : ℕ) (s : Server) → IsSane s → IsSane (demand_leak o sock s)
unfolding demand_leak
demand_leak-IsSane o sock s h =
    let fired = fire_public_leak o.roll o.second_roll o.allocated o.spawned s in
    go fired.0 fired.1 (leak-IsSane o.roll o.second_roll o.allocated o.spawned s h)
  where
    go :
        (recovery : Option LeakRecoveryArg) (t : Server)
        → IsSane t
        → IsSane (elim recovery [ some arg ↦ t | none ↦ send_error sock doc_not_found t ])
    go none t k = unmoved refl k
    go (some arg) t k = k

dispatch-IsSane :
    (o : Outside) (sock : ℕ) (key : Text) (request : Request) (s : Server)
    → IsSane s
    → IsSane (o.other s)
    → IsSane (dispatch o sock key request s).1
unfolding dispatch
dispatch-IsSane o sock key (req_chat text) s h k = say-IsSane o.spawned o.now sock key text s h
dispatch-IsSane o sock key (req_minigame_submit passcode) s h k =
    minigame-IsSane o.other o.now sock key passcode s h k
dispatch-IsSane o sock key trigger_raid s h k = unmoved (self_raid-view _ _ _ _ _ _) h
dispatch-IsSane o sock key trigger_leak s h k = demand_leak-IsSane o sock s h
dispatch-IsSane o sock key trigger_rich s h k = unmoved (rich-view _ _ _) h
dispatch-IsSane o sock key trigger_endround s h k = unmoved (endround-view _ _) h
dispatch-IsSane o sock key (req_buy doc_id) s h k =
    unmoved (bankruptcy-view sock key _) (buy-IsSane o.other o.now o.roll sock key doc_id s h k)
dispatch-IsSane o sock key (req_sell npc_id count doc_ids) s h k =
    sell-IsSane o.other o.junk sock key npc_id count doc_ids s h k
dispatch-IsSane o sock key (req_dispose doc_id) s h k = unmoved (dispose-view _ _ _ _) h
dispatch-IsSane o sock key req_inven s h k = unmoved (inventory-view sock key s) h
dispatch-IsSane o sock key (req_rumor target) s h k =
    unmoved
      (bankruptcy-view sock key (handle_rumor o.now sock key target s)
        ∙ rumor-view o.now sock key target s)
      h
dispatch-IsSane o sock key (req_login again) s h k = h
dispatch-IsSane o sock key unknown s h k = h

pub packet-IsSane :
    (o : Outside) (sock : ℕ) (session : Session) (request : Request) (s : Server)
    → IsSane s
    → IsSane (o.other s)
    → IsSane (handle_packet o sock session request s).1
unfolding handle_packet
packet-IsSane o sock waiting (req_login key) s h k = login-IsSane o.other sock key s h k
packet-IsSane o sock waiting (req_chat text) s h k = h
packet-IsSane o sock waiting (req_minigame_submit passcode) s h k = h
packet-IsSane o sock waiting trigger_raid s h k = h
packet-IsSane o sock waiting trigger_leak s h k = h
packet-IsSane o sock waiting trigger_rich s h k = h
packet-IsSane o sock waiting trigger_endround s h k = h
packet-IsSane o sock waiting (req_buy doc_id) s h k = h
packet-IsSane o sock waiting (req_sell npc_id count doc_ids) s h k = h
packet-IsSane o sock waiting (req_dispose doc_id) s h k = h
packet-IsSane o sock waiting req_inven s h k = h
packet-IsSane o sock waiting (req_rumor target) s h k = h
packet-IsSane o sock waiting unknown s h k = h
packet-IsSane o sock (serving key) request s h k = dispatch-IsSane o sock key request s h k
packet-IsSane o sock closed request s h k = h
