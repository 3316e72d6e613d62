-- ===== src/Sessions/Keeps.antt =====
-- The handlers of src/server/server_main.c leave the table of clients alone.
use under_flow.Base.{
  not, ◌&&◌, ◌-◌, ◌==◌, ltb, ℕ, ◌≡◌, refl, ◌∙◌, ap, Bool, List, arith, inl, inr, Option-cases,
  Bool-cases,
}
use under_flow.Base.Int.{ℤ}
use under_flow.Base.Text.{Text, same_text, strncpy}
use under_flow.Userdb.{UserRecord}
use under_flow.Protocol.{
  forced_end, Request, req_login, req_chat, req_buy, req_sell, req_dispose, req_inven, req_rumor,
  req_minigame_submit, trigger_raid, trigger_leak, trigger_rich, trigger_endround, unknown,
  max_text_len, Packet, Notice,
}
use under_flow.Sessions.Unique.{connected}
use under_flow.Server.{Server, Client, unicast_to_key}
use under_flow.Server.Round.{fire_round_end_countdown, handle_fake_endround}
use under_flow.Server.Buy.{handle_buy, buy_commit, buy_pay}
use under_flow.Server.Sell.{handle_sell, sell_commit, sell_settle}
use under_flow.Server.Payoff.{handle_payoff, pay_off, renew_account, announce_escape}
use under_flow.Server.Raid.{
  fire_self_police_raid, handle_minigame_submit, burn_user_by_key, pending_idx, answered,
}
use under_flow.Server.Desk.{
  handle_dispose, handle_inventory, handle_rumor, handle_fake_rich, check_bankruptcy, pay_rumor,
}
use under_flow.Events.Leak.{fire_public_leak}
use under_flow.Sessions.{Outside, dispatch, say, demand_leak}

countdown-clients :
    (spawned : Bool) (announce : Notice) (s : Server)
    → (fire_round_end_countdown spawned announce s).clients ≡ s.clients
unfolding fire_round_end_countdown
countdown-clients spawned announce s = ground arith

payoff-clients :
    (now : ℕ) (spawned : Bool) (sock : ℕ) (key : Text) (s : Server)
    → (handle_payoff now spawned sock key s).clients ≡ s.clients
unfolding handle_payoff pay_off renew_account announce_escape
payoff-clients now spawned sock key s = grind (arith, countdown-clients)

leak-clients :
    (roll second_roll : ℕ) (allocated spawned : Bool) (s : Server)
    → (fire_public_leak roll second_roll allocated spawned s).1.clients ≡ s.clients
unfolding fire_public_leak
leak-clients roll second_roll allocated spawned s = ground arith

unicast-clients :
    (key : Text) (pkt : Packet) (s : Server) → (unicast_to_key key pkt s).clients ≡ s.clients
unfolding unicast_to_key
unicast-clients key pkt s = ground arith

burn-clients : (key : Text) (s : Server) → (burn_user_by_key key s).clients ≡ s.clients
unfolding burn_user_by_key
burn-clients key s = grind (arith, unicast-clients)

self_raid-clients :
    (now roll : ℕ) (spawned : Bool) (sock : ℕ) (key : Text) (s : Server)
    → (fire_self_police_raid now roll spawned sock key s).clients ≡ s.clients
unfolding fire_self_police_raid under_flow.Server.Raid.start_raid
self_raid-clients now roll spawned sock key s = ground arith

endround-clients :
    (spawned : Bool) (s : Server) → (handle_fake_endround spawned s).clients ≡ s.clients
unfolding handle_fake_endround
endround-clients spawned s = countdown-clients spawned forced_end s

dispose-clients :
    (sock : ℕ) (key : Text) (doc_id : ℤ) (s : Server)
    → (handle_dispose sock key doc_id s).clients ≡ s.clients
unfolding handle_dispose
dispose-clients sock key doc_id s = ground arith

rumor-clients :
    (now sock : ℕ) (key target : Text) (s : Server)
    → (handle_rumor now sock key target s).clients ≡ s.clients
unfolding handle_rumor pay_rumor handle_inventory
rumor-clients now sock key target s = grind (arith, unicast-clients)

rich-clients :
    (sock : ℕ) (key : Text) (s : Server) → (handle_fake_rich sock key s).clients ≡ s.clients
unfolding handle_fake_rich
rich-clients sock key s = ground arith

bankruptcy-clients :
    (sock : ℕ) (key : Text) (s : Server) → (check_bankruptcy sock key s).1.clients ≡ s.clients
unfolding check_bankruptcy
bankruptcy-clients sock key s = ground arith

commit-clients :
    (now roll sock : ℕ) (key : Text) (doc_id : ℤ) (rec : UserRecord) (offset : ℕ) (s : Server)
    → (buy_commit now roll sock key doc_id rec offset s).clients ≡ s.clients
unfolding buy_commit buy_pay
commit-clients now roll sock key doc_id rec offset s = ground arith

sell-clients :
    (junk : UserRecord × ℕ) (sock : ℕ) (key : Text) (npc_id : ℤ) (ids : List ℤ) (s : Server)
    → (sell_commit junk sock key npc_id ids s).clients ≡ s.clients
unfolding sell_commit sell_settle
sell-clients junk sock key npc_id ids s = ground arith

module _ (k : ℕ) (other : Server → Server)
    (keeps : (t : Server) → connected k (other t).clients ≡ connected k t.clients) where
  buy-connected :
      (now roll sock : ℕ) (key : Text) (doc_id : ℤ) (s : Server)
      → connected k (handle_buy other now roll sock key doc_id s).clients ≡ connected k s.clients
  unfolding handle_buy
  buy-connected now roll sock key doc_id s = grind (arith, keeps, commit-clients)

  sell-connected :
      (junk : UserRecord × ℕ) (sock : ℕ) (key : Text) (npc_id count : ℤ) (doc_ids : List ℤ)
      (s : Server)
      → connected k (handle_sell other junk sock key npc_id count doc_ids s).clients
        ≡ connected k s.clients
  unfolding handle_sell
  sell-connected junk sock key npc_id count doc_ids s = grind (arith, keeps, sell-clients)

  minigame-connected :
      (now sock : ℕ) (key passcode : Text) (s : Server)
      → connected k (handle_minigame_submit other now sock key passcode s).clients
        ≡ connected k s.clients
  unfolding handle_minigame_submit
  minigame-connected now sock key passcode s =
      elim (Bool-cases (not (s.raid.deadline == 0) && ltb now s.raid.deadline)) [
        | inr q ↦ rw q refl
        | inl q ↦ elim (Option-cases (pending_idx key s.raid.pending_keys)) [
          | inl r ↦ rw (q, r) refl
          | inr (i, r) ↦
              let found = answered i (other s) in
              elim (Bool-cases (same_text passcode (strncpy (max_text_len - 1) s.raid.passcode))) [
                | inl t ↦ rw (q, r, t) (keeps s)
                | inr t ↦ rw (q, r, t) (ap (connected k) (burn-clients key found) ∙ keeps s)
              ]
        ]
      ]

-- What the other threads do while a packet is handled leaves a socket its slots.
abbrev pub Keeps : ℕ → Outside → Type 0
Keeps k o = (t : Server) → connected k (o.other t).clients ≡ connected k t.clients

leak_demand-clients :
    (o : Outside) (sock : ℕ) (s : Server) → (demand_leak o sock s).clients ≡ s.clients
unfolding demand_leak
leak_demand-clients o sock s = grind (arith, leak-clients)

say-clients :
    (spawned : Bool) (now sock : ℕ) (key text : Text) (s : Server)
    → (say spawned now sock key text s).clients ≡ s.clients
unfolding say
say-clients spawned now sock key text s = grind (arith, payoff-clients)

bust-connected :
    (k sock : ℕ) (key : Text) (n : ℕ) (s : Server)
    → connected k s.clients ≡ n
    → connected k (check_bankruptcy sock key s).1.clients ≡ n
bust-connected k sock key n s h = ap (connected k) (bankruptcy-clients sock key s) ∙ h

pub dispatch-connected :
    (k : ℕ) (o : Outside) (sock : ℕ) (key : Text) (request : Request) (s : Server)
    → Keeps k o
    → connected k (dispatch o sock key request s).1.clients ≡ connected k s.clients
unfolding dispatch handle_inventory
dispatch-connected k o sock key (req_chat text) s h =
    ap (connected k) (say-clients o.spawned o.now sock key text s)
dispatch-connected k o sock key (req_minigame_submit passcode) s h =
    minigame-connected k o.other h o.now sock key passcode s
dispatch-connected k o sock key trigger_raid s h =
    ap (connected k) (self_raid-clients o.now o.roll o.spawned sock key s)
dispatch-connected k o sock key trigger_leak s h = ap (connected k) (leak_demand-clients o sock s)
dispatch-connected k o sock key trigger_rich s h = ap (connected k) (rich-clients sock key s)
dispatch-connected k o sock key trigger_endround s h =
    ap (connected k) (endround-clients o.spawned s)
dispatch-connected k o sock key (req_buy doc_id) s h =
    bust-connected k sock key _ _ (buy-connected k o.other h o.now o.roll sock key doc_id s)
dispatch-connected k o sock key (req_sell npc_id count doc_ids) s h =
    sell-connected k o.other h o.junk sock key npc_id count doc_ids s
dispatch-connected k o sock key (req_dispose doc_id) s h =
    ap (connected k) (dispose-clients sock key doc_id s)
dispatch-connected k o sock key req_inven s h = refl
dispatch-connected k o sock key (req_rumor target) s h =
    bust-connected k sock key _ _ (ap (connected k) (rumor-clients o.now sock key target s))
dispatch-connected k o sock key (req_login again) s h = refl
dispatch-connected k o sock key unknown s h = refl
