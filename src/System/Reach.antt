-- ===== src/System/Reach.antt =====
-- What holds at any time of the server of src/server: on every state that the threads reach from the boot, and
-- for a client of src/client/ui_client.c that logs in then.
use under_flow.Base.{
  sym, [], ℕ, ◌^◌, ◌<◌, ◌≡◌, refl, Bool, map, filter_by, arith, inl, inr, Option-cases,
}
use under_flow.Base.Int.{ℤ}
use under_flow.Market.Calls
use under_flow.Market.Calls.{Call, step, init, add, take, freeze, unfreeze, despawn}
use under_flow.Market.{Market}
use under_flow.Npc.{npc_init}
use under_flow.System.Trades.{market-IsSane, npcs-IsSane, escape-IsSane}
use under_flow.System.Rounds.{new_round-IsSane}
use under_flow.Userdb.{Userdb}
use under_flow.Sandbox.{Disk}
use under_flow.Server.{Server}
use under_flow.Sessions.{accept_client, sync_boards}
use under_flow.Client.{start, receive_all}
use under_flow.Client.Mirror.{arrive, shown, shown_npc, mirror_lem}
use under_flow.System.{
  boot, Act, Acts, accept, packet, leave, event_round, npc_sequence, recovery, raid_timeout,
  round_timer, done, next, outside, accepted, engine_of, thread_of, run_act, run_acts, section,
  Section, run_section, market_call, offer_added, offer_taken, offers_aged, offers_cleared, escape,
  new_round, beside,
}
use under_flow.System.Handlers.{raid_timeout-view}
use under_flow.System.Sane.{
  IsBoard, init-IsBoard, add-IsBoard, take-IsBoard, freeze-IsBoard, unfreeze-IsBoard,
  despawn-IsBoard, length-npc_add, length-npc_take, length-npc_aged, IsSane, unmoved,
}
use under_flow.System.Rounds.{boot-IsSane, timer-IsSane}
use under_flow.System.Ticks.{tick-IsSane}
use under_flow.System.Engine.{sequence-IsSane, recovery-IsSane}
use under_flow.System.Packets.{packet-IsSane}

-- The masks of recoveries, and those that sections pass, are words of 32 bits.
abbrev mutual
  pub HasWords : Act → Type 0
  HasWords (packet luck others sock session request) = HaveWords others
  HasWords (npc_sequence others now tag_rolls hint_roll bounty_roll c) = HaveWords others
  HasWords (recovery arg) = arg.mask < 2 ^ 32
  HasWords (section (market_call c)) = Calls.HasWords c
  HasWords _ = Unit {0}

  pub HaveWords : Acts → Type 0
  HaveWords done = Unit {0}
  HaveWords (next a acts) = HasWords a × HaveWords acts

call-IsBoard : (c : Call) (m : Market) → Calls.HasWords c → IsBoard m → IsBoard (step c m)
unfolding step
call-IsBoard init m w b = init-IsBoard
call-IsBoard (add now roll doc_id tags price name) m w b =
    add-IsBoard now roll doc_id tags price name m w b
call-IsBoard (take doc_id) m w b = take-IsBoard doc_id m b
call-IsBoard (freeze tags) m w b = freeze-IsBoard tags m w b
call-IsBoard (unfreeze tags) m w b = unfreeze-IsBoard tags m w b
call-IsBoard (despawn now max_out) m w b = despawn-IsBoard now max_out m b

section-IsSane :
    (c : Section) (s : Server) → HasWords (section c) → IsSane s → IsSane (run_section c s)
unfolding run_section npc_init
section-IsSane (market_call c) s w h = market-IsSane s _ h (call-IsBoard c s.market w h.sane.board)
section-IsSane (offer_added now npc_id req_tags bounty) s w h =
    npcs-IsSane s _ h (length-npc_add now npc_id req_tags bounty s.npcs)
section-IsSane (offer_taken npc_id) s w h = npcs-IsSane s _ h (length-npc_take npc_id s.npcs)
section-IsSane (offers_aged now) s w h = npcs-IsSane s _ h (length-npc_aged _ _ now _ s.npcs)
section-IsSane offers_cleared s w h = npcs-IsSane s npc_init h (sym h.sane.offers)
section-IsSane (escape now key) s w h = escape-IsSane now key s h
section-IsSane new_round s w h = new_round-IsSane s h
section-IsSane (beside t) s w h = unmoved refl h

accept-IsSane :
    (spawned : Bool) (sock : ℕ) (s : Server) → IsSane s → IsSane (accepted spawned sock s)
accept-IsSane spawned sock s h = elim (Option-cases (accept_client spawned sock s.clients)) [
  | inl e ↦ rw (e, accepted) h
  | inr (clients, e) ↦ rw (e, accepted) (unmoved refl h)
]

mutual
  unfolding run_act

  act-IsSane : (a : Act) (s : Server) → HasWords a → IsSane s → IsSane (run_act a s)
  act-IsSane (section c) s w h = section-IsSane c s w h
  act-IsSane (accept spawned sock) s w h = accept-IsSane spawned sock s h
  act-IsSane (packet luck others sock session request) s w h =
      packet-IsSane (outside luck (λ t. run_acts others t)) sock session request s h
        (acts-IsSane others s w h)
  act-IsSane (leave sock) s w h = unmoved refl h
  act-IsSane (event_round chances c) s w h = tick-IsSane chances (thread_of c s) h
  act-IsSane (npc_sequence others now tag_rolls hint_roll bounty_roll c) s w h =
      sequence-IsSane (λ e. record e { server = run_acts others e.server }) now tag_rolls hint_roll
        bounty_roll (engine_of c s) (λ t k. acts-IsSane others t.server w k) h
  act-IsSane (recovery arg) s w h = recovery-IsSane arg s w h
  act-IsSane raid_timeout s w h = unmoved (raid_timeout-view s) h
  act-IsSane (round_timer now rolls) s w h = timer-IsSane now rolls s h

  acts-IsSane : (acts : Acts) (s : Server) → HaveWords acts → IsSane s → IsSane (run_acts acts s)
  acts-IsSane done s w h = h
  acts-IsSane (next a acts) s w h = acts-IsSane acts (run_act a s) w.1 (act-IsSane a s w.0 h)

-- At any time: from the boot on any files, whatever the threads have done, as a sequence of critical
-- sections with anything done beside them, and of handlers run in one step but for the acts of others that
-- they take in, all in any order and with masks of 32 bits for what is added, frozen or recovered: the flags
-- of the market's 32 slots agree with the mask of frozen tags, which is a word of 32 bits, there are 16
-- offers, and the goal lies between 10000 and 14000.
pub reached-IsSane :
    (now : ℕ) (rolls : ℕ → ℕ) (users : Userdb) (disk : Disk) (acts : Acts)
    → HaveWords acts
    → IsSane (run_acts acts (boot now rolls users disk))
reached-IsSane now rolls users disk acts w =
    acts-IsSane acts (boot now rolls users disk) w (boot-IsSane now rolls users disk)

-- A client that logs in shows the boards of the server. In any state that the threads have reached since
-- the boot, in the ways of the sections and acts above and with masks of 32 bits, and with no act in between
-- while `sync_boards` reads the boards and sends them: the tables of the client hold after its packets
-- exactly the active documents and offers, in the order of the slots, each document with the server's own mark
-- of whether it is frozen, and the client keeps the server's mask.
pub login_mirror :
    (now : ℕ) (rolls : ℕ → ℕ) (users : Userdb) (disk : Disk) (acts : Acts) (later sock : ℕ)
    (money goal : ℤ)
    → HaveWords acts
    → let s = run_acts acts (boot now rolls users disk) in
      let sent = (sync_boards sock (record s { out = [] })).out in
      let c = receive_all (arrive later sent) (start money goal) in
      (c.mkt ≡ map shown (filter_by (λ m. m.active) s.market.slots))
      × (c.npc ≡ map shown_npc (filter_by (λ n. n.active) s.npcs))
      × (c.frozen_mask ≡ s.market.frozen)
login_mirror now rolls users disk acts later sock money goal w =
    let h = (reached-IsSane now rolls users disk acts w).sane in
    let s = run_acts acts (boot now rolls users disk) in
    mirror_lem later sock money goal s h.board.0 (omega (arith, h.board.1))
      (omega (arith, h.offers))
