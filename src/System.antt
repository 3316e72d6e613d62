-- ===== src/System.antt =====
-- The whole server: what `main` of src/server/server_main.c starts, and any sequence of what the threads of
-- server_main.c and events.c do to the state that they share, each between its locks.
pub mod Handlers
pub mod Engine
pub mod Ticks
pub mod Sane
pub mod Trades
pub mod Rounds
pub mod Packets
pub mod Reach
mod Tests
use under_flow.Base.{ℕ, Bool, none, some, List, [], ◌∷◌}
use under_flow.Base.Int.{ℤ}
use under_flow.Base.Text.{Text}
use under_flow.Market.{market_init}
use under_flow.Market.Calls.{Call, step}
use under_flow.Npc.{npc_init, npc_add, npc_take, npc_despawn_aged, max_npc_slots}
use under_flow.Userdb.{Userdb, UserRecord}
use under_flow.Sandbox.{Disk}
use under_flow.Protocol.{Request}
use under_flow.Server.{Server}
use under_flow.Server.Payoff.{record_escape}
use under_flow.Events.Spawn.{evt_npc_max_age_sec, evt_npc_age_step_sec}
use under_flow.Server.Round.{fresh_round, round_end_timer}
use under_flow.Server.Raid.{no_pending, periodic_raid_timeout}
use under_flow.Server.Seed.{seed_market_and_npc}
use under_flow.Sessions.{
  initial_clients, accept_client, Session, Outside, handle_packet, disconnect,
}
use under_flow.Events.Leak.{LeakRecoveryArg, leak_recovery}
use under_flow.Events.Spawn.{event_do_npc_sequence}
use under_flow.Events.Ticks.{Chances, event_tick}

-- `main` up to the thread of the events, on the files that it finds.
unfoldable pub boot : ℕ → (ℕ → ℕ) → Userdb → Disk → Server
boot now rolls users disk = seed_market_and_npc now rolls (record {
  market = market_init;
  npcs = npc_init;
  users = users;
  disk = disk;
  round = fresh_round;
  rumor_cd_until = 0;
  raid = record { deadline = 0; pending_keys = no_pending; passcode = [] };
  clients = initial_clients;
  out = [];
})

-- The event thread's own variables, which may be anything.
pub record Counters : Type 0 where
  pub tick : ℕ
  pub next_raid : ℕ
  pub doc_id_counter : ℤ
  pub npc_id_counter : ℤ

-- What the outside decides for one packet, but for what the other threads do.
pub record Luck : Type 0 where
  pub now : ℕ
  pub roll : ℕ
  pub second_roll : ℕ
  pub allocated : Bool
  pub spawned : Bool
  pub junk : UserRecord × ℕ

-- One critical section, or one access of something that the boards and the goal do not depend on: a call of
-- market.c, a section behind `g_round_mutex`, and `beside`, which may leave everything else in any state.
pub data Section : Type 0 where
  market_call : Call → Section
  offer_added : ℕ → ℤ → ℕ → ℤ → Section
  offer_taken : ℤ → Section
  offers_aged : ℕ → Section
  offers_cleared : Section
  escape : ℕ → Text → Section
  new_round : Section
  beside : Server → Section

unfoldable pub run_section : Section → Server → Server
run_section (market_call c) s = record s { market = step c s.market }
run_section (offer_added now npc_id req_tags bounty) s = record s {
  npcs = (npc_add now npc_id req_tags bounty s.npcs).1;
}
run_section (offer_taken npc_id) s = record s { npcs = (npc_take npc_id s.npcs).1 }
run_section (offers_aged now) s = record s {
  npcs = (npc_despawn_aged evt_npc_max_age_sec evt_npc_age_step_sec now max_npc_slots s.npcs).1;
}
run_section offers_cleared s = record s { npcs = npc_init }
run_section (escape now key) s = record s { round = record_escape now key s.round }
run_section new_round s = record s { round = fresh_round }
run_section (beside t) s = record t {
  market = s.market;
  npcs = s.npcs;
  round = record t.round { goal_money = s.round.goal_money };
}

-- One thing that a thread does. A critical section is an act of its own, so that a run of the threads, cut
-- at every lock, is a sequence of acts. The handlers are acts too, each in one step but for the acts of
-- others where the handler takes them: `main` accepts a connection, `client_handler` takes a packet in any
-- state of its session or closes, the event thread makes a round, an NPC sequence runs, and a timer ends.
mutual
  pub data Act : Type 0 where
    section : Section → Act
    accept : Bool → ℕ → Act
    packet : Luck → Acts → ℕ → Session → Request → Act
    leave : ℕ → Act
    event_round : Chances → Counters → Act
    npc_sequence : Acts → ℕ → (ℕ → ℕ) → ℕ → ℕ → Counters → Act
    recovery : LeakRecoveryArg → Act
    raid_timeout : Act
    round_timer : ℕ → (ℕ → ℕ) → Act

  pub data Acts : Type 0 where
    done : Acts
    next : Act → Acts → Acts

abbrev pub outside : Luck → (Server → Server) → Outside
outside l others = record {
  other = others;
  now = l.now;
  roll = l.roll;
  second_roll = l.second_roll;
  allocated = l.allocated;
  spawned = l.spawned;
  junk = l.junk;
}

abbrev accepted : Bool → ℕ → Server → Server
accepted spawned sock s = elim (accept_client spawned sock s.clients) [
  | none ↦ s
  | some clients ↦ record s { clients = clients }
]

abbrev pub engine_of : Counters → Server → under_flow.Events.Spawn.Engine
engine_of c s = record {
  doc_id_counter = c.doc_id_counter;
  npc_id_counter = c.npc_id_counter;
  server = s;
}

abbrev pub thread_of : Counters → Server → under_flow.Events.Ticks.EventThread
thread_of c s = record {
  tick = c.tick;
  next_periodic_raid_at = c.next_raid;
  engine = engine_of c s;
  recoveries = [];
  sequences = 0;
}

unfoldable mutual
  pub run_act : Act → Server → Server
  run_act (section c) s = run_section c s
  run_act (accept spawned sock) s = accepted spawned sock s
  run_act (packet luck others sock session request) s =
      (handle_packet (outside luck (λ t. run_acts others t)) sock session request s).1
  run_act (leave sock) s = disconnect sock s
  run_act (event_round chances c) s = (event_tick chances (thread_of c s)).engine.server
  run_act (npc_sequence others now tag_rolls hint_roll bounty_roll c) s =
      (event_do_npc_sequence (λ e. record e { server = run_acts others e.server }) now tag_rolls
        hint_roll bounty_roll (engine_of c s)).server
  run_act (recovery arg) s = leak_recovery arg s
  run_act raid_timeout s = periodic_raid_timeout s
  run_act (round_timer now rolls) s = round_end_timer now rolls s

  pub run_acts : Acts → Server → Server
  run_acts done s = s
  run_acts (next a acts) s = run_acts acts (run_act a s)
