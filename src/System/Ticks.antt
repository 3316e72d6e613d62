-- ===== src/System/Ticks.antt =====
-- A round of the event thread of src/server/events.c keeps the boards and the goal sane.
use under_flow.Base.{if◌then◌else◌, ◌+◌, ◌%◌, ◌==◌, refl, ◌&&◌, inl, inr, Bool-cases, ltb, leb}
use under_flow.Protocol.{cap_expired, feed, chat}
use under_flow.Server.{broadcast_packet, Server}
use under_flow.Events.Leak.{event_try_public_leak, leak_prob_pct}
use under_flow.Events.Spawn.{event_spawn_market, event_age_npcs, event_age_market}
use under_flow.Events.Ticks.{
  dummy_news_count, Chances, EventThread, check_cap, check_raid, check_leak, spawn_and_feed,
  event_tick,
}
use under_flow.System.Handlers.{countdown-view, periodic_raid-view}
use under_flow.System.Sane.{IsSane, unmoved}
use under_flow.System.Trades.{either}
use under_flow.System.Engine.{age_npcs-IsSane, age_market-IsSane, leak-IsSane, spawn-IsSane}

cap-IsSane : (c : Chances) (s : Server) → IsSane s → IsSane (check_cap c s)
unfolding check_cap
cap-IsSane c s h = either _ (unmoved (countdown-view c.countdown_spawned cap_expired s) h) h

raid-IsSane :
    (c : Chances) (t : EventThread) → IsSane t.engine.server → IsSane (check_raid c t).engine.server
unfolding check_raid
raid-IsSane c t h = elim (Bool-cases (leb t.next_periodic_raid_at c.time_raid)) [
  | inl q ↦
      rw q (
        unmoved (periodic_raid-view c.time_raid_start c.raid_roll c.raid_spawned t.engine.server) h)
  | inr q ↦ rw q h
]

try_leak-IsSane :
    (c : Chances) (s : Server)
    → IsSane s
    → IsSane
        (event_try_public_leak c.leak_roll c.leak_pick_roll c.leak_dur_roll c.leak_allocated
          c.leak_spawned s).1
unfolding event_try_public_leak
try_leak-IsSane c s h = elim (Bool-cases (ltb (c.leak_roll % 100) leak_prob_pct)) [
  | inl q ↦ rw q (leak-IsSane c.leak_pick_roll c.leak_dur_roll c.leak_allocated c.leak_spawned s h)
  | inr q ↦ rw q h
]

check_leak-IsSane :
    (c : Chances) (t : EventThread) → IsSane t.engine.server → IsSane (check_leak c t).engine.server
unfolding check_leak
check_leak-IsSane c t h = elim (Bool-cases (t.tick % 24 == 0)) [
  | inl q ↦ rw q (try_leak-IsSane c t.engine.server h)
  | inr q ↦ rw q h
]

feed-IsSane :
    (c : Chances) (t : EventThread)
    → IsSane t.engine.server
    → IsSane (spawn_and_feed c t).engine.server
unfolding spawn_and_feed
feed-IsSane c t h = fed _ (called _ stocked)
  where
    stocked :
        IsSane
          (if t.tick % 1 == 0
            then record t { engine = event_spawn_market c.time_spawn c.spawn t.engine }
            else t).engine.server
    stocked = elim (Bool-cases (t.tick % 1 == 0)) [
      | inl q ↦ rw q (spawn-IsSane c.time_spawn c.spawn t.engine h)
      | inr q ↦ rw q h
    ]

    called :
        (u : EventThread)
        → IsSane u.engine.server
        → IsSane
            (if t.tick % 3 == 0 && c.npc_spawned
              then record u { sequences = u.sequences + 1 }
              else u).engine.server
    called u k = elim (Bool-cases (t.tick % 3 == 0 && c.npc_spawned)) [
      | inl q ↦ rw q k
      | inr q ↦ rw q k
    ]

    fed :
        (u : EventThread)
        → IsSane u.engine.server
        → IsSane
            (if t.tick % 8 == 0
              then record u {
                engine = record u.engine {
                  server =
                      broadcast_packet
                        (chat (feed (c.feed_roll % dummy_news_count)))
                        u.engine.server;
                };
              }
              else u).engine.server
    fed u k = elim (Bool-cases (t.tick % 8 == 0)) [ inl q ↦ rw q (unmoved refl k) | inr q ↦ rw q k ]

pub tick-IsSane :
    (c : Chances) (t : EventThread) → IsSane t.engine.server → IsSane (event_tick c t).engine.server
unfolding event_tick
tick-IsSane c t h =
    let aged : EventThread = record t {
      tick = t.tick + 1;
      engine = record t.engine {
        server =
            event_age_market c.time_market
              (event_age_npcs c.time_npcs (check_cap c t.engine.server));
      };
    } in
    feed-IsSane c (check_leak c (check_raid c aged)) (
      check_leak-IsSane c (check_raid c aged) (
        raid-IsSane c aged
          (age_market-IsSane c.time_market _ (age_npcs-IsSane c.time_npcs _ (cap-IsSane c _ h)))))
