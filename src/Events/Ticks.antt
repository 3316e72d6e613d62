-- ===== src/Events/Ticks.antt =====
-- `event_thread_func` of src/server/events.c: one round of its loop after the sleep, and what it starts.
use under_flow.Base.{
  ℕ, ◌+◌, ◌-◌, ◌%◌, Bool, ◌&&◌, not, none, some, List, ◌∷◌, if◌then◌else◌, leb, ◌==◌,
}
use under_flow.Protocol.{chat, cap_expired, feed}
use under_flow.Server.{Server, RoundState, broadcast_packet}
use under_flow.Server.Round.{fire_round_end_countdown}
use under_flow.Server.Raid.{fire_periodic_police_raid}
use under_flow.Events.Spawn.{Engine, Rolls, event_age_npcs, event_age_market, event_spawn_market}
use under_flow.Events.Leak.{LeakRecoveryArg, event_try_public_leak}

abbrev cap_grace_sec : ℕ
cap_grace_sec = 300

abbrev periodic_raid_min_interval : ℕ
periodic_raid_min_interval = 360

abbrev periodic_raid_max_interval : ℕ
periodic_raid_max_interval = 600

-- A clock that ran backwards gives a negative time in the source and 0 here; both are below the grace.
unfoldable check_cap_grace_expired : ℕ → RoundState → Bool
check_cap_grace_expired now r =
    not (r.cap_reached_at == 0) && leb cap_grace_sec (now - r.cap_reached_at)

-- What the outside decides in one round: the calls of `time`, of `rand`, of `malloc` and of
-- `pthread_create`, one field for each call or group of calls.
pub record Chances : Type 0 where
  pub time_cap : ℕ
  pub time_npcs : ℕ
  pub time_market : ℕ
  pub time_raid : ℕ
  pub time_raid_start : ℕ
  pub time_next_raid : ℕ
  pub time_spawn : ℕ
  pub countdown_spawned : Bool
  pub raid_roll : ℕ
  pub raid_spawned : Bool
  pub next_raid_roll : ℕ
  pub leak_roll : ℕ
  pub leak_pick_roll : ℕ
  pub leak_dur_roll : ℕ
  pub leak_allocated : Bool
  pub leak_spawned : Bool
  pub spawn : Rolls
  pub npc_spawned : Bool
  pub feed_roll : ℕ

-- The thread's own variables, with the engine, the recovery threads that it started and have not ended,
-- and the number of its NPC sequences that have not begun.
pub record EventThread : Type 0 where
  pub tick : ℕ
  pub next_periodic_raid_at : ℕ
  pub engine : Engine
  pub recoveries : List LeakRecoveryArg
  pub sequences : ℕ

abbrev on_server : (Server → Server) → EventThread → EventThread
on_server f t = record t { engine = record t.engine { server = f t.engine.server } }

-- Step 1.
unfoldable pub check_cap : Chances → Server → Server
unfolding check_cap_grace_expired
check_cap c s =
    if check_cap_grace_expired c.time_cap s.round
    then fire_round_end_countdown c.countdown_spawned cap_expired s
    else s

abbrev after_interval : ℕ → ℕ → ℕ
after_interval now roll =
    now
    + periodic_raid_min_interval
    + roll % (periodic_raid_max_interval - periodic_raid_min_interval + 1)

-- Step 4.
unfoldable pub check_raid : Chances → EventThread → EventThread
check_raid c t =
    if leb t.next_periodic_raid_at c.time_raid
    then record (on_server (fire_periodic_police_raid c.time_raid_start c.raid_roll c.raid_spawned)
        t) { next_periodic_raid_at = after_interval c.time_next_raid c.next_raid_roll }
    else t

-- Step 5.
unfoldable pub check_leak : Chances → EventThread → EventThread
check_leak c t =
    let (recovery, server) =
      event_try_public_leak c.leak_roll c.leak_pick_roll c.leak_dur_roll c.leak_allocated
        c.leak_spawned t.engine.server in
    if t.tick % 24 == 0
    then record (on_server (λ _. server) t) {
      recoveries = elim recovery [ none ↦ t.recoveries | some arg ↦ arg ∷ t.recoveries ];
    }
    else t

-- The number of entries of `DUMMY_NEWS`.
abbrev pub dummy_news_count : ℕ
dummy_news_count = 115

-- Steps 6 to 8; the spawn period is one tick.
unfoldable pub spawn_and_feed : Chances → EventThread → EventThread
spawn_and_feed c t =
    let stocked =
      if t.tick % 1 == 0
      then record t { engine = event_spawn_market c.time_spawn c.spawn t.engine }
      else t in
    let called =
      if t.tick % 3 == 0 && c.npc_spawned
      then record stocked { sequences = stocked.sequences + 1 }
      else stocked in
    if t.tick % 8 == 0
    then on_server (broadcast_packet (chat (feed (c.feed_roll % dummy_news_count)))) called
    else called

-- One round of the loop, when no other thread comes in between its locks.
unfoldable pub event_tick : Chances → EventThread → EventThread
unfolding check_cap check_raid check_leak spawn_and_feed
event_tick c t =
    let due = record t { tick = t.tick + 1 } in
    let aged =
      on_server (λ s. event_age_market c.time_market (event_age_npcs c.time_npcs (check_cap c s)))
        due in
    spawn_and_feed c (check_leak c (check_raid c aged))
