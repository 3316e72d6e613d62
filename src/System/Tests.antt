-- ===== src/System/Tests.antt =====
-- The whole server at work: a connection, a login, a purchase with a leak in the middle of it, and a round of
-- the event thread.
use under_flow.Base.{arith, ◌≡◌, true, [], map, filter_by}
use under_flow.Base.Int.{pos}
use under_flow.Base.Text.{bytes}
use under_flow.Market.Calls.{freeze}
use under_flow.Userdb.{Userdb, zero_record}
use under_flow.Sandbox.{Disk}
use under_flow.Protocol.{req_login, req_buy, trigger_leak}
use under_flow.Sessions.{waiting, serving, sync_boards}
use under_flow.Client.{start, receive_all}
use under_flow.Client.Mirror.{arrive, shown, shown_npc}
use under_flow.Events.Ticks.{Chances}
use under_flow.System.{
  Acts, accept, section, market_call, packet, event_round, done, next, recovery, Luck, Counters,
  boot, run_acts,
}
use under_flow.System.Sane.{IsSane}
use under_flow.System.Reach.{HaveWords, reached-IsSane, login_mirror}

abbrev no_users : Userdb
no_users = record { openable = true; writable = true; records = [] }

abbrev no_files : Disk
no_files = record { writable = true; master = []; users = [] }

abbrev luck : Luck
luck = record {
  now = 100;
  roll = 0;
  second_roll = 0;
  allocated = true;
  spawned = true;
  junk = (zero_record, 0);
}

abbrev chances : Chances
chances = record {
  time_cap = 110;
  time_npcs = 110;
  time_market = 110;
  time_raid = 110;
  time_raid_start = 110;
  time_next_raid = 110;
  time_spawn = 110;
  countdown_spawned = true;
  raid_roll = 0;
  raid_spawned = true;
  next_raid_roll = 0;
  leak_roll = 0;
  leak_pick_roll = 0;
  leak_dur_roll = 0;
  leak_allocated = true;
  leak_spawned = true;
  spawn = record { tags = λ i. i; price = 0; extension = 0; name = 0; life = 0 };
  npc_spawned = true;
  feed_roll = 0;
}

abbrev counters : Counters
counters = record { tick = 0; next_raid = 200; doc_id_counter = pos 200; npc_id_counter = pos 400 }

-- While ada buys, a leak that she asked for on another connection freezes a tag.
abbrev day : Acts
day = next (section (market_call (freeze 4))) (
    next (accept true 4) (
      next (packet luck done 4 waiting (req_login (bytes "ada"))) (
        next
          (packet luck (next (packet luck done 5 (serving (bytes "bob")) trigger_leak) done) 4
            (serving (bytes "ada")) (req_buy (pos 111)))
          (next (event_round chances counters)
            (next (recovery (record { mask = 2; duration_sec = 180 })) done)))))

day-HaveWords : HaveWords day
day-HaveWords = (omega arith, (tt, (tt, ((tt, tt), (tt, (omega arith, tt))))))

reached-IsSane_example : IsSane (run_acts day (boot 50 (λ i. i) no_users no_files))
reached-IsSane_example = reached-IsSane 50 (λ i. i) no_users no_files day day-HaveWords

login_mirror_example :
    let s = run_acts day (boot 50 (λ i. i) no_users no_files) in
    let sent = (sync_boards 6 (record s { out = [] })).out in
    let c = receive_all (arrive 120 sent) (start (pos 1000) (pos 10000)) in
    (c.mkt ≡ map shown (filter_by (λ m. m.active) s.market.slots))
    × (c.npc ≡ map shown_npc (filter_by (λ n. n.active) s.npcs))
    × (c.frozen_mask ≡ s.market.frozen)
login_mirror_example =
    login_mirror 50 (λ i. i) no_users no_files day 120 6 (pos 1000) (pos 10000) day-HaveWords
