-- ===== src/Server/Round.antt =====
-- The end of a round in src/server/server_main.c: the countdown with its scoreboard, and the reset. `now` is the result of `time(NULL)`, and `spawned` says whether `pthread_create` succeeded.
pub mod Scoreboard
use under_flow.Base.{
  ℕ, zero, suc, ◌+◌, ◌-◌, ◌<◌, min, Bool, true, false, ◌&&◌, not, Option, none, some, List, [], ◌∷◌,
  ◌++◌, if◌then◌else◌, ◌==◌, ltb, leb, take, set, get_elem?, length, replicate, map,
}
use under_flow.Base.Int.{ℤ, pos, lt_ℤ, eq_ℤ, add32}
use under_flow.Base.Text.{Text, strncpy, strncmp_eq, is_set}
use under_flow.Base.Swap.{swap_at}
use under_flow.Market.{MarketSlot, market_init, market_snapshot, max_market_slots}
use under_flow.Npc.{NpcSlot, npc_init, npc_snapshot, max_npc_slots}
use under_flow.Userdb.{
  UserRecord, Userdb, max_key_len, userdb_find, userdb_update_at, userdb_is_burned,
  userdb_reset_round,
}
use under_flow.Sandbox.{sandbox_purge_user, sandbox_global_reset}
use under_flow.Protocol.{
  forced_end, Packet, initial_money, default_goal_money, max_score_escaped, max_score_remaining,
  ScoreEscaped, ScoreRemaining, Notice, escaped_at_cap, escaped_and_raised, three_escaped, chat,
  market_spawn, npc_spawn, game_over, round_reset, victory, scoreboard, goal_update,
  invalid_session, not_enough_money,
}
use under_flow.Server.{
  Server, Client, RoundState, EscapeLogEntry, packet_send, send_error, broadcast_packet,
}
use under_flow.Server.Seed.{seed_market_and_npc}

abbrev pub debt_raise_step : ℤ
debt_raise_step = pos 2000

abbrev pub debt_cap : ℤ
debt_cap = pos 14000

abbrev round_end_countdown_sec : ℕ
round_end_countdown_sec = 60

-- A copy of a key into a buffer of `MAX_KEY_LEN` bytes.
abbrev pub copy_key : Text → Text
copy_key = strncpy (max_key_len - 1)

abbrev pub empty_entry : EscapeLogEntry
empty_entry = record { key = []; money_at_escape = pos 0; escape_order = 0 }

-- The round state that step 4 of `trigger_round_reset` restores.
abbrev pub fresh_round : RoundState
fresh_round = record {
  goal_money = default_goal_money;
  escaped_count = 0;
  round_end_active = false;
  cap_reached_at = 0;
  escape_log = replicate max_score_escaped empty_entry;
}

unfoldable pub announce_slots : List MarketSlot → Server → Server
announce_slots [] s = s
announce_slots (m ∷ ms) s =
    announce_slots ms (broadcast_packet (market_spawn m.doc_id m.tags m.base_price m.name) s)

unfoldable pub announce_offers : List NpcSlot → Server → Server
announce_offers [] s = s
announce_offers (n ∷ ns) s =
    announce_offers ns (broadcast_packet (npc_spawn n.npc_id n.required_tags n.bounty) s)

-- Steps 1 to 4 of `trigger_round_reset`, with the rumor cooldown.
abbrev pub cleared : Server → Server
cleared s = record s {
  disk = sandbox_global_reset s.disk;
  users = (userdb_reset_round initial_money s.users).1;
  market = market_init;
  npcs = npc_init;
  round = fresh_round;
  rumor_cd_until = 0;
}

-- The whole reset, as it runs when no other thread comes in between its locks.
unfoldable pub trigger_round_reset : ℕ → (ℕ → ℕ) → Server → Server
trigger_round_reset now rolls s =
    let seeded = seed_market_and_npc now rolls (cleared s) in
    let told = broadcast_packet (game_over round_reset) seeded in
    announce_offers (npc_snapshot max_npc_slots told.npcs)
      (announce_slots (market_snapshot max_market_slots told.market) told)

-- `round_end_timer_thread` after its sleep.
unfoldable pub round_end_timer : ℕ → (ℕ → ℕ) → Server → Server
round_end_timer now rolls s =
    if s.round.round_end_active then trigger_round_reset now rolls s else s

-- Step 1 of the countdown: the escape log as far as it is filled.
abbrev escaped_snapshot : RoundState → List ScoreEscaped
escaped_snapshot r =
    map
      (λ (e : EscapeLogEntry). (record {
        key = copy_key e.key;
        money_at_escape = e.money_at_escape;
        escape_order = e.escape_order;
      }))
      (take (min r.escaped_count max_score_escaped) r.escape_log)

-- Step 2: the keys of the connected clients that have logged in.
unfoldable pub snapshot_keys : List Client → List Text
snapshot_keys [] = []
snapshot_keys (c ∷ cs) =
    if not (c.sock == 0) && is_set c.key
    then copy_key c.key ∷ snapshot_keys cs
    else snapshot_keys cs

unfoldable pub is_escaped : Text → List ScoreEscaped → Bool
is_escaped key [] = false
is_escaped key (e ∷ es) = if strncmp_eq max_key_len key e.key then true else is_escaped key es

-- Step 3: the balances of those that have neither escaped nor been burned.
unfoldable pub balances : Userdb → List ScoreEscaped → List Text → List ScoreRemaining
balances db escaped [] = []
balances db escaped (k ∷ ks) =
    let rest = balances db escaped ks in
    if is_escaped k escaped then rest else elim (userdb_find k db) [
      | none ↦ rest
      | some (rec, offset) ↦
          if userdb_is_burned rec
          then rest
          else record { key = copy_key k; money = rec.money } ∷ rest
    ]

-- The inner loop of the selection sort: the index of the first greatest balance, from index `j` on.
unfoldable pub max_idx_from : ℕ → ℤ → ℕ → List ScoreRemaining → ℕ
max_idx_from max_idx best j [] = max_idx
max_idx_from max_idx best j (r ∷ rs) =
    if lt_ℤ best r.money
    then max_idx_from j r.money (j + 1) rs
    else max_idx_from max_idx best (j + 1) rs

-- The outer loop on what is not yet sorted, `n` rounds of it.
unfoldable pub select : ℕ → List ScoreRemaining → List ScoreRemaining
unfolding swap_at max_idx_from
select zero xs = xs
select (suc n) [] = []
select (suc n) (x ∷ xs) =
    let swapped = swap_at (max_idx_from 0 x.money 1 xs) x xs in swapped.0 ∷ select n swapped.1

unfoldable pub sort_by_money : List ScoreRemaining → List ScoreRemaining
unfolding select
sort_by_money xs = select (length xs) xs

-- The scoreboard of step 5, from the snapshots of steps 1 to 3.
abbrev scoreboard_of : Server → Packet
scoreboard_of s =
    let escaped = escaped_snapshot s.round in
    let rank = balances s.users escaped (snapshot_keys s.clients) in
    scoreboard round_end_countdown_sec escaped (take max_score_remaining (sort_by_money rank))

abbrev set_end_active : Bool → Server → Server
set_end_active on s = record s { round = record s.round { round_end_active = on } }

unfoldable pub fire_round_end_countdown : Bool → Notice → Server → Server
fire_round_end_countdown spawned announce s =
    if s.round.round_end_active
    then s
    else let claimed = set_end_active true s in
      let told =
        broadcast_packet (chat announce) (broadcast_packet (scoreboard_of claimed) claimed) in
      if spawned then told else set_end_active false told

unfoldable pub handle_fake_endround : Bool → Server → Server
unfolding fire_round_end_countdown
handle_fake_endround spawned s = fire_round_end_countdown spawned forced_end s
