-- ===== src/Server/Payoff.antt =====
-- `handle_payoff` of src/server/server_main.c: the debt of a round is paid, and the next debt is higher.
-- `now` is the result of `time(NULL)`; `spawned` is whether the thread of the countdown starts.
pub mod Schedule
pub mod Effect
mod Tests
use under_flow.Base.{
  ℕ, zero, suc, ◌+◌, ◌-◌, Bool, true, false, ◌&&◌, Option, none, some, if◌then◌else◌, ◌==◌, leb,
  set,
}
use under_flow.Base.Int.{ℤ, pos, lt_ℤ, eq_ℤ, add32}
use under_flow.Base.Text.{Text}
use under_flow.Userdb.{UserRecord, userdb_find, userdb_update_at}
use under_flow.Sandbox.{sandbox_purge_user}
use under_flow.Protocol.{
  Notice, initial_money, max_score_escaped, escaped_at_cap, escaped_and_raised, three_escaped, chat,
  victory, goal_update, invalid_session, not_enough_money,
}
use under_flow.Server.{
  Server, RoundState, EscapeLogEntry, packet_send, send_error, broadcast_packet,
}
use under_flow.Server.Round.{debt_raise_step, debt_cap, copy_key, fire_round_end_countdown}

-- The goal after `prev_goal`.
unfoldable pub next_goal : ℤ → ℤ
next_goal prev_goal =
    let raised = add32 prev_goal debt_raise_step in
    if lt_ℤ debt_cap raised then debt_cap else raised

-- The critical section behind `g_round_mutex` of a payoff that is allowed.
unfoldable pub record_escape : ℕ → Text → RoundState → RoundState
unfolding next_goal
record_escape now key r =
    let next = next_goal r.goal_money in
    let count = r.escaped_count + 1 in
    let entry : EscapeLogEntry = record {
      key = copy_key key;
      money_at_escape = r.goal_money;
      escape_order = count;
    } in
    record r {
      goal_money = next;
      cap_reached_at =
          if eq_ℤ next debt_cap && (r.cap_reached_at == 0) then now else r.cap_reached_at;
      escaped_count = count;
      escape_log =
          if leb count max_score_escaped then set r.escape_log (count - 1) entry else r.escape_log;
    }

-- The account of one who escaped, ready for the next game.
unfoldable pub renew_account : Text → UserRecord → ℕ → Server → Server
renew_account key rec offset s = record s {
  disk = sandbox_purge_user key s.disk;
  users = (userdb_update_at offset (record rec { money = initial_money }) s.users).1;
}

-- The chat event of an escape.
unfoldable escape_notice : Text → ℤ → ℤ → Notice
escape_notice key prev next =
    if eq_ℤ next prev then escaped_at_cap key prev else escaped_and_raised key prev next

-- The packets of an escape.
unfoldable pub announce_escape : ℕ → Text → ℤ → ℤ → Server → Server
unfolding escape_notice
announce_escape sock key prev next s =
    broadcast_packet (goal_update next)
      (broadcast_packet (chat (escape_notice key prev next)) (packet_send sock (victory prev) s))

-- What follows the two guards.
unfoldable pub pay_off : ℕ → Bool → ℕ → Text → UserRecord → ℕ → Server → Server
unfolding record_escape renew_account announce_escape
pay_off now spawned sock key rec offset s =
    let r = record_escape now key s.round in
    let renewed = renew_account key rec offset (record s { round = r }) in
    let told = announce_escape sock key s.round.goal_money r.goal_money renewed in
    if leb 3 r.escaped_count then fire_round_end_countdown spawned three_escaped told else told

-- The whole handler, as it runs when no other thread comes in between its locks.
unfoldable pub handle_payoff : ℕ → Bool → ℕ → Text → Server → Server
unfolding pay_off
handle_payoff now spawned sock key s = elim (userdb_find key s.users) [
  | none ↦ send_error sock invalid_session s
  | some (rec, offset) ↦
      if lt_ℤ rec.money s.round.goal_money
      then send_error sock not_enough_money s
      else pay_off now spawned sock key rec offset s
]
