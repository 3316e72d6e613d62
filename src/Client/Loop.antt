-- ===== src/Client/Loop.antt =====
-- The loop of `main` of src/client/ui_client.c: one round for each key or time-out of `wgetch`, with the packet
-- that `select` announces, the three countdowns, and the signal handlers. What is drawn is named, not shown.
pub mod Raids
pub mod Submits
pub mod Survives
mod Tests
use under_flow.Base.{
  ℕ, zero, suc, ◌+◌, ◌-◌, Bool, true, false, ◌&&◌, not, Option, none, some, List, [], ◌∷◌, ◌++◌,
  if◌then◌else◌, ltb, leb, ◌==◌,
}
use under_flow.Base.Int.{ℤ}
use under_flow.Base.Text.{Text}
use under_flow.Protocol.{
  Packet, police_raid, scoreboard, game_over, round_reset, minigame_ok, rumor_glitch, Request,
  req_inven,
}
use under_flow.Client.{
  ClientMode, normal, panic, round_end, over, ClientState, start, received, answer,
  glitch_duration_sec,
}
use under_flow.Client.Commands.{
  Entered, quit, send, locked, local_rumor, local_ok, local_over, nothing, enter,
}
use under_flow.Client.Line.{
  Line, empty_line, Key, no_key, resize, backspace, key_code, edit, c_string,
}
use under_flow.Client.Screen.Panes.{check_size}

-- The variables of the loop beside the state and the line; `sent` is what was given to `packet_send`,
-- oldest first. The seconds that a box shows are `none` for -1.
pub record Loop : Type 0 where
  pub state : ClientState
  pub line : Line
  pub running : Bool
  pub server_lost : Bool
  pub g_quit_req : Bool
  pub g_in_raid : Bool
  pub last_panic_remain : Option ℕ
  pub last_round_end_remain : Option ℕ
  pub last_glitch_ms : ℕ
  pub sent : List Request

abbrev pub is_panic : ClientMode → Bool
is_panic panic = true
is_panic _ = false

abbrev is_over : ClientMode → Bool
is_over over = true
is_over _ = false

abbrev is_normal : ClientMode → Bool
is_normal normal = true
is_normal _ = false

abbrev is_round_end : ClientMode → Bool
is_round_end round_end = true
is_round_end _ = false

-- After the login, with the request for the inventory.
abbrev pub loop_start : ℤ → ℤ → Loop
loop_start login_money login_goal = record {
  state = start login_money login_goal;
  line = empty_line;
  running = true;
  server_lost = false;
  g_quit_req = false;
  g_in_raid = false;
  last_panic_remain = none;
  last_round_end_remain = none;
  last_glitch_ms = 0;
  sent = req_inven ∷ [];
}

-- `handle_sigint`
unfoldable pub handle_sigint : Loop → Loop
handle_sigint l = if l.g_in_raid then l else record l { g_quit_req = true }

-- The screen in a round, and the clocks.
pub record Scene : Type 0 where
  pub rows : ℕ
  pub columns : ℕ
  pub now : ℕ
  pub ms : ℕ

-- `redraw` ends the program on a screen that is too small for the panes.
abbrev redraw : Scene → Loop → Loop
redraw sc l = record l { running = l.running && check_size sc.rows sc.columns }

-- What a round meets: nothing in 30 ms, a packet, the end of the connection, or a key.
pub data Turn : Type 0 where
  quiet : Turn
  arrived : Packet → Turn
  lost : Turn
  pressed : Key → Turn

-- What a packet's branch does beside the state.
unfoldable pub on_packet : Scene → Packet → Loop → Loop
on_packet sc (police_raid passcode limit) l = record l {
  line = empty_line;
  last_panic_remain = none;
}
on_packet sc minigame_ok l = redraw sc (record l { last_panic_remain = none })
on_packet sc (game_over round_reset) l = redraw sc (record l { last_round_end_remain = none })
on_packet sc (scoreboard sec escaped remaining) l = record l { last_round_end_remain = none }
on_packet sc rumor_glitch l = if is_normal l.state.mode then record l { last_glitch_ms = 0 } else l
on_packet sc _ l = l

-- `render_game_over` ends the program.
abbrev end_if_over : Loop → Loop
end_if_over l = if is_over l.state.mode then record l { running = false } else l

-- A packet from `packet_recv`, with the answer that it is given.
unfoldable pub receive : Scene → Packet → Loop → Loop
unfolding on_packet
receive sc pkt l = end_if_over (
    on_packet sc pkt
      (record l { state = received sc.now pkt l.state; sent = l.sent ++ answer pkt }))

-- The seconds until a deadline.
abbrev remain : ℕ → ℕ → ℕ
remain deadline now = deadline - now

-- Whether a box that shows `last` must be drawn again to show `left`.
abbrev pub differs : Option ℕ → ℕ → Bool
differs none left = true
differs (some last) left = not (last == left)

-- What the three countdowns draw.
pub data Drawn : Type 0 where
  panic_box score_box : ℕ → Drawn
  glitch_frame recovered : Drawn

unfoldable pub panic_tick : ℕ → Loop → Loop × List Drawn
panic_tick now l =
    let left = remain l.state.panic_deadline now in
    if is_panic l.state.mode
      && (not (l.state.panic_deadline == 0) && differs l.last_panic_remain left)
    then (record l { last_panic_remain = some left }, panic_box left ∷ [])
    else (l, [])

unfoldable pub round_end_tick : ℕ → Loop → Loop × List Drawn
round_end_tick now l =
    let left = remain l.state.round_end_deadline now in
    if is_round_end l.state.mode
      && (not (l.state.round_end_deadline == 0) && differs l.last_round_end_remain left)
    then (record l { last_round_end_remain = some left }, score_box left ∷ [])
    else (l, [])

abbrev glitch_frame_ms : ℕ
glitch_frame_ms = 90

unfoldable pub glitch_tick : ℕ → ℕ → Loop → Loop × List Drawn
glitch_tick now ms l =
    if is_normal l.state.mode && not (l.state.glitch_until == 0)
    then (if ltb now l.state.glitch_until
        then (if leb (l.last_glitch_ms + glitch_frame_ms) ms
            then (record l { last_glitch_ms = ms }, glitch_frame ∷ [])
            else (l, []))
        else (record l { state = record l.state { glitch_until = 0 } }, recovered ∷ []))
    else (l, [])

-- The three countdowns at the end of a round without a key.
unfoldable pub ticks : ℕ → ℕ → Loop → Loop × List Drawn
unfolding panic_tick round_end_tick glitch_tick
ticks now ms l =
    let (l1, d1) = panic_tick now l in
    let (l2, d2) = round_end_tick now l1 in
    let (l3, d3) = glitch_tick now ms l2 in (l3, d1 ++ (d2 ++ d3))

-- What the line that is entered does. `/quit` ends the loop; anything else empties the line.
unfoldable pub obey : Scene → Entered → Loop → Loop
obey sc quit l = record l { running = false }
obey sc (send request) l = record l { line = empty_line; sent = l.sent ++ (request ∷ []) }
obey sc locked l = record l { line = empty_line }
obey sc local_rumor l =
    if is_normal l.state.mode
    then record l {
      line = empty_line;
      state = record l.state { glitch_until = sc.now + glitch_duration_sec };
      last_glitch_ms = 0;
    }
    else record l { line = empty_line }
obey sc local_ok l =
    redraw sc (record l { line = empty_line; state = record l.state { mode = normal } })
obey sc local_over l = record l {
  line = empty_line;
  state = record l.state { mode = over };
  running = false;
}
obey sc nothing l = record l { line = empty_line }

-- Enter.
unfoldable pub press_enter : Scene → Loop → Loop
unfolding obey
press_enter sc l = obey sc (enter l.state.mode (c_string l.line.input)) l

-- A resize empties the line.
unfoldable press_resize : Scene → Loop → Loop
press_resize sc l =
    let cleared = record l { line = empty_line } in
    elim l.state.mode [
      | normal ↦ redraw sc cleared
      | panic ↦ record cleared { last_panic_remain = some (remain l.state.panic_deadline sc.now) }
      | round_end ↦ redraw sc (record cleared {
        last_round_end_remain = some (remain l.state.round_end_deadline sc.now);
      })
      | over ↦ cleared
    ]

unfoldable pub press : Scene → Key → Loop → Loop
unfolding press_enter press_resize
press sc no_key l = l
press sc resize l = press_resize sc l
press sc backspace l = record l { line = edit sc.columns backspace l.line }
press sc (key_code ch) l =
    if ch == 10 then press_enter sc l else record l { line = edit sc.columns (key_code ch) l.line }

unfoldable pub body : Scene → Turn → Loop → Loop
body sc quiet l = (ticks sc.now sc.ms l).0
body sc (arrived pkt) l =
    let m = receive sc pkt l in if m.running then (ticks sc.now sc.ms m).0 else m
body sc lost l = record l { server_lost = true; running = false }
body sc (pressed key) l = press sc key l

-- The head of a round. `caught` says whether a SIGINT comes before `g_quit_req` is tested.
unfoldable pub sync : Bool → Loop → Loop
sync caught l =
    let synced = record l { g_in_raid = is_panic l.state.mode } in
    if caught then handle_sigint synced else synced

unfoldable pub round : Bool → Scene → Turn → Loop → Loop
round caught sc t l =
    let m = sync caught l in if m.g_quit_req then record m { running = false } else body sc t m

-- A round, or a SIGINT in it or behind it: the handler sees the flag that its head has set.
pub data Event : Type 0 where
  turn : Bool → Scene → Turn → Event
  sigint : Event

unfoldable pub happen : Event → Loop → Loop
happen sigint l = handle_sigint l
happen (turn caught sc t) l = if l.running then round caught sc t l else l

unfoldable pub happen_all : List Event → Loop → Loop
happen_all [] l = l
happen_all (e ∷ es) l = happen_all es (happen e l)
