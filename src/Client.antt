-- ===== src/Client.antt =====
-- What src/client/ui_client.c keeps of the game: the tables that its screen shows, and its mode, changed by
-- each packet that its loop receives. The headline is in Client/News, and the
-- chats of the epilogue are in Client/Screen/Chats.
pub mod Mirror
pub mod Flags
pub mod Commands
pub mod Line
pub mod Screen
pub mod Loop
pub mod Audio
pub mod News
pub mod Locks
mod Tests
use under_flow.Base.{
  ℕ, zero, suc, ◌+◌, ◌-◌, Bool, true, false, ◌&&◌, Option, none, some, List, [], ◌∷◌, ◌++◌, map,
  if◌then◌else◌, ltb, take, length, bit_and, bit_or,
}
use under_flow.Base.Int.{ℤ, pos, eq_ℤ}
use under_flow.Base.Bits.{bit_not32}
use under_flow.Base.Masks.{meets}
use under_flow.Base.Text.{Text, strncpy, bytes}
use under_flow.Market.{max_name_len}
use under_flow.Sandbox.{InvenItem}
use under_flow.Protocol.{
  Packet, login_ok, login_fail, inven_info, buy_ok, sell_ok, dispose_ok, error, minigame_ok, chat,
  market_spawn, market_remove, npc_spawn, npc_despawn, news_leak, news_recover, rumor_glitch,
  police_raid, game_over, victory, scoreboard, goal_update, round_reset, burned_account, bankrupt,
  Request, req_inven, ScoreEscaped, ScoreRemaining, initial_money, default_goal_money, max_text_len,
  max_score_escaped, max_score_remaining,
}

abbrev pub ui_max_market : ℕ
ui_max_market = 32

abbrev pub ui_max_npc : ℕ
ui_max_npc = 16

abbrev pub glitch_duration_sec : ℕ
glitch_duration_sec = 12

pub data ClientMode : Type 0 where
  normal panic round_end over : ClientMode

pub record UiMarket : Type 0 where
  pub doc_id : ℤ
  pub tags : ℕ
  pub base_price : ℤ
  pub name : Text
  pub is_frozen : Bool

pub record UiNpc : Type 0 where
  pub npc_id : ℤ
  pub required_tags : ℕ
  pub bounty : ℤ

-- `ClientState`, with the mode and the deadlines of `main`. A table is the list of its first entries, as
-- many as its count says; the two counts of the scoreboard are kept as they came, beside what fits into
-- the tables.
pub record ClientState : Type 0 where
  pub mkt : List UiMarket
  pub npc : List UiNpc
  pub inv : List InvenItem
  pub my_money : ℤ
  pub my_goal : ℤ
  pub frozen_mask : ℕ
  pub sb_escaped_count : ℕ
  pub sb_escaped : List ScoreEscaped
  pub sb_remaining_count : ℕ
  pub sb_remaining : List ScoreRemaining
  pub sb_chat_count : ℕ
  pub mode : ClientMode
  pub panic_deadline : ℕ
  pub panic_passcode : Text
  pub round_end_deadline : ℕ
  pub glitch_until : ℕ

-- The state after a login with this balance and goal.
abbrev pub start : ℤ → ℤ → ClientState
start login_money login_goal = record {
  mkt = [];
  npc = [];
  inv = [];
  my_money = login_money;
  my_goal = login_goal;
  frozen_mask = 0;
  sb_escaped_count = 0;
  sb_escaped = [];
  sb_remaining_count = 0;
  sb_remaining = [];
  sb_chat_count = 0;
  mode = normal;
  panic_deadline = 0;
  panic_passcode = bytes "PURGE";
  round_end_deadline = 0;
  glitch_until = 0;
}

module _ {ℓ} {A : Type ℓ} where
  -- The last entry of `x ∷ xs`, and the entries before it.
  abbrev pub last_of : A → List A → A
  last_of x [] = x
  last_of x (y ∷ ys) = last_of y ys

  abbrev pub but_last : A → List A → List A
  but_last x [] = []
  but_last x (y ∷ ys) = x ∷ but_last y ys

  -- `t[i] = t[--count]` at the first entry that the test accepts.
  unfoldable pub remove_first : (A → Bool) → List A → List A
  remove_first p [] = []
  remove_first p (x ∷ []) = if p x then [] else x ∷ []
  remove_first p (x ∷ y ∷ ys) =
      let later = remove_first p (y ∷ ys) in if p x then last_of y ys ∷ but_last y ys else x ∷ later

abbrev pub ui_item : ℕ → ℤ → ℕ → ℤ → Text → UiMarket
ui_item mask doc_id tags base_price name = record {
  doc_id = doc_id;
  tags = tags;
  base_price = base_price;
  name = strncpy (max_name_len - 1) name;
  is_frozen = meets tags mask;
}

-- The entry is marked, or stays as it is.
abbrev pub mark : ℕ → UiMarket → UiMarket
mark mask m = if meets m.tags mask then record m { is_frozen = true } else m

abbrev pub refresh : ℕ → UiMarket → UiMarket
refresh mask m = record m { is_frozen = meets m.tags mask }

abbrev refresh_inv : ℕ → InvenItem → InvenItem
refresh_inv mask i = record i { is_frozen = meets i.tags mask }

-- The branch of the loop for each packet type; `now` is `time(NULL)`.
unfoldable pub received : ℕ → Packet → ClientState → ClientState
unfolding remove_first
received now (chat notice) c = elim c.mode [
  | normal ↦ c
  | panic ↦ c
  | round_end ↦ record c { sb_chat_count = c.sb_chat_count + 1 }
  | over ↦ c
]
received now rumor_glitch c = elim c.mode [
  | normal ↦ record c { glitch_until = now + glitch_duration_sec }
  | panic ↦ c
  | round_end ↦ c
  | over ↦ c
]
received now (police_raid passcode time_limit_sec) c = record c {
  mode = panic;
  panic_deadline = now + time_limit_sec;
  panic_passcode = strncpy (max_text_len - 1) passcode;
}
received now minigame_ok c = record c { mode = normal; panic_deadline = 0 }
received now (game_over round_reset) c = record c {
  mkt = [];
  npc = [];
  inv = [];
  frozen_mask = 0;
  my_money = initial_money;
  my_goal = default_goal_money;
  sb_escaped_count = 0;
  sb_escaped = [];
  sb_remaining_count = 0;
  sb_remaining = [];
  sb_chat_count = 0;
  round_end_deadline = 0;
  mode = normal;
}
received now (game_over burned_account) c = record c { mode = over }
received now (game_over bankrupt) c = record c { mode = over }
received now (victory prev) c = record c { mode = over }
received now (scoreboard countdown_sec escaped remaining) c = record c {
  sb_escaped_count = length escaped;
  sb_escaped = take max_score_escaped escaped;
  sb_remaining_count = length remaining;
  sb_remaining = take max_score_remaining remaining;
  mode = round_end;
  round_end_deadline = now + countdown_sec;
  sb_chat_count = 0;
}
received now (market_spawn doc_id tags base_price name) c =
    if ltb (length c.mkt) ui_max_market
    then record c { mkt = c.mkt ++ (ui_item c.frozen_mask doc_id tags base_price name ∷ []) }
    else c
received now (market_remove doc_id) c = record c {
  mkt = remove_first (λ m. eq_ℤ m.doc_id doc_id) c.mkt;
}
received now (npc_spawn npc_id required_tags bounty) c =
    if ltb (length c.npc) ui_max_npc
    then record c {
      npc =
          c.npc
          ++ (record { npc_id = npc_id; required_tags = required_tags; bounty = bounty } ∷ []);
    }
    else c
received now (npc_despawn npc_id) c = record c {
  npc = remove_first (λ n. eq_ℤ n.npc_id npc_id) c.npc;
}
received now (news_leak frozen_tags duration_sec) c =
    let mask = bit_or c.frozen_mask frozen_tags in
    record c { frozen_mask = mask; mkt = map (mark mask) c.mkt; inv = map (refresh_inv mask) c.inv }
received now (news_recover recovered_tags) c =
    let mask = bit_and c.frozen_mask (bit_not32 recovered_tags) in
    record c {
      frozen_mask = mask;
      mkt = map (refresh mask) c.mkt;
      inv = map (refresh_inv mask) c.inv;
    }
received now (buy_ok doc_id remaining_money tags name) c = record c { my_money = remaining_money }
received now (sell_ok bounty new_money) c = record c { my_money = new_money }
received now (inven_info items money) c = record c { inv = items; my_money = money }
received now (goal_update goal_money) c = record c { my_goal = goal_money }
received now dispose_ok c = c
received now (error code) c = c
received now (login_ok session money goal) c = c
received now (login_fail code) c = c

-- What the client sends in answer to a packet.
unfoldable pub answer : Packet → List Request
answer (buy_ok doc_id remaining_money tags name) = req_inven ∷ []
answer (sell_ok bounty new_money) = req_inven ∷ []
answer dispose_ok = req_inven ∷ []
answer _ = []

-- The packets of a session, each with its time.
unfoldable pub receive_all : List (ℕ × Packet) → ClientState → ClientState
unfolding received
receive_all [] c = c
receive_all ((now, pkt) ∷ packets) c = receive_all packets (received now pkt c)
