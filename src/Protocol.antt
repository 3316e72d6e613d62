-- ===== src/Protocol.antt =====
-- src/common/protocol.h: the error codes, and the packets of clients and server with their bodies.
-- The Korean sentences of chat events and notices are named by constructors, with the values that are
-- printed into them; the reasons beside the error codes are left out, and so is
-- the headline of a leak. A hint is named by its tag's index and its number, the feed by its number.
use under_flow.Base.{◌^◌, ℕ, List}
use under_flow.Base.Int.{ℤ}
use under_flow.Base.Text.{Text}
use under_flow.Sandbox.{InvenItem}

-- `MAX_TEXT_LEN` and the constants of the balance.
abbrev pub max_text_len : ℕ
max_text_len = 256

abbrev pub initial_money : ℤ
initial_money = ℤ.pos 1000

abbrev pub default_goal_money : ℤ
default_goal_money = ℤ.pos 10000

abbrev pub max_score_escaped : ℕ
max_score_escaped = 3

abbrev pub max_score_remaining : ℕ
max_score_remaining = 7

-- The tags, one bit each.
abbrev pub tag_corp_a : ℕ
tag_corp_a = 2 ^ 0

abbrev pub tag_corp_b : ℕ
tag_corp_b = 2 ^ 1

abbrev pub tag_corp_c : ℕ
tag_corp_c = 2 ^ 2

abbrev pub tag_customer : ℕ
tag_customer = 2 ^ 3

abbrev pub tag_finance : ℕ
tag_finance = 2 ^ 4

abbrev pub tag_military : ℕ
tag_military = 2 ^ 5

abbrev pub tag_government : ℕ
tag_government = 2 ^ 6

abbrev pub tag_medical : ℕ
tag_medical = 2 ^ 7

abbrev pub tag_research : ℕ
tag_research = 2 ^ 8

abbrev pub tag_personal : ℕ
tag_personal = 2 ^ 9

abbrev pub tag_corp_d : ℕ
tag_corp_d = 2 ^ 10

abbrev pub tag_corp_e : ℕ
tag_corp_e = 2 ^ 11

pub data ErrorCode : Type 0 where
  err_none not_enough_money inventory_full doc_not_found tag_mismatch : ErrorCode
  npc_not_found npc_already_taken doc_frozen rumor_cooldown : ErrorCode
  invalid_session duplicate_login key_burned : ErrorCode

-- What a client sends.
pub data Request : Type 0 where
  req_login : Text → Request
  req_chat : Text → Request
  req_buy : ℤ → Request
  req_sell : ℤ → ℤ → List ℤ → Request
  req_dispose : ℤ → Request
  req_inven : Request
  req_rumor : Text → Request
  req_minigame_submit : Text → Request
  trigger_raid trigger_leak trigger_rich trigger_endround : Request
  unknown : Request

pub record ScoreEscaped : Type 0 where
  pub key : Text
  pub money_at_escape : ℤ
  pub escape_order : ℕ

pub record ScoreRemaining : Type 0 where
  pub key : Text
  pub money : ℤ

-- The sentences of `PKT_EVT_CHAT` that the server itself speaks.
pub data Notice : Type 0 where
  escaped_at_cap : Text → ℤ → Notice
  escaped_and_raised : Text → ℤ → ℤ → Notice
  three_escaped cap_expired forced_end : Notice
  raid_alert : Text → Notice
  filled_up : ℤ → Notice
  npc_hint : ℕ → ℕ → Notice
  feed : ℕ → Notice
  said : Text → Text → Notice

-- The messages of `PKT_EVT_GAME_OVER`: the round-reset marker, a burned and a bankrupt account.
pub data Ending : Type 0 where
  round_reset burned_account bankrupt : Ending

-- What the server sends.
pub data Packet : Type 0 where
  login_ok : ℕ → ℤ → ℤ → Packet
  login_fail : ErrorCode → Packet
  inven_info : List InvenItem → ℤ → Packet
  buy_ok : ℤ → ℤ → ℕ → Text → Packet
  sell_ok : ℤ → ℤ → Packet
  dispose_ok : Packet
  error : ErrorCode → Packet
  minigame_ok : Packet
  chat : Notice → Packet
  market_spawn : ℤ → ℕ → ℤ → Text → Packet
  market_remove : ℤ → Packet
  npc_spawn : ℤ → ℕ → ℤ → Packet
  npc_despawn : ℤ → Packet
  news_leak : ℕ → ℕ → Packet
  news_recover : ℕ → Packet
  rumor_glitch : Packet
  police_raid : Text → ℕ → Packet
  game_over : Ending → Packet
  victory : ℤ → Packet
  scoreboard : ℕ → List ScoreEscaped → List ScoreRemaining → Packet
  goal_update : ℤ → Packet
