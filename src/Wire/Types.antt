-- ===== src/Wire/Types.antt =====
-- The values of `PacketType` in src/common/protocol.h whose packets have a body.
use under_flow.Base.{ℕ}

abbrev pub pkt_req_login : ℕ
pkt_req_login = 100

abbrev pub pkt_req_chat : ℕ
pkt_req_chat = 101

abbrev pub pkt_req_buy : ℕ
pkt_req_buy = 102

abbrev pub pkt_req_sell : ℕ
pkt_req_sell = 103

abbrev pub pkt_req_dispose : ℕ
pkt_req_dispose = 104

abbrev pub pkt_req_rumor : ℕ
pkt_req_rumor = 106

abbrev pub pkt_req_minigame_submit : ℕ
pkt_req_minigame_submit = 107

abbrev pub pkt_res_login_ok : ℕ
pkt_res_login_ok = 200

abbrev pub pkt_res_login_fail : ℕ
pkt_res_login_fail = 201

abbrev pub pkt_res_inven_info : ℕ
pkt_res_inven_info = 202

abbrev pub pkt_res_buy_ok : ℕ
pkt_res_buy_ok = 203

abbrev pub pkt_res_sell_ok : ℕ
pkt_res_sell_ok = 204

abbrev pub pkt_res_error : ℕ
pkt_res_error = 206

abbrev pub pkt_evt_chat : ℕ
pkt_evt_chat = 300

abbrev pub pkt_evt_market_spawn : ℕ
pkt_evt_market_spawn = 301

abbrev pub pkt_evt_market_remove : ℕ
pkt_evt_market_remove = 302

abbrev pub pkt_evt_npc_spawn : ℕ
pkt_evt_npc_spawn = 303

abbrev pub pkt_evt_npc_despawn : ℕ
pkt_evt_npc_despawn = 304

abbrev pub pkt_evt_news_leak : ℕ
pkt_evt_news_leak = 305

abbrev pub pkt_evt_news_recover : ℕ
pkt_evt_news_recover = 306

abbrev pub pkt_evt_police_raid : ℕ
pkt_evt_police_raid = 308

abbrev pub pkt_evt_game_over : ℕ
pkt_evt_game_over = 309

abbrev pub pkt_evt_victory : ℕ
pkt_evt_victory = 310

abbrev pub pkt_evt_scoreboard : ℕ
pkt_evt_scoreboard = 311

abbrev pub pkt_evt_goal_update : ℕ
pkt_evt_goal_update = 312
