-- ===== src/Wire/Layout.antt =====
-- The structs of the union in src/common/protocol.h, field by field, and the packet types they belong to:
-- where the numbers and the texts of a body lie, whatever the switches of src/common/protocol.c do there.
use under_flow.Base.{ℕ, zero, suc, ◌-◌, List, [], ◌∷◌, ◌++◌, replicate}
use under_flow.Userdb.{max_key_len, max_inven_size}
use under_flow.Market.{max_name_len}
use under_flow.Protocol.{max_text_len, max_score_escaped, max_score_remaining}
use under_flow.Wire.Types.{
  pkt_req_login, pkt_req_chat, pkt_req_buy, pkt_req_sell, pkt_req_dispose, pkt_req_rumor,
  pkt_req_minigame_submit, pkt_res_login_ok, pkt_res_login_fail, pkt_res_inven_info, pkt_res_buy_ok,
  pkt_res_sell_ok, pkt_res_error, pkt_evt_chat, pkt_evt_market_spawn, pkt_evt_market_remove,
  pkt_evt_npc_spawn, pkt_evt_npc_despawn, pkt_evt_news_leak, pkt_evt_news_recover,
  pkt_evt_police_raid, pkt_evt_game_over, pkt_evt_victory, pkt_evt_scoreboard, pkt_evt_goal_update,
}
use under_flow.Wire.Codes.{SwapPart, word, keep, EndPart, stay, nul}

-- `int32_t` or `uint32_t`, and `char[n]`.
pub data Field : Type 0 where
  number : Field
  chars : ℕ → Field

abbrev array : ℕ → List Field → List Field
array zero fields = []
array (suc n) fields = fields ++ array n fields

-- `InvenItem`, `ScoreEscaped` and `ScoreRemaining`.
abbrev inven_item : List Field
inven_item = number ∷ number ∷ chars max_name_len ∷ number ∷ []

abbrev score_escaped : List Field
score_escaped = chars max_key_len ∷ number ∷ number ∷ []

abbrev score_remaining : List Field
score_remaining = chars max_key_len ∷ number ∷ []

-- The struct of each type; a type that is not here has no body.
unfoldable pub structs : List (ℕ × List Field)
structs =
    (pkt_req_login, chars max_key_len ∷ [])
    ∷ (pkt_req_chat, chars max_text_len ∷ [])
    ∷ (pkt_req_buy, number ∷ [])
    ∷ (pkt_req_sell, number ∷ number ∷ array max_inven_size (number ∷ []))
    ∷ (pkt_req_dispose, number ∷ [])
    ∷ (pkt_req_minigame_submit, chars max_text_len ∷ [])
    ∷ (pkt_req_rumor, chars max_key_len ∷ [])
    ∷ (pkt_res_login_ok, number ∷ number ∷ number ∷ [])
    ∷ (pkt_res_login_fail, number ∷ chars max_text_len ∷ [])
    ∷ (pkt_res_inven_info, number ∷ (array max_inven_size inven_item ++ (number ∷ [])))
    ∷ (pkt_res_buy_ok, number ∷ number ∷ number ∷ chars max_name_len ∷ [])
    ∷ (pkt_res_sell_ok, number ∷ number ∷ [])
    ∷ (pkt_res_error, number ∷ chars max_text_len ∷ [])
    ∷ (pkt_evt_chat, chars max_key_len ∷ chars max_text_len ∷ [])
    ∷ (pkt_evt_market_spawn, number ∷ number ∷ number ∷ chars max_name_len ∷ [])
    ∷ (pkt_evt_market_remove, number ∷ [])
    ∷ (pkt_evt_npc_spawn, number ∷ number ∷ number ∷ [])
    ∷ (pkt_evt_npc_despawn, number ∷ [])
    ∷ (pkt_evt_news_leak, number ∷ number ∷ chars max_text_len ∷ [])
    ∷ (pkt_evt_news_recover, number ∷ [])
    ∷ (pkt_evt_police_raid, chars max_text_len ∷ number ∷ [])
    ∷ (pkt_evt_game_over, chars max_text_len ∷ [])
    ∷ (pkt_evt_victory, chars max_text_len ∷ [])
    ∷ (
      pkt_evt_scoreboard,
      number
          ∷ number
          ∷ (array max_score_escaped score_escaped
              ++ (number ∷ array max_score_remaining score_remaining)),
    )
    ∷ (pkt_evt_goal_update, number ∷ [])
    ∷ []

-- The words and the bytes of the fields.
abbrev pub words_of : List Field → List SwapPart
words_of [] = []
words_of (number ∷ fs) = word ∷ words_of fs
words_of (chars n ∷ fs) = replicate n keep ++ words_of fs

-- The last byte of each text.
abbrev pub ends_of : List Field → List EndPart
ends_of [] = []
ends_of (number ∷ fs) = stay ∷ stay ∷ stay ∷ stay ∷ ends_of fs
ends_of (chars n ∷ fs) = replicate (n - 1) stay ++ (nul ∷ ends_of fs)
