-- ===== src/Wire/Codes.antt =====
-- The packet types of src/common/protocol.h, and what the two switches of src/common/protocol.c do to the
-- body of each: byte by byte over the packed struct of the union.
use under_flow.Base.{ℕ, zero, suc, ◌+◌, ◌-◌, List, [], ◌∷◌, ◌++◌, if◌then◌else◌, ◌==◌, replicate}
use under_flow.Userdb.{max_key_len, max_inven_size}
use under_flow.Market.{max_name_len}
use under_flow.Wire.Types.{
  pkt_req_login, pkt_req_chat, pkt_req_buy, pkt_req_sell, pkt_req_dispose, pkt_req_rumor,
  pkt_req_minigame_submit, pkt_res_login_ok, pkt_res_inven_info, pkt_res_buy_ok, pkt_res_sell_ok,
  pkt_res_error, pkt_evt_chat, pkt_evt_market_spawn, pkt_evt_market_remove, pkt_evt_npc_spawn,
  pkt_evt_npc_despawn, pkt_evt_news_leak, pkt_evt_news_recover, pkt_evt_police_raid,
  pkt_evt_game_over, pkt_evt_victory, pkt_evt_scoreboard, pkt_evt_goal_update,
}
use under_flow.Protocol.{max_text_len, max_score_escaped, max_score_remaining}

-- A case of `swap_packet_endian` on the struct: a word that it converts, or a byte that it leaves.
pub data SwapPart : Type 0 where
  word keep : SwapPart

-- A case of `enforce_null_termination` on the struct: a byte that it leaves, or one that it clears.
pub data EndPart : Type 0 where
  stay nul : EndPart

abbrev repeat : {A : Type 0} → ℕ → List A → List A
repeat zero ps = []
repeat (suc n) ps = ps ++ repeat n ps

abbrev words : ℕ → List SwapPart
words n = replicate n word

abbrev kept : ℕ → List SwapPart
kept n = replicate n keep

abbrev skip : ℕ → List EndPart
skip n = replicate n stay

-- `buf[n - 1] = '\0'`
abbrev text : ℕ → List EndPart
text n = replicate (n - 1) stay ++ (nul ∷ [])

-- An entry of `items`, `escaped` and `remaining`, for either switch.
abbrev item_words : List SwapPart
item_words = words 2 ++ (kept max_name_len ++ words 1)

abbrev escaped_words : List SwapPart
escaped_words = kept max_key_len ++ words 2

abbrev remaining_words : List SwapPart
remaining_words = kept max_key_len ++ words 1

abbrev item_texts : List EndPart
item_texts = skip 8 ++ (text max_name_len ++ skip 4)

abbrev escaped_texts : List EndPart
escaped_texts = text max_key_len ++ skip 8

abbrev remaining_texts : List EndPart
remaining_texts = text max_key_len ++ skip 4

-- The cases of a switch, each with its packet type; no case is the default.
unfoldable pub case_of : {A : Type 0} → ℕ → List (ℕ × List A) → List A
case_of t [] = []
case_of t ((k, ps) ∷ cases) = let later = case_of t cases in if t == k then ps else later

-- The cases of `swap_packet_endian`.
unfoldable pub swap_cases : List (ℕ × List SwapPart)
swap_cases =
    (pkt_req_buy, words 1)
    ∷ (pkt_req_sell, words (2 + max_inven_size))
    ∷ (pkt_req_dispose, words 1)
    ∷ (pkt_res_login_ok, words 3)
    ∷ (pkt_res_inven_info, words 1 ++ (repeat max_inven_size item_words ++ words 1))
    ∷ (pkt_res_buy_ok, words 3)
    ∷ (pkt_res_sell_ok, words 2)
    ∷ (pkt_res_error, words 1)
    ∷ (pkt_evt_market_spawn, words 3)
    ∷ (pkt_evt_market_remove, words 1)
    ∷ (pkt_evt_npc_spawn, words 3)
    ∷ (pkt_evt_npc_despawn, words 1)
    ∷ (pkt_evt_news_leak, words 2)
    ∷ (pkt_evt_news_recover, words 1)
    ∷ (pkt_evt_police_raid, kept max_text_len ++ words 1)
    ∷ (
      pkt_evt_scoreboard,
      words 2
          ++ (repeat max_score_escaped escaped_words
              ++ (words 1 ++ repeat max_score_remaining remaining_words)),
    )
    ∷ (pkt_evt_goal_update, words 1)
    ∷ []

-- The cases of `enforce_null_termination`.
unfoldable pub end_cases : List (ℕ × List EndPart)
end_cases =
    (pkt_req_login, text max_key_len)
    ∷ (pkt_req_chat, text max_text_len)
    ∷ (pkt_req_minigame_submit, text max_text_len)
    ∷ (pkt_req_rumor, text max_key_len)
    ∷ (pkt_res_buy_ok, skip 12 ++ text max_name_len)
    ∷ (pkt_res_error, skip 4 ++ text max_text_len)
    ∷ (pkt_evt_chat, text max_key_len ++ text max_text_len)
    ∷ (pkt_evt_market_spawn, skip 12 ++ text max_name_len)
    ∷ (pkt_evt_news_leak, skip 8 ++ text max_text_len)
    ∷ (pkt_evt_police_raid, text max_text_len)
    ∷ (pkt_evt_game_over, text max_text_len)
    ∷ (pkt_evt_victory, text max_text_len)
    ∷ (pkt_res_inven_info, skip 4 ++ repeat max_inven_size item_texts)
    ∷ (
      pkt_evt_scoreboard,
      skip 8
          ++ (repeat max_score_escaped escaped_texts
              ++ (skip 4 ++ repeat max_score_remaining remaining_texts)),
    )
    ∷ []
