-- ===== src/Market/Calls.antt =====
-- The calls that the threads of the server make of market.c, one critical section each, as a step
-- function on the market, and any interleaving of them as a list.
use under_flow.Base.{ℕ, ◌^◌, ◌<◌, List, [], ◌∷◌}
use under_flow.Base.Int.{ℤ}
use under_flow.Base.Text.{Text}
use under_flow.Market.{
  Market, market_init, market_add, market_take, freeze_tags, unfreeze_tags, market_despawn_aged,
}

pub data Call : Type 0 where
  init : Call
  add : ℕ → ℕ → ℤ → ℕ → ℤ → Text → Call
  take : ℤ → Call
  freeze unfreeze : ℕ → Call
  despawn : ℕ → ℕ → Call

unfoldable pub step : Call → Market → Market
step init m = market_init
step (add now roll doc_id tags price name) m = (market_add now roll doc_id tags price name m).1
step (take doc_id) m = (market_take doc_id m).1
step (freeze tags) m = freeze_tags tags m
step (unfreeze tags) m = unfreeze_tags tags m
step (despawn now max_out) m = (market_despawn_aged now max_out m).1

unfoldable pub run : List Call → Market → Market
run [] m = m
run (c ∷ cs) m = run cs (step c m)

-- The masks that a call passes are words of 32 bits.
abbrev pub HasWords : Call → Type 0
HasWords init = Unit {0}
HasWords (add now roll doc_id tags price name) = tags < 2 ^ 32
HasWords (take doc_id) = Unit {0}
HasWords (freeze tags) = tags < 2 ^ 32
HasWords (unfreeze tags) = tags < 2 ^ 32
HasWords (despawn now max_out) = Unit {0}
