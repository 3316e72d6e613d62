-- ===== src/Market/Tests.antt =====
-- The calls of src/server/market.c on small boards.
use under_flow.Base.{List, [], ◌∷◌, arith, All}
use under_flow.Base.Int.{pos}
use under_flow.Market.{MarketSlot, Market, new_slot, empty_slot}
use under_flow.Market.Calls.{Call, HasWords}
use under_flow.Market.Listing.{Distinct}

abbrev report : MarketSlot
report = new_slot 100 7 (pos 5) 18 (pos 800) (0x61 ∷ []) 0

abbrev blueprint : MarketSlot
blueprint = new_slot 120 3 (pos 6) 96 (pos 800) (0x62 ∷ []) 96

-- Two documents, one of them frozen, and a free slot.
abbrev board : Market
board = record { slots = report ∷ blueprint ∷ empty_slot ∷ []; frozen = 96 }

abbrev calls : List Call
calls =
    Call.add 100 7 (pos 5) 18 (pos 800) []
    ∷ Call.freeze 2
    ∷ Call.add 110 8 (pos 6) 96 (pos 800) []
    ∷ Call.unfreeze 2
    ∷ Call.take (pos 5)
    ∷ Call.despawn 500 8
    ∷ []

board-Distinct : Distinct board
board-Distinct k = ground arith

calls-HasWords : All HasWords calls
calls-HasWords = ground arith
