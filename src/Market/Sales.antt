-- ===== src/Market/Sales.antt =====
-- How often a document of src/server/market.c is sold, over any interleaving of calls.
use under_flow.Base.{ℕ, ◌+◌, ◌&&◌, List, [], ◌∷◌, if◌then◌else◌}
use under_flow.Base.Int.{ℤ, eq_ℤ}
use under_flow.Base.Text.{Text}
use under_flow.Market.{Market, market_add, market_take}
use under_flow.Market.Calls.{Call, add, take, step}
use under_flow.Market.Listing.{is_taken}

-- The successful `market_add`s and `market_take`s of document `d` in a run.
abbrev arrival : ℤ → Call → Market → ℕ
arrival d (add now roll d' tags price name) m =
    if eq_ℤ d' d && (market_add now roll d' tags price name m).0 then 1 else 0
arrival d _ m = 0

abbrev pub sale : ℤ → Call → Market → ℕ
sale d (take d') m = if eq_ℤ d' d && is_taken (market_take d' m).0 then 1 else 0
sale d _ m = 0

abbrev pub arrivals : ℤ → List Call → Market → ℕ
arrivals d [] m = 0
arrivals d (c ∷ cs) m = arrival d c m + arrivals d cs (step c m)

abbrev pub sales : ℤ → List Call → Market → ℕ
sales d [] m = 0
sales d (c ∷ cs) m = sale d c m + sales d cs (step c m)
