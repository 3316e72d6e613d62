-- ===== src/Events/Spawn/Bounty.antt =====
-- What an offer of src/server/events.c pays, and what a document costs.
use under_flow.Base.{if◌then◌else◌, ◌==◌, ℕ, ◌+◌, ◌*◌, ◌%◌, ◌^◌, ◌≤◌, ◌<◌, ◌≡◌, arith}
use under_flow.Base.Int.{pos_part}
use under_flow.Npc.Aging.{bit_sum, popcount-bit_sum}
use under_flow.Events.Spawn.{bounty_of, price_of}

-- The bounds of a bounty by the number of tags.
abbrev pub least : ℕ → ℕ
least n = if n == 3 then 3000 else n * 500

abbrev pub most : ℕ → ℕ
most n = if n == 1 then 1500 else if n == 2 then 3000 else 5000

-- An offer of one to three tags pays 500 to 1500 for one tag, 1000 to 3000 for two and 3000 to 5000 for
-- three, in steps of 500; a document costs 400 for each of its tags and at most 300 more.
bounty_lem :
    (tags roll price_roll : ℕ)
    → tags < 2 ^ 32
    → 1 ≤ bit_sum 32 tags
    → bit_sum 32 tags ≤ 3
    → let n = bit_sum 32 tags in
      let bounty = bounty_of tags roll in
      let price = pos_part (price_of tags price_roll) in
      (least n ≤ bounty)
      × (bounty ≤ most n)
      × (bounty % 500 ≡ 0)
      × (n * 400 ≤ price)
      × (price ≤ n * 400 + 300)
unfolding bounty_of
bounty_lem tags roll price_roll h low high = ground (arith, popcount-bit_sum tags h)
