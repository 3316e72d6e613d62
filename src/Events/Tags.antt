-- ===== src/Events/Tags.antt =====
-- The tags of src/server/events.c: the table, the count of a mask, its first tag, and the random choice
-- of tags that are not frozen. `rolls i` is the i-th call of `rand()`.
pub mod Choice
use under_flow.Base.{
  ℕ, zero, suc, ◌+◌, ◌%◌, Bool, true, false, not, Option, none, some, List, [], ◌∷◌, bit_or, min,
  length, get_elem?, set, if◌then◌else◌,
}
use under_flow.Base.Masks.{meets}
use under_flow.Base.Swap.{swap_at}
use under_flow.Market.{Market, market_frozen_mask}
use under_flow.Protocol.{
  tag_corp_a, tag_corp_b, tag_corp_c, tag_customer, tag_finance, tag_military, tag_government,
  tag_medical, tag_research, tag_personal, tag_corp_d, tag_corp_e,
}

-- `TAG_LIST`
abbrev pub tag_list : List ℕ
tag_list =
    tag_corp_a ∷ tag_corp_b ∷ tag_corp_c ∷ tag_customer ∷ tag_finance ∷ tag_military
    ∷ tag_government ∷ tag_medical ∷ tag_research ∷ tag_personal ∷ tag_corp_d ∷ tag_corp_e ∷ []

-- The loop of `first_tag_index` over the rest of the table, from index `i`; without a hit the result is 0.
unfoldable index_from : ℕ → ℕ → List ℕ → ℕ
index_from tags i [] = 0
index_from tags i (t ∷ ts) = if meets tags t then i else index_from tags (i + 1) ts

unfoldable pub first_tag_index : ℕ → ℕ
unfolding index_from
first_tag_index tags = index_from tags 0 tag_list

-- The tags of a table that are not frozen.
unfoldable pub available : ℕ → List ℕ → List ℕ
available frozen [] = []
available frozen (t ∷ ts) =
    if not (meets t frozen) then t ∷ available frozen ts else available frozen ts

-- The last two loops in one: `n` rounds of the shuffle on what is left of the pool, where the first entry
-- goes into the result at once.
unfoldable pub draw : ℕ → (ℕ → ℕ) → List ℕ → ℕ → ℕ
unfolding swap_at
draw zero rolls pool result = result
draw (suc n) rolls [] result = result
draw (suc n) rolls (x ∷ xs) result =
    let swapped = swap_at (rolls 0 % length (x ∷ xs)) x xs in
    draw n (λ i. rolls (i + 1)) swapped.1 (bit_or result swapped.0)

-- The choice from the tags that are not frozen.
unfoldable pub choose : (ℕ → ℕ) → List ℕ → ℕ
unfolding draw
choose rolls [] = 0
choose rolls (t ∷ ts) =
    draw (min (rolls 0 % 3 + 1) (length (t ∷ ts))) (λ i. rolls (i + 1)) (t ∷ ts) 0

unfoldable pub event_random_tags : (ℕ → ℕ) → Market → ℕ
unfolding available choose
event_random_tags rolls m = choose rolls (available (market_frozen_mask m) tag_list)
