-- ===== src/Market.antt =====
-- The market board of src/server/market.c: 32 slots and the mask of frozen tags, behind one mutex.
-- Each function below is one critical section; the mutex makes it one step. `time(NULL)` and
-- `rand()` are arguments, `now` and `roll`.
pub mod Calls
pub mod Freeze
pub mod Listing
pub mod Sales
pub mod Aging
mod Tests
use under_flow.Base.{
  ℕ, zero, suc, ◌+◌, ◌-◌, ◌%◌, ◌^◌, ◌<◌, Bool, true, false, ◌&&◌, not, Option, none, some, List, [],
  ◌∷◌, ltb, if◌then◌else◌, bit_and, bit_or, map, replicate, find_by,
}
use under_flow.Base.Int.{ℤ, pos, eq_ℤ}
use under_flow.Base.Text.{Text, strncpy}
use under_flow.Base.Bits.{bit_not32}
use under_flow.Base.Masks.{meets}

abbrev pub max_market_slots : ℕ
max_market_slots = 32

abbrev market_life_min_sec : ℕ
market_life_min_sec = 40

abbrev market_life_max_sec : ℕ
market_life_max_sec = 90

abbrev pub max_name_len : ℕ
max_name_len = 64

-- `active` and `is_frozen` are ints used as truth values; times are seconds since the epoch.
pub record MarketSlot : Type 0 where
  pub doc_id : ℤ
  pub tags : ℕ
  pub base_price : ℤ
  pub name : Text
  pub active : Bool
  pub is_frozen : Bool
  pub spawn_time : ℕ
  pub lifespan_sec : ℕ

-- `g_market` and `g_frozen_tags`.
pub record Market : Type 0 where
  pub slots : List MarketSlot
  pub frozen : ℕ

-- A slot of zero bytes.
abbrev pub empty_slot : MarketSlot
empty_slot = record {
  doc_id = pos 0;
  tags = 0;
  base_price = pos 0;
  name = [];
  active = false;
  is_frozen = false;
  spawn_time = 0;
  lifespan_sec = 0;
}

-- The market half of `market_init`.
unfoldable pub market_init : Market
market_init = record { slots = replicate max_market_slots empty_slot; frozen = 0 }

-- The slot that `market_add` fills.
abbrev pub new_slot : ℕ → ℕ → ℤ → ℕ → ℤ → Text → ℕ → MarketSlot
new_slot now roll doc_id tags price name frozen = record {
  doc_id = doc_id;
  tags = tags;
  base_price = price;
  name = strncpy (max_name_len - 1) name;
  active = true;
  is_frozen = meets tags frozen;
  spawn_time = now;
  lifespan_sec = market_life_min_sec + roll % (market_life_max_sec - market_life_min_sec + 1);
}

-- The loop of `market_add`: the first free slot is overwritten; `none` when there is none.
unfoldable pub fill_slot : MarketSlot → List MarketSlot → Option (List MarketSlot)
fill_slot new [] = none
fill_slot new (s ∷ ss) =
    let later = fill_slot new ss in
    elim s.active [
      | false ↦ some (new ∷ ss)
      | true ↦ elim later [ none ↦ none | some ss' ↦ some (s ∷ ss') ]
    ]

-- `true` for the return value 0, `false` for -1.
unfoldable pub market_add : ℕ → ℕ → ℤ → ℕ → ℤ → Text → Market → Bool × Market
market_add now roll doc_id tags price name m =
    elim (fill_slot (new_slot now roll doc_id tags price name m.frozen) m.slots) [
      | none ↦ (false, m)
      | some ss ↦ (true, record m { slots = ss })
    ]

-- `g_market[i].active && g_market[i].doc_id == doc_id`
abbrev pub is_listed : ℤ → MarketSlot → Bool
is_listed doc_id s = s.active && eq_ℤ s.doc_id doc_id

-- The first match, or `none` for the return value -1.
unfoldable pub market_find : ℤ → Market → Option MarketSlot
market_find doc_id m = find_by (is_listed doc_id) m.slots

-- What `market_take` returns: 0 with the slot, -2, or -1.
pub data Take : Type 0 where
  taken : MarketSlot → Take
  frozen_slot : Take
  not_listed : Take

-- The loop of `market_take`.
unfoldable pub take_slot : ℤ → List MarketSlot → Take × List MarketSlot
take_slot doc_id [] = (not_listed, [])
take_slot doc_id (s ∷ ss) =
    let later = take_slot doc_id ss in
    elim (is_listed doc_id s) [
      | false ↦ (later.0, s ∷ later.1)
      | true ↦ elim s.is_frozen [
        | true ↦ (frozen_slot, s ∷ ss)
        | false ↦ (taken s, record s { active = false } ∷ ss)
      ]
    ]

unfoldable pub market_take : ℤ → Market → Take × Market
market_take doc_id m = let (r, ss) = take_slot doc_id m.slots in (r, record m { slots = ss })

abbrev pub freeze_slot : ℕ → MarketSlot → MarketSlot
freeze_slot tags s = if s.active && meets s.tags tags then record s { is_frozen = true } else s

unfoldable pub freeze_tags : ℕ → Market → Market
freeze_tags tags m = record m {
  frozen = bit_or m.frozen tags;
  slots = map (freeze_slot tags) m.slots;
}

abbrev pub unfreeze_slot : ℕ → ℕ → MarketSlot → MarketSlot
unfreeze_slot tags left s =
    if s.active && (meets s.tags tags && not (meets s.tags left))
    then record s { is_frozen = false }
    else s

unfoldable pub unfreeze_tags : ℕ → Market → Market
unfreeze_tags tags m =
    let left = bit_and m.frozen (bit_not32 tags) in
    record m { frozen = left; slots = map (unfreeze_slot tags left) m.slots }

unfoldable pub is_tag_frozen : ℕ → Market → Bool
is_tag_frozen tags m = meets tags m.frozen

all_active : List MarketSlot → Bool
all_active [] = true
all_active (s ∷ ss) = s.active && all_active ss

unfoldable pub market_is_full : Market → Bool
unfolding all_active
market_is_full m = all_active m.slots

unfoldable pub market_frozen_mask : Market → ℕ
market_frozen_mask m = m.frozen

-- The loop of `market_active_tags`, with its accumulator `mask`.
unfoldable tags_from : ℕ → List MarketSlot → ℕ
tags_from mask [] = mask
tags_from mask (s ∷ ss) = tags_from (if s.active then bit_or mask s.tags else mask) ss

unfoldable pub market_active_tags : Market → ℕ
unfolding tags_from
market_active_tags m = tags_from 0 m.slots

-- A slot that `market_despawn_aged` drops. A clock that ran backwards gives a negative age in the
-- source and 0 here; neither is above the lifespan.
abbrev pub has_aged : ℕ → MarketSlot → Bool
has_aged now s = s.active && (not s.is_frozen && ltb s.lifespan_sec (now - s.spawn_time))

-- The loop of `market_despawn_aged`: the reported identifiers, at most `room`, and the slots.
unfoldable pub despawn_slots : ℕ → ℕ → List MarketSlot → List ℤ × List MarketSlot
despawn_slots now room [] = ([], [])
despawn_slots now room (s ∷ ss) =
    let kept = despawn_slots now room ss in
    let dropped = despawn_slots now (room - 1) ss in
    elim (has_aged now s) [
      | false ↦ (kept.0, s ∷ kept.1)
      | true ↦ (
        if ltb 0 room then s.doc_id ∷ dropped.0 else dropped.0,
        record s { active = false } ∷ dropped.1,
      )
    ]

unfoldable pub market_despawn_aged : ℕ → ℕ → Market → List ℤ × Market
market_despawn_aged now max_out m =
    let (ids, ss) = despawn_slots now max_out m.slots in (ids, record m { slots = ss })

-- The loop of `market_snapshot`.
unfoldable pub snapshot_slots : ℕ → List MarketSlot → List MarketSlot
snapshot_slots room [] = []
snapshot_slots room (s ∷ ss) =
    let skip = snapshot_slots room ss in
    let keep = snapshot_slots (room - 1) ss in
    elim (s.active && ltb 0 room) [ true ↦ s ∷ keep | false ↦ skip ]

unfoldable pub market_snapshot : ℕ → Market → List MarketSlot
market_snapshot max_size m = snapshot_slots max_size m.slots
