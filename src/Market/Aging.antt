-- ===== src/Market/Aging.antt =====
-- Expiry and snapshots of src/server/market.c: what `market_despawn_aged` drops and reports, and what
-- `market_snapshot` copies.
use under_flow.Base.{
  take_all, ◌∙◌, ℕ, zero, suc, ◌≤◌, ◌≡◌, refl, false, List, [], ◌∷◌, length, take, filter_by,
  if◌then◌else◌, arith, map, All,
}
use under_flow.Base.Int.{ℤ}
use under_flow.Market.{
  MarketSlot, Market, has_aged, market_despawn_aged, despawn_slots, market_snapshot, snapshot_slots,
}

-- What expiry makes of a slot.
abbrev pub expire : ℕ → MarketSlot → MarketSlot
expire now s = if has_aged now s then record s { active = false } else s

abbrev pub ids : List MarketSlot → List ℤ
ids = map (λ s. s.doc_id)

despawn_slots_lem :
    (now room : ℕ) (ss : List MarketSlot)
    → ((despawn_slots now room ss).1 ≡ map (expire now) ss)
      × ((despawn_slots now room ss).0 ≡ take room (ids (filter_by (has_aged now) ss)))
unfolding despawn_slots
despawn_slots_lem now zero [] = (refl, refl)
despawn_slots_lem now (suc room) [] = (refl, refl)
despawn_slots_lem now zero (s ∷ ss) = ground (arith, despawn_slots_lem now zero ss)
despawn_slots_lem now (suc room) (s ∷ ss) =
    ground (arith, despawn_slots_lem now (suc room) ss, despawn_slots_lem now room ss)

not_aged : (now : ℕ) (s : MarketSlot) → has_aged now (expire now s) ≡ false
not_aged now s = ground arith

All-not_aged :
    (now : ℕ) (ss : List MarketSlot) → All (λ s. has_aged now s ≡ false) (map (expire now) ss)
All-not_aged now [] = tt
All-not_aged now (s ∷ ss) = (not_aged now s, All-not_aged now ss)

length-ids-filter_by :
    (now : ℕ) (ss : List MarketSlot) → length (ids (filter_by (has_aged now) ss)) ≤ length ss
length-ids-filter_by now [] = omega arith
length-ids-filter_by now (s ∷ ss) = ground (arith, length-ids-filter_by now ss)

-- `market_despawn_aged` deactivates exactly the active, unfrozen slots past their lifespan and leaves
-- every other slot and the mask as they are, so no such slot is left; with room for as many
-- identifiers as there are slots, it reports the identifier of each slot that it dropped, in order.
pub despawn_lem :
    (now max_out : ℕ) (m : Market)
    → let r = market_despawn_aged now max_out m in
      (r.1 ≡ record m { slots = map (expire now) m.slots })
      × All (λ s. has_aged now s ≡ false) r.1.slots
      × (length m.slots ≤ max_out → r.0 ≡ ids (filter_by (has_aged now) m.slots))
unfolding market_despawn_aged
despawn_lem now max_out m =
    let (e, f) = despawn_slots_lem now max_out m.slots in
    (
      rw e,
      rw e (All-not_aged now m.slots),
      λ h.
          f
          ∙ take_all max_out (ids (filter_by (has_aged now) m.slots))
              (omega (arith, h, length-ids-filter_by now m.slots)),
    )

snapshot_slots_lem :
    (room : ℕ) (ss : List MarketSlot)
    → snapshot_slots room ss ≡ take room (filter_by (λ s. s.active) ss)
unfolding snapshot_slots
snapshot_slots_lem zero [] = refl
snapshot_slots_lem (suc room) [] = refl
snapshot_slots_lem zero (s ∷ ss) = ground (arith, snapshot_slots_lem zero ss)
snapshot_slots_lem (suc room) (s ∷ ss) =
    ground (arith, snapshot_slots_lem (suc room) ss, snapshot_slots_lem room ss)

-- `market_snapshot` copies the active slots in slot order, the first `max_size` of them.
pub snapshot_lem :
    (max_size : ℕ) (m : Market)
    → market_snapshot max_size m ≡ take max_size (filter_by (λ s. s.active) m.slots)
unfolding market_snapshot
snapshot_lem max_size m = snapshot_slots_lem max_size m.slots
