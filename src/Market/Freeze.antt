-- ===== src/Market/Freeze.antt =====
-- The frozen flag of each slot against the mask of frozen tags, under every operation of
-- src/server/market.c.
use under_flow.Base.{
  OnSome, All-map, All-replicate, ℕ, ◌-◌, ◌^◌, ◌<◌, ◌≡◌, refl, true, List, [], ◌∷◌, bit_and, bit_or,
  All, arith, inl, inr, Option-cases,
}
use under_flow.Base.Int.{ℤ}
use under_flow.Base.Text.{Text}
use under_flow.Base.Bits.{bit_not32, bit_and-le, bit_or-lt}
use under_flow.Base.Masks.{meets, meets-bit_or, meets-clear, clear-disjoint}
use under_flow.Market.{
  MarketSlot, Market, market_init, market_add, fill_slot, new_slot, empty_slot, market_take,
  take_slot, freeze_tags, freeze_slot, unfreeze_slot, unfreeze_tags, market_despawn_aged,
  despawn_slots,
}
use under_flow.Market.Calls.{Call, init, add, take, freeze, unfreeze, despawn, step, run, HasWords}

-- A listed slot is marked frozen exactly when one of its tags is frozen.
abbrev pub SlotAgrees : ℕ → MarketSlot → Type 0
SlotAgrees frozen s = s.active ≡ true → (s.tags < 2 ^ 32) × (s.is_frozen ≡ meets s.tags frozen)

pub record IsCoherent (m : Market) : Type 0 where
  pub word : m.frozen < 2 ^ 32
  pub agree : All (SlotAgrees m.frozen) m.slots

pub market_init-IsCoherent : IsCoherent market_init
unfolding market_init
market_init-IsCoherent = record {
  word = omega arith;
  agree = All-replicate (SlotAgrees 0) 32 empty_slot (λ h. cc);
}

fill_slot-agree :
    (f : ℕ) (new : MarketSlot) (ss : List MarketSlot)
    → SlotAgrees f new
    → All (SlotAgrees f) ss
    → OnSome (All (SlotAgrees f)) (fill_slot new ss)
unfolding fill_slot
fill_slot-agree f new [] fresh h = tt
fill_slot-agree f new (s ∷ ss) fresh h =
    let ih = fill_slot-agree f new ss fresh h.1 in
    elim (Option-cases (fill_slot new ss)) [
      | inl e ↦ ground (arith, e)
      | inr (ss', e) ↦ let ih' : All (SlotAgrees f) ss' = rw e at ih in ground (arith, e, ih')
    ]

market_add-IsCoherent :
    (now roll : ℕ) (doc_id : ℤ) (tags : ℕ) (price : ℤ) (name : Text) (m : Market)
    → tags < 2 ^ 32
    → IsCoherent m
    → IsCoherent (market_add now roll doc_id tags price name m).1
unfolding market_add
market_add-IsCoherent now roll doc_id tags price name m h v =
    let new = new_slot now roll doc_id tags price name m.frozen in
    let kept = fill_slot-agree m.frozen new m.slots (λ _. (h, refl)) v.agree in
    elim (Option-cases (fill_slot new m.slots)) [
      | inl e ↦ rw (e, market_add) v
      | inr (ss', e) ↦ rw (e, market_add) (record { word = v.word; agree = rw e at kept })
    ]

take_slot-agree :
    (f : ℕ) (doc_id : ℤ) (ss : List MarketSlot)
    → All (SlotAgrees f) ss
    → All (SlotAgrees f) (take_slot doc_id ss).1
unfolding take_slot
take_slot-agree f doc_id [] h = tt
take_slot-agree f doc_id (s ∷ ss) h = ground (arith, take_slot-agree f doc_id ss)

despawn_slots-agree :
    (f now room : ℕ) (ss : List MarketSlot)
    → All (SlotAgrees f) ss
    → All (SlotAgrees f) (despawn_slots now room ss).1
unfolding despawn_slots
despawn_slots-agree f now room [] h = tt
despawn_slots-agree f now room (s ∷ ss) h =
    ground (arith, despawn_slots-agree f now room ss, despawn_slots-agree f now (room - 1) ss)

freeze_slot-agree :
    (f tags : ℕ) (s : MarketSlot) → SlotAgrees f s → SlotAgrees (bit_or f tags) (freeze_slot tags s)
freeze_slot-agree f tags s h = ground (arith, meets-bit_or s.tags f tags)

unfreeze_slot-agree :
    (f tags : ℕ) (s : MarketSlot)
    → f < 2 ^ 32
    → tags < 2 ^ 32
    → SlotAgrees f s
    → SlotAgrees (bit_and f (bit_not32 tags)) (unfreeze_slot tags (bit_and f (bit_not32 tags)) s)
unfreeze_slot-agree f tags s hf ht h =
    ground (arith, meets-clear s.tags f tags hf ht, clear-disjoint s.tags f tags hf ht)

-- Every call keeps the flags in agreement with the mask.
pub step-IsCoherent : (c : Call) (m : Market) → HasWords c → IsCoherent m → IsCoherent (step c m)
unfolding step market_add market_take freeze_tags unfreeze_tags market_despawn_aged
step-IsCoherent init m w v = market_init-IsCoherent
step-IsCoherent (add now roll doc_id tags price name) m w v =
    market_add-IsCoherent now roll doc_id tags price name m w v
step-IsCoherent (take doc_id) m w v = record {
  word = v.word;
  agree = take_slot-agree m.frozen doc_id m.slots v.agree;
}
step-IsCoherent (freeze tags) m w v = record {
  word = bit_or-lt m.frozen tags v.word w;
  agree = All-map _ _ (freeze_slot tags) (freeze_slot-agree m.frozen tags) m.slots v.agree;
}
step-IsCoherent (unfreeze tags) m w v = record {
  word = omega (arith, v.word, bit_and-le m.frozen (bit_not32 tags));
  agree =
      All-map _ _ (unfreeze_slot tags (bit_and m.frozen (bit_not32 tags)))
        (λ s h. unfreeze_slot-agree m.frozen tags s v.word w h) m.slots v.agree;
}
step-IsCoherent (despawn now max_out) m w v = record {
  word = v.word;
  agree = despawn_slots-agree m.frozen now max_out m.slots v.agree;
}

run_from-IsCoherent :
    (cs : List Call) (m : Market) → All HasWords cs → IsCoherent m → IsCoherent (run cs m)
unfolding run
run_from-IsCoherent [] m w v = v
run_from-IsCoherent (c ∷ cs) m w v =
    run_from-IsCoherent cs (step c m) w.1 (step-IsCoherent c m w.0 v)

-- After any interleaving of the calls of market.c whose masks are words of 32 bits, from the empty
-- market, each active slot is marked frozen exactly when its tags meet the mask of frozen tags.
run-IsCoherent : (cs : List Call) → All HasWords cs → IsCoherent (run cs market_init)
run-IsCoherent cs w = run_from-IsCoherent cs market_init w market_init-IsCoherent
