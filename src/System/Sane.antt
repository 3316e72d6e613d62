-- ===== src/System/Sane.antt =====
-- What holds of the boards and of the goal at any time, and that each call of src/server/market.c keeps it.
use under_flow.Base.{
  length-map, ℕ, ◌-◌, ◌^◌, ◌<◌, ◌≡◌, refl, sym, subst, ◌∙◌, List, [], ◌∷◌, OnSome, All, length,
  arith, inl, inr, Option-cases,
}
use under_flow.Base.Int.{ℤ, pos, ◌≤ℤ◌}
use under_flow.Base.Text.{Text}
use under_flow.Market.{
  MarketSlot, Market, market_init, market_add, fill_slot, new_slot, market_take, take_slot, taken,
  freeze_tags, unfreeze_tags, market_despawn_aged, despawn_slots,
}
use under_flow.Market.Calls.{add, take, freeze, unfreeze, despawn, step}
use under_flow.Market.Freeze.{IsCoherent, SlotAgrees, market_init-IsCoherent, step-IsCoherent}
use under_flow.Npc
use under_flow.Npc.{Board, npc_init, npc_add, npc_take, npc_despawn_aged}
use under_flow.Server.{Server}
use under_flow.System.Handlers.{View, view}

-- The flags agree with the mask, and the array has its 32 slots.
abbrev pub IsBoard : Market → Type 0
IsBoard m = IsCoherent m × (length m.slots ≡ 32)

pub record SaneView (v : View) : Type 0 where
  pub board : IsBoard v.market
  pub offers : length v.npcs ≡ 16
  pub floor : pos 10000 ≤ℤ v.goal
  pub cap : v.goal ≤ℤ pos 14000

pub record IsSane (s : Server) : Type 0 where
  pub sane : SaneView (view s)

pub unmoved : {s t : Server} → view t ≡ view s → IsSane s → IsSane t
unmoved e h = record { sane = subst SaneView (sym e) h.sane }

length-fill_slot :
    (new : MarketSlot) (ss : List MarketSlot)
    → OnSome (λ ss'. length ss' ≡ length ss) (fill_slot new ss)
unfolding fill_slot
length-fill_slot new [] = tt
length-fill_slot new (s ∷ ss) = elim (Option-cases (fill_slot new ss)) [
  | inl e ↦ ground (arith, e)
  | inr (ss', e) ↦
      let ih : length ss' ≡ length ss = rw e at (length-fill_slot new ss) in ground (arith, e, ih)
]

length-market_add :
    (now roll : ℕ) (doc_id : ℤ) (tags : ℕ) (price : ℤ) (name : Text) (m : Market)
    → length (market_add now roll doc_id tags price name m).1.slots ≡ length m.slots
unfolding market_add
length-market_add now roll doc_id tags price name m =
    let new = new_slot now roll doc_id tags price name m.frozen in
    let kept = length-fill_slot new m.slots in
    elim (Option-cases (fill_slot new m.slots)) [
      | inl e ↦ rw (e, market_add) refl
      | inr (ss', e) ↦ rw (e, market_add) (rw e at kept)
    ]

length-take_slot : (doc_id : ℤ) (ss : List MarketSlot) → length (take_slot doc_id ss).1 ≡ length ss
unfolding take_slot
length-take_slot doc_id [] = refl
length-take_slot doc_id (s ∷ ss) = ground (arith, length-take_slot doc_id ss)

length-despawn_slots :
    (now room : ℕ) (ss : List MarketSlot) → length (despawn_slots now room ss).1 ≡ length ss
unfolding despawn_slots
length-despawn_slots now room [] = refl
length-despawn_slots now room (s ∷ ss) =
    ground (arith, length-despawn_slots now room ss, length-despawn_slots now (room - 1) ss)

pub init-IsBoard : IsBoard market_init
unfolding market_init
init-IsBoard = (market_init-IsCoherent, refl)

pub add-IsBoard :
    (now roll : ℕ) (doc_id : ℤ) (tags : ℕ) (price : ℤ) (name : Text) (m : Market)
    → tags < 2 ^ 32
    → IsBoard m
    → IsBoard (market_add now roll doc_id tags price name m).1
unfolding step
add-IsBoard now roll doc_id tags price name m w v = (
  step-IsCoherent (add now roll doc_id tags price name) m w v.0,
  length-market_add now roll doc_id tags price name m ∙ v.1,
)

pub take-IsBoard : (doc_id : ℤ) (m : Market) → IsBoard m → IsBoard (market_take doc_id m).1
unfolding step market_take
take-IsBoard doc_id m v =
    (step-IsCoherent (take doc_id) m tt v.0, length-take_slot doc_id m.slots ∙ v.1)

pub freeze-IsBoard :
    (tags : ℕ) (m : Market) → tags < 2 ^ 32 → IsBoard m → IsBoard (freeze_tags tags m)
unfolding step freeze_tags
freeze-IsBoard tags m w v = (step-IsCoherent (freeze tags) m w v.0, length-map _ m.slots ∙ v.1)

pub unfreeze-IsBoard :
    (tags : ℕ) (m : Market) → tags < 2 ^ 32 → IsBoard m → IsBoard (unfreeze_tags tags m)
unfolding step unfreeze_tags
unfreeze-IsBoard tags m w v = (step-IsCoherent (unfreeze tags) m w v.0, length-map _ m.slots ∙ v.1)

pub despawn-IsBoard :
    (now max_out : ℕ) (m : Market) → IsBoard m → IsBoard (market_despawn_aged now max_out m).1
unfolding step market_despawn_aged
despawn-IsBoard now max_out m v =
    (step-IsCoherent (despawn now max_out) m tt v.0, length-despawn_slots now max_out m.slots ∙ v.1)

-- A slot that is handed out carries a word of 32 bits.
take_slot-word :
    (f : ℕ) (doc_id : ℤ) (slot : MarketSlot) (ss : List MarketSlot)
    → All (SlotAgrees f) ss
    → (take_slot doc_id ss).0 ≡ taken slot
    → slot.tags < 2 ^ 32
unfolding take_slot
take_slot-word f doc_id slot [] h e = absurd (ground arith)
take_slot-word f doc_id slot (s ∷ ss) h e = ground (arith, take_slot-word f doc_id slot ss h.1)

pub take-word :
    (doc_id : ℤ) (slot : MarketSlot) (m : Market)
    → IsBoard m
    → (market_take doc_id m).0 ≡ taken slot
    → slot.tags < 2 ^ 32
unfolding market_take
take-word doc_id slot m v e = take_slot-word m.frozen doc_id slot m.slots v.0.agree e

length-npc_fill :
    (new : Npc.NpcSlot) (b : Board) → OnSome (λ b'. length b' ≡ length b) (Npc.fill_slot new b)
unfolding Npc.fill_slot
length-npc_fill new [] = tt
length-npc_fill new (s ∷ b) = elim (Option-cases (Npc.fill_slot new b)) [
  | inl e ↦ ground (arith, e)
  | inr (b', e) ↦
      let ih : length b' ≡ length b = rw e at (length-npc_fill new b) in ground (arith, e, ih)
]

pub length-npc_add :
    (now : ℕ) (npc_id : ℤ) (tags : ℕ) (bounty : ℤ) (b : Board)
    → length (npc_add now npc_id tags bounty b).1 ≡ length b
unfolding npc_add
length-npc_add now npc_id tags bounty b =
    let new = Npc.new_slot now npc_id tags bounty in
    let kept = length-npc_fill new b in
    elim (Option-cases (Npc.fill_slot new b)) [
      | inl e ↦ rw (e, npc_add) refl
      | inr (b', e) ↦ rw (e, npc_add) (rw e at kept)
    ]

pub length-npc_take : (npc_id : ℤ) (b : Board) → length (npc_take npc_id b).1 ≡ length b
unfolding npc_take
length-npc_take npc_id [] = refl
length-npc_take npc_id (s ∷ b) = ground (arith, length-npc_take npc_id b)

pub length-npc_aged :
    (base step_sec now room : ℕ) (b : Board)
    → length (npc_despawn_aged base step_sec now room b).1 ≡ length b
unfolding npc_despawn_aged
length-npc_aged base step_sec now room [] = refl
length-npc_aged base step_sec now room (s ∷ b) = ground (
  arith,
  length-npc_aged base step_sec now room b,
  length-npc_aged base step_sec now (room - 1) b,
)
