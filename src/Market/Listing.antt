-- ===== src/Market/Listing.antt =====
-- The board of src/server/market.c as a listing: which documents are on offer, and what adding and
-- taking do to that.
use under_flow.Base.{
  ◌∙◌, ◌≤◌, subst, ℕ, ◌+◌, ◌≡◌, refl, Bool, true, false, Option, none, some, List, [], ◌∷◌,
  if◌then◌else◌, arith, inl, inr, ◌≢◌, find_by, count_by, Bool-cases, Option-cases, ap, ◌↔◌,
}
use under_flow.Base.Int.{ℤ, eq_ℤ, eq_ℤ_iff}
use under_flow.Base.Text.{Text}
use under_flow.Market.{
  MarketSlot, Market, Take, taken, frozen_slot, not_listed, market_add, fill_slot, new_slot,
  market_take, take_slot, market_find, is_listed, market_is_full, all_active,
}

-- How many active slots carry an identifier.
abbrev pub listed : ℤ → List MarketSlot → ℕ
listed d ss = count_by (is_listed d) ss

-- No identifier stands in two active slots.
abbrev pub Distinct : Market → Type 0
Distinct m = (d : ℤ) → listed d m.slots ≤ 1

take_slot-listed :
    (d : ℤ) (ss : List MarketSlot) (s : MarketSlot)
    → (take_slot d ss).0 ≡ taken s
    → (listed d (take_slot d ss).1 + 1 ≡ listed d ss)
      × (find_by (is_listed d) ss ≡ some s)
      × (s.is_frozen ≡ false)
unfolding take_slot
take_slot-listed d [] s e = cc
take_slot-listed d (x ∷ ss) s e = ground (arith, take_slot-listed d ss s)

take_slot-others :
    (d d' : ℤ) (ss : List MarketSlot)
    → d ≢ d'
    → (find_by (is_listed d') (take_slot d ss).1 ≡ find_by (is_listed d') ss)
      × (listed d' (take_slot d ss).1 ≡ listed d' ss)
unfolding take_slot
take_slot-others d d' [] ne = (refl, refl)
take_slot-others d d' (x ∷ ss) ne =
    ground (arith, take_slot-others d d' ss ne, eq_ℤ_iff x.doc_id d, eq_ℤ_iff x.doc_id d')

pub find-none : (d : ℤ) (ss : List MarketSlot) → listed d ss ≡ 0 → find_by (is_listed d) ss ≡ none
find-none d [] h = refl
find-none d (x ∷ ss) h = ground (arith, find-none d ss)

-- What `market_take` answers, from what `market_find` sees.
abbrev verdict : Option MarketSlot → Take
verdict none = not_listed
verdict (some s) = if s.is_frozen then frozen_slot else taken s

take_slot-verdict :
    (d : ℤ) (ss : List MarketSlot) → (take_slot d ss).0 ≡ verdict (find_by (is_listed d) ss)
unfolding take_slot
take_slot-verdict d [] = refl
take_slot-verdict d (x ∷ ss) = ground (arith, take_slot-verdict d ss)

abbrev pub is_taken : Take → Bool
is_taken (taken s) = true
is_taken frozen_slot = false
is_taken not_listed = false

take_slot-refused :
    (d : ℤ) (ss : List MarketSlot) → is_taken (take_slot d ss).0 ≡ false → (take_slot d ss).1 ≡ ss
unfolding take_slot
take_slot-refused d [] h = refl
take_slot-refused d (x ∷ ss) h = ground (arith, take_slot-refused d ss)

-- `market_take` answers by the slot that `market_find` sees: -1 where there is none, -2 where it is
-- frozen, and otherwise the slot itself; where it does not answer with a slot, the market is as it was.
pub take-verdict :
    (d : ℤ) (m : Market)
    → ((market_take d m).0 ≡ verdict (market_find d m))
      × (is_taken (market_take d m).0 ≡ false → (market_take d m).1 ≡ m)
unfolding market_take market_find
take-verdict d m = (
  take_slot-verdict d m.slots,
  λ h. ap (λ ss. record m { slots = ss }) (take_slot-refused d m.slots h),
)

-- With no identifier in two active slots, a document that was taken is gone: whoever asks for it
-- next is told that it is not listed, and `market_find` answers the same for every other document.
pub take_exclusive :
    (d d' : ℤ) (m : Market) (s : MarketSlot)
    → Distinct m
    → (market_take d m).0 ≡ taken s
    → let m' = (market_take d m).1 in
      ((market_take d m').0 ≡ not_listed)
      × (market_find d' m' ≡ (if eq_ℤ d d' then none else market_find d' m))
unfolding market_take market_find
take_exclusive d d' m s distinct e =
    let once = take_slot-listed d m.slots s e in
    let gone : find_by (is_listed d) (take_slot d m.slots).1 ≡ none =
      find-none d (take_slot d m.slots).1 (omega (arith, distinct d, once.0)) in
    (
      take_slot-verdict d (take_slot d m.slots).1 ∙ ap verdict gone,
      elim (Bool-cases (eq_ℤ d d')) [
        | inl same ↦ rw same (
            subst (λ k. find_by (is_listed k) (take_slot d m.slots).1 ≡ none)
              ((eq_ℤ_iff d d').0 same) gone)
        | inr other ↦ rw other (take_slot-others d d' m.slots (λ q. cc ((eq_ℤ_iff d d').1 q))).0
      ],
    )

pub fill_slot-listed :
    (d : ℤ) (new : MarketSlot) (ss ss' : List MarketSlot)
    → fill_slot new ss ≡ some ss'
    → listed d ss' ≡ listed d ss + listed d (new ∷ [])
unfolding fill_slot
fill_slot-listed d new [] ss' e = cc
fill_slot-listed d new (x ∷ ss) ss' e = elim (Option-cases (fill_slot new ss)) [
  | inl q ↦ ground (arith, q)
  | inr (rest, q) ↦ ground (arith, q, fill_slot-listed d new ss rest q)
]

fill_slot-other :
    (d : ℤ) (new : MarketSlot) (ss ss' : List MarketSlot)
    → is_listed d new ≡ false
    → fill_slot new ss ≡ some ss'
    → find_by (is_listed d) ss' ≡ find_by (is_listed d) ss
unfolding fill_slot
fill_slot-other d new [] ss' off e = cc
fill_slot-other d new (x ∷ ss) ss' off e = elim (Option-cases (fill_slot new ss)) [
  | inl q ↦ ground (arith, q)
  | inr (rest, q) ↦ ground (arith, q, fill_slot-other d new ss rest off q)
]

fill_slot-new :
    (d : ℤ) (new : MarketSlot) (ss ss' : List MarketSlot)
    → is_listed d new ≡ true
    → listed d ss ≡ 0
    → fill_slot new ss ≡ some ss'
    → find_by (is_listed d) ss' ≡ some new
unfolding fill_slot
fill_slot-new d new [] ss' on z e = cc
fill_slot-new d new (x ∷ ss) ss' on z e = elim (Option-cases (fill_slot new ss)) [
  | inl q ↦ ground (arith, q)
  | inr (rest, q) ↦ ground (arith, q, fill_slot-new d new ss rest on (ground arith) q)
]

fill_slot-full :
    (new : MarketSlot) (ss : List MarketSlot) → (fill_slot new ss ≡ none) ↔ (all_active ss ≡ true)
unfolding fill_slot all_active
fill_slot-full new [] = (λ _. refl, λ _. refl)
fill_slot-full new (x ∷ ss) =
    let ih = fill_slot-full new ss in
    elim (Option-cases (fill_slot new ss)) [
      | inl q ↦ let r = ih.0 q in ground (arith, q, r)
      | inr (rest, q) ↦ (λ h. ground (arith, q), λ h. ground (arith, q, ih.1))
    ]

-- `market_add` fails exactly on a full board, and then changes nothing. When it succeeds with an
-- identifier that no active slot has, `market_find` finds the new slot under it, and answers the same
-- as before for every other identifier.
pub add_lem :
    (now roll : ℕ) (d : ℤ) (tags : ℕ) (price : ℤ) (name : Text) (d' : ℤ) (m : Market)
    → let r = market_add now roll d tags price name m in
      ((r.0 ≡ false) ↔ (market_is_full m ≡ true))
      × (r.0 ≡ false → r.1 ≡ m)
      × (r.0 ≡ true
          → listed d m.slots ≡ 0
          → market_find d' r.1 ≡ (
              if eq_ℤ d d'
              then some (new_slot now roll d tags price name m.frozen)
              else market_find d' m))
unfolding market_add market_find market_is_full
add_lem now roll d tags price name d' m = elim (Option-cases (fill_slot new m.slots)) [
  | inl q ↦
      rw (q, market_add) ((λ _. (fill_slot-full new m.slots).0 q, λ _. refl), λ _. refl, λ e. cc)
  | inr (ss', q) ↦
      rw (q, market_add)
        (
          (λ e. cc, λ f. ground (arith, q, (fill_slot-full new m.slots).1 f)),
          λ e. cc,
          λ _ z. found ss' q z,
        )
]
  where
    new : MarketSlot
    new = new_slot now roll d tags price name m.frozen

    found :
        (ss' : List MarketSlot)
        → fill_slot new m.slots ≡ some ss'
        → listed d m.slots ≡ 0
        → find_by (is_listed d') ss'
          ≡ (if eq_ℤ d d' then some new else find_by (is_listed d') m.slots)
    found ss' q z = elim (Bool-cases (eq_ℤ d d')) [
      | inl same ↦ rw same (
          fill_slot-new d' new m.slots ss' same
            (subst (λ k. listed k m.slots ≡ 0) ((eq_ℤ_iff d d').0 same) z) q)
      | inr other ↦ rw other (fill_slot-other d' new m.slots ss' other q)
    ]
