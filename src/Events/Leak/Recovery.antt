-- ===== src/Events/Leak/Recovery.antt =====
-- A leak of src/server/events.c and its recovery.
use under_flow.Base.{
  count_by, ◌==◌, not, ℕ, ◌+◌, ◌-◌, ◌%◌, ◌^◌, ◌≤◌, ◌<◌, ◌≡◌, refl, ◌∙◌, Bool, true, false, ◌&&◌,
  Option, none, some, List, [], ◌∷◌, bit_and, bit_or, map, All, length, arith, Bool-cases,
  Option-cases, inl, inr,
}
use native.Mathlib.Decide.{dec_lt}
use under_flow.Base.Bits.{bit, bit-le, bit-bit_or, bit_not32, eq_of_bits, bit_or-lt}
use under_flow.Base.Masks.{clear-disjoint, meets-bit, meets, bit-meets, bit-clear, meets-bit_or}
use under_flow.Base.Swap.{All-get}
use under_flow.Market.{
  MarketSlot, Market, freeze_slot, unfreeze_slot, freeze_tags, unfreeze_tags, is_tag_frozen,
  market_frozen_mask, market_active_tags,
}
use under_flow.Market.Freeze.{SlotAgrees, IsCoherent}
use under_flow.Server.{Server}
use under_flow.Events.Tags.{tag_list}
use under_flow.Events.Leak.{
  news_leak, broadcast_packet, LeakRecoveryArg, leakable, leak_pick, leak_dur_min_sec,
  leak_dur_max_sec, fire_public_leak, leak_recovery,
}

-- Freezing a tag that is not frozen, and clearing it again.
mask_back :
    (f t : ℕ) → f < 2 ^ 32 → t < 2 ^ 32 → meets t f ≡ false → bit_and (bit_or f t) (bit_not32 t) ≡ f
mask_back f t hf ht apart = eq_of_bits _ _ same
  where
    clash : (i : ℕ) → bit t i ≡ 1 → bit f i ≡ 1 → ⊥
    clash i p q = cc (bit-meets t f i p q)

    outside : (i : ℕ) → bit t i + bit f i ≤ 1
    outside i = elim (dec_lt 1 (bit t i + bit f i)) [
      | yes both ↦
          absurd (
            clash i (omega (arith, bit-le t i, bit-le f i)) (omega (arith, bit-le t i, bit-le f i)))
      | no apart_at ↦ omega arith
    ]

    same : (i : ℕ) → bit (bit_and (bit_or f t) (bit_not32 t)) i ≡ bit f i
    same i = omega (
      arith,
      bit-clear (bit_or f t) t i (bit_or-lt f t hf ht) ht,
      bit-bit_or f t i,
      bit-le f i,
      bit-le t i,
      outside i,
    )

slot_back : (f t : ℕ) (s : MarketSlot) → SlotAgrees f s → unfreeze_slot t f (freeze_slot t s) ≡ s
slot_back f t s agree = ground (arith, agree)

slots_back :
    (f t : ℕ) (ss : List MarketSlot)
    → All (SlotAgrees f) ss
    → map (unfreeze_slot t f) (map (freeze_slot t) ss) ≡ ss
slots_back f t [] h = refl
slots_back f t (s ∷ ss) h = rw (slot_back f t s h.0, slots_back f t ss h.1)

freeze_back :
    (t : ℕ) (m : Market)
    → t < 2 ^ 32
    → is_tag_frozen t m ≡ false
    → IsCoherent m
    → unfreeze_tags t (freeze_tags t m) ≡ m
unfolding is_tag_frozen freeze_tags unfreeze_tags
freeze_back t m ht apart c =
    rw (mask_back m.frozen t c.word ht apart, slots_back m.frozen t m.slots c.agree)

-- A tag of the table that may leak.
abbrev MayLeak : ℕ → ℕ → Type 0
MayLeak frozen t = (meets t frozen ≡ false) × (t < 2 ^ 32) × (meets t t ≡ true)

leakable-MayLeak :
    (present frozen : ℕ) (ts : List ℕ)
    → All (λ t. (t < 2 ^ 32) × (meets t t ≡ true)) ts
    → All (MayLeak frozen) (leakable present frozen ts)
unfolding leakable
leakable-MayLeak present frozen [] h = tt
leakable-MayLeak present frozen (t ∷ ts) h = ground (arith, leakable-MayLeak present frozen ts h.1)

tag_list-words : All (λ t. (t < 2 ^ 32) × (meets t t ≡ true)) tag_list
unfolding meets
tag_list-words = ground arith

pub pick-MayLeak : (roll t : ℕ) (s : Server) → leak_pick roll s ≡ some t → MayLeak s.market.frozen t
unfolding leak_pick market_frozen_mask
pick-MayLeak roll t s e =
    let avail = leakable (market_active_tags s.market) s.market.frozen tag_list in
    All-get (MayLeak s.market.frozen) avail (roll % length avail) t e
      (leakable-MayLeak (market_active_tags s.market) s.market.frozen tag_list tag_list-words)

freeze_tags-frozen :
    (t : ℕ) (m : Market) → meets t t ≡ true → is_tag_frozen t (freeze_tags t m) ≡ true
unfolding is_tag_frozen freeze_tags
freeze_tags-frozen t m h = meets-bit_or t m.frozen t ∙ ground (arith, h)

-- The three ways in which a leak goes.
module _ (pick_roll dur_roll : ℕ) (allocated spawned : Bool) (s : Server) where
  pub leak_idle :
      leak_pick pick_roll s ≡ none
      → fire_public_leak pick_roll dur_roll allocated spawned s ≡ (none, s)
  unfolding fire_public_leak
  leak_idle e = ground (arith, e)

  abbrev told : ℕ → Server
  told t =
      broadcast_packet
        (news_leak t (leak_dur_min_sec + dur_roll % (leak_dur_max_sec - leak_dur_min_sec + 1)))
        (record s { market = freeze_tags t s.market })

  abbrev arg_of : ℕ → LeakRecoveryArg
  arg_of t = record {
    mask = t;
    duration_sec = leak_dur_min_sec + dur_roll % (leak_dur_max_sec - leak_dur_min_sec + 1);
  }

  pub leak_runs :
      (t : ℕ)
      → leak_pick pick_roll s ≡ some t
      → allocated && spawned ≡ true
      → fire_public_leak pick_roll dur_roll allocated spawned s ≡ (some (arg_of t), told t)
  unfolding fire_public_leak
  leak_runs t e ok = ground (arith, e, ok)

  pub leak_undone :
      (t : ℕ)
      → leak_pick pick_roll s ≡ some t
      → allocated && spawned ≡ false
      → fire_public_leak pick_roll dur_roll allocated spawned s
        ≡ (none, record (told t) { market = unfreeze_tags t (freeze_tags t s.market) })
  unfolding fire_public_leak
  leak_undone t e bad = ground (arith, e, bad)

-- What a recovery does in a state: its tag is frozen no more, and every
-- other tag is frozen as it was.
abbrev pub Recovers : Server → LeakRecoveryArg → Type 0
Recovers t arg =
    (is_tag_frozen arg.mask (leak_recovery arg t).market ≡ false)
    × ((tag : ℕ)
        → meets tag arg.mask ≡ false
        → is_tag_frozen tag (leak_recovery arg t).market ≡ is_tag_frozen tag t.market)

-- What a leak leaves: without a recovery thread the market as it was; with one, one tag of the table newly
-- frozen and no other, a time in its bounds, and the two ways in which the thread may find the market.
abbrev pub LeakOutcome : Server → Server → Server → Option LeakRecoveryArg → Type 0
LeakOutcome later s s' none = s'.market ≡ s.market
LeakOutcome later s s' (some arg) =
    (count_by (λ t. t == arg.mask) tag_list ≡ 1)
    × (is_tag_frozen arg.mask s.market ≡ false)
    × (s'.market.frozen ≡ bit_or s.market.frozen arg.mask)
    × (is_tag_frozen arg.mask s'.market ≡ true)
    × (180 ≤ arg.duration_sec)
    × (arg.duration_sec ≤ 300)
    × ((leak_recovery arg s').market ≡ s.market)
    × Recovers later arg

leakable-in :
    (present frozen x : ℕ) (ts : List ℕ)
    → All (λ t. count_by (λ u. u == t) tag_list ≡ 1) ts
    → All (λ t. count_by (λ u. u == t) tag_list ≡ 1) (leakable present frozen ts)
unfolding leakable
leakable-in present frozen x [] h = tt
leakable-in present frozen x (t ∷ ts) h =
    elim (Bool-cases (meets t present && not (meets t frozen))) [
      | inl q ↦ rw q (h.0, leakable-in present frozen x ts h.1)
      | inr q ↦ rw q (leakable-in present frozen x ts h.1)
    ]

pick-in :
    (roll t : ℕ) (s : Server) → leak_pick roll s ≡ some t → count_by (λ u. u == t) tag_list ≡ 1
unfolding leak_pick market_frozen_mask
pick-in roll t s e =
    let avail = leakable (market_active_tags s.market) s.market.frozen tag_list in
    All-get (λ x. count_by (λ u. u == x) tag_list ≡ 1) avail (roll % length avail) t e
      (leakable-in (market_active_tags s.market) s.market.frozen t tag_list (ground arith))

cleared : (f m : ℕ) → f < 2 ^ 32 → m < 2 ^ 32 → meets m (bit_and f (bit_not32 m)) ≡ false
cleared f m hf hm = elim (Bool-cases (meets m (bit_and f (bit_not32 m)))) [
  | inr q ↦ q
  | inl q ↦
      let (i, p, r) = meets-bit m (bit_and f (bit_not32 m)) q in
      absurd (omega (arith, bit-clear f m i hf hm))
]

recovers :
    (arg : LeakRecoveryArg) (t : Server)
    → arg.mask < 2 ^ 32
    → t.market.frozen < 2 ^ 32
    → Recovers t arg
unfolding leak_recovery unfreeze_tags is_tag_frozen
recovers arg t small word = (
  cleared t.market.frozen arg.mask word small,
  λ tag apart. clear-disjoint tag t.market.frozen arg.mask word small apart,
)

-- A leak that starts freezes exactly one tag of the table, which was not frozen, for 180 to 300 seconds. Its
-- recovery, run at once, brings the market back as it was; run later, in any state `later` whose mask is
-- a word of 32 bits, it clears that tag and no other. A leak that does not start, for lack of a tag, of memory
-- or of a thread, leaves the market as it was, with no other thread between its freeze and that. The market
-- is coherent.
pub leak_lem :
    (pick_roll dur_roll : ℕ) (allocated spawned : Bool) (s later : Server)
    → IsCoherent s.market
    → later.market.frozen < 2 ^ 32
    → let (started, s') = fire_public_leak pick_roll dur_roll allocated spawned s in
      LeakOutcome later s s' started
unfolding leak_recovery
leak_lem pick_roll dur_roll allocated spawned s later c word =
    elim (Option-cases (leak_pick pick_roll s)) [
      | inl none_left ↦ rw (leak_idle pick_roll dur_roll allocated spawned s none_left) refl
      | inr (t, e) ↦
          let may = pick-MayLeak pick_roll t s e in
          let apart : is_tag_frozen t s.market ≡ false = unfold is_tag_frozen in may.0 in
          let back = freeze_back t s.market may.1 apart c in
          elim (Bool-cases (allocated && spawned)) [
            | inl ok ↦ rw (leak_runs pick_roll dur_roll allocated spawned s t e ok) (
              pick-in pick_roll t s e,
              apart,
              unfold freeze_tags in refl,
              freeze_tags-frozen t s.market may.2,
              omega arith,
              omega arith,
              back,
              recovers (arg_of pick_roll dur_roll allocated spawned s t) later may.1 word,
            )
            | inr bad ↦ rw (leak_undone pick_roll dur_roll allocated spawned s t e bad) back
          ]
    ]
