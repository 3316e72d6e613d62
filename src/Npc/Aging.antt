-- ===== src/Npc/Aging.antt =====
-- Expiry on the NPC board of src/server/market.c: how long an offer stays, and what expiry drops.
use under_flow.Base.{
  ℕ, zero, suc, ◌+◌, ◌/◌, ◌%◌, ◌^◌, ◌≤◌, ◌<◌, ◌≡◌, refl, false, List, [], ◌∷◌, length, take,
  filter_by, if◌then◌else◌, arith, inl, inr, map, All, take_all, ◌∙◌, Bool-cases, ◌==◌,
}
use under_flow.Base.Int.{ℤ}
use under_flow.Base.Bits.{ones}
use under_flow.Npc.{
  NpcSlot, Board, has_aged, npc_despawn_aged, npc_snapshot, popcount_u32, popcount_from, max_age,
}

-- The bits of a mask below `w`, added up.
unfoldable pub bit_sum : ℕ → ℕ → ℕ
bit_sum zero v = 0
bit_sum (suc w) v = v % 2 + bit_sum w (v / 2)

pub bit_sum-zero : (w : ℕ) → bit_sum w 0 ≡ 0
unfolding bit_sum
bit_sum-zero zero = refl
bit_sum-zero (suc w) = omega (arith, bit_sum-zero w)

popcount_from_lem : (w v n : ℕ) → v ≤ ones w → popcount_from (suc w) v n ≡ n + bit_sum w v
unfolding popcount_from bit_sum
popcount_from_lem zero v n h = let e : v ≡ 0 = omega arith in rw e (omega arith)
popcount_from_lem (suc w) v n h = elim (Bool-cases (v == 0)) [
  | inl e ↦ let z : v ≡ 0 = ground arith in rw z (omega (arith, bit_sum-zero w))
  | inr e ↦ rw e (popcount_from_lem w (v / 2) (n + v % 2) (omega arith) ∙ omega arith)
]

-- The loop of `popcount_u32` ends for every word of 32 bits, with the number of bits that are set.
pub popcount-bit_sum : (v : ℕ) → v < 2 ^ 32 → popcount_u32 v ≡ bit_sum 32 v
unfolding popcount_u32
popcount-bit_sum v h = popcount_from_lem 32 v 0 (omega arith) ∙ omega arith

-- With the constants of events.h, an offer stays 140, 110 or 80 seconds for one, two or three tags and
-- 60 for more; no offer of a 32-bit mask stays less than a minute.
max_age_lem :
    (tags : ℕ)
    → tags < 2 ^ 32
    → (60 ≤ max_age 140 30 tags)
      × (bit_sum 32 tags ≡ 1 → max_age 140 30 tags ≡ 140)
      × (bit_sum 32 tags ≡ 2 → max_age 140 30 tags ≡ 110)
      × (bit_sum 32 tags ≡ 3 → max_age 140 30 tags ≡ 80)
      × (4 ≤ bit_sum 32 tags → max_age 140 30 tags ≡ 60)
unfolding max_age
max_age_lem tags h = ground (arith, popcount-bit_sum tags h)

-- What expiry makes of a slot.
abbrev pub expire : ℕ → ℕ → ℕ → NpcSlot → NpcSlot
expire base_age_sec step_sec now s =
    if has_aged base_age_sec step_sec now s then record s { active = false } else s

abbrev pub ids : Board → List ℤ
ids = map (λ s. s.npc_id)

module _ (base_age_sec step_sec now : ℕ) where
  despawned :
      (room : ℕ) (b : Board)
      → ((npc_despawn_aged base_age_sec step_sec now room b).1
          ≡ map (expire base_age_sec step_sec now) b)
        × ((npc_despawn_aged base_age_sec step_sec now room b).0
            ≡ take room (ids (filter_by (has_aged base_age_sec step_sec now) b)))
  unfolding npc_despawn_aged
  despawned zero [] = (refl, refl)
  despawned (suc room) [] = (refl, refl)
  despawned zero (s ∷ b) = ground (arith, despawned zero b)
  despawned (suc room) (s ∷ b) = ground (arith, despawned (suc room) b, despawned room b)

  none_aged :
      (b : Board)
      → All
          (λ s. has_aged base_age_sec step_sec now s ≡ false)
          (map (expire base_age_sec step_sec now) b)
  none_aged [] = tt
  none_aged (s ∷ b) = (ground arith, none_aged b)

  length-ids :
      (b : Board) → length (ids (filter_by (has_aged base_age_sec step_sec now) b)) ≤ length b
  length-ids [] = omega arith
  length-ids (s ∷ b) = ground (arith, length-ids b)

  -- `npc_despawn_aged` deactivates exactly the active offers past the age that their tags allow and
  -- leaves the others as they are, so none past its age is left; with room for as many identifiers
  -- as there are slots, it reports the identifier of each offer that it dropped, in order.
  npc_despawn_lem :
      (max_out : ℕ) (b : Board)
      → let r = npc_despawn_aged base_age_sec step_sec now max_out b in
        (r.1 ≡ map (expire base_age_sec step_sec now) b)
        × All (λ s. has_aged base_age_sec step_sec now s ≡ false) r.1
        × (length b ≤ max_out → r.0 ≡ ids (filter_by (has_aged base_age_sec step_sec now) b))
  npc_despawn_lem max_out b =
      let (e, f) = despawned max_out b in
      (
        e,
        rw e (none_aged b),
        λ h.
            f
            ∙ take_all max_out (ids (filter_by (has_aged base_age_sec step_sec now) b))
                (omega (arith, h, length-ids b)),
      )

-- `npc_snapshot` copies the active offers in slot order, the first `max_size` of them.
pub npc_snapshot_lem :
    (max_size : ℕ) (b : Board)
    → npc_snapshot max_size b ≡ take max_size (filter_by (λ s. s.active) b)
unfolding npc_snapshot
npc_snapshot_lem zero [] = refl
npc_snapshot_lem (suc room) [] = refl
npc_snapshot_lem zero (s ∷ b) = ground (arith, npc_snapshot_lem zero b)
npc_snapshot_lem (suc room) (s ∷ b) =
    ground (arith, npc_snapshot_lem (suc room) b, npc_snapshot_lem room b)
