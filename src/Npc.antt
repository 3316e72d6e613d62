-- ===== src/Npc.antt =====
-- The NPC board of src/server/market.c: 16 slots behind their own mutex. Each function is one
-- critical section, with `time(NULL)` as the argument `now`.
pub mod Offers
pub mod Aging
use under_flow.Base.{
  ℕ, zero, suc, ◌+◌, ◌-◌, ◌*◌, ◌/◌, ◌%◌, Bool, true, false, ◌&&◌, Option, none, some, List, [], ◌∷◌,
  ltb, if◌then◌else◌, max, replicate, find_by, ◌==◌,
}
use under_flow.Base.Int.{ℤ, pos, eq_ℤ}

abbrev pub max_npc_slots : ℕ
max_npc_slots = 16

pub record NpcSlot : Type 0 where
  pub npc_id : ℤ
  pub required_tags : ℕ
  pub bounty : ℤ
  pub active : Bool
  pub spawn_time : ℕ

-- `g_npc`.
abbrev pub Board : Type 0
Board = List NpcSlot

-- A slot of zero bytes.
abbrev pub empty_slot : NpcSlot
empty_slot = record {
  npc_id = pos 0;
  required_tags = 0;
  bounty = pos 0;
  active = false;
  spawn_time = 0;
}

-- The NPC half of `market_init`.
unfoldable pub npc_init : Board
npc_init = replicate max_npc_slots empty_slot

abbrev pub new_slot : ℕ → ℤ → ℕ → ℤ → NpcSlot
new_slot now npc_id required_tags bounty = record {
  npc_id = npc_id;
  required_tags = required_tags;
  bounty = bounty;
  active = true;
  spawn_time = now;
}

-- The loop of `npc_add`; `none` is the return value -1.
unfoldable pub fill_slot : NpcSlot → Board → Option Board
fill_slot new [] = none
fill_slot new (s ∷ ss) =
    let later = fill_slot new ss in
    elim s.active [
      | false ↦ some (new ∷ ss)
      | true ↦ elim later [ none ↦ none | some ss' ↦ some (s ∷ ss') ]
    ]

unfoldable pub npc_add : ℕ → ℤ → ℕ → ℤ → Board → Bool × Board
npc_add now npc_id required_tags bounty b =
    elim (fill_slot (new_slot now npc_id required_tags bounty) b) [
      | none ↦ (false, b)
      | some b' ↦ (true, b')
    ]

-- `g_npc[i].active && g_npc[i].npc_id == npc_id`
abbrev pub is_offered : ℤ → NpcSlot → Bool
is_offered npc_id s = s.active && eq_ℤ s.npc_id npc_id

unfoldable pub npc_find : ℤ → Board → Option NpcSlot
npc_find npc_id b = find_by (is_offered npc_id) b

-- The slot that `npc_take` hands out, and the board with that slot inactive.
unfoldable pub npc_take : ℤ → Board → Option NpcSlot × Board
npc_take npc_id [] = (none, [])
npc_take npc_id (s ∷ ss) =
    let later = npc_take npc_id ss in
    elim (is_offered npc_id s) [
      | true ↦ (some s, record s { active = false } ∷ ss)
      | false ↦ (later.0, s ∷ later.1)
    ]

all_active : Board → Bool
all_active [] = true
all_active (s ∷ ss) = s.active && all_active ss

unfoldable pub npc_is_full : Board → Bool
unfolding all_active
npc_is_full b = all_active b

-- The loop of `popcount_u32`; 32 rounds empty a word of 32 bits.
unfoldable pub popcount_from : ℕ → ℕ → ℕ → ℕ
popcount_from zero v n = n
popcount_from (suc fuel) v n =
    let rest = popcount_from fuel (v / 2) (n + v % 2) in if v == 0 then n else rest

unfoldable pub popcount_u32 : ℕ → ℕ
unfolding popcount_from
popcount_u32 v = popcount_from 33 v 0

-- `base - (tagn - 1) * step`, and 60 at least; below 60 it does not matter that `-` stops at 0.
unfoldable pub max_age : ℕ → ℕ → ℕ → ℕ
max_age base_age_sec step_sec required_tags =
    let age = base_age_sec + step_sec - popcount_u32 required_tags * step_sec in
    if ltb age 60 then 60 else age

abbrev pub has_aged : ℕ → ℕ → ℕ → NpcSlot → Bool
has_aged base_age_sec step_sec now s =
    s.active && ltb (max_age base_age_sec step_sec s.required_tags) (now - s.spawn_time)

-- The loop of `npc_despawn_aged`: the reported identifiers, at most `room`, and the slots.
unfoldable pub npc_despawn_aged : ℕ → ℕ → ℕ → ℕ → Board → List ℤ × Board
npc_despawn_aged base_age_sec step_sec now room [] = ([], [])
npc_despawn_aged base_age_sec step_sec now room (s ∷ ss) =
    let kept = npc_despawn_aged base_age_sec step_sec now room ss in
    let dropped = npc_despawn_aged base_age_sec step_sec now (room - 1) ss in
    elim (has_aged base_age_sec step_sec now s) [
      | false ↦ (kept.0, s ∷ kept.1)
      | true ↦ (
        if ltb 0 room then s.npc_id ∷ dropped.0 else dropped.0,
        record s { active = false } ∷ dropped.1,
      )
    ]

-- The loop of `npc_snapshot`, with the room left in `out_array`.
unfoldable pub npc_snapshot : ℕ → Board → List NpcSlot
npc_snapshot room [] = []
npc_snapshot room (s ∷ ss) =
    let skip = npc_snapshot room ss in
    let keep = npc_snapshot (room - 1) ss in
    elim (s.active && ltb 0 room) [ true ↦ s ∷ keep | false ↦ skip ]
