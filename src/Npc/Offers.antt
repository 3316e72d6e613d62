-- ===== src/Npc/Offers.antt =====
-- The NPC board of src/server/market.c as a table of offers: what adding and taking do to it.
use under_flow.Base.{
  subst, ◌∙◌, ℕ, ◌+◌, ◌≤◌, ◌≡◌, refl, true, false, none, some, [], ◌∷◌, if◌then◌else◌, arith, inl,
  inr, find_by, count_by, Bool-cases, Option-cases, ◌↔◌, ◌≢◌,
}
use under_flow.Base.Int.{ℤ, eq_ℤ, eq_ℤ_iff}
use under_flow.Npc.{
  NpcSlot, Board, npc_add, fill_slot, new_slot, npc_find, npc_take, npc_is_full, all_active,
  is_offered,
}

-- How many active slots carry an identifier.
abbrev pub offered : ℤ → Board → ℕ
offered d b = count_by (is_offered d) b

fill_slot-other :
    (d : ℤ) (new : NpcSlot) (ss ss' : Board)
    → is_offered d new ≡ false
    → fill_slot new ss ≡ some ss'
    → find_by (is_offered d) ss' ≡ find_by (is_offered d) ss
unfolding fill_slot
fill_slot-other d new [] ss' off e = cc
fill_slot-other d new (x ∷ ss) ss' off e = elim (Option-cases (fill_slot new ss)) [
  | inl q ↦ ground (arith, q)
  | inr (rest, q) ↦ ground (arith, q, fill_slot-other d new ss rest off q)
]

fill_slot-new :
    (d : ℤ) (new : NpcSlot) (ss ss' : Board)
    → is_offered d new ≡ true
    → offered d ss ≡ 0
    → fill_slot new ss ≡ some ss'
    → find_by (is_offered d) ss' ≡ some new
unfolding fill_slot
fill_slot-new d new [] ss' on z e = cc
fill_slot-new d new (x ∷ ss) ss' on z e = elim (Option-cases (fill_slot new ss)) [
  | inl q ↦ ground (arith, q)
  | inr (rest, q) ↦ ground (arith, q, fill_slot-new d new ss rest on (ground arith) q)
]

fill_slot-full : (new : NpcSlot) (ss : Board) → (fill_slot new ss ≡ none) ↔ (all_active ss ≡ true)
unfolding fill_slot all_active
fill_slot-full new [] = (λ _. refl, λ _. refl)
fill_slot-full new (x ∷ ss) =
    let ih = fill_slot-full new ss in
    elim (Option-cases (fill_slot new ss)) [
      | inl q ↦ let r = ih.0 q in ground (arith, q, r)
      | inr (rest, q) ↦ (λ h. ground (arith, q), λ h. ground (arith, q, ih.1))
    ]

-- `npc_add` fails exactly on a full board, and then changes nothing; when it succeeds with an
-- identifier that no active slot has, `npc_find` finds the new offer under it, and answers the same as
-- before for every other identifier.
npc_add_lem :
    (now : ℕ) (d : ℤ) (tags : ℕ) (bounty : ℤ) (d' : ℤ) (b : Board)
    → let r = npc_add now d tags bounty b in
      ((r.0 ≡ false) ↔ (npc_is_full b ≡ true))
      × (r.0 ≡ false → r.1 ≡ b)
      × (r.0 ≡ true
          → offered d b ≡ 0
          → npc_find d' r.1
            ≡ (if eq_ℤ d d' then some (new_slot now d tags bounty) else npc_find d' b))
unfolding npc_add npc_find npc_is_full
npc_add_lem now d tags bounty d' b = elim (Option-cases (fill_slot new b)) [
  | inl q ↦ rw (q, npc_add) ((λ _. (fill_slot-full new b).0 q, λ _. refl), λ _. refl, λ e. cc)
  | inr (ss', q) ↦
      rw (q, npc_add)
        (
          (λ e. cc, λ f. ground (arith, q, (fill_slot-full new b).1 f)),
          λ e. cc,
          λ _ z. found ss' q z,
        )
]
  where
    new : NpcSlot
    new = new_slot now d tags bounty

    found :
        (ss' : Board)
        → fill_slot new b ≡ some ss'
        → offered d b ≡ 0
        → find_by (is_offered d') ss' ≡ (if eq_ℤ d d' then some new else find_by (is_offered d') b)
    found ss' q z = elim (Bool-cases (eq_ℤ d d')) [
      | inl same ↦ rw same (
          fill_slot-new d' new b ss' same (subst (λ k. offered k b ≡ 0) ((eq_ℤ_iff d d').0 same) z)
            q)
      | inr other ↦ rw other (fill_slot-other d' new b ss' other q)
    ]

pub npc_take-find : (d : ℤ) (b : Board) → (npc_take d b).0 ≡ npc_find d b
unfolding npc_take npc_find
npc_take-find d [] = refl
npc_take-find d (x ∷ b) = ground (arith, npc_take-find d b)

npc_take-offered :
    (d : ℤ) (b : Board) (s : NpcSlot)
    → (npc_take d b).0 ≡ some s
    → offered d (npc_take d b).1 + 1 ≡ offered d b
unfolding npc_take
npc_take-offered d [] s e = cc
npc_take-offered d (x ∷ b) s e = ground (arith, npc_take-offered d b s)

npc_take-others : (d d' : ℤ) (b : Board) → d ≢ d' → npc_find d' (npc_take d b).1 ≡ npc_find d' b
unfolding npc_take npc_find
npc_take-others d d' [] ne = refl
npc_take-others d d' (x ∷ b) ne =
    ground (arith, npc_take-others d d' b ne, eq_ℤ_iff x.npc_id d, eq_ℤ_iff x.npc_id d')

npc_find-none : (d : ℤ) (b : Board) → offered d b ≡ 0 → npc_find d b ≡ none
unfolding npc_find
npc_find-none d [] h = refl
npc_find-none d (x ∷ b) h = ground (arith, npc_find-none d b)

npc_take-refused : (d : ℤ) (b : Board) → npc_find d b ≡ none → (npc_take d b).1 ≡ b
unfolding npc_take npc_find
npc_take-refused d [] h = refl
npc_take-refused d (x ∷ b) h = ground (arith, npc_take-refused d b)

-- `npc_take` hands out the offer that `npc_find` sees, and changes nothing where there is none. If no
-- identifier stands in two active slots, an offer that was taken is gone for everybody, and every
-- other offer is found as before.
pub npc_take_exclusive :
    (d d' : ℤ) (b : Board)
    → ((k : ℤ) → offered k b ≤ 1)
    → let r = npc_take d b in
      (r.0 ≡ npc_find d b)
      × (npc_find d b ≡ none → r.1 ≡ b)
      × ((npc_take d r.1).0 ≡ none)
      × (d ≢ d' → npc_find d' r.1 ≡ npc_find d' b)
npc_take_exclusive d d' b distinct =
    (npc_take-find d b, npc_take-refused d b, gone, npc_take-others d d' b)
  where
    gone : (npc_take d (npc_take d b).1).0 ≡ none
    gone = elim (Option-cases (npc_find d b)) [
      | inl e ↦ rw (npc_take-refused d b e) (npc_take-find d b ∙ e)
      | inr (s, e) ↦
          npc_take-find d (npc_take d b).1
          ∙ npc_find-none d (npc_take d b).1
              (omega (arith, distinct d, npc_take-offered d b s (npc_take-find d b ∙ e)))
    ]
