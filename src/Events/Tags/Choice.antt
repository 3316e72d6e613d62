-- ===== src/Events/Tags/Choice.antt =====
-- What `event_random_tags` of src/server/events.c chooses: tags of the table, none of them frozen.
use under_flow.Base.{
  ◌↔◌, ℕ, zero, suc, ◌+◌, ◌/◌, ◌%◌, ◌≤◌, ◌≡◌, ◌≢◌, refl, ◌∙◌, ap, true, false, ◌||◌, List, [], ◌∷◌,
  bit_or, min, length, All, arith, Bool-cases, inl, inr,
}
use under_flow.Base.Bits.{bit-zero, le_of_bits, bit-bit_or, eq_of_bits}
use under_flow.Base.Masks.{
  meets_zero, meets, covers, meets-bit_or, Bool_ext, meets-bit, bit-meets, covers-bit, bit-covers,
}
use under_flow.Base.Swap.{swap_at, swap_at-All}
use under_flow.Market.{Market, is_tag_frozen, market_frozen_mask}
use under_flow.Npc.{popcount_u32}
use under_flow.Npc.Aging.{bit_sum-zero, bit_sum, popcount-bit_sum}
use under_flow.Events.Tags.{tag_list, available, draw, choose, event_random_tags}

meets_comm : (a b : ℕ) → meets a b ≡ meets b a
meets_comm a b = Bool_ext _ _ (swap a b) (swap b a)
  where
    swap : (a b : ℕ) → meets a b ≡ true → meets b a ≡ true
    swap a b h = let (i, p, q) = meets-bit a b h in bit-meets b a i q p

bit_or-meets : (a b f : ℕ) → meets (bit_or a b) f ≡ (meets a f || meets b f)
bit_or-meets a b f =
    meets_comm (bit_or a b) f ∙ meets-bit_or f a b ∙ rw (meets_comm f a, meets_comm f b)

half-bit_or : (a b : ℕ) → bit_or a b / 2 ≡ bit_or (a / 2) (b / 2)
half-bit_or a b =
    eq_of_bits _ _ (λ i. bit-bit_or a b (suc i) ∙ omega (arith, bit-bit_or (a / 2) (b / 2) i))

-- A union has at least the bits of each part, and at most those of both.
bit_sum-bit_or :
    (w a b : ℕ)
    → (bit_sum w a ≤ bit_sum w (bit_or a b))
      × (bit_sum w b ≤ bit_sum w (bit_or a b))
      × (bit_sum w (bit_or a b) ≤ bit_sum w a + bit_sum w b)
unfolding bit_sum
bit_sum-bit_or zero a b = omega arith
bit_sum-bit_or (suc w) a b =
    let (lo, lo', hi) = bit_sum-bit_or w (a / 2) (b / 2) in
    rw (half-bit_or a b) (omega (arith, lo, lo', hi, bit-bit_or a b 0))

covers-bit_or : (u a b : ℕ) → covers u a ≡ true → covers u b ≡ true → covers u (bit_or a b) ≡ true
covers-bit_or u a b p q =
    bit-covers u (bit_or a b)
      (λ i. omega (arith, bit-bit_or a b i, covers-bit u a p i, covers-bit u b q i))

-- The union of the twelve tags.
abbrev pub all_tags : ℕ
all_tags = 4095

-- One tag of the table that is not frozen.
abbrev IsFree : ℕ → ℕ → Type 0
IsFree frozen t = (meets t frozen ≡ false) × (bit_sum 32 t ≡ 1) × (covers all_tags t ≡ true)

available-IsFree :
    (frozen : ℕ) (ts : List ℕ)
    → All (λ t. (bit_sum 32 t ≡ 1) × (covers all_tags t ≡ true)) ts
    → All (IsFree frozen) (available frozen ts)
unfolding available
available-IsFree frozen [] h = tt
available-IsFree frozen (t ∷ ts) h = ground (arith, available-IsFree frozen ts h.1)

tag_list-tags : All (λ t. (bit_sum 32 t ≡ 1) × (covers all_tags t ≡ true)) tag_list
unfolding bit_sum covers
tag_list-tags = ground arith

-- What the result is after some rounds: `k` tags at most, none of them frozen.
abbrev IsChoice : ℕ → ℕ → ℕ → Type 0
IsChoice frozen k r = (meets r frozen ≡ false) × (bit_sum 32 r ≤ k) × (covers all_tags r ≡ true)

-- One round: a free tag comes in, and what is left of the pool is free.
round-IsChoice :
    (frozen k j x : ℕ) (xs : List ℕ) (r : ℕ)
    → All (IsFree frozen) (x ∷ xs)
    → IsChoice frozen k r
    → let p = swap_at j x xs in
      IsChoice frozen (k + 1) (bit_or r p.0)
      × All (IsFree frozen) p.1
      × (bit_sum 32 r ≤ bit_sum 32 (bit_or r p.0))
      × (1 ≤ bit_sum 32 (bit_or r p.0))
round-IsChoice frozen k j x xs r free c =
    let (one, others) = swap_at-All (IsFree frozen) j x xs free.0 free.1 in
    let y = (swap_at j x xs).0 in
    let (keeps, brings, bound) = bit_sum-bit_or 32 r y in
    (
      (
        rw (bit_or-meets r y frozen, c.0, one.0),
        omega (arith, bound, one, c),
        covers-bit_or all_tags r y c.2 one.2,
      ),
      others,
      keeps,
      omega (arith, brings, one),
    )

draw-IsChoice :
    (frozen n k : ℕ) (rolls : ℕ → ℕ) (pool : List ℕ) (r : ℕ)
    → All (IsFree frozen) pool
    → IsChoice frozen k r
    → IsChoice frozen (k + n) (draw n rolls pool r)
      × (bit_sum 32 r ≤ bit_sum 32 (draw n rolls pool r))
unfolding draw
draw-IsChoice frozen zero k rolls pool r free c = (ground arith, omega arith)
draw-IsChoice frozen (suc n) k rolls [] r free c = (ground arith, omega arith)
draw-IsChoice frozen (suc n) k rolls (x ∷ xs) r free c =
    let j = rolls 0 % length (x ∷ xs) in
    let (next, others, keeps, pos) = round-IsChoice frozen k j x xs r free c in
    let (done, grows) =
      draw-IsChoice frozen n (k + 1) (λ i. rolls (i + 1)) (swap_at j x xs).1
        (bit_or r (swap_at j x xs).0) others next in
    ((done.0, omega (arith, done), done.2), omega (arith, keeps, grows))

no_tags-IsChoice : (frozen : ℕ) → IsChoice frozen 0 0
no_tags-IsChoice frozen = (
  meets_comm 0 frozen ∙ meets_zero frozen,
  bit_sum-le-zero,
  bit-covers all_tags 0 (λ i. omega (arith, bit-zero i)),
)
  where
    bit_sum-le-zero : bit_sum 32 0 ≤ 0
    bit_sum-le-zero = omega (arith, bit_sum-zero 32)

-- From the first round on there is a tag in the result.
draw-pos :
    (frozen n : ℕ) (rolls : ℕ → ℕ) (x : ℕ) (xs : List ℕ)
    → All (IsFree frozen) (x ∷ xs)
    → 1 ≤ bit_sum 32 (draw (suc n) rolls (x ∷ xs) 0)
unfolding draw
draw-pos frozen n rolls x xs free =
    let j = rolls 0 % length (x ∷ xs) in
    let (next, others, keeps, pos) =
      round-IsChoice frozen 0 j x xs 0 free (no_tags-IsChoice frozen) in
    let grows =
      draw-IsChoice frozen n 1 (λ i. rolls (i + 1)) (swap_at j x xs).1 (bit_or 0 (swap_at j x xs).0)
        others next in
    omega (arith, pos, grows.1)

choose_lem :
    (frozen : ℕ) (rolls : ℕ → ℕ) (pool : List ℕ)
    → All (IsFree frozen) pool
    → IsChoice frozen 3 (choose rolls pool) × ((choose rolls pool ≡ 0) ↔ (pool ≡ []))
unfolding choose
choose_lem frozen rolls [] free =
    let none_yet = no_tags-IsChoice frozen in
    ((none_yet.0, omega (arith, none_yet), none_yet.2), (λ h. refl, λ h. refl))
choose_lem frozen rolls (x ∷ xs) free =
    let n = min (rolls 0 % 3) (length xs) in
    let e : min (rolls 0 % 3 + 1) (length (x ∷ xs)) ≡ suc n = omega arith in
    let (c, grows) =
      draw-IsChoice frozen (suc n) 0 (λ i. rolls (i + 1)) (x ∷ xs) 0 free
        (no_tags-IsChoice frozen) in
    let some_tag = draw-pos frozen n (λ i. rolls (i + 1)) x xs free in
    rw e (
      (c.0, omega (arith, c), c.2),
      (
        λ z. absurd (no_zero (draw (suc n) (λ i. rolls (i + 1)) (x ∷ xs) 0) some_tag z),
        λ h. absurd (cc),
      ),
    )
  where
    no_zero : (r : ℕ) → 1 ≤ bit_sum 32 r → r ≢ 0
    no_zero r h z = omega (arith, bit_sum-zero 32, ap (bit_sum 32) z)

available-nil :
    (frozen : ℕ) (ts : List ℕ) → (available frozen ts ≡ []) ↔ All (λ t. meets t frozen ≡ true) ts
unfolding available
available-nil frozen [] = (λ h. tt, λ h. refl)
available-nil frozen (t ∷ ts) = elim (Bool-cases (meets t frozen)) [
  | inl on ↦ let ih = available-nil frozen ts in rw on (λ h. (refl, ih.0 h), λ h. ih.1 h.1)
  | inr off ↦ rw off (λ h. absurd (cc), λ h. absurd (ground (arith, off, h)))
]

-- The random choice has no tag that is frozen, only tags of the table, and three of them at most; it is
-- empty exactly when every tag of the table is frozen.
pub random_tags_lem :
    (rolls : ℕ → ℕ) (m : Market)
    → let tags = event_random_tags rolls m in
      (is_tag_frozen tags m ≡ false)
      × (covers all_tags tags ≡ true)
      × (popcount_u32 tags ≤ 3)
      × ((tags ≡ 0) ↔ All (λ t. is_tag_frozen t m ≡ true) tag_list)
unfolding event_random_tags is_tag_frozen market_frozen_mask
random_tags_lem rolls m =
    let free = available-IsFree m.frozen tag_list tag_list-tags in
    let (c, z) = choose_lem m.frozen rolls (available m.frozen tag_list) free in
    let n = available-nil m.frozen tag_list in
    let tags = choose rolls (available m.frozen tag_list) in
    let small = le_of_bits tags all_tags (λ i. covers-bit all_tags tags c.2 i) in
    (
      c.0,
      c.2,
      omega (arith, popcount-bit_sum tags (omega (arith, small)), c),
      (λ h. n.0 (z.0 h), λ h. z.1 (n.1 h)),
    )
