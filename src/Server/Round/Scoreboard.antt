-- ===== src/Server/Round/Scoreboard.antt =====
-- The ranking of `fire_round_end_countdown` in src/server/server_main.c: its selection sort sorts.
use mathlib.Core.List.{Perm}
use mathlib.Core.List.Perm
use under_flow.Base.{
  ℕ, zero, suc, ◌+◌, ◌≤◌, ◌≡◌, refl, ◌⊎◌, inl, inr, Bool-cases, some, List, [], ◌∷◌, All, get_elem?,
  length, arith,
}
use under_flow.Base.Int.{ℤ, ◌≤ℤ◌, lt_ℤ}
use under_flow.Base.Swap.{swap_at, swap_at-some, swap_at-All, swap_at-perm, length-swap_at, All-set}
use under_flow.Protocol.{ScoreRemaining}
use under_flow.Server.Round.{max_idx_from, select, sort_by_money}

abbrev AtMost : ℤ → ScoreRemaining → Type 0
AtMost best r = r.money ≤ℤ best

-- Each balance is at least every later one.
abbrev IsDescending : List ScoreRemaining → Type 0
IsDescending [] = Unit {0}
IsDescending (x ∷ xs) = All (AtMost x.money) xs × IsDescending xs

-- Where the inner loop ends: at its start, or at the first greatest balance.
abbrev IsMaxIdx : ℕ → ℤ → ℕ → List ScoreRemaining → ℕ → Type 0
IsMaxIdx m best j rs k =
    ((k ≡ m) × All (AtMost best) rs)
    ⊎ ((i : ℕ) × (y : ScoreRemaining) × (k ≡ j + i)
        × (get_elem? rs i ≡ some y)
        × (best ≤ℤ y.money)
        × All (AtMost y.money) rs)

max_idx_lem :
    (m : ℕ) (best : ℤ) (j : ℕ) (rs : List ScoreRemaining)
    → IsMaxIdx m best j rs (max_idx_from m best j rs)
unfolding max_idx_from
max_idx_lem m best j [] = inl (refl, tt)
max_idx_lem m best j (r ∷ rs) = elim (Bool-cases (lt_ℤ best r.money)) [
  | inl up ↦ rw up (elim (max_idx_lem j r.money (j + 1) rs) [
    | inl (e, all) ↦ inr (0, r, omega (arith, e), refl, ground (arith, up), (omega arith, all))
    | inr (i, y, e, at, le, all) ↦
        inr (suc i, y, omega (arith, e), at, ground (arith, up, le), (le, all))
  ])
  | inr keep ↦ rw keep (elim (max_idx_lem m best (j + 1) rs) [
    | inl (e, all) ↦ inl (e, (ground (arith, keep), all))
    | inr (i, y, e, at, le, all) ↦
        inr (suc i, y, omega (arith, e), at, le, (ground (arith, keep, le), all))
  ])
]

-- The swap with the greatest balance puts it first.
swap_max-AtMost :
    (x : ScoreRemaining) (xs : List ScoreRemaining)
    → let p = swap_at (max_idx_from 0 x.money 1 xs) x xs in All (AtMost p.0.money) p.1
unfolding swap_at
swap_max-AtMost x xs = elim (max_idx_lem 0 x.money 1 xs) [
  | inl (e, all) ↦ rw e all
  | inr (i, y, e, at, le, all) ↦
      let next : max_idx_from 0 x.money 1 xs ≡ suc i = omega (arith, e) in
      rw (next, swap_at-some i x y xs at) (All-set (AtMost y.money) xs i x le all)
]

select-All :
    (P : ScoreRemaining → Type 0) (n : ℕ) (xs : List ScoreRemaining)
    → All P xs
    → All P (select n xs)
unfolding select
select-All P zero xs a = a
select-All P (suc n) [] a = tt
select-All P (suc n) (x ∷ xs) a =
    let k = max_idx_from 0 x.money 1 xs in
    let (h, rest) = swap_at-All P k x xs a.0 a.1 in (h, select-All P n (swap_at k x xs).1 rest)

select-perm : (n : ℕ) (xs : List ScoreRemaining) → Perm (select n xs) xs
unfolding select
select-perm zero xs = Perm.refl xs
select-perm (suc n) [] = Perm.refl _
select-perm (suc n) (x ∷ xs) =
    let k = max_idx_from 0 x.money 1 xs in
    let p = swap_at k x xs in Perm.trans (Perm.cons p.0 (select-perm n p.1)) (swap_at-perm k x xs)

select-IsDescending :
    (n : ℕ) (xs : List ScoreRemaining) → length xs ≤ n → IsDescending (select n xs)
unfolding select
select-IsDescending zero [] h = tt
select-IsDescending zero (x ∷ xs) h = absurd (omega arith)
select-IsDescending (suc n) [] h = tt
select-IsDescending (suc n) (x ∷ xs) h =
    let k = max_idx_from 0 x.money 1 xs in
    let p = swap_at k x xs in
    (
      select-All (AtMost p.0.money) n p.1 (swap_max-AtMost x xs),
      select-IsDescending n p.1 (omega (arith, h, length-swap_at k x xs)),
    )

-- The ranking of the scoreboard lists the same balances in descending order.
sort_by_money_lem :
    (xs : List ScoreRemaining) → IsDescending (sort_by_money xs) × Perm (sort_by_money xs) xs
unfolding sort_by_money
sort_by_money_lem xs =
    (select-IsDescending (length xs) xs (omega arith), select-perm (length xs) xs)
