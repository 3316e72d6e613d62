-- ===== src/Base/Swap.antt =====
-- The swap of the first entry of an array with a later one.
use Prim.Native.Nat.{ℕ, zero, suc}
use mathlib.Core.Path.{◌≡◌, refl, ap, subst}
use mathlib.Core.Logic.{inl, inr}
use mathlib.Core.Option.{none, some, some-injective}
use mathlib.Core.List.{List, [], ◌∷◌, Perm}
use mathlib.Core.List.Perm
use native.Mathlib.Omega.{arith}
use under_flow.Base.Tests.{Option-cases}
use under_flow.Base.Lists.{All, set, get_elem?, length, length-set}

module _ {ℓ} {A : Type ℓ} where
  -- What stands first after the swap of `x`, before `xs`, with the entry at index `k` of the whole, and
  -- what stands behind it.
  unfoldable pub swap_at : ℕ → A → List A → A × List A
  swap_at zero x xs = (x, xs)
  swap_at (suc i) x xs = elim (get_elem? xs i) [ none ↦ (x, xs) | some m ↦ (m, set xs i x) ]

  set-perm :
      (xs : List A) (i : ℕ) (x y : A) → get_elem? xs i ≡ some y → Perm (y ∷ set xs i x) (x ∷ xs)
  set-perm [] i x y h = absurd (ground arith)
  set-perm (z ∷ zs) zero x y h = rw (some-injective z y h) (Perm.swap x y zs)
  set-perm (z ∷ zs) (suc i) x y h =
      Perm.trans (Perm.swap z y (set zs i x))
        (Perm.trans (Perm.cons z (set-perm zs i x y h)) (Perm.swap x z zs))

  pub All-set {κ} :
      (P : A → Type κ) (xs : List A) (i : ℕ) (x : A) → P x → All P xs → All P (set xs i x)
  All-set P [] i x h a = tt
  All-set P (z ∷ zs) zero x h a = (h, a.1)
  All-set P (z ∷ zs) (suc i) x h a = (a.0, All-set P zs i x h a.1)

  pub All-get {κ} :
      (P : A → Type κ) (xs : List A) (i : ℕ) (y : A) → get_elem? xs i ≡ some y → All P xs → P y
  All-get P [] i y h a = absurd (ground arith)
  All-get P (z ∷ zs) zero y h a = subst P (some-injective z y h) a.0
  All-get P (z ∷ zs) (suc i) y h a = All-get P zs i y h a.1

  swap_at-none :
      (i : ℕ) (x : A) (xs : List A) → get_elem? xs i ≡ none → swap_at (suc i) x xs ≡ (x, xs)
  unfolding swap_at
  swap_at-none i x xs e = ap (λ o. elim o [ none ↦ (x, xs) | some m ↦ (m, set xs i x) ]) e

  pub swap_at-some :
      (i : ℕ) (x m : A) (xs : List A)
      → get_elem? xs i ≡ some m
      → swap_at (suc i) x xs ≡ (m, set xs i x)
  unfolding swap_at
  swap_at-some i x m xs e = ap (λ o. elim o [ none ↦ (x, xs) | some m' ↦ (m', set xs i x) ]) e

  pub swap_at-All {κ} :
      (P : A → Type κ) (k : ℕ) (x : A) (xs : List A)
      → P x
      → All P xs
      → P (swap_at k x xs).0 × All P (swap_at k x xs).1
  unfolding swap_at
  swap_at-All P zero x xs h a = (h, a)
  swap_at-All P (suc i) x xs h a = elim (Option-cases (get_elem? xs i)) [
    | inl none_at ↦ rw (swap_at-none i x xs none_at) (h, a)
    | inr (m, at) ↦ rw (swap_at-some i x m xs at) (All-get P xs i m at a, All-set P xs i x h a)
  ]

  pub swap_at-perm :
      (k : ℕ) (x : A) (xs : List A) → Perm ((swap_at k x xs).0 ∷ (swap_at k x xs).1) (x ∷ xs)
  unfolding swap_at
  swap_at-perm zero x xs = Perm.refl _
  swap_at-perm (suc i) x xs = elim (Option-cases (get_elem? xs i)) [
    | inl none_at ↦ rw (swap_at-none i x xs none_at) (Perm.refl _)
    | inr (m, at) ↦ rw (swap_at-some i x m xs at) (set-perm xs i x m at)
  ]

  pub length-swap_at : (k : ℕ) (x : A) (xs : List A) → length (swap_at k x xs).1 ≡ length xs
  unfolding swap_at
  length-swap_at zero x xs = refl
  length-swap_at (suc i) x xs = elim (Option-cases (get_elem? xs i)) [
    | inl none_at ↦ rw (swap_at-none i x xs none_at) refl
    | inr (m, at) ↦ rw (swap_at-some i x m xs at) (length-set xs i x)
  ]
