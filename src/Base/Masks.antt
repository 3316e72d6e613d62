-- ===== src/Base/Masks.antt =====
-- The tests that the server makes of tag masks: `a & b` as a condition, and `(u & r) == r`.
use Prim.Native.Nat.{ℕ, ◌-◌, ◌^◌, ◌<◌, ◌≤◌, min, bit_and, bit_or}
use mathlib.Core.Path.{◌≡◌, refl}
use mathlib.Core.Logic.{◌≢◌}
use mathlib.Core.Bool.{Bool, true, false, ◌||◌, not}
use native.Mathlib.Omega.{arith}
use native.Mathlib.Decide.{dec_lt}
use under_flow.Base.Tests.{◌==◌, ==_iff}
use under_flow.Base.Bits.{
  bit, bit-le, bit-bit_and, bit-bit_or, bit-zero, some_bit, zero_of_bits, eq_of_bits, bit_not32,
  bit-bit_not32, bit_above32,
}

-- `if (a & b)`
unfoldable pub meets : ℕ → ℕ → Bool
meets a b = not (bit_and a b == 0)

-- `(u & r) == r`
unfoldable pub covers : ℕ → ℕ → Bool
covers u r = bit_and u r == r

-- Two masks meet exactly when some bit is set in both.
pub meets-bit : (a b : ℕ) → meets a b ≡ true → (i : ℕ) × (bit a i ≡ 1) × (bit b i ≡ 1)
unfolding meets
meets-bit a b h =
    let ne : bit_and a b ≢ 0 = ground arith in
    let (i, e) = some_bit (bit_and a b) ne in
    (
      i,
      omega (arith, bit-bit_and a b i, bit-le a i, bit-le b i),
      omega (arith, bit-bit_and a b i, bit-le a i, bit-le b i),
    )

pub bit-meets : (a b i : ℕ) → bit a i ≡ 1 → bit b i ≡ 1 → meets a b ≡ true
unfolding meets
bit-meets a b i p q =
    let ne : bit_and a b ≢ 0 = λ z. omega (arith, zero_bit z, bit-bit_and a b i) in ground arith
  where
    zero_bit : bit_and a b ≡ 0 → bit (bit_and a b) i ≡ 0
    zero_bit z = rw z (bit-zero i)

-- Two tests that imply one another are equal.
pub Bool_ext : (p q : Bool) → (p ≡ true → q ≡ true) → (q ≡ true → p ≡ true) → p ≡ q
Bool_ext true q f g = ground (arith, f refl)
Bool_ext false true f g = g refl
Bool_ext false false f g = refl

pub meets-bit_or : (t f m : ℕ) → meets t (bit_or f m) ≡ (meets t f || meets t m)
meets-bit_or t f m = Bool_ext _ _ there back
  where
    there : meets t (bit_or f m) ≡ true → (meets t f || meets t m) ≡ true
    there h =
        let (i, p, q) = meets-bit t (bit_or f m) h in
        elim (dec_lt 0 (bit f i)) [
          | yes u ↦ ground (arith, bit-meets t f i p (omega (arith, bit-le f i)))
          | no u ↦ ground (arith, bit-meets t m i p (omega (arith, bit-bit_or f m i, bit-le m i)))
        ]

    left : meets t f ≡ true → meets t (bit_or f m) ≡ true
    left h =
        let (i, p, q) = meets-bit t f h in
        bit-meets t (bit_or f m) i p (omega (arith, bit-bit_or f m i, bit-le m i))

    right : meets t m ≡ true → meets t (bit_or f m) ≡ true
    right h =
        let (i, p, q) = meets-bit t m h in
        bit-meets t (bit_or f m) i p (omega (arith, bit-bit_or f m i, bit-le f i))

    back : (meets t f || meets t m) ≡ true → meets t (bit_or f m) ≡ true
    back h = ground (arith, left, right)

pub meets_zero : (t : ℕ) → meets t 0 ≡ false
unfolding meets
meets_zero t =
    let e : bit_and t 0 ≡ 0 = zero_of_bits _ (λ i. omega (arith, bit-bit_and t 0 i, bit-zero i)) in
    rw e

-- `f & ~m` keeps the bits of `f` that `m` has not.
pub bit-clear :
    (f m i : ℕ)
    → f < 2 ^ 32
    → m < 2 ^ 32
    → bit (bit_and f (bit_not32 m)) i ≡ min (bit f i) (1 - bit m i)
bit-clear f m i hf hm = elim (dec_lt i 32) [
  | yes low ↦ omega (arith, bit-bit_and f (bit_not32 m) i, bit-bit_not32 m i hm low)
  | no high ↦ omega (arith, bit-bit_and f (bit_not32 m) i, bit_above32 f i hf (omega arith))
]

pub meets-clear :
    (t f m : ℕ)
    → f < 2 ^ 32
    → m < 2 ^ 32
    → meets t (bit_and f (bit_not32 m)) ≡ true
    → meets t f ≡ true
meets-clear t f m hf hm h =
    let (i, p, q) = meets-bit t (bit_and f (bit_not32 m)) h in
    bit-meets t f i p (omega (arith, bit-clear f m i hf hm, bit-le f i))

pub clear-disjoint :
    (t f m : ℕ)
    → f < 2 ^ 32
    → m < 2 ^ 32
    → meets t m ≡ false
    → meets t (bit_and f (bit_not32 m)) ≡ meets t f
clear-disjoint t f m hf hm apart = Bool_ext _ _ (meets-clear t f m hf hm) keep
  where
    outside : (i : ℕ) → bit t i ≡ 1 → bit m i ≢ 1
    outside i p q = cc (bit-meets t m i p q)

    keep : meets t f ≡ true → meets t (bit_and f (bit_not32 m)) ≡ true
    keep h =
        let (i, p, q) = meets-bit t f h in
        bit-meets t (bit_and f (bit_not32 m)) i p
          (omega (arith, bit-clear f m i hf hm, bit-le m i, outside i p))

-- `covers` is the subset test.
pub covers-bit : (u r : ℕ) → covers u r ≡ true → (i : ℕ) → bit r i ≤ bit u i
unfolding covers
covers-bit u r h i =
    let e : bit_and u r ≡ r = (==_iff _ _).0 h in
    let p : bit (bit_and u r) i ≡ bit r i = rw e in omega (arith, p, bit-bit_and u r i)

pub bit-covers : (u r : ℕ) → ((i : ℕ) → bit r i ≤ bit u i) → covers u r ≡ true
unfolding covers
bit-covers u r h = (==_iff _ _).1 (eq_of_bits _ _ (λ i. omega (arith, h i, bit-bit_and u r i)))
