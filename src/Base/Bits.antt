-- ===== src/Base/Bits.antt =====
-- Masks of 32 bits as sets of bits: what `&`, `|`, `~` and a zero test say of each bit.
use Prim.Native.Nat.{
  ℕ, zero, suc, ◌+◌, ◌-◌, ◌*◌, ◌/◌, ◌%◌, ◌^◌, ◌≤◌, ◌<◌, min, max, bit_and, bit_or, digits,
  bit_and-bitwise, bit_or-bitwise,
}
use mathlib.Core.Path.{◌≡◌, refl}
use mathlib.Core.Logic.{◌≢◌}
use native.Mathlib.Decide.{ℕ_discrete}
use native.Mathlib.Omega.{arith}

-- Bit `i` of a mask: `(x >> i) & 1`.
abbrev pub bit : ℕ → ℕ → ℕ
bit x zero = x % 2
bit x (suc i) = bit (x / 2) i

pub bit-le : (x i : ℕ) → bit x i ≤ 1
bit-le x zero = omega arith
bit-le x (suc i) = bit-le (x / 2) i

pub bit-zero : (i : ℕ) → bit 0 i ≡ 0
bit-zero zero = refl
bit-zero (suc i) = bit-zero i

-- An operation that works on each bit by `f`, with `z b` where the first word has run out.
module _ (z : ℕ → ℕ) (f : ℕ → ℕ → ℕ) (one_bit : (p q : ℕ) → p ≤ 1 → q ≤ 1 → f p q ≤ 1)
    (rest : (b i : ℕ) → bit (z b) i ≡ f 0 (bit b i)) where
  bit-digits : (i n a b : ℕ) → a ≤ n → bit (digits z f n a b) i ≡ f (bit a i) (bit b i)
  bit-digits i zero (suc a) b h = absurd (omega arith)
  bit-digits i zero zero b h = rw (bit-zero i) (rest b i)
  bit-digits i (suc n) zero b h = rw (bit-zero i) (rest b i)
  bit-digits zero (suc n) (suc a) b h =
      omega (arith, one_bit (suc a % 2) (b % 2) (omega arith) (omega arith))
  bit-digits (suc i) (suc n) (suc a) b h =
      let low = one_bit (suc a % 2) (b % 2) (omega arith) (omega arith) in
      let shifted : digits z f (suc n) (suc a) b / 2 ≡ digits z f n (suc a / 2) (b / 2) =
        omega (arith, low) in
      rw shifted (bit-digits i n (suc a / 2) (b / 2) (omega arith))

pub bit-bit_and : (a b i : ℕ) → bit (bit_and a b) i ≡ min (bit a i) (bit b i)
bit-bit_and a b i = rw (bit_and-bitwise a b) (
    bit-digits (λ b. 0) min (λ p q hp hq. omega arith) (λ b i. omega (arith, bit-zero i)) i a a b
      (omega arith))

pub bit-bit_or : (a b i : ℕ) → bit (bit_or a b) i ≡ max (bit a i) (bit b i)
bit-bit_or a b i =
    rw (bit_or-bitwise a b) (
      bit-digits (λ b. b) max (λ p q hp hq. omega arith) (λ b i. omega arith) i a a b (omega arith))

-- A mask that is not zero has a bit that is set; `fuel` bounds the mask.
some_bit_fuel : (fuel x : ℕ) → x ≤ fuel → x ≢ 0 → (i : ℕ) × (bit x i ≡ 1)
some_bit_fuel zero x h ne = absurd (ne (omega arith))
some_bit_fuel (suc fuel) x h ne = elim (ℕ_discrete (x % 2) 1) [
  | yes odd ↦ (0, odd)
  | no even ↦
      let (i, e) = some_bit_fuel fuel (x / 2) (omega arith) (λ z. ne (omega arith)) in (suc i, e)
]

pub some_bit : (x : ℕ) → x ≢ 0 → (i : ℕ) × (bit x i ≡ 1)
some_bit x ne = some_bit_fuel x x (omega arith) ne

pub zero_of_bits : (x : ℕ) → ((i : ℕ) → bit x i ≡ 0) → x ≡ 0
zero_of_bits x h = elim (ℕ_discrete x 0) [
  | yes e ↦ e
  | no ne ↦ let (i, e) = some_bit x ne in absurd (omega (arith, h i))
]

-- A mask is at most another when its bits are.
le_of_bits_fuel : (fuel x y : ℕ) → x ≤ fuel → ((i : ℕ) → bit x i ≤ bit y i) → x ≤ y
le_of_bits_fuel zero x y h le = omega arith
le_of_bits_fuel (suc fuel) x y h le =
    omega (arith, le 0, le_of_bits_fuel fuel (x / 2) (y / 2) (omega arith) (λ i. le (suc i)))

pub le_of_bits : (x y : ℕ) → ((i : ℕ) → bit x i ≤ bit y i) → x ≤ y
le_of_bits x y le = le_of_bits_fuel x x y (omega arith) le

-- Masks with the same bits are equal.
pub eq_of_bits : (x y : ℕ) → ((i : ℕ) → bit x i ≡ bit y i) → x ≡ y
eq_of_bits x y e =
    let le = le_of_bits x y (λ i. omega (arith, e i)) in
    let ge = le_of_bits y x (λ i. omega (arith, e i)) in omega (arith, le, ge)

-- `w` ones.
abbrev pub ones : ℕ → ℕ
ones zero = 0
ones (suc w) = 2 * ones w + 1

-- `~m` on a word of 32 bits.
abbrev pub bit_not32 : ℕ → ℕ
bit_not32 m = 2 ^ 32 - 1 - m

bit-ones-sub : (w m i : ℕ) → m ≤ ones w → i < w → bit (ones w - m) i ≡ 1 - bit m i
bit-ones-sub zero m i h lt = absurd (omega arith)
bit-ones-sub (suc w) m zero h lt = omega arith
bit-ones-sub (suc w) m (suc i) h lt =
    let half : (2 * ones w + 1 - m) / 2 ≡ ones w - m / 2 = omega arith in
    rw half (bit-ones-sub w (m / 2) i (omega arith) (omega arith))

pub bit-bit_not32 : (m i : ℕ) → m < 2 ^ 32 → i < 32 → bit (bit_not32 m) i ≡ 1 - bit m i
bit-bit_not32 m i h lt = bit-ones-sub 32 m i (omega arith) lt

-- A mask of `w` bits has no bit above them.
bit_above : (w x i : ℕ) → x ≤ ones w → w ≤ i → bit x i ≡ 0
bit_above zero x i h le = let e : x ≡ 0 = omega arith in rw e (bit-zero i)
bit_above (suc w) x zero h le = absurd (omega arith)
bit_above (suc w) x (suc i) h le = bit_above w (x / 2) i (omega arith) (omega arith)

pub bit_above32 : (x i : ℕ) → x < 2 ^ 32 → 32 ≤ i → bit x i ≡ 0
bit_above32 x i h le = bit_above 32 x i (omega arith) le

pub bit_and-le : (a b : ℕ) → bit_and a b ≤ a
bit_and-le a b = le_of_bits (bit_and a b) a (λ i. omega (arith, bit-bit_and a b i))

-- A mask without bits from 32 on is a word of 32 bits.
below32 : (x : ℕ) → ((i : ℕ) → 32 ≤ i → bit x i ≡ 0) → x ≤ ones 32
below32 x high = le_of_bits x (ones 32) (λ i. elim (ℕ_discrete (32 - i) 0) [
  | yes above ↦ omega (arith, high i (omega arith))
  | no below ↦
      omega (arith, bit-ones-sub 32 0 i (omega arith) (omega arith), bit-zero i, bit-le x i)
])

pub bit_or-lt : (a b : ℕ) → a < 2 ^ 32 → b < 2 ^ 32 → bit_or a b < 2 ^ 32
bit_or-lt a b p q =
    let high =
      below32 (bit_or a b)
        (λ i le. omega (arith, bit-bit_or a b i, bit_above32 a i p le, bit_above32 b i q le)) in
    omega (arith, high)
