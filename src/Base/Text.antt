-- ===== src/Base/Text.antt =====
-- C strings as lists of bytes without the final NUL, with the copies and comparisons of <string.h>.
use Prim.Native.Nat.{ℕ, ◌+◌, ◌/◌, ◌%◌}
use Prim.Native.Char.{code}
use Prim.Native.String.{String}
use mathlib.Core.Path.{◌≡◌, refl}
use mathlib.Core.Logic.{◌↔◌}
use mathlib.Core.Bool.{Bool, true, false, ◌&&◌}
use mathlib.Core.List.{List, [], ◌∷◌, ◌++◌}
use native.Mathlib.Omega.{arith}
use under_flow.Base.Tests.{◌==◌, ltb, if◌then◌else◌}
use under_flow.Base.Lists.{take}

abbrev pub Text : Type 0
Text = List ℕ

-- strcmp(a, b) == 0
unfoldable pub same_text : Text → Text → Bool
same_text [] [] = true
same_text [] (y ∷ ys) = false
same_text (x ∷ xs) [] = false
same_text (x ∷ xs) (y ∷ ys) = (x == y) && same_text xs ys

same_text_refl : (a : Text) → same_text a a ≡ true
unfolding same_text
same_text_refl [] = refl
same_text_refl (x ∷ xs) = ground (arith, same_text_refl xs)

same_text-eq : (a b : Text) → same_text a b ≡ true → a ≡ b
unfolding same_text
same_text-eq [] [] h = refl
same_text-eq [] (y ∷ ys) h = cc
same_text-eq (x ∷ xs) [] h = cc
same_text-eq (x ∷ xs) (y ∷ ys) h = ground (arith, same_text-eq xs ys)

-- strncpy(dst, src, n) into a buffer whose last byte is NUL.
abbrev pub strncpy : ℕ → Text → Text
strncpy n s = take n s

-- strncmp(a, b, n) == 0
unfoldable pub strncmp_eq : ℕ → Text → Text → Bool
strncmp_eq n a b = same_text (take n a) (take n b)

-- `buf[0] != 0`
abbrev pub is_set : Text → Bool
is_set [] = false
is_set (x ∷ xs) = true

-- The UTF-8 bytes of a code point of the basic plane.
abbrev utf8_code : ℕ → Text
utf8_code c =
    if ltb c 0x80
    then c ∷ []
    else if ltb c 0x800
    then (0xc0 + c / 64) ∷ (0x80 + c % 64) ∷ []
    else (0xe0 + c / 4096) ∷ (0x80 + c / 64 % 64) ∷ (0x80 + c % 64) ∷ []

-- The bytes of a literal in the source, which is UTF-8.
abbrev pub utf8 : String → Text
utf8 String.[] = []
utf8 (String.◌∷◌ c s) = utf8_code (code c) ++ utf8 s

utf8_example : utf8 "바a" ≡ 0xeb ∷ 0xb0 ∷ 0x94 ∷ 0x61 ∷ []
utf8_example = refl

-- The bytes of an ASCII literal.
abbrev pub bytes : String → Text
bytes String.[] = []
bytes (String.◌∷◌ c s) = code c ∷ bytes s

pub strncmp_eq_iff : (n : ℕ) (a b : Text) → (strncmp_eq n a b ≡ true) ↔ (take n a ≡ take n b)
unfolding strncmp_eq
strncmp_eq_iff n a b = (same_text-eq (take n a) (take n b), λ e. rw e (same_text_refl (take n b)))

-- Texts that agree with one another agree with the same texts.
pub strncmp_eq_cong :
    (n : ℕ) (a b c : Text) → strncmp_eq n a b ≡ true → strncmp_eq n a c ≡ strncmp_eq n b c
unfolding strncmp_eq
strncmp_eq_cong n a b c h = rw (same_text-eq (take n a) (take n b) h)

same_text_comm : (a b : Text) → same_text a b ≡ same_text b a
unfolding same_text
same_text_comm [] [] = refl
same_text_comm [] (y ∷ b) = refl
same_text_comm (x ∷ a) [] = refl
same_text_comm (x ∷ a) (y ∷ b) = ground (arith, same_text_comm a b)

pub strncmp_eq_comm : (n : ℕ) (a b : Text) → strncmp_eq n a b ≡ strncmp_eq n b a
unfolding strncmp_eq
strncmp_eq_comm n a b = same_text_comm (take n a) (take n b)

pub same_text_iff : (a b : Text) → (same_text a b ≡ true) ↔ (a ≡ b)
same_text_iff a b = (same_text-eq a b, λ e. rw e (same_text_refl b))
