-- ===== src/Wire/Parts.antt =====
-- The two loops over the bytes of a body in src/common/protocol.c, on any list of parts.
use under_flow.Base.{
  ℕ, zero, suc, ◌≡◌, refl, ap, true, List, [], ◌∷◌, arith, All, length, Bool-cases, inl, inr, ◌==◌,
  subst,
}
use under_flow.Wire.Codes.{SwapPart, word, keep, EndPart, stay, nul, case_of}
use under_flow.Wire.{Host, little, big, Word, ntohl, swap_parts, end_parts, fill}

ntohl_twice : (h : Host) (w : Word) → ntohl h (ntohl h w) ≡ w
ntohl_twice little w = refl
ntohl_twice big w = refl

pub swap_parts_twice :
    (h : Host) (ps : List SwapPart) (bs : List ℕ) → swap_parts h ps (swap_parts h ps bs) ≡ bs
unfolding swap_parts
swap_parts_twice h [] bs = refl
swap_parts_twice h (p ∷ ps) [] = refl
swap_parts_twice h (keep ∷ ps) (b ∷ bs) = ap (λ r. b ∷ r) (swap_parts_twice h ps bs)
swap_parts_twice h (word ∷ ps) (a ∷ []) = refl
swap_parts_twice h (word ∷ ps) (a ∷ b ∷ []) = refl
swap_parts_twice h (word ∷ ps) (a ∷ b ∷ c ∷ []) = refl
swap_parts_twice little (word ∷ ps) (a ∷ b ∷ c ∷ d ∷ bs) =
    ap (λ r. a ∷ b ∷ c ∷ d ∷ r) (swap_parts_twice little ps bs)
swap_parts_twice big (word ∷ ps) (a ∷ b ∷ c ∷ d ∷ bs) =
    ap (λ r. a ∷ b ∷ c ∷ d ∷ r) (swap_parts_twice big ps bs)

pub length-swap_parts :
    (h : Host) (ps : List SwapPart) (bs : List ℕ) → length (swap_parts h ps bs) ≡ length bs
unfolding swap_parts
length-swap_parts h [] bs = refl
length-swap_parts h (p ∷ ps) [] = refl
length-swap_parts h (keep ∷ ps) (b ∷ bs) = ap suc (length-swap_parts h ps bs)
length-swap_parts h (word ∷ ps) (a ∷ []) = refl
length-swap_parts h (word ∷ ps) (a ∷ b ∷ []) = refl
length-swap_parts h (word ∷ ps) (a ∷ b ∷ c ∷ []) = refl
length-swap_parts h (word ∷ ps) (a ∷ b ∷ c ∷ d ∷ bs) = omega (arith, length-swap_parts h ps bs)

pub end_parts_twice :
    (ps : List EndPart) (bs : List ℕ) → end_parts ps (end_parts ps bs) ≡ end_parts ps bs
unfolding end_parts
end_parts_twice [] bs = refl
end_parts_twice (p ∷ ps) [] = refl
end_parts_twice (stay ∷ ps) (b ∷ bs) = ap (λ r. b ∷ r) (end_parts_twice ps bs)
end_parts_twice (nul ∷ ps) (b ∷ bs) = ap (λ r. 0 ∷ r) (end_parts_twice ps bs)

pub length-end_parts : (ps : List EndPart) (bs : List ℕ) → length (end_parts ps bs) ≡ length bs
unfolding end_parts
length-end_parts [] bs = refl
length-end_parts (p ∷ ps) [] = refl
length-end_parts (stay ∷ ps) (b ∷ bs) = ap suc (length-end_parts ps bs)
length-end_parts (nul ∷ ps) (b ∷ bs) = ap suc (length-end_parts ps bs)

pub fill_all : (n : ℕ) (bs : List ℕ) → length bs ≡ n → fill n bs ≡ bs
fill_all zero [] h = refl
fill_all zero (b ∷ bs) h = absurd (omega arith)
fill_all (suc n) [] h = absurd (omega arith)
fill_all (suc n) (b ∷ bs) h = ap (λ r. b ∷ r) (fill_all n bs (omega arith))

pub length-fill : (n : ℕ) (bs : List ℕ) → length (fill n bs) ≡ n
length-fill zero bs = refl
length-fill (suc n) [] = ap suc (length-fill n [])
length-fill (suc n) (b ∷ bs) = ap suc (length-fill n bs)

pub same_number : (t k : ℕ) → (t == k) ≡ true → k ≡ t
same_number t k h = ground arith

-- What holds of each case of a switch and of its default holds of the case of every type.
pub case_of-All :
    {A : Type 0}
    → (P : ℕ → List A → Type 0) → ((t : ℕ) → P t [])
    → (cases : List (ℕ × List A)) → All (λ c. P c.0 c.1) cases
    → (t : ℕ) → P t (case_of t cases)
unfolding case_of
case_of-All P default [] all t = default t
case_of-All P default ((k, ps) ∷ cases) all t = elim (Bool-cases (t == k)) [
  | inl same ↦ rw same (subst (λ j. P j ps) (same_number t k same) all.0)
  | inr other ↦ rw other (case_of-All P default cases all.1 t)
]
