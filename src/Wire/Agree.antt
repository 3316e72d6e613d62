-- ===== src/Wire/Agree.antt =====
-- The two switches of src/common/protocol.c against the structs of src/common/protocol.h: each case does
-- to a body what the fields of its type call for.
use under_flow.Base.{
  ℕ, ◌≤◌, ◌≡◌, refl, ap, sym, Bool, true, false, List, [], ◌∷◌, arith, length, All, ◌==◌,
  Bool-cases, inl, inr, ◌⊎◌, subst, if◌then◌else◌,
}
use under_flow.Wire.Codes.{SwapPart, word, keep, EndPart, stay, nul, case_of, swap_cases, end_cases}
use under_flow.Wire.{Host, swap_parts, end_parts, body_size}
use under_flow.Wire.Types.{pkt_res_login_fail}
use under_flow.Wire.Parts.{case_of-All, same_number}
use under_flow.Wire.Layout.{Field, structs, words_of, ends_of}

-- The same words are converted, and after the shorter list there are none.
abbrev same_words : List SwapPart → List SwapPart → Bool
same_words [] [] = true
same_words [] (keep ∷ qs) = same_words [] qs
same_words [] (word ∷ qs) = false
same_words (keep ∷ ps) [] = same_words ps []
same_words (word ∷ ps) [] = false
same_words (keep ∷ ps) (keep ∷ qs) = same_words ps qs
same_words (word ∷ ps) (word ∷ qs) = same_words ps qs
same_words (keep ∷ ps) (word ∷ qs) = false
same_words (word ∷ ps) (keep ∷ qs) = false

abbrev same_ends : List EndPart → List EndPart → Bool
same_ends [] [] = true
same_ends [] (stay ∷ qs) = same_ends [] qs
same_ends [] (nul ∷ qs) = false
same_ends (stay ∷ ps) [] = same_ends ps []
same_ends (nul ∷ ps) [] = false
same_ends (stay ∷ ps) (stay ∷ qs) = same_ends ps qs
same_ends (nul ∷ ps) (nul ∷ qs) = same_ends ps qs
same_ends (stay ∷ ps) (nul ∷ qs) = false
same_ends (nul ∷ ps) (stay ∷ qs) = false

pub swap_parts-same :
    (h : Host) (ps qs : List SwapPart) (bs : List ℕ)
    → same_words ps qs ≡ true
    → swap_parts h ps bs ≡ swap_parts h qs bs
unfolding swap_parts
swap_parts-same h [] [] bs s = refl
swap_parts-same h [] (keep ∷ qs) [] s = refl
swap_parts-same h [] (keep ∷ qs) (b ∷ bs) s = ap (λ r. b ∷ r) (swap_parts-same h [] qs bs s)
swap_parts-same h [] (word ∷ qs) bs s = cc
swap_parts-same h (keep ∷ ps) [] [] s = refl
swap_parts-same h (keep ∷ ps) [] (b ∷ bs) s = ap (λ r. b ∷ r) (swap_parts-same h ps [] bs s)
swap_parts-same h (word ∷ ps) [] bs s = cc
swap_parts-same h (keep ∷ ps) (keep ∷ qs) [] s = refl
swap_parts-same h (keep ∷ ps) (keep ∷ qs) (b ∷ bs) s =
    ap (λ r. b ∷ r) (swap_parts-same h ps qs bs s)
swap_parts-same h (word ∷ ps) (word ∷ qs) [] s = refl
swap_parts-same h (word ∷ ps) (word ∷ qs) (a ∷ []) s = refl
swap_parts-same h (word ∷ ps) (word ∷ qs) (a ∷ b ∷ []) s = refl
swap_parts-same h (word ∷ ps) (word ∷ qs) (a ∷ b ∷ c ∷ []) s = refl
swap_parts-same h (word ∷ ps) (word ∷ qs) (a ∷ b ∷ c ∷ d ∷ bs) s =
    rw (swap_parts-same h ps qs bs s) refl
swap_parts-same h (keep ∷ ps) (word ∷ qs) bs s = cc
swap_parts-same h (word ∷ ps) (keep ∷ qs) bs s = cc

pub end_parts-same_ends :
    (ps qs : List EndPart) (bs : List ℕ)
    → same_ends ps qs ≡ true
    → end_parts ps bs ≡ end_parts qs bs
unfolding end_parts
end_parts-same_ends [] [] bs s = refl
end_parts-same_ends [] (stay ∷ qs) [] s = refl
end_parts-same_ends [] (stay ∷ qs) (b ∷ bs) s = ap (λ r. b ∷ r) (end_parts-same_ends [] qs bs s)
end_parts-same_ends [] (nul ∷ qs) bs s = cc
end_parts-same_ends (stay ∷ ps) [] [] s = refl
end_parts-same_ends (stay ∷ ps) [] (b ∷ bs) s = ap (λ r. b ∷ r) (end_parts-same_ends ps [] bs s)
end_parts-same_ends (nul ∷ ps) [] bs s = cc
end_parts-same_ends (p ∷ ps) (q ∷ qs) [] s = refl
end_parts-same_ends (stay ∷ ps) (stay ∷ qs) (b ∷ bs) s =
    ap (λ r. b ∷ r) (end_parts-same_ends ps qs bs s)
end_parts-same_ends (nul ∷ ps) (nul ∷ qs) (b ∷ bs) s =
    ap (λ r. 0 ∷ r) (end_parts-same_ends ps qs bs s)
end_parts-same_ends (stay ∷ ps) (nul ∷ qs) (b ∷ bs) s = cc
end_parts-same_ends (nul ∷ ps) (stay ∷ qs) (b ∷ bs) s = cc

-- A type is the key of a case, or has the default.
case_of-key :
    {A : Type 0}
    → (R : ℕ → Type 0) (cases : List (ℕ × List A)) → All (λ c. R c.0) cases
    → (t : ℕ) → R t ⊎ (case_of t cases ≡ [])
unfolding case_of
case_of-key R [] all t = inr refl
case_of-key R ((k, ps) ∷ cases) all t = elim (Bool-cases (t == k)) [
  | inl same ↦ inl (subst R (same_number t k same) all.0)
  | inr other ↦ rw other (case_of-key R cases all.1 t)
]

-- What holds of the cases of two tables at each key of either, and of the two defaults, holds of every
-- type.
case_of-both :
    {A B : Type 0}
    → (P : ℕ → List A → List B → Type 0) → ((t : ℕ) → P t [] [])
    → (xs : List (ℕ × List A)) (ys : List (ℕ × List B))
    → All (λ c. P c.0 (case_of c.0 xs) (case_of c.0 ys)) xs
    → All (λ c. P c.0 (case_of c.0 xs) (case_of c.0 ys)) ys
    → (t : ℕ) → P t (case_of t xs) (case_of t ys)
case_of-both P default xs ys in_xs in_ys t =
    let R : ℕ → Type 0 = λ k. P k (case_of k xs) (case_of k ys) in
    elim (case_of-key R xs in_xs t) [
      | inl r ↦ r
      | inr no_x ↦ elim (case_of-key R ys in_ys t) [
        | inl r ↦ r
        | inr no_y ↦ rw no_x (rw no_y (default t))
      ]
    ]

-- Whether the cases of a type are those of its struct; of `PKT_RES_LOGIN_FAIL` they are not.
abbrev words_agree : ℕ → List Field → List SwapPart → Bool
words_agree t fs ps = if t == pkt_res_login_fail then true else same_words (words_of fs) ps

abbrev ends_agree : ℕ → List Field → List EndPart → Bool
ends_agree t fs es = if t == pkt_res_login_fail then true else same_ends (ends_of fs) es

past_test : (b c : Bool) → (if b then true else c) ≡ true → b ≡ false → c ≡ true
past_test false c agree other = agree
past_test true c agree other = cc

structs-swap_cases :
    All (λ c. words_agree c.0 (case_of c.0 structs) (case_of c.0 swap_cases) ≡ true) structs
unfolding structs swap_cases case_of
structs-swap_cases = ground arith

swap_cases-structs :
    All (λ c. words_agree c.0 (case_of c.0 structs) (case_of c.0 swap_cases) ≡ true) swap_cases
unfolding structs swap_cases case_of
swap_cases-structs = ground arith

structs-end_cases :
    All (λ c. ends_agree c.0 (case_of c.0 structs) (case_of c.0 end_cases) ≡ true) structs
unfolding structs end_cases case_of
structs-end_cases = ground arith

end_cases-structs :
    All (λ c. ends_agree c.0 (case_of c.0 structs) (case_of c.0 end_cases) ≡ true) end_cases
unfolding structs end_cases case_of
end_cases-structs = ground arith

default_agrees : (t : ℕ) → (words_agree t [] [] ≡ true) × (ends_agree t [] [] ≡ true)
default_agrees t = ground arith

-- `swap_packet_endian` converts the numbers of the type's struct and nothing else.
pub swap_parts-words_of :
    (h : Host) (t : ℕ) (bs : List ℕ)
    → (t == pkt_res_login_fail) ≡ false
    → swap_parts h (case_of t swap_cases) bs ≡ swap_parts h (words_of (case_of t structs)) bs
swap_parts-words_of h t bs other =
    let agree =
      case_of-both (λ k fs ps. words_agree k fs ps ≡ true) (λ k. (default_agrees k).0) structs
        swap_cases structs-swap_cases swap_cases-structs t in
    sym (
      swap_parts-same h (words_of (case_of t structs)) (case_of t swap_cases) bs
        (past_test _ _ agree other))

-- `enforce_null_termination` clears the last byte of each text of the type's struct and nothing else.
pub end_parts-ends_of :
    (t : ℕ) (bs : List ℕ)
    → (t == pkt_res_login_fail) ≡ false
    → end_parts (case_of t end_cases) bs ≡ end_parts (ends_of (case_of t structs)) bs
end_parts-ends_of t bs other =
    let agree =
      case_of-both (λ k fs es. ends_agree k fs es ≡ true) (λ k. (default_agrees k).1) structs
        end_cases structs-end_cases end_cases-structs t in
    sym (
      end_parts-same_ends (ends_of (case_of t structs)) (case_of t end_cases) bs
        (past_test _ _ agree other))

-- The structs fit into the union.
structs_fit : All (λ c. length (ends_of c.1) ≤ body_size) structs
unfolding structs
structs_fit = ground arith

pub ends_of-le : (t : ℕ) → length (ends_of (case_of t structs)) ≤ body_size
ends_of-le =
    case_of-All (λ _ fs. length (ends_of fs) ≤ body_size) (λ _. omega arith) structs structs_fit
