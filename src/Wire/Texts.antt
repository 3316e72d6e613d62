-- ===== src/Wire/Texts.antt =====
-- The texts of a received packet, in src/common/protocol.c: each ends within its buffer.
use under_flow.Base.{
  subst, some, ℕ, zero, suc, ◌+◌, ◌≤◌, ◌≡◌, refl, ◌∙◌, List, [], ◌∷◌, arith, length, All, OnSome,
}
use under_flow.Wire.Codes.{SwapPart, word, keep, EndPart, stay, nul, case_of, swap_cases, end_cases}
use under_flow.Wire.{
  swap_parts, ntohl, drop, Host, WirePacket, load, body_size, fill, end_parts, as_packet,
  packet_recv, enforce_null_termination, swap_packet_endian,
}
use under_flow.Wire.Types.{pkt_res_login_fail}
use under_flow.Wire.Layout.{structs, ends_of}
use under_flow.Wire.Agree.{end_parts-ends_of, ends_of-le}
use under_flow.Wire.Parts.{length-end_parts, length-swap_parts, length-fill, case_of-All}

-- The bytes that a case of `swap_packet_endian` reaches.
abbrev span : List SwapPart → ℕ
span [] = 0
span (keep ∷ ps) = suc (span ps)
span (word ∷ ps) = 4 + span ps

swaps_fit : All (λ c. span c.1 ≤ body_size) swap_cases
unfolding swap_cases
swaps_fit = ground arith

ends_fit : All (λ c. length c.1 ≤ body_size) end_cases
unfolding end_cases
ends_fit = ground arith

-- Both switches stay within the union: no case of theirs reaches past its size, whatever the type.
pub cases_fit :
    (t : ℕ) → (span (case_of t swap_cases) ≤ body_size) × (length (case_of t end_cases) ≤ body_size)
cases_fit t = (
  case_of-All (λ _ ps. span ps ≤ body_size) (λ _. omega arith) swap_cases swaps_fit t,
  case_of-All (λ _ ps. length ps ≤ body_size) (λ _. omega arith) end_cases ends_fit t,
)

-- Every byte that a case clears is there, and 0.
abbrev pub IsEnded : List EndPart → List ℕ → Type 0
IsEnded [] bs = Unit
IsEnded (p ∷ ps) [] = ⊥
IsEnded (stay ∷ ps) (b ∷ bs) = IsEnded ps bs
IsEnded (nul ∷ ps) (b ∷ bs) = (b ≡ 0) × IsEnded ps bs

pub end_parts-IsEnded :
    (ps : List EndPart) (bs : List ℕ) → length ps ≤ length bs → IsEnded ps (end_parts ps bs)
unfolding end_parts
end_parts-IsEnded [] bs h = tt
end_parts-IsEnded (p ∷ ps) [] h = absurd (omega arith)
end_parts-IsEnded (stay ∷ ps) (b ∷ bs) h = end_parts-IsEnded ps bs (omega (arith, h))
end_parts-IsEnded (nul ∷ ps) (b ∷ bs) h = (refl, end_parts-IsEnded ps bs (omega (arith, h)))

length-drop : (n m : ℕ) (bs : List ℕ) → length bs ≡ n + m → length (drop n bs) ≡ m
length-drop zero m bs h = omega (arith, h)
length-drop (suc n) m [] h = absurd (omega arith)
length-drop (suc n) m (b ∷ bs) h = length-drop n m bs (omega arith)

-- A body of the size of the union with the texts of its case ended.
abbrev IsWhole : Host → WirePacket → Type 0
IsWhole h pkt =
    (length pkt.body ≡ body_size)
    × (rest : List ℕ) × (length rest ≡ body_size)
    × (pkt.body ≡ end_parts (case_of (load h pkt.type) end_cases) rest)

recv-IsWhole : (h : Host) (bs : List ℕ) → OnSome (IsWhole h) (packet_recv h bs)
unfolding packet_recv enforce_null_termination swap_packet_endian
recv-IsWhole h [] = tt
recv-IsWhole h (b ∷ bs) =
    let memory = fill (8 + body_size) (b ∷ bs) in
    let t = load h (ntohl h (as_packet memory).type) in
    let body = swap_parts h (case_of t swap_cases) (drop 8 memory) in
    let size : length body ≡ body_size =
      length-swap_parts h (case_of t swap_cases) (drop 8 memory)
      ∙ length-drop 8 body_size memory (length-fill (8 + body_size) (b ∷ bs)) in
    (length-end_parts (case_of t end_cases) body ∙ size, body, size, refl)

-- Whatever arrives, whole or cut off: a packet that `packet_recv` gives has the size of the struct, and
-- unless it is a `PKT_RES_LOGIN_FAIL`, each text of the struct of its type ends with a NUL byte within
-- its buffer.
pub recv-IsEnded :
    (h : Host) (bs : List ℕ) (pkt : WirePacket)
    → packet_recv h bs ≡ some pkt
    → ¬ (load h pkt.type ≡ pkt_res_login_fail)
    → (length pkt.body ≡ body_size) × IsEnded (ends_of (case_of (load h pkt.type) structs)) pkt.body
recv-IsEnded h bs pkt got other =
    let t = load h pkt.type in
    let (sized, rest, size, same) = subst (OnSome (IsWhole h)) got (recv-IsWhole h bs) in
    (
      sized,
      rw (same ∙ end_parts-ends_of t rest (ground arith)) (
          end_parts-IsEnded (ends_of (case_of t structs)) rest (omega (arith, size, ends_of-le t))),
    )
