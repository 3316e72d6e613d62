-- ===== src/Wire/Hosts.antt =====
-- The conversion of src/common/protocol.c between hosts of different byte orders: the receiver reads the
-- numbers that the sender wrote.
use under_flow.Base.{
  ◌≤◌, OnSome, ℕ, ◌≡◌, refl, ◌∙◌, ap, sym, Bool, true, false, List, [], ◌∷◌, arith, length, All,
}
use under_flow.Wire.Codes.{SwapPart, word, keep, EndPart, stay, nul, case_of, swap_cases, end_cases}
use under_flow.Wire.{
  Host, little, big, Word, WirePacket, ntohl, load, body_size, swap_parts, end_parts, packet_send,
  packet_recv, swap_packet_endian, enforce_null_termination,
}
use under_flow.Wire.Types.{pkt_res_login_fail}
use under_flow.Wire.Layout.{structs, words_of}
use under_flow.Wire.Agree.{swap_parts-words_of}
use under_flow.Wire.Parts.{case_of-All}
use under_flow.Wire.Texts.{IsEnded, end_parts-IsEnded, cases_fit}
use under_flow.Wire.Trips.{recv_whole, sent_size}

-- What a host reads in a body: the numbers at the words of its parts, and the bytes beside them.
abbrev pub read : Host → List SwapPart → List ℕ → List ℕ
read h [] bs = bs
read h (p ∷ ps) [] = []
read h (keep ∷ ps) (b ∷ bs) = b ∷ read h ps bs
read h (word ∷ ps) (a ∷ []) = a ∷ []
read h (word ∷ ps) (a ∷ b ∷ []) = a ∷ b ∷ []
read h (word ∷ ps) (a ∷ b ∷ c ∷ []) = a ∷ b ∷ c ∷ []
read h (word ∷ ps) (a ∷ b ∷ c ∷ d ∷ bs) =
    load h (record { b0 = a; b1 = b; b2 = c; b3 = d }) ∷ read h ps bs

load-ntohl : (from to : Host) (w : Word) → load to (ntohl to (ntohl from w)) ≡ load from w
load-ntohl little little w = refl
load-ntohl little big w = refl
load-ntohl big little w = refl
load-ntohl big big w = refl

read-swap_parts :
    (from to : Host) (ps : List SwapPart) (bs : List ℕ)
    → read to ps (swap_parts to ps (swap_parts from ps bs)) ≡ read from ps bs
unfolding swap_parts
read-swap_parts from to [] bs = refl
read-swap_parts from to (p ∷ ps) [] = refl
read-swap_parts from to (keep ∷ ps) (b ∷ bs) = ap (λ r. b ∷ r) (read-swap_parts from to ps bs)
read-swap_parts from to (word ∷ ps) (a ∷ []) = refl
read-swap_parts from to (word ∷ ps) (a ∷ b ∷ []) = refl
read-swap_parts from to (word ∷ ps) (a ∷ b ∷ c ∷ []) = refl
read-swap_parts from to (word ∷ ps) (a ∷ b ∷ c ∷ d ∷ bs) =
    let w : Word = record { b0 = a; b1 = b; b2 = c; b3 = d } in
    ap (λ n. n ∷ read to ps (swap_parts to ps (swap_parts from ps bs))) (load-ntohl from to w)
    ∙ ap (λ r. load from w ∷ r) (read-swap_parts from to ps bs)

-- No byte that a case of one switch clears is in a word that the other converts.
abbrev apart : List SwapPart → List EndPart → Bool
apart [] es = true
apart (p ∷ ps) [] = true
apart (keep ∷ ps) (e ∷ es) = apart ps es
apart (word ∷ ps) (stay ∷ stay ∷ stay ∷ stay ∷ es) = apart ps es
apart (word ∷ ps) es = false

each_apart : All (λ c. apart (words_of c.1) (case_of c.0 end_cases) ≡ true) structs
unfolding structs end_cases case_of
each_apart = ground arith

structs-apart : (t : ℕ) → apart (words_of (case_of t structs)) (case_of t end_cases) ≡ true
structs-apart =
    case_of-All (λ t fs. apart (words_of fs) (case_of t end_cases) ≡ true) (λ _. refl) structs
      each_apart

-- The conversion leaves the ends of the texts.
swap_parts-IsEnded :
    (h : Host) (ps : List SwapPart) (es : List EndPart) (bs : List ℕ)
    → apart ps es ≡ true
    → IsEnded es bs
    → IsEnded es (swap_parts h ps bs)
unfolding swap_parts
swap_parts-IsEnded h [] es bs free e = e
swap_parts-IsEnded h (p ∷ ps) [] bs free e = tt
swap_parts-IsEnded h (p ∷ ps) (x ∷ es) [] free e = e
swap_parts-IsEnded h (keep ∷ ps) (stay ∷ es) (b ∷ bs) free e = swap_parts-IsEnded h ps es bs free e
swap_parts-IsEnded h (keep ∷ ps) (nul ∷ es) (b ∷ bs) free e =
    (e.0, swap_parts-IsEnded h ps es bs free e.1)
swap_parts-IsEnded h (word ∷ ps) (nul ∷ es) (b ∷ bs) free e = cc
swap_parts-IsEnded h (word ∷ ps) (stay ∷ []) (b ∷ bs) free e = cc
swap_parts-IsEnded h (word ∷ ps) (stay ∷ nul ∷ es) (b ∷ bs) free e = cc
swap_parts-IsEnded h (word ∷ ps) (stay ∷ stay ∷ []) (b ∷ bs) free e = cc
swap_parts-IsEnded h (word ∷ ps) (stay ∷ stay ∷ nul ∷ es) (b ∷ bs) free e = cc
swap_parts-IsEnded h (word ∷ ps) (stay ∷ stay ∷ stay ∷ []) (b ∷ bs) free e = cc
swap_parts-IsEnded h (word ∷ ps) (stay ∷ stay ∷ stay ∷ nul ∷ es) (b ∷ bs) free e = cc
swap_parts-IsEnded h (word ∷ ps) (stay ∷ stay ∷ stay ∷ stay ∷ es) (a ∷ []) free e = e
swap_parts-IsEnded h (word ∷ ps) (stay ∷ stay ∷ stay ∷ stay ∷ es) (a ∷ b ∷ []) free e = e
swap_parts-IsEnded h (word ∷ ps) (stay ∷ stay ∷ stay ∷ stay ∷ es) (a ∷ b ∷ c ∷ []) free e = e
swap_parts-IsEnded h (word ∷ ps) (stay ∷ stay ∷ stay ∷ stay ∷ es) (a ∷ b ∷ c ∷ d ∷ bs) free e =
    swap_parts-IsEnded h ps es bs free e

-- Clearing what is clear changes nothing.
end_parts-same : (es : List EndPart) (bs : List ℕ) → IsEnded es bs → end_parts es bs ≡ bs
unfolding end_parts
end_parts-same [] bs e = refl
end_parts-same (p ∷ es) [] e = refl
end_parts-same (stay ∷ es) (b ∷ bs) e = ap (λ r. b ∷ r) (end_parts-same es bs e)
end_parts-same (nul ∷ es) (b ∷ bs) e =
    ap (λ r. 0 ∷ r) (end_parts-same es bs e.1) ∙ ap (λ x. x ∷ bs) (sym e.0)

read-body :
    (from to : Host) (ps : List SwapPart) (es : List EndPart) (body : List ℕ)
    → apart ps es ≡ true
    → length es ≤ length body
    → read to ps (end_parts es (swap_parts to ps (swap_parts from ps (end_parts es body))))
      ≡ read from ps (end_parts es body)
read-body from to ps es body free room =
    let ended = end_parts-IsEnded es body room in
    let sent = swap_parts-IsEnded from ps es (end_parts es body) free ended in
    let got = swap_parts-IsEnded to ps es (swap_parts from ps (end_parts es body)) free sent in
    ap (read to ps) (end_parts-same es _ got) ∙ read-swap_parts from to ps (end_parts es body)

-- Between hosts of any byte orders, the receiver reads what the sender wrote: the type, the session, and
-- each number of the struct of the packet's type, and the bytes beside them, with the texts ended. The
-- type is any but `PKT_RES_LOGIN_FAIL`.
pub interop :
    (from to : Host) (pkt : WirePacket)
    → length pkt.body ≡ body_size
    → ¬ (load from pkt.type ≡ pkt_res_login_fail)
    → let parts = words_of (case_of (load from pkt.type) structs) in
      OnSome
        (λ (got : WirePacket).
          (load to got.type ≡ load from pkt.type)
          × (load to got.session_id ≡ load from pkt.session_id)
          × (read to parts got.body ≡ read from parts (enforce_null_termination from pkt).body))
        (packet_recv to (packet_send from pkt))
unfolding packet_send swap_packet_endian enforce_null_termination
interop from to pkt full other =
    let t = load from pkt.type in
    let ps = case_of t swap_cases in
    let es = case_of t end_cases in
    let ws = words_of (case_of t structs) in
    let same = load-ntohl from to pkt.type in
    let room : length es ≤ length pkt.body = omega (arith, full, (cases_fit t).1) in
    let converted = λ (h : Host) (bs : List ℕ). swap_parts-words_of h t bs (ground arith) in
    rw
      (recv_whole to (ntohl from pkt.type) (ntohl from pkt.session_id)
        (swap_parts from ps (end_parts es pkt.body)) (sent_size from pkt full))
      (
        same,
        load-ntohl from to pkt.session_id,
        rw same (
            rw
              (
                converted to (swap_parts from ps (end_parts es pkt.body)),
                converted from (end_parts es pkt.body),
              )
              (read-body from to ws es pkt.body (structs-apart t) room)),
      )
