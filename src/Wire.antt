-- ===== src/Wire.antt =====
-- src/common/protocol.c: the packets as the bytes of the packed struct, their conversion to network byte
-- order and back, and the NUL bytes that end their texts. The host's byte order is a parameter; `ntohl`
-- and `htonl` reverse the bytes of a word on a little-endian host and leave it on a big-endian one.
pub mod Types
pub mod Codes
pub mod Parts
pub mod Labels
pub mod Layout
pub mod Agree
pub mod Trips
pub mod Texts
pub mod Hosts
mod Tests
use under_flow.Base.{
  ℕ, zero, suc, ◌+◌, ◌-◌, ◌*◌, Bool, true, false, Option, none, some, List, [], ◌∷◌, ◌++◌,
  replicate,
}
use under_flow.Wire.Codes.{SwapPart, word, keep, EndPart, stay, nul, case_of, swap_cases, end_cases}

pub data Host : Type 0 where
  little big : Host

-- The four bytes of an int32_t or uint32_t, as they lie in memory.
pub record Word : Type 0 where
  pub b0 : ℕ
  pub b1 : ℕ
  pub b2 : ℕ
  pub b3 : ℕ

abbrev pub ntohl : Host → Word → Word
ntohl little w = record { b0 = w.b3; b1 = w.b2; b2 = w.b1; b3 = w.b0 }
ntohl big w = w

-- The number that the host reads in a word.
abbrev pub load : Host → Word → ℕ
load little w = w.b0 + 256 * (w.b1 + 256 * (w.b2 + 256 * w.b3))
load big w = w.b3 + 256 * (w.b2 + 256 * (w.b1 + 256 * w.b0))

-- The packed struct: two words, and the bytes of the union.
pub record WirePacket : Type 0 where
  pub type : Word
  pub session_id : Word
  pub body : List ℕ

-- The size of the union: that of `inven_info`.
abbrev pub body_size : ℕ
body_size = 540

abbrev pub put_word : Word → List ℕ → List ℕ
put_word w bs = w.b0 ∷ w.b1 ∷ w.b2 ∷ w.b3 ∷ bs

-- The assignments of a case of `swap_packet_endian`, in the order of the fields.
unfoldable pub swap_parts : Host → List SwapPart → List ℕ → List ℕ
swap_parts h [] bs = bs
swap_parts h (p ∷ ps) [] = []
swap_parts h (keep ∷ ps) (b ∷ bs) = b ∷ swap_parts h ps bs
swap_parts h (word ∷ ps) (a ∷ []) = a ∷ []
swap_parts h (word ∷ ps) (a ∷ b ∷ []) = a ∷ b ∷ []
swap_parts h (word ∷ ps) (a ∷ b ∷ c ∷ []) = a ∷ b ∷ c ∷ []
swap_parts h (word ∷ ps) (a ∷ b ∷ c ∷ d ∷ bs) =
    put_word (ntohl h (record { b0 = a; b1 = b; b2 = c; b3 = d })) (swap_parts h ps bs)

-- The case is that of the type as the host reads it.
unfoldable pub swap_packet_endian : Host → WirePacket → WirePacket
unfolding swap_parts swap_cases
swap_packet_endian h pkt = record pkt {
  body = swap_parts h (case_of (load h pkt.type) swap_cases) pkt.body;
}

unfoldable pub end_parts : List EndPart → List ℕ → List ℕ
end_parts [] bs = bs
end_parts (p ∷ ps) [] = []
end_parts (stay ∷ ps) (b ∷ bs) = b ∷ end_parts ps bs
end_parts (nul ∷ ps) (b ∷ bs) = 0 ∷ end_parts ps bs

unfoldable pub enforce_null_termination : Host → WirePacket → WirePacket
unfolding end_parts end_cases
enforce_null_termination h pkt = record pkt {
  body = end_parts (case_of (load h pkt.type) end_cases) pkt.body;
}

-- The bytes that `packet_send` hands to `send`.
unfoldable pub packet_send : Host → WirePacket → List ℕ
unfolding swap_packet_endian enforce_null_termination
packet_send h pkt =
    let send_pkt = swap_packet_endian h (enforce_null_termination h pkt) in
    put_word (ntohl h send_pkt.type) (put_word (ntohl h send_pkt.session_id) send_pkt.body)

-- `memset` and `recv` into the bytes of a struct: what did not arrive stays 0, what is more stays in the
-- socket.
abbrev pub fill : ℕ → List ℕ → List ℕ
fill zero bs = []
fill (suc n) [] = 0 ∷ fill n []
fill (suc n) (b ∷ bs) = b ∷ fill n bs

abbrev byte_at : ℕ → List ℕ → ℕ
byte_at i [] = 0
byte_at zero (b ∷ bs) = b
byte_at (suc i) (b ∷ bs) = byte_at i bs

abbrev word_at : ℕ → List ℕ → Word
word_at i bs = record {
  b0 = byte_at i bs;
  b1 = byte_at (i + 1) bs;
  b2 = byte_at (i + 2) bs;
  b3 = byte_at (i + 3) bs;
}

abbrev pub drop : ℕ → List ℕ → List ℕ
drop zero bs = bs
drop (suc n) [] = []
drop (suc n) (b ∷ bs) = drop n bs

-- The struct whose memory the bytes are.
abbrev pub as_packet : List ℕ → WirePacket
as_packet bs = record { type = word_at 0 bs; session_id = word_at 4 bs; body = drop 8 bs }

-- `packet_recv` on the bytes that arrive before the connection ends; `none` is a return value of 0 or
-- less.
unfoldable pub packet_recv : Host → List ℕ → Option WirePacket
unfolding swap_packet_endian enforce_null_termination
packet_recv h [] = none
packet_recv h (b ∷ bs) =
    let pkt = as_packet (fill (8 + body_size) (b ∷ bs)) in
    let header = record pkt { type = ntohl h pkt.type; session_id = ntohl h pkt.session_id } in
    some (enforce_null_termination h (swap_packet_endian h header))
