-- ===== src/Wire/Tests.antt =====
-- A packet of src/common/protocol.c on its way between two hosts.
use under_flow.Base.{◌++◌, ℕ, arith, List, ◌≡◌, refl, some, ◌∷◌, replicate, length, OnSome}
use under_flow.Wire.{
  little, big, WirePacket, load, body_size, packet_send, packet_recv, enforce_null_termination,
}
use under_flow.Wire.Codes.{case_of}
use under_flow.Wire.Layout.{structs, words_of, ends_of}
use under_flow.Wire.Trips.{recv-send}
use under_flow.Wire.Texts.{IsEnded, recv-IsEnded}
use under_flow.Wire.Hosts.{read, interop}

-- `PKT_EVT_MARKET_REMOVE`, 302, of document 5, on a little-endian host.
abbrev removal : WirePacket
removal = record {
  type = record { b0 = 46; b1 = 1; b2 = 0; b3 = 0 };
  session_id = record { b0 = 0; b1 = 0; b2 = 0; b3 = 0 };
  body = 5 ∷ replicate 539 0;
}

recv-send_example :
    packet_recv little (packet_send little removal) ≡ some (enforce_null_termination little removal)
recv-send_example = recv-send little removal refl

-- `PKT_REQ_CHAT`, 101, of more bytes than the text holds.
abbrev long_chat : List ℕ
long_chat = 0 ∷ 0 ∷ 0 ∷ 101 ∷ replicate 600 65

abbrev got_chat : WirePacket
got_chat = record {
  type = record { b0 = 101; b1 = 0; b2 = 0; b3 = 0 };
  session_id = record { b0 = 65; b1 = 65; b2 = 65; b3 = 65 };
  body = replicate 255 65 ++ (0 ∷ replicate 284 65);
}

recv-IsEnded_example :
    (length got_chat.body ≡ body_size)
    × IsEnded (ends_of (case_of (load little got_chat.type) structs)) got_chat.body
unfolding packet_recv case_of
recv-IsEnded_example =
    recv-IsEnded little long_chat got_chat refl (λ same. absurd (omega (arith, same)))

interop_example :
    OnSome
      (λ (got : WirePacket).
        (load big got.type ≡ 302)
        × (load big got.session_id ≡ 0)
        × (read big (words_of (case_of 302 structs)) got.body
            ≡ read little
                (words_of (case_of 302 structs))
                (enforce_null_termination little removal).body))
      (packet_recv big (packet_send little removal))
interop_example = interop little big removal refl (λ same. absurd (omega (arith, same)))
