-- ===== src/Wire/Trips.antt =====
-- What `packet_recv` of src/common/protocol.c makes of the bytes of `packet_send`.
use under_flow.Base.{ℕ, ◌≡◌, ◌∙◌, ap, some, List, length}
use under_flow.Wire.{
  little, big, swap_cases, end_cases, load, ntohl, put_word, case_of, end_parts, Word, Host,
  WirePacket, body_size, swap_packet_endian, enforce_null_termination, packet_send, packet_recv,
}
use under_flow.Wire.Parts.{
  swap_parts_twice, length-swap_parts, end_parts_twice, length-end_parts, fill_all,
}

-- A whole packet is read as it lies in memory, with its header converted.
pub recv_whole :
    (h : Host) (type session_id : Word) (body : List ℕ)
    → length body ≡ body_size
    → packet_recv h (put_word type (put_word session_id body))
      ≡ some (
          enforce_null_termination h (
            swap_packet_endian h
              (record { type = ntohl h type; session_id = ntohl h session_id; body = body })))
unfolding packet_recv
recv_whole h type session_id body full =
    ap
      (λ b. some (
        enforce_null_termination h (
          swap_packet_endian h
            (record { type = ntohl h type; session_id = ntohl h session_id; body = b }))))
      (fill_all body_size body full)

pub sent_size :
    (h : Host) (pkt : WirePacket)
    → length pkt.body ≡ body_size
    → length (swap_packet_endian h (enforce_null_termination h pkt)).body ≡ body_size
unfolding swap_packet_endian enforce_null_termination
sent_size h pkt full =
    length-swap_parts h (case_of (load h pkt.type) swap_cases)
      (end_parts (case_of (load h pkt.type) end_cases) pkt.body)
    ∙ length-end_parts (case_of (load h pkt.type) end_cases) pkt.body
    ∙ full

again :
    (h : Host) (pkt : WirePacket)
    → enforce_null_termination h
        (swap_packet_endian h (swap_packet_endian h (enforce_null_termination h pkt)))
      ≡ enforce_null_termination h pkt
unfolding swap_packet_endian enforce_null_termination
again h pkt =
    ap (λ b. record pkt { body = b })
      (ap (end_parts (case_of (load h pkt.type) end_cases))
          (swap_parts_twice h (case_of (load h pkt.type) swap_cases) _)
        ∙ end_parts_twice (case_of (load h pkt.type) end_cases) pkt.body)

-- A packet that is sent and received between hosts of one byte order arrives as it was, but for its
-- texts, which end with a NUL byte.
pub recv-send :
    (h : Host) (pkt : WirePacket)
    → length pkt.body ≡ body_size
    → packet_recv h (packet_send h pkt) ≡ some (enforce_null_termination h pkt)
unfolding packet_send
recv-send little pkt full =
    recv_whole little _ _ _ (sent_size little pkt full) ∙ ap some (again little pkt)
recv-send big pkt full = recv_whole big _ _ _ (sent_size big pkt full) ∙ ap some (again big pkt)
