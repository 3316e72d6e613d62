-- ===== src/Server/Sending.antt =====
-- What sending leaves of the state in src/server/server_main.c.
use under_flow.Base.{◌≡◌, arith, Option-cases, inl, inr}
use under_flow.Base.Text.{Text}
use under_flow.Protocol.{Packet}
use under_flow.Server.{Server, unicast_to_key, sock_of}

-- A packet to one user changes the log alone.
pub unicast-state :
    (key : Text) (pkt : Packet) (s : Server) → record (unicast_to_key key pkt s) { out = s.out } ≡ s
unfolding unicast_to_key
unicast-state key pkt s = elim (Option-cases (sock_of key s.clients)) [
  | inl e ↦ ground (arith, e)
  | inr (sock, e) ↦ ground (arith, e)
]
