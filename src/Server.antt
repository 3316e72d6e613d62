-- ===== src/Server.antt =====
-- The state of src/server/server_main.c and its ways of sending. The state puts together the boards of
-- market.c, users.dat, the directories of sandbox.c and the globals of server_main.c; `out` is the log
-- of the packets that were sent, each with its socket, oldest first. A failing `send` is ignored by the
-- source, so a packet counts as sent.
pub mod Buy
pub mod Sell
pub mod Seed
pub mod Round
pub mod Payoff
pub mod Raid
pub mod Desk
pub mod Sending
pub mod World
mod Tests
use under_flow.Base.{
  ℕ, zero, suc, ◌+◌, ◌<◌, Bool, true, false, ◌&&◌, not, Option, none, some, List, [], ◌∷◌, ◌++◌,
  if◌then◌else◌, ◌==◌,
}
use under_flow.Base.Int.{ℤ}
use under_flow.Base.Text.{Text, strncmp_eq, is_set}
use under_flow.Market.{Market}
use under_flow.Npc.{Board}
use under_flow.Userdb.{Userdb, max_key_len}
use under_flow.Sandbox.{Disk}
use under_flow.Protocol.{Packet, error, ErrorCode}

abbrev pub max_clients : ℕ
max_clients = 10

-- One slot of `client_sockets` and `active_keys`; socket 0 is a free slot, an empty key a client that
-- has not logged in.
pub record Client : Type 0 where
  pub sock : ℕ
  pub key : Text

pub record EscapeLogEntry : Type 0 where
  pub key : Text
  pub money_at_escape : ℤ
  pub escape_order : ℕ

-- The globals behind `g_round_mutex`.
pub record RoundState : Type 0 where
  pub goal_money : ℤ
  pub escaped_count : ℕ
  pub round_end_active : Bool
  pub cap_reached_at : ℕ
  pub escape_log : List EscapeLogEntry

-- The globals behind `g_periodic_raid_mutex`; a pending key that is empty is a free slot.
pub record RaidState : Type 0 where
  pub deadline : ℕ
  pub pending_keys : List Text
  pub passcode : Text

pub record Server : Type 0 where
  pub market : Market
  pub npcs : Board
  pub users : Userdb
  pub disk : Disk
  pub round : RoundState
  pub rumor_cd_until : ℕ
  pub raid : RaidState
  pub clients : List Client
  pub out : List (ℕ × Packet)

-- `packet_send`
abbrev pub packet_send : ℕ → Packet → Server → Server
packet_send sock pkt s = record s { out = s.out ++ ((sock, pkt) ∷ []) }

abbrev pub send_error : ℕ → ErrorCode → Server → Server
send_error sock code s = packet_send sock (error code) s

-- The loop of `broadcast_packet`: what each connected client is sent.
unfoldable pub to_all : Packet → List Client → List (ℕ × Packet)
to_all pkt [] = []
to_all pkt (c ∷ cs) = if c.sock == 0 then to_all pkt cs else (c.sock, pkt) ∷ to_all pkt cs

abbrev pub broadcast_packet : Packet → Server → Server
broadcast_packet pkt s = record s { out = s.out ++ to_all pkt s.clients }

-- The loop of `unicast_to_key`: the socket of the first connected client with the key.
unfoldable pub sock_of : Text → List Client → Option ℕ
sock_of key [] = none
sock_of key (c ∷ cs) =
    if not (c.sock == 0) && strncmp_eq max_key_len c.key key then some c.sock else sock_of key cs

unfoldable pub unicast_to_key : Text → Packet → Server → Server
unicast_to_key key pkt s = elim (sock_of key s.clients) [
  | none ↦ s
  | some sock ↦ packet_send sock pkt s
]
