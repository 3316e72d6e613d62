-- ===== src/Sessions/Ends.antt =====
-- `client_handler` of src/server/server_main.c gives its slot back, however the connection goes.
use under_flow.Base.{
  ℕ, suc, ◌-◌, ◌≤◌, ◌≡◌, refl, ◌∙◌, ap, List, [], ◌∷◌, arith, All, Bool-cases, inl, inr,
}
use under_flow.Base.Text.{Text}
use under_flow.Market.{MarketSlot}
use under_flow.Npc.{NpcSlot}
use under_flow.Userdb.{userdb_is_burned}
use under_flow.Protocol.{
  Request, req_login, req_chat, req_buy, req_sell, req_dispose, req_inven, req_rumor,
  req_minigame_submit, trigger_raid, trigger_leak, trigger_rich, trigger_endround, unknown,
}
use under_flow.Server.{Server, Client}
use under_flow.Sessions.{
  find_or_append, is_duplicate, Session, waiting, serving, closed, Outside, release_slot,
  sync_slots, sync_offers, sync_boards, finish_login, handle_login, handle_packet, client_handler,
  disconnect,
}
use under_flow.Sessions.Unique.{connected, claim-socks}
use under_flow.Sessions.Keeps.{Keeps, dispatch-connected}

release-own :
    (k : ℕ) (cs : List Client)
    → connected (suc k) (release_slot (suc k) cs) ≡ connected (suc k) cs - 1
unfolding release_slot
release-own k [] = omega arith
release-own k (c ∷ cs) = ground (arith, release-own k cs)

slots-clients :
    (sock : ℕ) (ms : List MarketSlot) (s : Server) → (sync_slots sock ms s).clients ≡ s.clients
unfolding sync_slots
slots-clients sock [] s = refl
slots-clients sock (m ∷ ms) s = slots-clients sock ms _

offers-clients :
    (sock : ℕ) (ns : List NpcSlot) (s : Server) → (sync_offers sock ns s).clients ≡ s.clients
unfolding sync_offers
offers-clients sock [] s = refl
offers-clients sock (n ∷ ns) s = offers-clients sock ns _

boards-clients : (sock : ℕ) (s : Server) → (sync_boards sock s).clients ≡ s.clients
unfolding sync_boards
boards-clients sock s = grind (arith, slots-clients, offers-clients)

login-connected :
    (k : ℕ) (sock : ℕ) (key : Text) (s : Server)
    → connected k (finish_login sock key s).1.clients ≡ connected k s.clients
unfolding finish_login
login-connected k sock key s = elim (Bool-cases (userdb_is_burned (find_or_append key s.users).0)) [
  | inl q ↦ rw (finish_login, q) refl
  | inr q ↦
      rw (finish_login, q)
        (ap (connected k) (boards-clients sock _) ∙ claim-socks sock k key s.clients)
]

packet-connected :
    (k : ℕ) (o : Outside) (sock : ℕ) (session : Session) (request : Request) (s : Server)
    → Keeps k o
    → connected k (handle_packet o sock session request s).1.clients ≡ connected k s.clients
unfolding handle_packet handle_login
packet-connected k o sock waiting (req_login key) s h =
    elim (Bool-cases (is_duplicate sock key s.clients)) [
      | inl q ↦ rw q refl
      | inr q ↦ rw q (login-connected k sock key (o.other s) ∙ h s)
    ]
packet-connected k o sock waiting (req_chat text) s h = refl
packet-connected k o sock waiting (req_buy doc_id) s h = refl
packet-connected k o sock waiting (req_sell npc_id count doc_ids) s h = refl
packet-connected k o sock waiting (req_dispose doc_id) s h = refl
packet-connected k o sock waiting req_inven s h = refl
packet-connected k o sock waiting (req_rumor target) s h = refl
packet-connected k o sock waiting (req_minigame_submit passcode) s h = refl
packet-connected k o sock waiting trigger_raid s h = refl
packet-connected k o sock waiting trigger_leak s h = refl
packet-connected k o sock waiting trigger_rich s h = refl
packet-connected k o sock waiting trigger_endround s h = refl
packet-connected k o sock waiting unknown s h = refl
packet-connected k o sock (serving key) request s h = dispatch-connected k o sock key request s h
packet-connected k o sock closed request s h = refl

-- Whatever packets come and however they are handled, login, refusal, bankruptcy or the end of the
-- connection: when `client_handler` returns, its socket has no slot any more, if it had one at most and
-- the other threads leave it that.
pub handler-release :
    (sock : ℕ) (session : Session) (packets : List (Outside × Request)) (s : Server)
    → All (λ p. Keeps (suc sock) p.0) packets
    → connected (suc sock) s.clients ≤ 1
    → connected (suc sock) (client_handler (suc sock) session packets s).clients ≡ 0
unfolding client_handler
handler-release sock session [] s keeps one = omega (arith, release-own sock s.clients, one)
handler-release sock session ((o, request) ∷ packets) s keeps one =
    let (next, t) = handle_packet o (suc sock) session request s in
    let same = packet-connected (suc sock) o (suc sock) session request s keeps.0 in
    let rest = client_handler (suc sock) next packets t in
    let ends = handler-release sock next packets t keeps.1 (omega (arith, same, one)) in
    elim next
      as (λ n.
        connected (suc sock)
          (elim n as (λ _. Server) [
            | waiting ↦ rest
            | serving key ↦ rest
            | closed ↦ disconnect (suc sock) t
          ]).clients
        ≡ 0) [
          | waiting ↦ ends
          | serving key ↦ ends
          | closed ↦ omega (arith, release-own sock t.clients, same, one)
        ]
