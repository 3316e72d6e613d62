-- ===== src/Sessions.antt =====
-- The clients of src/server/server_main.c: the table of sockets and keys behind `clients_mutex`, and
-- `client_handler`, which logs a client in and passes its packets to the handlers.
pub mod Unique
pub mod Race
pub mod Login
pub mod Slots
pub mod Keeps
pub mod Ends
mod Tests
use under_flow.Base.{
  ℕ, zero, suc, ◌-◌, Bool, true, false, ◌&&◌, not, Option, none, some, List, [], ◌∷◌, if◌then◌else◌,
  ◌==◌, replicate,
}
use under_flow.Base.Int.{ℤ}
use under_flow.Base.Text.{Text, strncpy, strncmp_eq, same_text, bytes}
use under_flow.Market.{MarketSlot, max_market_slots, market_snapshot, market_frozen_mask}
use under_flow.Npc.{NpcSlot, max_npc_slots, npc_snapshot}
use under_flow.Userdb.{
  UserRecord, Userdb, max_key_len, zero_record, userdb_find, userdb_append, userdb_is_burned,
}
use under_flow.Sandbox.{sandbox_user_init}
use under_flow.Protocol.{
  Request, req_login, req_chat, req_buy, req_sell, req_dispose, req_inven, req_rumor,
  req_minigame_submit, trigger_raid, trigger_leak, trigger_rich, trigger_endround, unknown,
  initial_money, max_text_len, login_ok, login_fail, chat, said, market_spawn, npc_spawn, news_leak,
  duplicate_login, key_burned, doc_not_found,
}
use under_flow.Server.{Server, Client, max_clients, packet_send, send_error, broadcast_packet}
use under_flow.Server.Round.{copy_key, handle_fake_endround}
use under_flow.Server.Buy.{handle_buy}
use under_flow.Server.Sell.{handle_sell}
use under_flow.Server.Payoff.{handle_payoff}
use under_flow.Server.Raid.{fire_self_police_raid, handle_minigame_submit}
use under_flow.Server.Desk.{
  handle_dispose, handle_inventory, handle_rumor, handle_fake_rich, check_bankruptcy,
}
use under_flow.Events.Leak.{fire_public_leak}

abbrev pub no_client : Client
no_client = record { sock = 0; key = [] }

-- The two `memset`s of `main`.
unfoldable pub initial_clients : List Client
initial_clients = replicate max_clients no_client

-- The loop of `main` after `accept`: the first free slot, or `none` where the connection is closed
-- again. `spawned` says whether `malloc` and `pthread_create` succeed.
unfoldable pub accept_client : Bool → ℕ → List Client → Option (List Client)
accept_client spawned sock [] = none
accept_client spawned sock (c ∷ cs) =
    let later = accept_client spawned sock cs in
    elim (c.sock == 0) [
      | true ↦ if spawned then some (record c { sock = sock } ∷ cs) else none
      | false ↦ elim later [ none ↦ none | some cs' ↦ some (c ∷ cs') ]
    ]

-- Another connection holds the key that a client logs in with.
abbrev is_holder : ℕ → Text → Client → Bool
is_holder sock key c =
    not (c.sock == 0) && (not (c.sock == sock) && strncmp_eq max_key_len c.key key)

unfoldable pub is_duplicate : ℕ → Text → List Client → Bool
is_duplicate sock key [] = false
is_duplicate sock key (c ∷ cs) = if is_holder sock key c then true else is_duplicate sock key cs

unfoldable pub claim_key : ℕ → Text → List Client → List Client
claim_key sock key [] = []
claim_key sock key (c ∷ cs) =
    if c.sock == sock then record c { key = copy_key key } ∷ cs else c ∷ claim_key sock key cs

-- After the label `disconnect`.
unfoldable pub release_slot : ℕ → List Client → List Client
release_slot sock [] = []
release_slot sock (c ∷ cs) = if c.sock == sock then no_client ∷ cs else c ∷ release_slot sock cs

abbrev pub disconnect : ℕ → Server → Server
disconnect sock s = record s { clients = release_slot sock s.clients }

-- The account of a key; without one, a new account. The result of `userdb_append` is not read.
unfoldable pub find_or_append : Text → Userdb → UserRecord × Userdb
find_or_append key users = elim (userdb_find key users) [
  | some (rec, offset) ↦ (rec, users)
  | none ↦
      let rec = record zero_record { key = copy_key key; money = initial_money } in
      (rec, (userdb_append rec users).1)
]

unfoldable pub sync_slots : ℕ → List MarketSlot → Server → Server
sync_slots sock [] s = s
sync_slots sock (m ∷ ms) s =
    sync_slots sock ms (packet_send sock (market_spawn m.doc_id m.tags m.base_price m.name) s)

unfoldable pub sync_offers : ℕ → List NpcSlot → Server → Server
sync_offers sock [] s = s
sync_offers sock (n ∷ ns) s =
    sync_offers sock ns (packet_send sock (npc_spawn n.npc_id n.required_tags n.bounty) s)

-- The block that brings a late client up to date, when no other thread comes in between its locks.
unfoldable pub sync_boards : ℕ → Server → Server
unfolding sync_slots sync_offers
sync_boards sock s =
    let listed = sync_slots sock (market_snapshot max_market_slots s.market) s in
    let offered = sync_offers sock (npc_snapshot max_npc_slots listed.npcs) listed in
    let mask = market_frozen_mask offered.market in
    if mask == 0 then offered else packet_send sock (news_leak mask 0) offered

-- A connection: before its login, after it with `my_key`, and past the label `disconnect`.
pub data Session : Type 0 where
  waiting : Session
  serving : Text → Session
  closed : Session

-- The login from the account on; it ends with a session, or at the label `disconnect`.
unfoldable pub finish_login : ℕ → Text → Server → Session × Server
unfolding find_or_append sync_boards
finish_login sock key s =
    let (rec, users) = find_or_append key s.users in
    let found = record s { users = users } in
    let claimed = record found {
      clients = claim_key sock key found.clients;
      disk = (sandbox_user_init (copy_key key) found.disk).1;
    } in
    let greeted = packet_send sock (login_ok sock rec.money claimed.round.goal_money) claimed in
    if userdb_is_burned rec
    then (closed, packet_send sock (login_fail key_burned) found)
    else (serving (copy_key key), sync_boards sock greeted)

-- Between the check of the keys and the rest the other threads may run: `other`.
unfoldable pub handle_login : (Server → Server) → ℕ → Text → Server → Session × Server
unfolding is_duplicate finish_login
handle_login other sock key s =
    if is_duplicate sock key s.clients
    then (closed, packet_send sock (login_fail duplicate_login) s)
    else finish_login sock key (other s)

-- What the outside decides while one packet is handled: the other threads, the clock, `rand`, the
-- starts of threads, and what the stack of `handle_sell` holds.
pub record Outside : Type 0 where
  pub other : Server → Server
  pub now : ℕ
  pub roll : ℕ
  pub second_roll : ℕ
  pub allocated : Bool
  pub spawned : Bool
  pub junk : UserRecord × ℕ

-- The `goto disconnect` of a client that went bankrupt.
abbrev unless_bankrupt : ℕ → Text → Server → Session × Server
unless_bankrupt sock key s =
    let (bust, t) = check_bankruptcy sock key s in (if bust then closed else serving key, t)

unfoldable pub say : Bool → ℕ → ℕ → Text → Text → Server → Server
say spawned now sock key text s =
    if same_text text (bytes "/payoff")
    then handle_payoff now spawned sock key s
    else broadcast_packet (chat (said (copy_key key) (strncpy (max_text_len - 1) text))) s

unfoldable pub demand_leak : Outside → ℕ → Server → Server
demand_leak o sock s =
    let (recovery, t) = fire_public_leak o.roll o.second_roll o.allocated o.spawned s in
    elim recovery [ some arg ↦ t | none ↦ send_error sock doc_not_found t ]

-- The switch of the main loop.
unfoldable pub dispatch : Outside → ℕ → Text → Request → Server → Session × Server
unfolding say demand_leak
dispatch o sock key (req_chat text) s = (serving key, say o.spawned o.now sock key text s)
dispatch o sock key (req_minigame_submit passcode) s =
    (serving key, handle_minigame_submit o.other o.now sock key passcode s)
dispatch o sock key trigger_raid s =
    (serving key, fire_self_police_raid o.now o.roll o.spawned sock key s)
dispatch o sock key trigger_leak s = (serving key, demand_leak o sock s)
dispatch o sock key trigger_rich s = (serving key, handle_fake_rich sock key s)
dispatch o sock key trigger_endround s = (serving key, handle_fake_endround o.spawned s)
dispatch o sock key (req_buy doc_id) s =
    unless_bankrupt sock key (handle_buy o.other o.now o.roll sock key doc_id s)
dispatch o sock key (req_sell npc_id count doc_ids) s =
    (serving key, handle_sell o.other o.junk sock key npc_id count doc_ids s)
dispatch o sock key (req_dispose doc_id) s = (serving key, handle_dispose sock key doc_id s)
dispatch o sock key req_inven s = (serving key, handle_inventory sock key s)
dispatch o sock key (req_rumor target) s =
    unless_bankrupt sock key (handle_rumor o.now sock key target s)
dispatch o sock key (req_login again) s = (serving key, s)
dispatch o sock key unknown s = (serving key, s)

-- One packet in either loop; before the login every packet but a login is dropped.
unfoldable pub handle_packet : Outside → ℕ → Session → Request → Server → Session × Server
unfolding handle_login dispatch
handle_packet o sock waiting (req_login key) s = handle_login o.other sock key s
handle_packet o sock waiting _ s = (waiting, s)
handle_packet o sock (serving key) request s = dispatch o sock key request s
handle_packet o sock closed request s = (closed, s)

-- `client_handler` on the packets that `packet_recv` gives until it fails.
unfoldable pub client_handler : ℕ → Session → List (Outside × Request) → Server → Server
unfolding handle_packet
client_handler sock session [] s = disconnect sock s
client_handler sock session ((o, request) ∷ packets) s =
    let (next, t) = handle_packet o sock session request s in
    let rest = client_handler sock next packets t in
    elim next [ waiting ↦ rest | serving key ↦ rest | closed ↦ disconnect sock t ]
