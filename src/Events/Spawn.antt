-- ===== src/Events/Spawn.antt =====
-- What src/server/events.c puts on the boards and takes off them: documents, offers, and what has aged.
pub mod Stock
pub mod Bounty
use under_flow.Base.{
  ℕ, zero, suc, ◌+◌, ◌*◌, ◌%◌, Bool, true, false, ◌&&◌, not, Option, none, some, List, [], ◌∷◌,
  if◌then◌else◌, ltb, leb, ◌==◌,
}
use under_flow.Base.Int.{ℤ, pos, add32}
use under_flow.Base.Text.{Text}
use under_flow.Market.{
  max_market_slots, max_name_len, market_is_full, market_add, market_despawn_aged,
}
use under_flow.Npc.{max_npc_slots, npc_is_full, npc_add, npc_despawn_aged, popcount_u32}
use under_flow.Sandbox.{DocFile, master_write_doc, master_remove_doc}
use under_flow.Protocol.{chat, npc_hint, market_spawn, market_remove, npc_spawn, npc_despawn}
use under_flow.Server.{Server, broadcast_packet}
use under_flow.Server.Seed.{market_price_per_tag}
use under_flow.Events.Tags.{event_random_tags, first_tag_index}
use under_flow.Events.Names.{make_doc_name}

-- The two counters of events.c beside the state that it shares with the server.
pub record Engine : Type 0 where
  pub doc_id_counter : ℤ
  pub npc_id_counter : ℤ
  pub server : Server

abbrev pub evt_npc_max_age_sec : ℕ
evt_npc_max_age_sec = 140

abbrev pub evt_npc_age_step_sec : ℕ
evt_npc_age_step_sec = 30

-- The results of `rand()` in one spawn.
pub record Rolls : Type 0 where
  pub tags : ℕ → ℕ
  pub price : ℕ
  pub extension : ℕ
  pub name : ℕ
  pub life : ℕ

abbrev pub price_of : ℕ → ℕ → ℤ
price_of tags roll = pos (popcount_u32 tags * market_price_per_tag + roll % 4 * 100)

-- The document of a spawn.
abbrev pub new_doc : Rolls → ℕ → ℤ → DocFile
new_doc r tags doc_id = record {
  doc_id = doc_id;
  tags = tags;
  base_price = price_of tags r.price;
  name = make_doc_name tags r.extension r.name max_name_len;
}

-- The file is written, and then the slot filled; without a slot the file is removed again.
unfoldable pub put_up : ℕ → ℕ → DocFile → Server → Server
put_up now life_roll doc s =
    let (written, disk) = master_write_doc doc s.disk in
    let (added, market) =
      market_add now life_roll doc.doc_id doc.tags doc.base_price doc.name s.market in
    if not written
    then s
    else if not added
    then record s { disk = (master_remove_doc doc.doc_id disk).1 }
    else broadcast_packet (market_spawn doc.doc_id doc.tags doc.base_price doc.name)
        (record s { disk = disk; market = market })

unfoldable pub event_spawn_market : ℕ → Rolls → Engine → Engine
unfolding put_up
event_spawn_market now r e =
    let tags = event_random_tags r.tags e.server.market in
    let doc_id = add32 e.doc_id_counter (pos 1) in
    if market_is_full e.server.market then e else if tags == 0 then e else record e {
      doc_id_counter = doc_id;
      server = put_up now r.life (new_doc r tags doc_id) e.server;
    }

-- The bounty of an offer from its tags and `rand()`.
unfoldable pub bounty_of : ℕ → ℕ → ℕ
bounty_of req_tags roll =
    let tagn = popcount_u32 req_tags in
    let share = if tagn == 1 && ltb 2 (roll % 5) then 2 else roll % 5 in
    let bounty = (share + tagn) * 500 in if leb 3 tagn then bounty + 1500 else bounty

-- The offer, after the delay.
unfoldable pub place_offer : ℕ → ℕ → ℕ → Engine → Engine
unfolding bounty_of
place_offer now req_tags roll e =
    let npc_id = add32 e.npc_id_counter (pos 1) in
    let bounty = pos (bounty_of req_tags roll) in
    let (added, npcs) = npc_add now npc_id req_tags bounty e.server.npcs in
    record e {
      npc_id_counter = npc_id;
      server =
          if added
          then broadcast_packet (npc_spawn npc_id req_tags bounty) (record e.server { npcs = npcs })
          else e.server;
    }

-- `now` is the time after `EVT_NPC_HINT_DELAY` seconds, in which the other threads run: `other`.
unfoldable pub event_do_npc_sequence : (Engine → Engine) → ℕ → (ℕ → ℕ) → ℕ → ℕ → Engine → Engine
unfolding place_offer
event_do_npc_sequence other now tag_rolls hint_roll bounty_roll e =
    let req_tags = event_random_tags tag_rolls e.server.market in
    let hint = npc_hint (first_tag_index req_tags) (hint_roll % 3) in
    if npc_is_full e.server.npcs
    then e
    else if req_tags == 0
    then e
    else place_offer now req_tags bounty_roll
        (other (record e { server = broadcast_packet (chat hint) e.server }))

unfoldable pub announce_expired : List ℤ → Server → Server
announce_expired [] s = s
announce_expired (id ∷ ids) s = announce_expired ids (broadcast_packet (npc_despawn id) s)

unfoldable pub event_age_npcs : ℕ → Server → Server
unfolding announce_expired
event_age_npcs now s =
    let (expired, npcs) =
      npc_despawn_aged evt_npc_max_age_sec evt_npc_age_step_sec now max_npc_slots s.npcs in
    announce_expired expired (record s { npcs = npcs })

unfoldable pub remove_expired : List ℤ → Server → Server
remove_expired [] s = s
remove_expired (id ∷ ids) s =
    remove_expired ids
      (broadcast_packet (market_remove id) (record s { disk = (master_remove_doc id s.disk).1 }))

unfoldable pub event_age_market : ℕ → Server → Server
unfolding remove_expired
event_age_market now s =
    let (expired, market) = market_despawn_aged now max_market_slots s.market in
    remove_expired expired (record s { market = market })
