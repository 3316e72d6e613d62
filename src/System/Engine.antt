-- ===== src/System/Engine.antt =====
-- The steps of the event thread, the NPC sequences and the leaks of src/server/events.c keep the boards and the goal sane.
use under_flow.Base.{
  if◌then◌else◌, not, ℕ, ◌%◌, ◌^◌, ◌<◌, ◌==◌, refl, Bool, true, false, ◌&&◌, List, [], ◌∷◌, arith,
  inl, inr, Option-cases, Bool-cases,
}
use under_flow.Base.Int.{ℤ, pos, add32}
use under_flow.Base.Bits.{le_of_bits}
use under_flow.Base.Masks.{covers-bit}
use under_flow.Market.{Market, market_add, market_despawn_aged, max_market_slots, market_is_full}
use under_flow.Npc.{npc_despawn_aged, max_npc_slots, npc_is_full}
use under_flow.Sandbox.{DocFile, master_write_doc}
use under_flow.Protocol.{npc_hint, chat}
use under_flow.Server.{broadcast_packet, Server}
use under_flow.Events.Tags.{first_tag_index, event_random_tags}
use under_flow.Events.Tags.Choice.{random_tags_lem}
use under_flow.Events.Leak.{LeakRecoveryArg, leak_pick, fire_public_leak, leak_recovery}
use under_flow.Events.Leak.Recovery.{pick-MayLeak, leak_idle, leak_runs, leak_undone}
use under_flow.Events.Spawn.{
  evt_npc_age_step_sec, evt_npc_max_age_sec, Engine, Rolls, new_doc, put_up, event_spawn_market,
  place_offer, event_do_npc_sequence, announce_expired, event_age_npcs, remove_expired,
  event_age_market,
}
use under_flow.System.Sane.{
  IsSane, add-IsBoard, freeze-IsBoard, unfreeze-IsBoard, despawn-IsBoard, length-npc_add,
  length-npc_aged, unmoved,
}
use under_flow.System.Trades.{market-IsSane, npcs-IsSane, either}

announce_expired-IsSane : (ids : List ℤ) (s : Server) → IsSane s → IsSane (announce_expired ids s)
unfolding announce_expired
announce_expired-IsSane [] s h = h
announce_expired-IsSane (id ∷ ids) s h = announce_expired-IsSane ids _ (unmoved refl h)

remove_expired-IsSane : (ids : List ℤ) (s : Server) → IsSane s → IsSane (remove_expired ids s)
unfolding remove_expired
remove_expired-IsSane [] s h = h
remove_expired-IsSane (id ∷ ids) s h = remove_expired-IsSane ids _ (unmoved refl h)

pub age_npcs-IsSane : (now : ℕ) (s : Server) → IsSane s → IsSane (event_age_npcs now s)
unfolding event_age_npcs
age_npcs-IsSane now s h =
    announce_expired-IsSane
      ((npc_despawn_aged evt_npc_max_age_sec evt_npc_age_step_sec now max_npc_slots s.npcs).0) _
      (npcs-IsSane s _ h
        (length-npc_aged evt_npc_max_age_sec evt_npc_age_step_sec now max_npc_slots s.npcs))

pub age_market-IsSane : (now : ℕ) (s : Server) → IsSane s → IsSane (event_age_market now s)
unfolding event_age_market
age_market-IsSane now s h =
    remove_expired-IsSane ((market_despawn_aged now max_market_slots s.market).0) _
      (market-IsSane s _ h (despawn-IsBoard now max_market_slots s.market h.sane.board))

pub leak-IsSane :
    (pick_roll dur_roll : ℕ) (allocated spawned : Bool) (s : Server)
    → IsSane s
    → IsSane (fire_public_leak pick_roll dur_roll allocated spawned s).1
leak-IsSane pick_roll dur_roll allocated spawned s h = elim (Option-cases (leak_pick pick_roll s)) [
  | inl e ↦ rw (leak_idle pick_roll dur_roll allocated spawned s e) h
  | inr (t, e) ↦
      let small = (pick-MayLeak pick_roll t s e).1 in
      let frozen = freeze-IsBoard t s.market small h.sane.board in
      elim (Bool-cases (allocated && spawned)) [
        | inl ok ↦
            rw (leak_runs pick_roll dur_roll allocated spawned s t e ok)
              (unmoved refl (market-IsSane s _ h frozen))
        | inr bad ↦
            rw (leak_undone pick_roll dur_roll allocated spawned s t e bad)
              (unmoved refl (market-IsSane s _ h (unfreeze-IsBoard t _ small frozen)))
      ]
]

pub recovery-IsSane :
    (arg : LeakRecoveryArg) (s : Server)
    → arg.mask < 2 ^ 32
    → IsSane s
    → IsSane (leak_recovery arg s)
unfolding leak_recovery
recovery-IsSane arg s w h =
    unmoved refl (market-IsSane s _ h (unfreeze-IsBoard arg.mask s.market w h.sane.board))

random_tags-word : (rolls : ℕ → ℕ) (m : Market) → event_random_tags rolls m < 2 ^ 32
random_tags-word rolls m =
    let small =
      le_of_bits (event_random_tags rolls m) 0xFFF
        (λ i. covers-bit 0xFFF (event_random_tags rolls m) (random_tags_lem rolls m).1 i) in
    omega (arith, small)

put_up-IsSane :
    (now life_roll : ℕ) (doc : DocFile) (s : Server)
    → doc.tags < 2 ^ 32
    → IsSane s
    → IsSane (put_up now life_roll doc s)
unfolding put_up
put_up-IsSane now life_roll doc s w h =
    let kept =
      add-IsBoard now life_roll doc.doc_id doc.tags doc.base_price doc.name s.market w
        h.sane.board in
    either (not (master_write_doc doc s.disk).0) h (
      either (not (market_add now life_roll doc.doc_id doc.tags doc.base_price doc.name s.market).0)
        (unmoved refl h) (unmoved refl (market-IsSane s _ h kept)))

pub spawn-IsSane :
    (now : ℕ) (r : Rolls) (e : Engine)
    → IsSane e.server
    → IsSane (event_spawn_market now r e).server
unfolding event_spawn_market
spawn-IsSane now r e h =
    go (market_is_full e.server.market) (event_random_tags r.tags e.server.market == 0)
  where
    put : IsSane (
        put_up now r.life
          (new_doc r (event_random_tags r.tags e.server.market) (add32 e.doc_id_counter (pos 1)))
          e.server)
    put = put_up-IsSane now r.life _ e.server (random_tags-word r.tags e.server.market) h

    go :
        (full empty : Bool)
        → IsSane
            (if full then e else if empty then e else record e {
              doc_id_counter = add32 e.doc_id_counter (pos 1);
              server =
                  put_up now r.life
                    (new_doc r
                      (event_random_tags r.tags e.server.market)
                      (add32 e.doc_id_counter (pos 1)))
                    e.server;
            }).server
    go true empty = h
    go false true = h
    go false false = put

place_offer-IsSane :
    (now req_tags roll : ℕ) (e : Engine)
    → IsSane e.server
    → IsSane (place_offer now req_tags roll e).server
unfolding place_offer
place_offer-IsSane now req_tags roll e h =
    either _
      (unmoved refl (npcs-IsSane e.server _ h (length-npc_add now _ req_tags _ e.server.npcs))) h

pub sequence-IsSane :
    (other : Engine → Engine) (now : ℕ) (tag_rolls : ℕ → ℕ) (hint_roll bounty_roll : ℕ) (e : Engine)
    → ((t : Engine) → IsSane t.server → IsSane (other t).server)
    → IsSane e.server
    → IsSane (event_do_npc_sequence other now tag_rolls hint_roll bounty_roll e).server
sequence-IsSane other now tag_rolls hint_roll bounty_roll e k h =
    elim (Bool-cases (npc_is_full e.server.npcs)) [
      | inl q ↦ unfold event_do_npc_sequence in rw (q, event_do_npc_sequence) h
      | inr q ↦ elim (Bool-cases (event_random_tags tag_rolls e.server.market == 0)) [
        | inl z ↦ unfold event_do_npc_sequence in rw (q, z, event_do_npc_sequence) h
        | inr z ↦
            unfold event_do_npc_sequence in
            rw (q, z, event_do_npc_sequence)
              (place_offer-IsSane now (event_random_tags tag_rolls e.server.market) bounty_roll
                (other hinted) (k hinted (unmoved refl h)))
      ]
    ]
  where
    hinted : Engine
    hinted =
        let hint =
          npc_hint (first_tag_index (event_random_tags tag_rolls e.server.market))
            (hint_roll % 3) in
        record e { server = broadcast_packet (chat hint) e.server }
