-- ===== src/Client/Flags.antt =====
-- The tables of src/client/ui_client.c through any packets: within their arrays, and marked as frozen by
-- the mask.
mod Tables
use under_flow.Base.{
  length-map, ltb, inl, inr, Bool-cases, ℕ, ◌≤◌, ◌≡◌, refl, Bool, List, [], ◌∷◌, ◌++◌, map, arith,
  All, All-map, length, length-append, bit_or, bit_and,
}
use under_flow.Base.Masks.{meets, meets-bit_or}
use under_flow.Protocol.{
  Packet, login_ok, login_fail, inven_info, buy_ok, sell_ok, dispose_ok, error, minigame_ok, chat,
  market_spawn, market_remove, npc_spawn, npc_despawn, news_leak, news_recover, rumor_glitch,
  police_raid, game_over, victory, scoreboard, goal_update, round_reset, burned_account, bankrupt,
  Notice,
}
use under_flow.Base.Int.{ℤ, eq_ℤ}
use under_flow.Base.Text.{Text}
use under_flow.Base.Bits.{bit_not32}
use under_flow.Client.Flags.Tables.{
  last-All, remove_first-All, length-but_last, length-remove_first, All-append,
}
use under_flow.Client.{
  ClientState, UiMarket, UiNpc, ui_item, mark, refresh, last_of, but_last, remove_first, received,
  receive_all, ui_max_market, ui_max_npc,
}

-- The flag of an entry against the mask.
abbrev IsMarked : ℕ → UiMarket → Type 0
IsMarked mask m = m.is_frozen ≡ meets m.tags mask

pub record IsConsistent (c : ClientState) : Type 0 where
  pub marked : All (IsMarked c.frozen_mask) c.mkt
  pub mkt_fits : length c.mkt ≤ ui_max_market
  pub npc_fits : length c.npc ≤ ui_max_npc

mark-IsMarked :
    (old new : ℕ) (m : UiMarket)
    → IsMarked old m
    → IsMarked (bit_or old new) (mark (bit_or old new) m)
mark-IsMarked old new m h = ground (arith, meets-bit_or m.tags old new)

-- A packet that touches neither table nor the mask.
same-IsConsistent :
    (c c' : ClientState)
    → c'.mkt ≡ c.mkt
    → c'.npc ≡ c.npc
    → c'.frozen_mask ≡ c.frozen_mask
    → IsConsistent c
    → IsConsistent c'
same-IsConsistent c c' e f g t = record {
  marked = rw (e, g) t.marked;
  mkt_fits = rw e t.mkt_fits;
  npc_fits = rw f t.npc_fits;
}

chat-IsConsistent :
    (now : ℕ) (notice : Notice) (c : ClientState)
    → IsConsistent c
    → IsConsistent (received now (chat notice) c)
unfolding received
chat-IsConsistent now notice c t =
    same-IsConsistent c (received now (chat notice) c) (ground arith) (ground arith) (ground arith)
      t

glitch-IsConsistent :
    (now : ℕ) (c : ClientState) → IsConsistent c → IsConsistent (received now rumor_glitch c)
unfolding received
glitch-IsConsistent now c t =
    same-IsConsistent c (received now rumor_glitch c) (ground arith) (ground arith) (ground arith) t

spawn-IsConsistent :
    (now : ℕ) (doc_id : ℤ) (tags : ℕ) (base_price : ℤ) (name : Text) (c : ClientState)
    → IsConsistent c
    → IsConsistent (received now (market_spawn doc_id tags base_price name) c)
unfolding received
spawn-IsConsistent now doc_id tags base_price name c t =
    elim (Bool-cases (ltb (length c.mkt) ui_max_market)) [
      | inl q ↦ rw q (record {
        marked = All-append (IsMarked c.frozen_mask) c.mkt _ t.marked refl;
        mkt_fits = ground (
          arith,
          q,
          length-append c.mkt (ui_item c.frozen_mask doc_id tags base_price name ∷ []),
        );
        npc_fits = t.npc_fits;
      })
      | inr q ↦ rw q t
    ]

offer-IsConsistent :
    (now : ℕ) (npc_id : ℤ) (required_tags : ℕ) (bounty : ℤ) (c : ClientState)
    → IsConsistent c
    → IsConsistent (received now (npc_spawn npc_id required_tags bounty) c)
unfolding received
offer-IsConsistent now npc_id required_tags bounty c t =
    elim (Bool-cases (ltb (length c.npc) ui_max_npc)) [
      | inl q ↦
          let n : UiNpc = record {
            npc_id = npc_id;
            required_tags = required_tags;
            bounty = bounty;
          } in
          rw q (record {
            marked = t.marked;
            mkt_fits = t.mkt_fits;
            npc_fits = ground (arith, q, length-append c.npc (n ∷ []));
          })
      | inr q ↦ rw q t
    ]

received-IsConsistent :
    (now : ℕ) (pkt : Packet) (c : ClientState) → IsConsistent c → IsConsistent (received now pkt c)
unfolding received
received-IsConsistent now (chat notice) c t = chat-IsConsistent now notice c t
received-IsConsistent now rumor_glitch c t = glitch-IsConsistent now c t
received-IsConsistent now (market_spawn doc_id tags base_price name) c t =
    spawn-IsConsistent now doc_id tags base_price name c t
received-IsConsistent now (npc_spawn npc_id required_tags bounty) c t =
    offer-IsConsistent now npc_id required_tags bounty c t
received-IsConsistent now (market_remove doc_id) c t = record {
  marked = remove_first-All (IsMarked c.frozen_mask) _ c.mkt t.marked;
  mkt_fits = omega (arith, length-remove_first (λ m. eq_ℤ m.doc_id doc_id) c.mkt, t.mkt_fits);
  npc_fits = t.npc_fits;
}
received-IsConsistent now (npc_despawn npc_id) c t = record {
  marked = t.marked;
  mkt_fits = t.mkt_fits;
  npc_fits = omega (arith, length-remove_first (λ n. eq_ℤ n.npc_id npc_id) c.npc, t.npc_fits);
}
received-IsConsistent now (news_leak frozen_tags duration_sec) c t =
    let mask = bit_or c.frozen_mask frozen_tags in
    record {
      marked =
          All-map (IsMarked c.frozen_mask) (IsMarked mask) (mark mask)
            (mark-IsMarked c.frozen_mask frozen_tags) c.mkt t.marked;
      mkt_fits = omega (arith, length-map (mark mask) c.mkt, t.mkt_fits);
      npc_fits = t.npc_fits;
    }
received-IsConsistent now (news_recover recovered_tags) c t =
    let mask = bit_and c.frozen_mask (bit_not32 recovered_tags) in
    record {
      marked =
          All-map (IsMarked c.frozen_mask) (IsMarked mask) (refresh mask) (λ m h. refl) c.mkt
            t.marked;
      mkt_fits = omega (arith, length-map (refresh mask) c.mkt, t.mkt_fits);
      npc_fits = t.npc_fits;
    }
received-IsConsistent now (game_over round_reset) c t = record {
  marked = tt;
  mkt_fits = omega arith;
  npc_fits = omega arith;
}
received-IsConsistent now (game_over burned_account) c t = record {
  marked = t.marked;
  mkt_fits = t.mkt_fits;
  npc_fits = t.npc_fits;
}
received-IsConsistent now (game_over bankrupt) c t = record {
  marked = t.marked;
  mkt_fits = t.mkt_fits;
  npc_fits = t.npc_fits;
}
received-IsConsistent now (victory prev) c t = record {
  marked = t.marked;
  mkt_fits = t.mkt_fits;
  npc_fits = t.npc_fits;
}
received-IsConsistent now (scoreboard countdown_sec escaped remaining) c t = record {
  marked = t.marked;
  mkt_fits = t.mkt_fits;
  npc_fits = t.npc_fits;
}
received-IsConsistent now (police_raid passcode time_limit_sec) c t = record {
  marked = t.marked;
  mkt_fits = t.mkt_fits;
  npc_fits = t.npc_fits;
}
received-IsConsistent now minigame_ok c t = record {
  marked = t.marked;
  mkt_fits = t.mkt_fits;
  npc_fits = t.npc_fits;
}
received-IsConsistent now (buy_ok doc_id remaining_money tags name) c t = record {
  marked = t.marked;
  mkt_fits = t.mkt_fits;
  npc_fits = t.npc_fits;
}
received-IsConsistent now (sell_ok bounty new_money) c t = record {
  marked = t.marked;
  mkt_fits = t.mkt_fits;
  npc_fits = t.npc_fits;
}
received-IsConsistent now (inven_info items money) c t = record {
  marked = t.marked;
  mkt_fits = t.mkt_fits;
  npc_fits = t.npc_fits;
}
received-IsConsistent now (goal_update goal_money) c t = record {
  marked = t.marked;
  mkt_fits = t.mkt_fits;
  npc_fits = t.npc_fits;
}
received-IsConsistent now dispose_ok c t = record {
  marked = t.marked;
  mkt_fits = t.mkt_fits;
  npc_fits = t.npc_fits;
}
received-IsConsistent now (error code) c t = record {
  marked = t.marked;
  mkt_fits = t.mkt_fits;
  npc_fits = t.npc_fits;
}
received-IsConsistent now (login_ok session money goal) c t = record {
  marked = t.marked;
  mkt_fits = t.mkt_fits;
  npc_fits = t.npc_fits;
}
received-IsConsistent now (login_fail code) c t = record {
  marked = t.marked;
  mkt_fits = t.mkt_fits;
  npc_fits = t.npc_fits;
}

-- Through any packets, in any order: the client writes no entry past its two arrays, and each document
-- on its screen is marked as frozen exactly when one of its tags is in the mask that it keeps.
pub receive_all-IsConsistent :
    (packets : List (ℕ × Packet)) (c : ClientState)
    → IsConsistent c
    → IsConsistent (receive_all packets c)
unfolding receive_all
receive_all-IsConsistent [] c t = t
receive_all-IsConsistent ((now, pkt) ∷ packets) c t =
    receive_all-IsConsistent packets (received now pkt c) (received-IsConsistent now pkt c t)
