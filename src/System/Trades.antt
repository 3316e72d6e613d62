-- ===== src/System/Trades.antt =====
-- Purchases, sales and payoffs of src/server/server_main.c keep the boards and the goal sane.
use under_flow.Base.{
  ◌||◌, not, if◌then◌else◌, take, Option, ℕ, ◌≡◌, refl, ◌∙◌, Bool, true, false, none, some, List,
  length, arith, inl, inr, Option-cases, leb,
}
use under_flow.Base.Int.{negsuc, le_ℤ, add32, pos_part, ℤ, pos, lt_ℤ, ◌≤ℤ◌}
use under_flow.Base.Masks.{covers}
use under_flow.Base.Text.{Text}
use under_flow.Market.{
  Market, MarketSlot, Take, taken, frozen_slot, not_listed, market_find, market_take,
}
use under_flow.Npc.{Board, NpcSlot, npc_take, npc_find}
use under_flow.Userdb.{max_inven_size, UserRecord, userdb_find}
use under_flow.Sandbox.{sandbox_buy}
use under_flow.Protocol.{tag_mismatch, three_escaped}
use under_flow.Server.{send_error, Server}
use under_flow.Server.Buy.{handle_buy, buy_commit, buy_pay, inventory_is_full}
use under_flow.Server.Sell.{
  Gathered, handle_sell, sell_commit, sell_settle, gather, refused, tags, market_doc_sort_ids,
}
use under_flow.Server.Payoff.{
  handle_payoff, pay_off, renew_account, announce_escape, record_escape, next_goal,
}
use under_flow.System.Handlers.{countdown-view}
use under_flow.System.Sane.{
  IsBoard, IsSane, add-IsBoard, take-IsBoard, take-word, unmoved, length-npc_take,
}

pub market-IsSane :
    (s : Server) (m : Market) → IsSane s → IsBoard m → IsSane (record s { market = m })
market-IsSane s m h b = record {
  sane = record { board = b; offers = h.sane.offers; floor = h.sane.floor; cap = h.sane.cap };
}

pub npcs-IsSane :
    (s : Server) (b : Board) → IsSane s → length b ≡ length s.npcs → IsSane (record s { npcs = b })
npcs-IsSane s b h e = record {
  sane = record {
    board = h.sane.board;
    offers = e ∙ h.sane.offers;
    floor = h.sane.floor;
    cap = h.sane.cap;
  };
}

pub either : (b : Bool) {s t : Server} → IsSane s → IsSane t → IsSane (if b then s else t)
either true h k = h
either false h k = k

-- The slot that is taken is paid, or put back.
slot_taken :
    (now roll sock : ℕ) (key : Text) (doc_id : ℤ) (rec : UserRecord) (offset : ℕ)
    (slot : MarketSlot) (s : Server)
    → IsSane s
    → (market_take doc_id s.market).0 ≡ taken slot
    → IsSane (buy_commit now roll sock key doc_id rec offset s)
slot_taken now roll sock key doc_id rec offset slot s h e =
    let kept = take-IsBoard doc_id s.market h.sane.board in
    unfold buy_commit buy_pay in
    rw (e, buy_commit)
      (either (sandbox_buy key doc_id s.disk).0 (unmoved refl (market-IsSane s _ h kept)) (
        unmoved refl (
          market-IsSane s _ h (
            add-IsBoard now roll slot.doc_id slot.tags slot.base_price slot.name _
              (take-word doc_id slot s.market h.sane.board e) kept))))

commit-IsSane :
    (now roll sock : ℕ) (key : Text) (doc_id : ℤ) (rec : UserRecord) (offset : ℕ) (s : Server)
    → IsSane s
    → IsSane (buy_commit now roll sock key doc_id rec offset s)
commit-IsSane now roll sock key doc_id rec offset s h = go (market_take doc_id s.market).0 refl
  where
    go :
        (answer : Take)
        → (market_take doc_id s.market).0 ≡ answer
        → IsSane (buy_commit now roll sock key doc_id rec offset s)
    go frozen_slot e = unfold buy_commit in rw (e, buy_commit) (unmoved refl h)
    go not_listed e = unfold buy_commit in rw (e, buy_commit) (unmoved refl h)
    go (taken slot) e = slot_taken now roll sock key doc_id rec offset slot s h e

pub buy-IsSane :
    (other : Server → Server) (now roll sock : ℕ) (key : Text) (doc_id : ℤ) (s : Server)
    → IsSane s
    → IsSane (other s)
    → IsSane (handle_buy other now roll sock key doc_id s)
buy-IsSane other now roll sock key doc_id s h k =
    elim (Option-cases (market_find doc_id s.market)) [
      | inl e ↦ unfold handle_buy in rw (e, handle_buy) (unmoved refl h)
      | inr (slot, e) ↦ elim (Option-cases (userdb_find key s.users)) [
        | inl f ↦
            unfold handle_buy in
            rw (e, f, handle_buy)
              (either slot.is_frozen (unmoved refl h)
                (either (inventory_is_full key s) (unmoved refl h) (unmoved refl h)))
        | inr ((rec, offset), f) ↦
            unfold handle_buy in
            rw (e, f, handle_buy)
              (either slot.is_frozen (unmoved refl h) (
                either (inventory_is_full key s) (unmoved refl h) (
                  either (lt_ℤ rec.money slot.base_price) (unmoved refl h)
                    (commit-IsSane now roll sock key doc_id rec offset (other s) k))))
      ]
    ]

sell_commit-IsSane :
    (junk : UserRecord × ℕ) (sock : ℕ) (key : Text) (npc_id : ℤ) (ids : List ℤ) (s : Server)
    → IsSane s
    → IsSane (sell_commit junk sock key npc_id ids s)
sell_commit-IsSane junk sock key npc_id ids s h = go (npc_take npc_id s.npcs).0 refl
  where
    go :
        (offer : Option NpcSlot)
        → (npc_take npc_id s.npcs).0 ≡ offer
        → IsSane (sell_commit junk sock key npc_id ids s)
    go none e = unfold sell_commit in rw (e, sell_commit) (unmoved refl h)
    go (some npc) e =
        unfold sell_commit sell_settle in
        rw (e, sell_commit) (unmoved refl (npcs-IsSane s _ h (length-npc_take npc_id s.npcs)))

pub sell-IsSane :
    (other : Server → Server) (junk : UserRecord × ℕ) (sock : ℕ) (key : Text) (npc_id count : ℤ)
    (doc_ids : List ℤ) (s : Server)
    → IsSane s
    → IsSane (other s)
    → IsSane (handle_sell other junk sock key npc_id count doc_ids s)
sell-IsSane other junk sock key npc_id count doc_ids s h k =
    unfold handle_sell in
    either (le_ℤ count (pos 0) || lt_ℤ (pos max_inven_size) count) (unmoved refl h)
      (elim (Option-cases (npc_find npc_id s.npcs)) [
        | inl e ↦ rw e (unmoved refl h)
        | inr (npc, e) ↦ rw e (gathered npc (gather key s 0 ids))
      ])
  where
    ids : List ℤ
    ids = market_doc_sort_ids (take (pos_part count) doc_ids)

    gathered :
        (npc : NpcSlot) (g : Gathered)
        → IsSane (elim g [
          | refused code ↦ send_error sock code s
          | tags tag_union ↦
              if not (covers tag_union npc.required_tags)
              then send_error sock tag_mismatch s
              else sell_commit junk sock key npc_id ids (other s)
        ])
    gathered npc (refused code) = unmoved refl h
    gathered npc (tags tag_union) =
        either (not (covers tag_union npc.required_tags)) (unmoved refl h)
          (sell_commit-IsSane junk sock key npc_id ids (other s) k)

-- The next goal stays between the first and the cap.
next_goal-range :
    (g : ℤ)
    → pos 10000 ≤ℤ g
    → g ≤ℤ pos 14000
    → (pos 10000 ≤ℤ next_goal g) × (next_goal g ≤ℤ pos 14000)
unfolding next_goal add32
next_goal-range (pos n) lo hi = ground arith
next_goal-range (negsuc n) lo hi = absurd (ground arith)

pub escape-IsSane :
    (now : ℕ) (key : Text) (s : Server)
    → IsSane s
    → IsSane (record s { round = record_escape now key s.round })
unfolding record_escape
escape-IsSane now key s h =
    let raised = next_goal-range s.round.goal_money h.sane.floor h.sane.cap in
    record {
      sane = record {
        board = h.sane.board;
        offers = h.sane.offers;
        floor = raised.0;
        cap = raised.1;
      };
    }

pub payoff-IsSane :
    (now : ℕ) (spawned : Bool) (sock : ℕ) (key : Text) (s : Server)
    → IsSane s
    → IsSane (handle_payoff now spawned sock key s)
payoff-IsSane now spawned sock key s h = elim (Option-cases (userdb_find key s.users)) [
  | inl e ↦ unfold handle_payoff in rw (e, handle_payoff) (unmoved refl h)
  | inr ((rec, offset), e) ↦
      unfold handle_payoff in
      rw (e, handle_payoff)
        (either (lt_ℤ rec.money s.round.goal_money) (unmoved refl h) (paid rec offset))
]
  where
    paid : (rec : UserRecord) (offset : ℕ) → IsSane (pay_off now spawned sock key rec offset s)
    paid rec offset =
        let raised = next_goal-range s.round.goal_money h.sane.floor h.sane.cap in
        let r = record_escape now key s.round in
        let told : IsSane (
            announce_escape sock key s.round.goal_money r.goal_money
              (renew_account key rec offset (record s { round = r }))) =
          unfold record_escape renew_account announce_escape in
          (record {
            sane = record {
              board = h.sane.board;
              offers = h.sane.offers;
              floor = raised.0;
              cap = raised.1;
            };
          }) in
        unfold pay_off in
        either (leb 3 r.escaped_count) (unmoved (countdown-view spawned three_escaped _) told) told
