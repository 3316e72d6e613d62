-- ===== src/Server/Tests.antt =====
-- Purchases and sales of src/server/server_main.c in a small world.
use under_flow.Base.{
  All, ℕ, ◌≡◌, refl, ◌+◌, ◌<◌, ◌≤◌, Bool, true, false, Option, none, some, List, [], ◌∷◌, arith,
  inl, inr, if◌then◌else◌, ◌⊎◌, ◌≢◌, take, replicate, ◌&&◌, ◌||◌,
}
use under_flow.Base.Bits.{bit}
use under_flow.Base.Int.{lt_ℤ, ◌≤ℤ◌, ℤ, pos, InInt32}
use under_flow.Base.Text.{Text}
use under_flow.Market.{market_find}
use under_flow.Npc.{npc_find}
use under_flow.Userdb.{UserRecord, zero_record, userdb_find}
use under_flow.Sandbox.{DocFile, dir_get, user_dir, sandbox_read_doc, sandbox_count}
use under_flow.Protocol.{ErrorCode, tag_mismatch}
use under_flow.Server.{send_error}
use under_flow.Server.Buy.{handle_buy}
use under_flow.Server.Buy.Effect.{buy_succeeds}
use under_flow.Server.Buy.Race.{Untouched, PaidForFile, buy_all_or_nothing}
use under_flow.Server.Sell.{market_doc_sort_ids, handle_sell, sell_commit}
use under_flow.Server.Sell.Tags.{all_sellable, carried, sale_verdict}
use under_flow.Server.Sell.Effect.{sell_pays}
use under_flow.Server.World.{
  ada, bob, doc, account, slot, offer, world, world-Distinct, world-offered, world-IsSound, bob_can,
}

buy_succeeds_example :
    let s' = handle_buy (λ t. t) 100 3 5 bob (pos 5) world in
    (userdb_find bob s'.users ≡ some (account bob (pos 11200), 1))
    × (pos 0 ≤ℤ pos 11200)
    × (market_find (pos 5) s'.market ≡ none)
    × (dir_get (pos 5) s'.disk.master ≡ none)
    × (sandbox_read_doc bob (pos 5) s'.disk ≡ some (doc (pos 5)))
    × (record s' { market = world.market; users = world.users; disk = world.disk; out = [] }
        ≡ world)
unfolding under_flow.Sandbox.user_dir_in under_flow.Base.Text.same_text
    under_flow.Base.Text.strncmp_eq under_flow.Base.Int.◌-ℤ◌
buy_succeeds_example =
    buy_succeeds 100 3 5 bob (pos 5) world slot (account bob (pos 12000)) 1 (doc (pos 5)) [] bob
      (pos 5) bob_can world-Distinct world-IsSound refl refl refl (omega arith) (omega arith)
      (omega arith)

buy_all_or_nothing_example :
    let s' = handle_buy (λ t. t) 100 3 5 bob (pos 5) world in
    Untouched world s' ⊎ Untouched world s' ⊎ PaidForFile bob (pos 5) world world s'
buy_all_or_nothing_example = buy_all_or_nothing (λ t. t) 100 3 5 bob (pos 5) world

paid-fits : InInt32 (pos 2200)
paid-fits = omega arith

-- Ada sells document 7.
sale_verdict_example :
    let s' = handle_sell (λ t. t) (zero_record, 0) 4 ada (pos 102) (pos 1) (pos 7 ∷ []) world in
    let ids = pos 7 ∷ [] in
    (all_sellable ada world ids ≡ true
      → ((k : ℕ) → bit 18 k ≤ carried ada world k ids)
      → s' ≡ sell_commit (zero_record, 0) 4 ada (pos 102) ids world)
    × (all_sellable ada world ids ≡ true
        → (k : ℕ) → carried ada world k ids < bit 18 k
        → s' ≡ send_error 4 tag_mismatch world)
    × (all_sellable ada world ids ≡ false → (code : ErrorCode) × (s' ≡ send_error 4 code world))
unfolding npc_find sandbox_read_doc market_doc_sort_ids
sale_verdict_example =
    sale_verdict (λ t. t) (zero_record, 0) 4 ada (pos 102) (pos 1) (pos 7 ∷ []) world offer refl
      refl refl

sell_pays_example :
    let s' = sell_commit (zero_record, 0) 4 ada (pos 102) (pos 7 ∷ []) world in
    (userdb_find ada s'.users ≡ some (account ada (pos 2200), 0))
    × (npc_find (pos 102) s'.npcs ≡ none)
    × (pos 102 ≢ pos 7 → npc_find (pos 7) s'.npcs ≡ npc_find (pos 7) world.npcs)
    × (s'.disk.master ≡ world.disk.master)
    × (sandbox_read_doc ada (pos 7) s'.disk ≡ none)
    × (record s' { npcs = world.npcs; users = world.users; disk = world.disk; out = [] } ≡ world)
unfolding npc_find userdb_find under_flow.Userdb.find_from under_flow.Base.Text.strncmp_eq
    under_flow.Base.Text.same_text under_flow.Base.Int.◌+ℤ◌
sell_pays_example =
    sell_pays (zero_record, 0) 4 ada (pos 102) (pos 7 ∷ []) world offer (account ada (pos 1000)) 0
      ada (pos 7) refl world-offered refl refl refl world-IsSound paid-fits
