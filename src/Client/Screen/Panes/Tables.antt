-- ===== src/Client/Screen/Panes/Tables.antt =====
-- The three tables that src/client/ui_client.c draws: what is shown, and in which rows.
use under_flow.Base.{ℕ, ◌-◌, ◌*◌, ◌/◌, ◌≤◌, ◌≡◌, ◌∙◌, true, length, take, take_all, arith}
use under_flow.Client.{ClientState}
use under_flow.Client.Screen.Panes.{
  draw_ui, check_size, render_market, render_bounty, render_inventory, inventory_h,
}
use under_flow.Client.Screen.Panes.Rows.{entries, Spread, rows_take, rows-Spread}

-- The tables on a screen that `check_size` lets through, with panes of the heights that `draw_ui` gives
-- them: the market shows its first entries, one to a row, the offers theirs, three rows to an offer, and
-- the inventory all its items when it has seven at most; the rows grow and stay inside the box.
tables_lem :
    (h w : ℕ) (st : ClientState)
    → check_size h w ≡ true
    → length st.inv ≤ 7
    → let m = (draw_ui h w).market.rows in
      (entries (render_market m st) ≡ take (m - 3) st.mkt)
      × (entries (render_bounty m st) ≡ take ((m - 2) / 3) st.npc)
      × (entries (render_inventory inventory_h st) ≡ st.inv)
      × Spread 2 (render_market m st) (m - 1)
      × Spread 1 (render_bounty m st) (m - 1)
      × Spread 1 (render_inventory inventory_h st) (inventory_h - 1)
unfolding check_size draw_ui render_market render_bounty render_inventory
tables_lem h w st big few =
    let size : 30 ≤ h = ground (arith, big) in
    let m = h * 45 / 100 in
    (
      rows_take m 1 0 2 (m - 3) st.mkt (omega (arith, size)) (omega (arith, size)),
      rows_take m 3 2 1 ((m - 2) / 3) st.npc (omega (arith, size)) (omega (arith, size)),
      rows_take 9 1 0 1 7 st.inv (omega arith) (omega arith) ∙ take_all 7 st.inv few,
      rows-Spread m 1 0 2 2 st.mkt (omega arith) (omega arith) (omega (arith, size)),
      rows-Spread m 3 2 1 1 st.npc (omega arith) (omega arith) (omega (arith, size)),
      rows-Spread 9 1 0 1 1 st.inv (omega arith) (omega arith) (omega arith),
    )
