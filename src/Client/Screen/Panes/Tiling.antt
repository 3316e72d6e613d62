-- ===== src/Client/Screen/Panes/Tiling.antt =====
-- The panes of `draw_ui` of src/client/ui_client.c share the screen among them.
use under_flow.Base.{
  ℕ, ◌+◌, ◌-◌, ◌*◌, ◌/◌, ◌≤◌, ◌<◌, ◌≡◌, ◌&&◌, Bool, true, List, [], ◌∷◌, ltb, leb, count_by, arith,
}
use under_flow.Client.Screen.Panes.{Pane, Panes, check_size, draw_ui}

-- The cell in row `y` and column `x` is in the pane.
abbrev covers_cell : ℕ → ℕ → Pane → Bool
covers_cell y x p =
    (leb p.top y && ltb y (p.top + p.rows)) && (leb p.left x && ltb x (p.left + p.columns))

abbrev pub outer : Panes → List Pane
outer p = p.news ∷ p.market ∷ p.bounty ∷ p.inventory ∷ p.log_border ∷ p.prompt ∷ []

one_pane :
    (h w m k y x : ℕ)
    → m + 14 < h
    → k ≤ w
    → y < h
    → x < w
    → count_by (covers_cell y x) (
        record { rows = 4; columns = w; top = 0; left = 0 }
        ∷ record { rows = m; columns = k; top = 4; left = 0 }
        ∷ record { rows = m; columns = w - k; top = 4; left = k }
        ∷ record { rows = 9; columns = w; top = 4 + m; left = 0 }
        ∷ record { rows = h - 4 - m - 9 - 1; columns = w; top = 4 + m + 9; left = 0 }
        ∷ record { rows = 1; columns = w; top = h - 1; left = 0 }
        ∷ [])
      ≡ 1
one_pane h w m k y x room fits hy hx = ground arith

-- On a screen that `check_size` lets through, each cell is in exactly one of the six outer panes of
-- `draw_ui`, and the log has a row at least and lies inside its border.
tiling_lem :
    (h w y x : ℕ)
    → check_size h w ≡ true
    → y < h
    → x < w
    → (count_by (covers_cell y x) (outer (draw_ui h w)) ≡ 1)
      × (1 ≤ (draw_ui h w).log.rows)
      × ((draw_ui h w).log.top + (draw_ui h w).log.rows < (draw_ui h w).log_border.rows)
      × ((draw_ui h w).log.left + (draw_ui h w).log.columns < w)
unfolding check_size draw_ui
tiling_lem h w y x big hy hx =
    let size : (30 ≤ h) × (100 ≤ w) = ground (arith, big) in
    (
      one_pane h w (h * 45 / 100) (w / 2) y x (omega (arith, size)) (omega arith) hy hx,
      omega (arith, size),
      omega (arith, size),
      omega (arith, size),
    )
