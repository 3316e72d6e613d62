-- ===== src/Client/Screen/Panes.antt =====
-- Where src/client/ui_client.c draws: `check_size`, the panes of `draw_ui`, the rows of the three tables, and
-- the rows of `render_scoreboard`. A row of text is named by a constructor with the values printed into it.
pub mod Tiling
pub mod Rows
pub mod Tables
pub mod Scoreboard
use under_flow.Base.{
  ℕ, zero, suc, ◌+◌, ◌-◌, ◌*◌, ◌/◌, ◌&&◌, ◌||◌, Bool, not, List, [], ◌∷◌, ◌++◌, if◌then◌else◌, ltb,
  leb, ◌==◌, length,
}
use under_flow.Base.Text.{Text}
use under_flow.Base.Masks.{meets}
use under_flow.Sandbox.{InvenItem}
use under_flow.Protocol.{ScoreEscaped, ScoreRemaining}
use under_flow.Client.{UiMarket, UiNpc, ClientState}
use under_flow.Client.Screen.Chats.{sb_chat_lines}

abbrev min_width : ℕ
min_width = 100

abbrev min_height : ℕ
min_height = 30

-- `check_size`, on a screen of `h` rows and `w` columns.
unfoldable pub check_size : ℕ → ℕ → Bool
check_size h w = not (ltb w min_width || ltb h min_height)

-- The arguments of `newwin`.
pub record Pane : Type 0 where
  pub rows : ℕ
  pub columns : ℕ
  pub top : ℕ
  pub left : ℕ

-- `UI`
pub record Panes : Type 0 where
  pub news : Pane
  pub market : Pane
  pub bounty : Pane
  pub inventory : Pane
  pub log_border : Pane
  pub log : Pane
  pub prompt : Pane

abbrev news_h : ℕ
news_h = 4

abbrev prompt_h : ℕ
prompt_h = 1

abbrev pub inventory_h : ℕ
inventory_h = 9

-- `draw_ui`, which runs on a screen that `check_size` lets through, so that no difference is negative. The
-- pane of the log is given by its place within the border.
unfoldable pub draw_ui : ℕ → ℕ → Panes
draw_ui h w =
    let middle_h = h * 45 / 100 in
    let log_h = h - news_h - middle_h - inventory_h - prompt_h in
    let market_w = w / 2 in
    let y1 = news_h in
    let y2 = y1 + middle_h in
    let y3 = y2 + inventory_h in
    record {
      news = record { rows = news_h; columns = w; top = 0; left = 0 };
      market = record { rows = middle_h; columns = market_w; top = y1; left = 0 };
      bounty = record { rows = middle_h; columns = w - market_w; top = y1; left = market_w };
      inventory = record { rows = inventory_h; columns = w; top = y2; left = 0 };
      log_border = record { rows = log_h; columns = w; top = y3; left = 0 };
      log = record { rows = log_h - 2; columns = w - 2; top = 1; left = 1 };
      prompt = record { rows = prompt_h; columns = w; top = h - 1; left = 0 };
    }

module _ {ℓ} {A : Type ℓ} where
  -- The loop over a table in a pane of `h` rows: an entry takes `step` rows from `row` on, and is drawn
  -- while `row + below < h - 1`.
  abbrev pub rows_from : ℕ → ℕ → ℕ → ℕ → List A → List (ℕ × A)
  rows_from h step below row [] = []
  rows_from h step below row (x ∷ xs) =
      let rest = rows_from h step below (row + step) xs in
      if ltb (row + below) (h - 1) then (row, x) ∷ rest else []

-- The rows of entries of `render_market`, `render_bounty` and `render_inventory`, below their heads.
unfoldable pub render_market : ℕ → ClientState → List (ℕ × UiMarket)
render_market h st = rows_from h 1 0 2 st.mkt

unfoldable pub render_bounty : ℕ → ClientState → List (ℕ × UiNpc)
render_bounty h st = rows_from h 3 2 1 st.npc

-- "  [동결]" stands behind an offer whose tags are frozen.
abbrev npc_frz : ClientState → UiNpc → Bool
npc_frz st n = meets n.required_tags st.frozen_mask

unfoldable pub render_inventory : ℕ → ClientState → List (ℕ × InvenItem)
render_inventory h st = rows_from h 1 0 1 st.inv

pub data ScoreRow : Type 0 where
  remaining_time : ℕ → ScoreRow
  rule : ScoreRow
  escaped_title nobody_escaped : ScoreRow
  escaped_row : ScoreEscaped → ScoreRow
  ranking_title nobody_left : ScoreRow
  left_row : ℕ → ScoreRemaining → ScoreRow
  chat_title : ScoreRow
  chat_row : Text → ScoreRow

abbrev pub escaped_rows : ℕ → List ScoreEscaped → List (ℕ × ScoreRow)
escaped_rows y [] = []
escaped_rows y (e ∷ es) = (y, escaped_row e) ∷ escaped_rows (y + 1) es

abbrev pub left_rows : ℕ → ℕ → ℕ → List ScoreRemaining → List (ℕ × ScoreRow)
left_rows rem_limit i y [] = []
left_rows rem_limit i y (p ∷ ps) =
    let rest = left_rows rem_limit (i + 1) (y + 1) ps in
    if ltb y rem_limit then (y, left_row (i + 1) p) ∷ rest else []

abbrev pub chat_rows : ℕ → List Text → List (ℕ × ScoreRow)
chat_rows y [] = []
chat_rows y (line ∷ lines) = (y, chat_row line) ∷ chat_rows (y + 1) lines

-- `render_scoreboard` on a screen of `h` rows: the height of the box, and the rows in it.
unfoldable pub scoreboard_height : ℕ → ℕ
scoreboard_height h = if ltb (h - 2) 22 then h - 2 else 22

abbrev pub escaped_part : List ScoreEscaped → List (ℕ × ScoreRow)
escaped_part [] = (4, nobody_escaped) ∷ []
escaped_part (e ∷ es) = escaped_rows 4 (e ∷ es)

abbrev pub left_part : ℕ → ℕ → List ScoreRemaining → List (ℕ × ScoreRow)
left_part rem_limit y [] = (y, nobody_left) ∷ []
left_part rem_limit y (p ∷ ps) = left_rows rem_limit 0 y (p ∷ ps)

unfoldable pub render_scoreboard :
    ℕ → ℕ → List ScoreEscaped → List ScoreRemaining → List Text → List (ℕ × ScoreRow)
render_scoreboard box_h countdown_sec escaped remaining chats =
    let y = 4 + length (escaped_part escaped) in
    let rem_limit = box_h - 4 - sb_chat_lines in
    let chat_label_y = box_h - 3 - sb_chat_lines in
    ((1, remaining_time countdown_sec) ∷ (2, rule) ∷ (3, escaped_title) ∷ escaped_part escaped)
    ++ (((y + 1, rule) ∷ (y + 2, ranking_title) ∷ left_part rem_limit (y + 3) remaining)
        ++ ((chat_label_y, chat_title) ∷ chat_rows (chat_label_y + 1) chats))
