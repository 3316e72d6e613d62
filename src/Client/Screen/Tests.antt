-- ===== src/Client/Screen/Tests.antt =====
-- The drawing of src/client/ui_client.c on small examples.
use under_flow.Base.{
  ℕ, ◌+◌, ◌-◌, ◌<◌, ◌≤◌, ◌/◌, ◌≡◌, refl, true, some, none, List, [], ◌∷◌, ◌++◌, All, map, arith,
  drop, take, replicate, length, count_by,
}
use under_flow.Base.Int.{pos}
use under_flow.Base.Text.{Text, bytes, utf8}
use under_flow.Protocol.{tag_corp_a, tag_finance}
use under_flow.Client.Screen.Tags.{
  tags_to_str, tag_display_order, labels_of, shown, or_no_tag, tags_lem,
}
use under_flow.Client.Screen.Wrap.{
  mvw_print_wrapped, char_size, FitsLine, join, join_all, wrapped_lem,
}
use under_flow.Client.Screen.Chats.{
  ChatRing, add_chats, shown_chats, line_of_chat, line_in_box, shown_chats_lem,
}
use under_flow.Client.Screen.Panes.{check_size, render_scoreboard, scoreboard_height}
use under_flow.Client.Screen.Panes.Rows.{Spread}
use under_flow.Client.Screen.Panes.Scoreboard.{ranked, scoreboard_lem}

-- A mask of all twelve tags overruns the buffer, and one of two is printed.
tags_lem_example :
    (length (shown 0x11 tag_display_order) ≤ 6
      → tags_to_str 0x11 128
        ≡ some (
            or_no_tag (record {
              text = labels_of (tag_corp_a ∷ tag_finance ∷ []);
              len = length (labels_of (tag_corp_a ∷ tag_finance ∷ []));
            })))
    × (10 ≤ length (shown 0x11 tag_display_order) → tags_to_str 0x11 128 ≡ none)
unfolding under_flow.Base.Masks.meets
tags_lem_example = tags_lem 0x11

all_tags_overrun : tags_to_str 0xFFF 128 ≡ none
unfolding under_flow.Base.Masks.meets
all_tags_overrun = (tags_lem 0xFFF).1 (omega arith)

abbrev letters : List Text
letters = utf8 "가" ∷ bytes "a" ∷ utf8 "나" ∷ []

wrapped_lem_example :
    (gs : List (List Text)) × (mvw_print_wrapped 3 (join letters) ≡ some (map join gs))
    × (join_all gs ≡ letters)
    × All (FitsLine 3) gs
unfolding char_size
wrapped_lem_example = wrapped_lem 3 letters (omega arith) (refl, (refl, (refl, tt)))

abbrev talk : List (Text × Text)
talk =
    (bytes "ada", bytes "1")
    ∷ (bytes "bob", bytes "2")
    ∷ (bytes "ada", bytes "3")
    ∷ (bytes "bob", bytes "4")
    ∷ (bytes "ada", bytes "5")
    ∷ (bytes "bob", bytes "6")
    ∷ []

abbrev old_ring : ChatRing
old_ring = record { sb_chat = replicate 5 (bytes "old"); sb_chat_count = 0 }

shown_chats_lem_example :
    shown_chats 70 (add_chats talk old_ring) ≡ map (line_in_box 70) (drop 1 (map line_of_chat talk))
shown_chats_lem_example = shown_chats_lem 70 talk old_ring refl refl

scoreboard_lem_example :
    let rows =
      render_scoreboard
        (scoreboard_height 30)
        60
        []
        (record { key = bytes "ada"; money = pos 5 } ∷ [])
        (bytes "gg" ∷ []) in
    (scoreboard_height 30 ≡ 22)
    × Spread 1 rows 21
    × (ranked rows ≡ record { key = bytes "ada"; money = pos 5 } ∷ [])
unfolding check_size
scoreboard_lem_example =
    scoreboard_lem 30 100 60 [] (record { key = bytes "ada"; money = pos 5 } ∷ []) (bytes "gg" ∷ [])
      refl (omega arith) (omega arith)
