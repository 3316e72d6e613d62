-- ===== src/Client/Screen/Panes/Scoreboard.antt =====
-- The scoreboard that src/client/ui_client.c draws: what is shown, and in which rows.
use under_flow.Base.{
  ℕ, zero, suc, ◌+◌, ◌-◌, ◌≤◌, ◌<◌, ◌≡◌, refl, sym, ◌∙◌, ap, subst, true, false, List, [], ◌∷◌,
  ◌++◌, length, take, ltb, max, arith, Bool-cases, inl, inr,
}
use mathlib.Core.List.{append-nil}
use under_flow.Base.Text.{Text}
use under_flow.Protocol.{ScoreEscaped, ScoreRemaining}
use under_flow.Client.Screen.Panes.{
  check_size, ScoreRow, rule, ranking_title, left_row, chat_title, escaped_rows, left_rows,
  chat_rows, escaped_part, left_part, scoreboard_height, render_scoreboard,
}
use under_flow.Client.Screen.Panes.Rows.{Spread, Spread-append}

-- The players in the ranking.
abbrev pub ranked : List (ℕ × ScoreRow) → List ScoreRemaining
ranked [] = []
ranked ((y, left_row i p) ∷ rest) = p ∷ ranked rest
ranked ((y, other) ∷ rest) = ranked rest

ranked-append : (a b : List (ℕ × ScoreRow)) → ranked (a ++ b) ≡ ranked a ++ ranked b
ranked-append [] b = refl
ranked-append ((y, left_row i p) ∷ rest) b = ap (λ t. p ∷ t) (ranked-append rest b)
ranked-append ((y, _) ∷ rest) b = ranked-append rest b

ranked-escaped : (y : ℕ) (es : List ScoreEscaped) → ranked (escaped_rows y es) ≡ []
ranked-escaped y [] = refl
ranked-escaped y (e ∷ es) = ranked-escaped (y + 1) es

ranked-chats : (y : ℕ) (lines : List Text) → ranked (chat_rows y lines) ≡ []
ranked-chats y [] = refl
ranked-chats y (line ∷ lines) = ranked-chats (y + 1) lines

ranked-left :
    (rem_limit i y n : ℕ) (ps : List ScoreRemaining)
    → y + n ≡ rem_limit
    → ranked (left_rows rem_limit i y ps) ≡ take n ps
ranked-left rem_limit i y zero [] e = refl
ranked-left rem_limit i y (suc n) [] e = refl
ranked-left rem_limit i y zero (p ∷ ps) e =
    let full : ltb y rem_limit ≡ false = ground arith in rw full refl
ranked-left rem_limit i y (suc n) (p ∷ ps) e =
    let free : ltb y rem_limit ≡ true = ground arith in
    rw free (ap (λ t. p ∷ t) (ranked-left rem_limit (i + 1) (y + 1) n ps (omega arith)))

length-escaped : (y : ℕ) (es : List ScoreEscaped) → length (escaped_rows y es) ≡ length es
length-escaped y [] = refl
length-escaped y (e ∷ es) = ap suc (length-escaped (y + 1) es)

escaped-Spread :
    (lo y hi : ℕ) (es : List ScoreEscaped)
    → lo ≤ y
    → y + length es ≤ hi
    → Spread lo (escaped_rows y es) hi
escaped-Spread lo y hi [] le room = omega arith
escaped-Spread lo y hi (e ∷ es) le room =
    (le, escaped-Spread (suc y) (y + 1) hi es (omega arith) (omega arith))

chats-Spread :
    (lo y hi : ℕ) (lines : List Text)
    → lo ≤ y
    → y + length lines ≤ hi
    → Spread lo (chat_rows y lines) hi
chats-Spread lo y hi [] le room = omega arith
chats-Spread lo y hi (line ∷ lines) le room =
    (le, chats-Spread (suc y) (y + 1) hi lines (omega arith) (omega arith))

left-Spread :
    (rem_limit i lo y : ℕ) (ps : List ScoreRemaining)
    → lo ≤ y
    → lo ≤ rem_limit
    → Spread lo (left_rows rem_limit i y ps) rem_limit
left-Spread rem_limit i lo y [] le in_box = in_box
left-Spread rem_limit i lo y (p ∷ ps) le in_box = elim (Bool-cases (ltb y rem_limit)) [
  | inl q ↦
      let free : y < rem_limit = ground (arith, q) in
      rw q (le, left-Spread rem_limit (i + 1) (suc y) (y + 1) ps (omega arith) (omega arith))
  | inr q ↦ rw q in_box
]

left_part-Spread :
    (lo y : ℕ) (ps : List ScoreRemaining) → lo ≤ y → y < 13 → Spread lo (left_part 13 y ps) 13
left_part-Spread lo y [] le lt = (le, omega arith)
left_part-Spread lo y (p ∷ ps) le lt = left-Spread 13 0 lo y (p ∷ ps) le (omega arith)

ranked-left_part :
    (y n : ℕ) (ps : List ScoreRemaining) → y + n ≡ 13 → ranked (left_part 13 y ps) ≡ take n ps
ranked-left_part y zero [] e = refl
ranked-left_part y (suc n) [] e = refl
ranked-left_part y n (p ∷ ps) e = ranked-left 13 0 y n (p ∷ ps) e

ranked-escaped_part : (es : List ScoreEscaped) → ranked (escaped_part es) ≡ []
ranked-escaped_part [] = refl
ranked-escaped_part (e ∷ es) = ranked-escaped 4 (e ∷ es)

escaped_part-Spread :
    (es : List ScoreEscaped) → Spread 4 (escaped_part es) (4 + length (escaped_part es))
escaped_part-Spread [] = omega arith
escaped_part-Spread (e ∷ es) =
    escaped-Spread 4 4 _ (e ∷ es) (omega arith) (omega (arith, length-escaped 4 (e ∷ es)))

length-escaped_part : (es : List ScoreEscaped) → length (escaped_part es) ≡ max 1 (length es)
length-escaped_part [] = refl
length-escaped_part (e ∷ es) = omega (arith, length-escaped 4 (e ∷ es))

module _ (escaped : List ScoreEscaped) (remaining : List ScoreRemaining) (chats : List Text)
    (few : length escaped ≤ 3) (short : length chats ≤ 5) where
  -- What stands behind the rows of those who escaped, in a box of 22 rows.
  abbrev lower_part : List (ℕ × ScoreRow)
  lower_part =
      let y = 4 + length (escaped_part escaped) in
      (y + 1, rule)
      ∷ (y + 2, ranking_title)
      ∷ (left_part 13 (y + 3) remaining ++ ((14, chat_title) ∷ chat_rows 15 chats))

  lower-Spread : (lo : ℕ) → lo ≤ 4 + length (escaped_part escaped) → Spread lo lower_part 21
  lower-Spread lo le =
      let n = length-escaped_part escaped in
      let y = 4 + length (escaped_part escaped) in
      (
        omega arith,
        (
          omega arith,
          Spread-append (suc (y + 2)) 13 21 (left_part 13 (y + 3) remaining) _
              (left_part-Spread (suc (y + 2)) (y + 3) remaining (omega arith) (omega (arith, n)))
              (λ k below. (omega arith, chats-Spread 15 15 21 chats (omega arith) (omega arith))),
        ),
      )

  ranked-lower : ranked lower_part ≡ take (6 - max 1 (length escaped)) remaining
  ranked-lower =
      let n = length-escaped_part escaped in
      let y = 4 + length (escaped_part escaped) in
      let room = 6 - max 1 (length escaped) in
      ranked-append (left_part 13 (y + 3) remaining) ((14, chat_title) ∷ chat_rows 15 chats)
      ∙ ap (λ t. ranked (left_part 13 (y + 3) remaining) ++ t) (ranked-chats 15 chats)
      ∙ append-nil (ranked (left_part 13 (y + 3) remaining))
      ∙ ranked-left_part (y + 3) room remaining (omega (arith, n))

  in_box :
      (countdown_sec : ℕ)
      → let rows = render_scoreboard 22 countdown_sec escaped remaining chats in
        Spread 1 rows 21 × (ranked rows ≡ take (6 - max 1 (length escaped)) remaining)
  unfolding render_scoreboard
  in_box countdown_sec = (
    (
      omega arith,
      (
        omega arith,
        (
          omega arith,
          Spread-append 4 (4 + length (escaped_part escaped)) 21 (escaped_part escaped) lower_part
              (escaped_part-Spread escaped) lower-Spread,
        ),
      ),
    ),
    ranked-append (escaped_part escaped) lower_part
        ∙ ap (λ t. t ++ ranked lower_part) (ranked-escaped_part escaped)
        ∙ ranked-lower,
  )

-- The scoreboard on a screen that `check_size` lets through, with three players who escaped and five chats
-- at most: the rows grow and stay inside the box of 22 rows, and the ranking shows its first players, as
-- many as there is room for above the chats: six less the players who escaped, but never more than five.
pub scoreboard_lem :
    (h w countdown_sec : ℕ) (escaped : List ScoreEscaped) (remaining : List ScoreRemaining)
    (chats : List Text)
    → check_size h w ≡ true
    → length escaped ≤ 3
    → length chats ≤ 5
    → let rows = render_scoreboard (scoreboard_height h) countdown_sec escaped remaining chats in
      (scoreboard_height h ≡ 22)
      × Spread 1 rows 21
      × (ranked rows ≡ take (6 - max 1 (length escaped)) remaining)
unfolding check_size scoreboard_height
scoreboard_lem h w countdown_sec escaped remaining chats big few short =
    let size : 30 ≤ h = ground (arith, big) in
    let tall : scoreboard_height h ≡ 22 = ground (arith, size) in
    let at22 = in_box escaped remaining chats few short countdown_sec in
    (
      tall,
      subst (λ b. Spread 1 (render_scoreboard b countdown_sec escaped remaining chats) 21)
          (sym tall) at22.0,
      subst
          (λ b.
            ranked (render_scoreboard b countdown_sec escaped remaining chats)
            ≡ take (6 - max 1 (length escaped)) remaining)
          (sym tall) at22.1,
    )
