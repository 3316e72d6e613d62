-- ===== src/Client/Screen/Chats.antt =====
-- The chats below the scoreboard of src/client/ui_client.c: the ring `sb_chat` that the loop of `main` fills
-- and `render_scoreboard` shows.
use under_flow.Base.{
  Bool-cases, inl, inr, subst, ℕ, zero, suc, ◌+◌, ◌-◌, ◌%◌, ◌≤◌, ◌<◌, ◌≡◌, ◌≢◌, refl, sym, ◌∙◌, ap,
  List, [], ◌∷◌, ◌++◌, length, length-append, length-set, set, take, drop, get_or, get_or-set_self,
  get_or-set_ne, get_or-append, get_or-append_at, drop-get_or, drop_all, if◌then◌else◌, ltb, map,
  arith,
}
use native.Mathlib.Decide.{ℕ_discrete}
use mathlib.Core.List.{append_assoc, append-nil}
use under_flow.Base.Text.{Text, bytes}
use under_flow.Userdb.{max_key_len}
use under_flow.Protocol.{max_text_len}

abbrev pub sb_chat_lines : ℕ
sb_chat_lines = 5

-- `sb_chat` and `sb_chat_count` of `ClientState`.
pub record ChatRing : Type 0 where
  pub sb_chat : List Text
  pub sb_chat_count : ℕ

-- `snprintf` of "[%s] %s" into an entry.
abbrev chat_line : Text → Text → Text
chat_line sender text =
    take (max_text_len + max_key_len + 8 - 1) (bytes "[" ++ (sender ++ (bytes "] " ++ text)))

-- A chat that arrives while the scoreboard is shown.
unfoldable add_chat : Text → Text → ChatRing → ChatRing
add_chat sender text r = record {
  sb_chat = set r.sb_chat (r.sb_chat_count % sb_chat_lines) (chat_line sender text);
  sb_chat_count = r.sb_chat_count + 1;
}

-- The loop of `render_scoreboard`: the next `left` entries from `i` on.
abbrev entries_from : List Text → ℕ → ℕ → List Text
entries_from ring i zero = []
entries_from ring i (suc left) = get_or ring (i % sb_chat_lines) [] ∷ entries_from ring (i + 1) left

-- In a box of `box_w` columns: "%.*s" cuts each line after `box_w - 7` bytes.
unfoldable pub shown_chats : ℕ → ChatRing → List Text
shown_chats box_w r =
    let shown = if ltb r.sb_chat_count sb_chat_lines then r.sb_chat_count else sb_chat_lines in
    map (take (box_w - 7)) (entries_from r.sb_chat (r.sb_chat_count - shown) shown)

-- The chats of an epilogue, each with its sender, oldest first.
unfoldable pub add_chats : List (Text × Text) → ChatRing → ChatRing
unfolding add_chat
add_chats [] r = r
add_chats ((sender, text) ∷ chats) r = add_chats chats (add_chat sender text r)

abbrev pub line_of_chat : Text × Text → Text
line_of_chat (sender, text) = chat_line sender text

-- The ring holds the last five lines of a history, each at its number modulo five.
record Keeps (history : List Text) (r : ChatRing) : Type 0 where
  slots : length r.sb_chat ≡ 5
  counted : r.sb_chat_count ≡ length history
  kept :
      (j : ℕ)
      → j < length history
      → length history ≤ j + 5
      → get_or r.sb_chat (j % 5) [] ≡ get_or history j []

kept_new :
    (history : List Text) (r : ChatRing) (new : Text) (j : ℕ)
    → Keeps history r
    → j ≡ length history
    → get_or (set r.sb_chat (r.sb_chat_count % 5) new) (j % 5) []
      ≡ get_or (history ++ (new ∷ [])) j []
kept_new history r new j k e =
    let same : j % 5 ≡ r.sb_chat_count % 5 = ap (λ i. i % 5) (e ∙ sym k.counted) in
    ap (λ i. get_or (set r.sb_chat (r.sb_chat_count % 5) new) i []) same
    ∙ get_or-set_self r.sb_chat (r.sb_chat_count % 5) new [] (omega (arith, k.slots))
    ∙ sym (
        subst (λ n. get_or (history ++ (new ∷ [])) n [] ≡ new) (sym e)
          (get_or-append_at history new [] []))

kept_old :
    (history : List Text) (r : ChatRing) (new : Text) (j : ℕ)
    → Keeps history r
    → j < length history
    → length history < j + 5
    → get_or (set r.sb_chat (r.sb_chat_count % 5) new) (j % 5) []
      ≡ get_or (history ++ (new ∷ [])) j []
kept_old history r new j k lt near =
    let other : r.sb_chat_count % 5 ≢ j % 5 = omega (arith, k.counted) in
    get_or-set_ne r.sb_chat (r.sb_chat_count % 5) (j % 5) new [] other
    ∙ k.kept j lt (omega arith)
    ∙ sym (get_or-append history (new ∷ []) j [] lt)

add_chat-Keeps :
    (sender text : Text) (history : List Text) (r : ChatRing)
    → Keeps history r
    → Keeps (history ++ (chat_line sender text ∷ [])) (add_chat sender text r)
unfolding add_chat
add_chat-Keeps sender text history r k =
    let new = chat_line sender text in
    let longer = length-append {0} history (new ∷ []) in
    record {
      slots = length-set r.sb_chat (r.sb_chat_count % 5) new ∙ k.slots;
      counted = omega (arith, longer, k.counted);
      kept = λ j lt near. elim (ℕ_discrete j (length history)) [
        | yes e ↦ kept_new history r new j k e
        | no ne ↦ kept_old history r new j k (omega (arith, longer)) (omega (arith, longer))
      ];
    }

add_chats-Keeps :
    (chats : List (Text × Text)) (history : List Text) (r : ChatRing)
    → Keeps history r
    → Keeps (history ++ map line_of_chat chats) (add_chats chats r)
unfolding add_chats
add_chats-Keeps [] history r k = subst (λ h. Keeps h r) (sym (append-nil history)) k
add_chats-Keeps ((sender, text) ∷ chats) history r k =
    subst (λ h. Keeps h (add_chats chats (add_chat sender text r)))
      (append_assoc history (chat_line sender text ∷ []) (map line_of_chat chats))
      (add_chats-Keeps chats (history ++ (chat_line sender text ∷ [])) (add_chat sender text r)
        (add_chat-Keeps sender text history r k))

entries-drop :
    (history : List Text) (r : ChatRing) (i left : ℕ)
    → Keeps history r
    → i + left ≡ length history
    → left ≤ 5
    → entries_from r.sb_chat i left ≡ drop i history
entries-drop history r i zero k e few = sym (
    subst (λ n. drop n history ≡ []) (let all : length history ≡ i = omega arith in all)
      (drop_all history))
entries-drop history r i (suc left) k e few =
    let next = entries-drop history r (i + 1) left k (omega arith) (omega arith) in
    let here = k.kept i (omega arith) (omega arith) in
    let taken = drop-get_or history i [] (omega arith) in
    let after : i + 1 ≡ suc i = omega arith in cc (next, here, taken, after)

length-map : (chats : List (Text × Text)) → length (map line_of_chat chats) ≡ length chats
length-map [] = refl
length-map (c ∷ cs) = ap suc (length-map cs)

-- What `render_scoreboard` shows of a line of an entry.
abbrev pub line_in_box : ℕ → Text → Text
line_in_box box_w line = take (box_w - 7) line

-- Whatever the ring holds from the round before: after the chats of an epilogue the scoreboard, in a box of
-- `box_w` columns, shows the last five of them, or all when there are fewer, oldest first, each with its
-- sender as it was told, cut off at the size of an entry and after `box_w - 7` bytes.
pub shown_chats_lem :
    (box_w : ℕ) (chats : List (Text × Text)) (r : ChatRing)
    → length r.sb_chat ≡ 5
    → r.sb_chat_count ≡ 0
    → shown_chats box_w (add_chats chats r)
      ≡ map (line_in_box box_w) (drop (length chats - 5) (map line_of_chat chats))
unfolding shown_chats
shown_chats_lem box_w chats r five fresh =
    let base : Keeps [] r = record {
      slots = five;
      counted = fresh;
      kept = λ j lt near. absurd (omega arith);
    } in
    let full = add_chats chats r in
    let k = add_chats-Keeps chats [] r base in
    let all = length-map chats in
    let n = full.sb_chat_count in
    elim (Bool-cases (ltb n sb_chat_lines)) [
      | inl q ↦
          let few : n < 5 = ground (arith, q) in
          let start : n - n ≡ length chats - 5 = omega (arith, k.counted, all) in
          rw (q, ← start)
            (ap (map (line_in_box box_w)) (
              entries-drop (map line_of_chat chats) full (n - n) n k (omega (arith, k.counted))
                (omega arith)))
      | inr q ↦
          let many : 5 ≤ n = ground (arith, q) in
          let start : n - 5 ≡ length chats - 5 = omega (arith, k.counted, all) in
          rw (q, ← start)
            (ap (map (line_in_box box_w)) (
              entries-drop (map line_of_chat chats) full (n - 5) 5 k (omega (arith, k.counted))
                (omega arith)))
    ]
