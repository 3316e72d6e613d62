-- ===== src/Client/Commands.antt =====
-- The command line of src/client/ui_client.c: what a line does when Enter is pressed, by the client's mode.
use under_flow.Base.{
  ◌≡◌, refl, ◌≡◌, ℕ, zero, suc, ◌+◌, ◌-◌, ◌*◌, Bool, false, ◌&&◌, ◌||◌, List, [], ◌∷◌, ◌++◌,
  if◌then◌else◌, leb, ◌==◌, map, take, length,
}
use under_flow.Base.Int.{ℤ, pos, negsuc}
use under_flow.Base.Text.{Text, strncpy, strncmp_eq, same_text, is_set, bytes}
use under_flow.Userdb.{max_key_len, max_inven_size}
use under_flow.Protocol.{
  Request, req_chat, req_buy, req_sell, req_dispose, req_inven, req_rumor, req_minigame_submit,
  trigger_raid, trigger_leak, trigger_rich, trigger_endround, max_text_len,
}
use under_flow.Client.{ClientMode, normal, panic, round_end, over}

-- What Enter does: end the program, send a packet, say that commands are locked, one of the three local
-- test commands, or nothing.
pub data Entered : Type 0 where
  quit : Entered
  send : Request → Entered
  locked : Entered
  local_rumor local_ok local_over : Entered
  nothing : Entered

abbrev is_digit : ℕ → Bool
is_digit b = leb 48 b && leb b 57

abbrev is_space : ℕ → Bool
is_space b = b == 32 || (leb 9 b && leb b 13)

-- The digits of `atoi` from here on, behind the number `n`.
digits_from : ℕ → Text → ℕ
digits_from n [] = n
digits_from n (b ∷ bs) =
    let more = digits_from (10 * n + (b - 48)) bs in if is_digit b then more else n

skip_spaces : Text → Text
skip_spaces [] = []
skip_spaces (b ∷ bs) = let rest = skip_spaces bs in if is_space b then rest else b ∷ bs

abbrev negated : ℕ → ℤ
negated zero = pos 0
negated (suc n) = negsuc n

signed : Text → ℤ
unfolding digits_from
signed [] = pos 0
signed (b ∷ bs) =
    if b == 45
    then negated (digits_from 0 bs)
    else if b == 43
    then pos (digits_from 0 bs)
    else pos (digits_from 0 (b ∷ bs))

-- `atoi` on a number that fits in an int.
unfoldable atoi : Text → ℤ
unfolding skip_spaces signed
atoi text = signed (skip_spaces text)

-- The first token that begins in the text, as far as `word` goes, and the tokens after it.
tokens_from : Text → Text → List Text
tokens_from word [] = if is_set word then word ∷ [] else []
tokens_from word (b ∷ bs) =
    let next = tokens_from [] bs in
    let longer = tokens_from (word ++ (b ∷ [])) bs in
    if b == 32 then (if is_set word then word ∷ next else next) else longer

-- `strtok` with " ", until it gives NULL.
unfoldable tokens : Text → List Text
unfolding tokens_from
tokens text = tokens_from [] text

abbrev drop_bytes : ℕ → Text → Text
drop_bytes zero bs = bs
drop_bytes (suc n) [] = []
drop_bytes (suc n) (b ∷ bs) = drop_bytes n bs

abbrev starts_with : Text → Text → Bool
starts_with word input = strncmp_eq (length word) input word

-- The arguments of /sell; without any, the packet keeps its zero bytes.
unfoldable sell_request : List Text → Request
unfolding atoi
sell_request [] = req_sell (pos 0) (pos 0) []
sell_request (npc ∷ docs) =
    let ids = map atoi (take max_inven_size docs) in req_sell (atoi npc) (pos (length ids)) ids

-- A line that is no test command.
unfoldable request_of : Text → Request
unfolding atoi tokens sell_request
request_of input =
    if starts_with (bytes "/buy ") input
    then req_buy (atoi (drop_bytes 5 input))
    else if starts_with (bytes "/dispose ") input
    then req_dispose (atoi (drop_bytes 9 input))
    else if same_text input (bytes "/inventory") || same_text input (bytes "/inv")
    then req_inven
    else if starts_with (bytes "/rumor ") input
    then req_rumor (strncpy (max_key_len - 1) (drop_bytes 7 input))
    else if starts_with (bytes "/sell ") input
    then sell_request (tokens (drop_bytes 6 input))
    else req_chat (strncpy (max_text_len - 1) input)

-- The test commands, and the rest.
unfoldable pub command : Text → Entered
unfolding request_of
command input =
    if same_text input (bytes "/fake rumor")
    then local_rumor
    else if same_text input (bytes "/fake raid")
    then send trigger_raid
    else if same_text input (bytes "/fake leak")
    then send trigger_leak
    else if same_text input (bytes "/fake rich")
    then send trigger_rich
    else if same_text input (bytes "/fake endround")
    then send trigger_endround
    else if same_text input (bytes "/fake ok")
    then local_ok
    else if same_text input (bytes "/fake over")
    then local_over
    else send (request_of input)

abbrev is_command : Text → Bool
is_command [] = false
is_command (b ∷ bs) = b == 47

unfoldable pub epilogue_line : Text → Entered
epilogue_line input =
    if is_command input
    then locked
    else if is_set input
    then send (req_chat (strncpy (max_text_len - 1) input))
    else nothing

unfoldable pub enter : ClientMode → Text → Entered
unfolding command epilogue_line
enter mode input = if same_text input (bytes "/quit") then quit else elim mode [
  | normal ↦ command input
  | over ↦ command input
  | panic ↦ send (req_minigame_submit (strncpy (max_text_len - 1) input))
  | round_end ↦ epilogue_line input
]

sell_line : request_of (bytes "/sell 102 7 -3") ≡ req_sell (pos 102) (pos 2) (pos 7 ∷ negsuc 2 ∷ [])
unfolding request_of strncmp_eq same_text
sell_line = refl
