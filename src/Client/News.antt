-- ===== src/Client/News.antt =====
-- The headline `last_news` that src/client/ui_client.c keeps, with the texts of the packets that change it.
use under_flow.Base.{
  ◌-◌, All, ◌≡◌, refl, Bool, true, false, ◌||◌, List, [], ◌∷◌, if◌then◌else◌, take, length, arith,
  inl, inr, Bool-cases,
}
use under_flow.Base.Text.{Text, same_text, strncpy, bytes, utf8}
use under_flow.Protocol.{max_text_len}

-- `strstr(s, part) != NULL`
unfoldable pub has_part : Text → Text → Bool
has_part part [] = same_text part []
has_part part (b ∷ bs) =
    let later = has_part part bs in
    if same_text part (take (length part) (b ∷ bs)) then true else later

unfoldable pub is_news : Text → Bool
unfolding has_part
is_news sender =
    has_part (utf8 "속보") sender
    || (has_part (bytes "ALERT") sender || has_part (bytes "SYSTEM") sender)

-- The packets, as far as they tell of news: a chat with its sender, a leak with its headline, the reset of a
-- round, and any other.
pub data Told : Type 0 where
  told_chat : Text → Text → Told
  told_leak : Text → Told
  told_reset : Told
  told_else : Told

unfoldable pub last_news : Told → Text → Text
unfolding is_news
last_news (told_chat sender text) news =
    if is_news sender then strncpy (max_text_len - 1) text else news
last_news (told_leak headline) news = strncpy (max_text_len - 1) headline
last_news told_reset news = []
last_news told_else news = news

unfoldable pub last_news_of : List Told → Text → Text
unfolding last_news
last_news_of [] news = news
last_news_of (t ∷ ts) news = last_news_of ts (last_news t news)

-- What has no effect on the headline.
abbrev is_silent : Told → Bool
is_silent (told_chat sender text) = if is_news sender then false else true
is_silent (told_leak headline) = false
is_silent told_reset = false
is_silent told_else = true

silent_lem :
    (ts : List Told) (news : Text) → All (λ t. is_silent t ≡ true) ts → last_news_of ts news ≡ news
unfolding last_news_of last_news
silent_lem [] news h = refl
silent_lem (told_chat sender text ∷ ts) news h = elim (Bool-cases (is_news sender)) [
  | inl q ↦ absurd (ground (arith, q, h.0))
  | inr q ↦ rw q (silent_lem ts news h.1)
]
silent_lem (told_leak headline ∷ ts) news h = absurd (ground (arith, h.0))
silent_lem (told_reset ∷ ts) news h = absurd (ground (arith, h.0))
silent_lem (told_else ∷ ts) news h = silent_lem ts news h.1

-- A player whose key is "SYSTEM" makes the headlines.
system_is_news : is_news (bytes "SYSTEM") ≡ true
unfolding is_news same_text
system_is_news = refl

-- A line from a player with that key stays the headline until the next news.
spoofed_lem :
    (text : Text) (ts : List Told) (news : Text)
    → All (λ t. is_silent t ≡ true) ts
    → last_news_of (told_chat (bytes "SYSTEM") text ∷ ts) news ≡ strncpy (max_text_len - 1) text
unfolding last_news_of last_news
spoofed_lem text ts news h = rw system_is_news (silent_lem ts _ h)
