-- ===== src/Client/Line.antt =====
-- The line that a client types, of src/client/ui_client.c: `input` and `len` of `main`, and what each key
-- that is not Enter or a resize does to them.
pub mod Bounds
pub mod Typing
mod Tests
use under_flow.Base.{
  ℕ, zero, suc, ◌+◌, ◌-◌, ◌&&◌, ◌||◌, Bool, List, [], ◌∷◌, if◌then◌else◌, ltb, leb, ◌==◌, set,
  replicate, bit_and,
}
use under_flow.Base.Text.{Text}

abbrev pub input_max : ℕ
input_max = 256

-- `input[INPUT_MAX]` and `len`.
pub record Line : Type 0 where
  pub input : List ℕ
  pub len : ℕ

-- The line at the start, and after a `memset`.
abbrev pub empty_line : Line
empty_line = record { input = replicate input_max 0; len = 0 }

abbrev pub byte_at : List ℕ → ℕ → ℕ
byte_at [] i = 0
byte_at (b ∷ bs) zero = b
byte_at (b ∷ bs) (suc i) = byte_at bs i

-- The C string at the start of a buffer.
abbrev pub c_string : List ℕ → Text
c_string [] = []
c_string (b ∷ bs) = let rest = c_string bs in if b == 0 then [] else b ∷ rest

abbrev pub is_continuation : ℕ → Bool
is_continuation b = bit_and b 0xC0 == 0x80

-- `while (len > 0 && (input[len] & 0xC0) == 0x80) len--;`
unfoldable pub retreat : List ℕ → ℕ → ℕ
retreat input zero = zero
retreat input (suc n) =
    let shorter = retreat input n in
    if is_continuation (byte_at input (suc n)) then shorter else suc n

unfoldable pub erase : Line → Line
unfolding retreat
erase l =
    if l.len == 0
    then l
    else let n = retreat l.input (l.len - 1) in record { input = set l.input n 0; len = n }

-- A byte on a screen of `w` columns: `len < INPUT_MAX - 1 && len < w - 45`.
unfoldable pub append_byte : ℕ → ℕ → Line → Line
append_byte w ch l =
    if ltb l.len (input_max - 1) && ltb (l.len + 45) w
    then record { input = set (set l.input l.len ch) (l.len + 1) 0; len = l.len + 1 }
    else l

-- What `wgetch` gives: `ERR`, the two function keys that the client knows, or the code of another key.
pub data Key : Type 0 where
  no_key : Key
  resize : Key
  backspace : Key
  key_code : ℕ → Key

-- The branches behind the one for Enter.
unfoldable pub edit : ℕ → Key → Line → Line
unfolding erase append_byte
edit w no_key l = l
edit w resize l = empty_line
edit w backspace l = erase l
edit w (key_code ch) l =
    if ch == 127 || ch == 8
    then erase l
    else if ch == 27
    then empty_line
    else if leb 32 ch && leb ch 255
    then append_byte w ch l
    else l

unfoldable pub edit_all : ℕ → List Key → Line → Line
unfolding edit
edit_all w [] l = l
edit_all w (key ∷ keys) l = edit_all w keys (edit w key l)
