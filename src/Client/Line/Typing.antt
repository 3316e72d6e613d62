-- ===== src/Client/Line/Typing.antt =====
-- The line of src/client/ui_client.c as a sequence of characters: the keys of whole characters, of erasing
-- and of Escape, against a list of UTF-8 characters.
use under_flow.Base.{
  ℕ, zero, suc, ◌+◌, ◌-◌, ◌<◌, ◌≤◌, ◌≡◌, ◌≢◌, refl, sym, ◌∙◌, ap, true, false, List, [], ◌∷◌, ◌++◌,
  length, length-append, All, arith, map, subst,
}
use native.Mathlib.Decide.{ℕ_discrete}
use mathlib.Core.List.{append_assoc, append-nil}
use under_flow.Base.Text.{Text}
use under_flow.Client.Line.{
  append_byte, Line, Key, backspace, key_code, empty_line, byte_at, is_continuation, c_string,
  retreat, erase, edit, edit_all,
}
use under_flow.Client.Line.Bounds.{
  Holds, append_byte-Holds, erase-Holds, erase-Holds_empty, empty_line-Holds, c_string-Holds,
}

-- The bytes of a UTF-8 character: one that is no continuation, and continuations behind it. None is a
-- control code.
pub record IsChar (c : Text) : Type 0 where
  pub first : ℕ
  pub more : Text
  pub split : c ≡ first ∷ more
  pub starts : is_continuation first ≡ false
  pub goes_on : All (λ b. is_continuation b ≡ true) more
  pub printable : All (λ b. (32 ≤ b) × (b ≤ 255) × (b ≢ 127)) c

-- A printable byte of ASCII is a character.
pub letter-IsChar :
    (b : ℕ) → is_continuation b ≡ false → (32 ≤ b) × (b ≤ 255) × (b ≢ 127) → IsChar (b ∷ [])
letter-IsChar b e h = record {
  first = b;
  more = [];
  split = refl;
  starts = e;
  goes_on = tt;
  printable = (h, tt);
}

-- What the user does: types a character, erases one, or drops the line.
pub data Act : Type 0 where
  put : Text → Act
  undo drop : Act

-- The characters that are left, the last one first.
abbrev pub act : Act → List Text → List Text
act (put c) cs = c ∷ cs
act undo [] = []
act undo (c ∷ cs) = cs
act drop cs = []

abbrev pub acts : List Act → List Text → List Text
acts [] cs = cs
acts (a ∷ later) cs = acts later (act a cs)

abbrev pub bytes_of : List Text → Text
bytes_of [] = []
bytes_of (c ∷ cs) = bytes_of cs ++ c

abbrev keys_of : Act → List Key
keys_of (put c) = map key_code c
keys_of undo = backspace ∷ []
keys_of drop = key_code 27 ∷ []

abbrev pub all_keys : List Act → List Key
all_keys [] = []
all_keys (a ∷ later) = keys_of a ++ all_keys later

abbrev pub PutsChars : Act → Type 0
PutsChars (put c) = IsChar c
PutsChars undo = Unit {0}
PutsChars drop = Unit {0}

-- The bytes that are typed in all.
abbrev pub size_of : List Act → ℕ
size_of [] = 0
size_of (put c ∷ later) = length c + size_of later
size_of (undo ∷ later) = size_of later
size_of (drop ∷ later) = size_of later

byte_at-append : (xs ys : List ℕ) (j : ℕ) → byte_at (xs ++ ys) (length xs + j) ≡ byte_at ys j
byte_at-append [] ys j = ap (byte_at ys) (omega arith)
byte_at-append (x ∷ xs) ys j =
    let e : length (x ∷ xs) + j ≡ suc (length xs + j) = omega arith in rw e (byte_at-append xs ys j)

-- The loop stops at the first byte from the right that is no continuation.
retreat_stop :
    (input : List ℕ) (m n : ℕ)
    → m ≤ n
    → is_continuation (byte_at input m) ≡ false
    → ((j : ℕ) → m < j → j ≤ n → is_continuation (byte_at input j) ≡ true)
    → retreat input n ≡ m
unfolding retreat
retreat_stop input m zero le stop go = omega arith
retreat_stop input m (suc n) le stop go = elim (ℕ_discrete m (suc n)) [
  | yes e ↦
      let stop' : is_continuation (byte_at input (suc n)) ≡ false =
        subst (λ k. is_continuation (byte_at input k) ≡ false) e stop in
      rw stop' (sym e)
  | no ne ↦
      rw (go (suc n) (omega arith) (omega arith))
        (retreat_stop input m n (omega arith) stop (λ j lt le'. go j lt (omega arith)))
]

All-at :
    (P : ℕ → Type 0) (xs ys : List ℕ) (j : ℕ) → All P xs → j < length xs → P (byte_at (xs ++ ys) j)
All-at P [] ys j h lt = absurd (omega arith)
All-at P (x ∷ xs) ys zero h lt = h.0
All-at P (x ∷ xs) ys (suc j) h lt = All-at P xs ys j h.1 (omega arith)

-- From the end of a character the loop goes back to its first byte.
retreat_char :
    (text more rest : List ℕ) (first : ℕ)
    → is_continuation first ≡ false
    → All (λ b. is_continuation b ≡ true) more
    → retreat (text ++ (first ∷ (more ++ rest))) (length text + length more) ≡ length text
retreat_char text more rest first starts goes_on =
    let input = text ++ (first ∷ (more ++ rest)) in
    retreat_stop input (length text) (length text + length more) (omega arith)
      (subst (λ b. is_continuation b ≡ false) (sym (first_at (length text) (omega arith))) starts)
      (λ j lt le.
        subst (λ b. is_continuation b ≡ true) (sym (more_at j lt))
          (All-at _ more rest (j - length text - 1) goes_on (omega arith)))
  where
    first_at : (i : ℕ) → i ≡ length text → byte_at (text ++ (first ∷ (more ++ rest))) i ≡ first
    first_at i e =
        ap (byte_at (text ++ (first ∷ (more ++ rest)))) (omega (arith, e))
        ∙ byte_at-append text (first ∷ (more ++ rest)) 0

    more_at :
        (j : ℕ)
        → length text < j
        → byte_at (text ++ (first ∷ (more ++ rest))) j
          ≡ byte_at (more ++ rest) (j - length text - 1)
    more_at j lt =
        ap (byte_at (text ++ (first ∷ (more ++ rest))))
          (let e : j ≡ length text + suc (j - length text - 1) = omega arith in e)
        ∙ byte_at-append text (first ∷ (more ++ rest)) (suc (j - length text - 1))

edit-byte :
    (w b : ℕ) (l : Line)
    → (32 ≤ b) × (b ≤ 255) × (b ≢ 127)
    → edit w (key_code b) l ≡ append_byte w b l
unfolding edit
edit-byte w b l h = ground (arith, h)

-- Typing a character puts its bytes behind the text.
put-Holds :
    (w : ℕ) (c : Text) (keys : List Key) (l : Line) (text : Text)
    → All (λ b. (32 ≤ b) × (b ≤ 255) × (b ≢ 127)) c
    → length text + length c < 256
    → length text + length c + 44 < w
    → Holds l text
    → (l' : Line) × Holds l' (text ++ c)
      × (edit_all w (map key_code c ++ keys) l ≡ edit_all w keys l')
unfolding edit_all
put-Holds w [] keys l text ok small wide h = (l, subst (Holds l) (sym (append-nil text)) h, refl)
put-Holds w (b ∷ bs) keys l text ok small wide h =
    let behind = length-append {0} text (b ∷ []) in
    let next =
      append_byte-Holds w b l text (omega (arith, ok.0)) (omega (arith, small))
        (omega (arith, wide)) h in
    let (l', h', e) =
      put-Holds w bs keys (edit w (key_code b) l) (text ++ (b ∷ [])) ok.1
        (omega (arith, behind, small)) (omega (arith, behind, wide))
        (subst (λ k. Holds k (text ++ (b ∷ []))) (sym (edit-byte w b l ok.0)) next) in
    (l', subst (Holds l') (append_assoc text (b ∷ []) bs) h', e)

-- Erasing takes the whole last character away.
undo-Holds : (l : Line) (text c : Text) → IsChar c → Holds l (text ++ c) → Holds (erase l) text
undo-Holds l text c k h =
    let t = text ++ c in
    let same : t ≡ text ++ (k.first ∷ k.more) = ap (λ d. text ++ d) k.split in
    erase-Holds l text k.more t k.first h same (
      cc (
        retreat_char text k.more (0 ∷ h.rest) k.first k.starts k.goes_on,
        append_assoc text (k.first ∷ k.more) (0 ∷ h.rest),
        same,
        last_at same,
      ))
  where
    last_at :
        text ++ c ≡ text ++ (k.first ∷ k.more)
        → length (text ++ c) - 1 ≡ length text + length k.more
    last_at e = omega (arith, ap (length {0}) e, length-append {0} text (k.first ∷ k.more))

-- The loop over the acts, from a line that shows the characters `cs`.
acts-Holds :
    (w : ℕ) (plan : List Act) (cs : List Text) (l : Line)
    → All PutsChars plan
    → All IsChar cs
    → length (bytes_of cs) + size_of plan < 256
    → length (bytes_of cs) + size_of plan + 44 < w
    → Holds l (bytes_of cs)
    → Holds (edit_all w (all_keys plan) l) (bytes_of (acts plan cs))
unfolding edit_all
acts-Holds w [] cs l ok chars small wide h = h
acts-Holds w (put c ∷ later) cs l ok chars small wide h =
    let behind = length-append {0} (bytes_of cs) c in
    let (l', h', e) =
      put-Holds w c (all_keys later) l (bytes_of cs) ok.0.printable (omega arith) (omega arith) h in
    subst (λ k. Holds k (bytes_of (acts later (c ∷ cs)))) (sym e)
      (acts-Holds w later (c ∷ cs) l' ok.1 (ok.0, chars) (omega (arith, behind))
        (omega (arith, behind)) h')
acts-Holds w (undo ∷ later) [] l ok chars small wide h =
    acts-Holds w later [] (erase l) ok.1 tt small wide (erase-Holds_empty l h)
acts-Holds w (undo ∷ later) (c ∷ cs) l ok chars small wide h =
    let behind = length-append {0} (bytes_of cs) c in
    acts-Holds w later cs (erase l) ok.1 chars.1 (omega (arith, behind)) (omega (arith, behind))
      (undo-Holds l (bytes_of cs) c chars.0 h)
acts-Holds w (drop ∷ later) cs l ok chars small wide h =
    acts-Holds w later [] empty_line ok.1 tt (omega arith) (omega arith) empty_line-Holds

-- The line is what was typed, character by character: with less than 256 bytes typed in all, on a screen
-- that has room for them, the buffer reads as the characters that are left when each erasure takes away
-- the last whole character, and Escape all of them.
pub typing_lem :
    (w : ℕ) (plan : List Act)
    → All PutsChars plan
    → size_of plan < 256
    → size_of plan + 44 < w
    → c_string (edit_all w (all_keys plan) empty_line).input ≡ bytes_of (acts plan [])
typing_lem w plan ok small wide =
    c_string-Holds _ _
      (acts-Holds w plan [] empty_line ok tt (omega arith) (omega arith) empty_line-Holds)
