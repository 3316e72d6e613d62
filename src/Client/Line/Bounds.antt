-- ===== src/Client/Line/Bounds.antt =====
-- The buffer of the line of src/client/ui_client.c: a text, its NUL byte and what lies behind it.
use under_flow.Base.{
  if◌then◌else◌, subst, ℕ, zero, suc, ◌+◌, ◌-◌, ◌<◌, ◌≤◌, ◌≡◌, ◌≢◌, refl, sym, ◌∙◌, ap, Bool, true,
  false, List, [], ◌∷◌, ◌++◌, length, length-append, set, replicate, All, arith, ltb, leb, ◌&&◌,
  Bool-cases, inl, inr,
}
use mathlib.Core.List.{append_assoc}
use under_flow.Base.Text.{Text}
use under_flow.Client.Line.{
  Line, Key, no_key, resize, backspace, key_code, empty_line, c_string, retreat, erase, append_byte,
  edit, edit_all, input_max,
}

-- A line with a text, its NUL byte and what lies behind it.
abbrev line_of : Text → List ℕ → Line
line_of text rest = record { input = text ++ (0 ∷ rest); len = length text }

-- The buffer of 256 bytes holds the text, which has no NUL byte and whose length is `len`.
pub record Holds (l : Line) (text : Text) : Type 0 where
  pub rest : List ℕ
  pub stored : l ≡ line_of text rest
  pub sized : length text + length rest + 1 ≡ input_max
  pub no_nul : All (λ b. b ≢ 0) text

set-append :
    (xs : List ℕ) (y : ℕ) (ys : List ℕ) (v : ℕ)
    → set (xs ++ (y ∷ ys)) (length xs) v ≡ xs ++ (v ∷ ys)
set-append [] y ys v = refl
set-append (x ∷ xs) y ys v = ap (λ t. x ∷ t) (set-append xs y ys v)

All-append : (P : ℕ → Type 0) (xs ys : List ℕ) → All P xs → All P ys → All P (xs ++ ys)
All-append P [] ys h k = k
All-append P (x ∷ xs) ys h k = (h.0, All-append P xs ys h.1 k)

All-prefix : (P : ℕ → Type 0) (xs ys : List ℕ) → All P (xs ++ ys) → All P xs
All-prefix P [] ys h = tt
All-prefix P (x ∷ xs) ys h = (h.0, All-prefix P xs ys h.1)

-- A byte that fits is put behind the text.
append-line_of :
    (w ch r : ℕ) (text : Text) (rest : List ℕ)
    → length text + 1 < input_max
    → length text + 45 < w
    → append_byte w ch (line_of text (r ∷ rest)) ≡ line_of (text ++ (ch ∷ [])) rest
unfolding append_byte
append-line_of w ch r text rest small wide =
    let once = set-append text 0 (r ∷ rest) ch in
    let split = append_assoc text (ch ∷ []) (r ∷ rest) in
    let behind = length-append text (ch ∷ []) in
    let at_end = set-append (text ++ (ch ∷ [])) r rest 0 in
    ground (arith, once, split, behind, at_end)

pub append_byte-Holds :
    (w ch : ℕ) (l : Line) (text : Text)
    → ch ≢ 0
    → length text + 1 < input_max
    → length text + 45 < w
    → Holds l text
    → Holds (append_byte w ch l) (text ++ (ch ∷ []))
append_byte-Holds w ch l text ne small wide h = go h.rest h.stored h.sized
  where
    go :
        (rest : List ℕ)
        → l ≡ line_of text rest
        → length text + length rest + 1 ≡ input_max
        → Holds (append_byte w ch l) (text ++ (ch ∷ []))
    go [] e n = absurd (omega arith)
    go (r ∷ rest) e n = record {
      rest = rest;
      stored = ap (append_byte w ch) e ∙ append-line_of w ch r text rest small wide;
      sized = omega (arith, length-append {0} text (ch ∷ []));
      no_nul = All-append _ text (ch ∷ []) h.no_nul (ne, tt);
    }

erase-line_of :
    (text gone t : Text) (b : ℕ) (rest : List ℕ)
    → t ≡ text ++ (b ∷ gone)
    → retreat (t ++ (0 ∷ rest)) (length t - 1) ≡ length text
    → erase (line_of t rest) ≡ line_of text (gone ++ (0 ∷ rest))
unfolding erase
erase-line_of text gone t b rest same e =
    let split = append_assoc text (b ∷ gone) (0 ∷ rest) in
    let behind = length-append text (b ∷ gone) in
    let at_end = set-append text b (gone ++ (0 ∷ rest)) 0 in
    ground (arith, same, e, split, behind, at_end)

-- The text up to where `erase` goes back stays, and the bytes behind it are given up.
pub erase-Holds :
    (l : Line) (text gone t : Text) (b : ℕ) (h : Holds l t)
    → t ≡ text ++ (b ∷ gone)
    → retreat (t ++ (0 ∷ h.rest)) (length t - 1) ≡ length text
    → Holds (erase l) text
erase-Holds l text gone t b h same back = record {
  rest = gone ++ (0 ∷ h.rest);
  stored = ap erase h.stored ∙ erase-line_of text gone t b h.rest same back;
  sized = omega (
    arith,
    h.sized,
    ap (length {0}) same,
    length-append {0} text (b ∷ gone),
    length-append {0} gone (0 ∷ h.rest),
  );
  no_nul = All-prefix _ text (b ∷ gone) (subst (All (λ x. x ≢ 0)) same h.no_nul);
}

pub erase-Holds_empty : (l : Line) → Holds l [] → Holds (erase l) []
unfolding erase
erase-Holds_empty l h = record {
  rest = h.rest;
  stored = ap erase h.stored ∙ refl;
  sized = h.sized;
  no_nul = tt;
}

pub empty_line-Holds : Holds empty_line []
empty_line-Holds = record { rest = replicate 255 0; stored = refl; sized = refl; no_nul = tt }

c_string-line :
    (text : Text) (rest : List ℕ) → All (λ b. b ≢ 0) text → c_string (text ++ (0 ∷ rest)) ≡ text
c_string-line [] rest h = refl
c_string-line (b ∷ bs) rest h = ground (arith, c_string-line bs rest h.1, h.0)

-- `strcmp` and `strncpy` read the text.
pub c_string-Holds : (l : Line) (text : Text) → Holds l text → c_string l.input ≡ text
c_string-Holds l text h =
    ap (λ (k : Line). c_string k.input) h.stored ∙ c_string-line text h.rest h.no_nul

retreat-le : (input : List ℕ) (n : ℕ) → retreat input n ≤ n
unfolding retreat
retreat-le input zero = omega arith
retreat-le input (suc n) = ground (arith, retreat-le input n)

-- The bytes before an index, the one at it and those behind.
split_at :
    (text : Text) (n : ℕ)
    → n < length text
    → (before : Text) × (b : ℕ) × (behind : Text) × (text ≡ before ++ (b ∷ behind))
      × (length before ≡ n)
split_at [] n h = absurd (omega arith)
split_at (x ∷ xs) zero h = ([], x, xs, refl, refl)
split_at (x ∷ xs) (suc n) h =
    let (before, b, behind, e, k) = split_at xs n (omega arith) in
    (x ∷ before, b, behind, ap (λ t. x ∷ t) e, ap suc k)

-- A line whose buffer holds some text.
abbrev pub IsTerminated : Line → Type 0
IsTerminated l = (text : Text) × Holds l text

erase-IsTerminated : (l : Line) (text : Text) → Holds l text → IsTerminated (erase l)
erase-IsTerminated l [] h = ([], erase-Holds_empty l h)
erase-IsTerminated l (x ∷ xs) h =
    let n = retreat ((x ∷ xs) ++ (0 ∷ h.rest)) (length (x ∷ xs) - 1) in
    let (before, b, behind, e, k) =
      split_at (x ∷ xs) n
        (omega (arith, retreat-le ((x ∷ xs) ++ (0 ∷ h.rest)) (length (x ∷ xs) - 1))) in
    (before, erase-Holds l before behind (x ∷ xs) b h e (sym k))

append_byte-IsTerminated :
    (w ch : ℕ) (l : Line) (text : Text) → ch ≢ 0 → Holds l text → IsTerminated (append_byte w ch l)
unfolding append_byte
append_byte-IsTerminated w ch l text ne h =
    let counted : l.len ≡ length text = ap (λ (k : Line). k.len) h.stored in
    elim (Bool-cases (ltb l.len (input_max - 1) && ltb (l.len + 45) w)) [
      | inl q ↦ (
        text ++ (ch ∷ []),
        append_byte-Holds w ch l text ne (ground (arith, q, counted)) (ground (arith, q, counted))
            h,
      )
      | inr q ↦ (text, rw q h)
    ]

if-IsTerminated :
    (b : Bool) (x y : Line)
    → (b ≡ true → IsTerminated x)
    → IsTerminated y
    → IsTerminated (if b then x else y)
if-IsTerminated true x y h k = h refl
if-IsTerminated false x y h k = k

edit-IsTerminated : (w : ℕ) (key : Key) (l : Line) → IsTerminated l → IsTerminated (edit w key l)
unfolding edit
edit-IsTerminated w no_key l h = h
edit-IsTerminated w resize l h = ([], empty_line-Holds)
edit-IsTerminated w backspace l (text, h) = erase-IsTerminated l text h
edit-IsTerminated w (key_code ch) l (text, h) =
    if-IsTerminated _ (erase l) _ (λ _. erase-IsTerminated l text h)
      (if-IsTerminated _ empty_line _ (λ _. ([], empty_line-Holds))
        (if-IsTerminated (leb 32 ch && leb ch 255) (append_byte w ch l) l
          (λ q. append_byte-IsTerminated w ch l text (ground (arith, q)) h) (text, h)))

-- Whatever keys are pressed, on a screen of any width: the buffer keeps its 256 bytes, and holds a text
-- of `len` bytes, without a NUL byte in it and with one behind it.
pub edit_all-IsTerminated :
    (w : ℕ) (keys : List Key) (l : Line) → IsTerminated l → IsTerminated (edit_all w keys l)
unfolding edit_all
edit_all-IsTerminated w [] l h = h
edit_all-IsTerminated w (key ∷ keys) l h =
    edit_all-IsTerminated w keys (edit w key l) (edit-IsTerminated w key l h)
