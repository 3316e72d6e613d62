-- ===== src/Client/Screen/Wrap.antt =====
-- `mvw_print_wrapped` of src/client/ui_client.c: a UTF-8 text folded into lines, each built in a buffer of
-- 256 bytes. `none` is a read behind the end of the text.
use under_flow.Base.{
  subst, sym, ◌∙◌, ℕ, zero, suc, ◌+◌, ◌-◌, ◌/◌, ◌≤◌, ◌<◌, ◌≡◌, ◌||◌, Bool, true, false, Option,
  none, some, List, [], ◌∷◌, ◌++◌, length, length-append, All, if◌then◌else◌, ltb, ◌==◌, arith,
  Bool-cases, inl, inr, map, refl, ap,
}
use mathlib.Core.Path.{subst₂}
use mathlib.Core.List.{append_assoc, append-nil}
use under_flow.Base.Text.{Text}

-- `blen` and `cw` of a first byte.
unfoldable pub char_size : ℕ → ℕ × ℕ
char_size b =
    if ltb b 0x80
    then (1, 1)
    else if b / 32 == 0x6
    then (2, 1)
    else if b / 16 == 0xE
    then (3, 2)
    else if b / 8 == 0x1E
    then (4, 2)
    else (1, 1)

-- The first `n` bytes and those behind them, where the text has so many.
abbrev bite : ℕ → Text → Option (Text × Text)
bite zero bs = some ([], bs)
bite (suc n) [] = none
bite (suc n) (b ∷ bs) = elim (bite n bs) [ none ↦ none | some (c, rest) ↦ some (b ∷ c, rest) ]

-- `line` with `li` bytes, and `col`.
pub record Fold : Type 0 where
  pub line : Text
  pub col : ℕ

abbrev is_full : ℕ → ℕ → Fold → Bool
is_full col_w cw f = ltb col_w (f.col + cw) || ltb (256 - 8) (length f.line)

abbrev printed_first : Text → Option (List Text) → Option (List Text)
printed_first line none = none
printed_first line (some lines) = some (line ∷ lines)

-- The loop, on fuel for its rounds; it gives the lines that are printed.
unfoldable fold_lines : ℕ → ℕ → Text → Fold → Option (List Text)
fold_lines zero col_w s f = none
fold_lines (suc fuel) col_w [] f = some (if length f.line == 0 then [] else f.line ∷ [])
fold_lines (suc fuel) col_w (b ∷ bs) f =
    let (blen, cw) = char_size b in
    elim (bite blen (b ∷ bs)) [
      | none ↦ none
      | some (c, rest) ↦ elim (is_full col_w cw f) [
        | false ↦ fold_lines fuel col_w rest (record { line = f.line ++ c; col = f.col + cw })
        | true ↦ printed_first f.line (fold_lines fuel col_w rest (record { line = c; col = cw }))
      ]
    ]

unfoldable pub mvw_print_wrapped : ℕ → Text → Option (List Text)
unfolding fold_lines
mvw_print_wrapped col_w s = fold_lines (length s + 1) col_w s (record { line = []; col = 0 })

-- The first byte of a character says how many bytes it has.
abbrev IsWhole : Text → Type 0
IsWhole [] = ⊥
IsWhole (b ∷ bs) = suc (length bs) ≡ (char_size b).0

abbrev pub join : List Text → Text
join [] = []
join (c ∷ cs) = c ++ join cs

-- The columns of a character.
abbrev pub width : Text → ℕ
width [] = 0
width (b ∷ bs) = (char_size b).1

abbrev width_of : List Text → ℕ
width_of [] = 0
width_of (c ∷ cs) = width c + width_of cs

abbrev pub join_all : List (List Text) → List Text
join_all [] = []
join_all (g ∷ gs) = g ++ join_all gs

-- A line of whole characters, within the columns and the buffer.
abbrev pub FitsLine : ℕ → List Text → Type 0
FitsLine col_w g = (width_of g ≤ col_w) × (length (join g) < 256)

char_size_bounds : (b : ℕ) → (1 ≤ (char_size b).0) × ((char_size b).0 ≤ 4) × ((char_size b).1 ≤ 2)
unfolding char_size
char_size_bounds b = ground arith

bite-append : (c rest : Text) → bite (length c) (c ++ rest) ≡ some (c, rest)
bite-append [] rest = refl
bite-append (b ∷ bs) rest = ground (arith, bite-append bs rest)

abbrev begun : List Text → Fold
begun g = record { line = join g; col = width_of g }

-- A round on a character with all its bytes.
module _ (fuel col_w b : ℕ) (more rest : Text) (f : Fold)
    (sized : suc (length more) ≡ (char_size b).0) where
  bitten : bite (char_size b).0 (b ∷ (more ++ rest)) ≡ some (b ∷ more, rest)
  bitten = rw (← sized) (bite-append (b ∷ more) rest)

  fold-keep :
      is_full col_w (char_size b).1 f ≡ false
      → fold_lines (suc fuel) col_w (b ∷ (more ++ rest)) f
        ≡ fold_lines fuel col_w rest
            (record { line = f.line ++ (b ∷ more); col = f.col + (char_size b).1 })
  unfolding fold_lines
  fold-keep q = ground (arith, bitten, q)

  fold-print :
      is_full col_w (char_size b).1 f ≡ true
      → fold_lines (suc fuel) col_w (b ∷ (more ++ rest)) f
        ≡ printed_first f.line
            (fold_lines fuel col_w rest (record { line = b ∷ more; col = (char_size b).1 }))
  unfolding fold_lines
  fold-print q = ground (arith, bitten, q)

width_of-append : (g h : List Text) → width_of (g ++ h) ≡ width_of g + width_of h
width_of-append [] h = omega arith
width_of-append (c ∷ cs) h = omega (arith, width_of-append cs h)

join-append : (g h : List Text) → join (g ++ h) ≡ join g ++ join h
join-append [] h = refl
join-append (c ∷ cs) h = rw (join-append cs h, append_assoc c (join cs) (join h))

join-snoc : (g : List Text) (c : Text) → join (g ++ (c ∷ [])) ≡ join g ++ c
join-snoc g c = join-append g (c ∷ []) ∙ ap (λ t. join g ++ t) (append-nil c)

begun-one : (c : Text) → begun (c ∷ []) ≡ record { line = c; col = width c }
begun-one c = λ i. record { line = append-nil c i; col = width_one i }
  where
    width_one : width c + 0 ≡ width c
    width_one = omega arith

begun-snoc :
    (g : List Text) (c : Text)
    → begun (g ++ (c ∷ [])) ≡ record { line = join g ++ c; col = width_of g + width c }
begun-snoc g c = λ i. record { line = join-snoc g c i; col = widths i }
  where
    widths : width_of (g ++ (c ∷ [])) ≡ width_of g + width c
    widths = omega (arith, width_of-append g (c ∷ []))

not_full :
    (col_w cw : ℕ) (f : Fold)
    → is_full col_w cw f ≡ false
    → (f.col + cw ≤ col_w) × (length f.line ≤ 248)
not_full col_w cw f q = ground arith

-- What the loop prints: lines of whole characters that fit, which put together are the characters of the
-- line that it has begun and those to come.
abbrev Folds : Option (List Text) → ℕ → List Text → Type 0
Folds printed col_w cs =
    (gs : List (List Text)) × (printed ≡ some (map join gs))
    × (join_all gs ≡ cs)
    × All (FitsLine col_w) gs

Folds-nil :
    (fuel col_w : ℕ) (g : List Text)
    → length g ≤ length (join g)
    → FitsLine col_w g
    → Folds
        (fold_lines (suc fuel) col_w [] (record { line = join g; col = width_of g }))
        col_w
        (g ++ [])
unfolding fold_lines
Folds-nil fuel col_w [] filled fits = ([], refl, refl, tt)
Folds-nil fuel col_w (c ∷ cs) filled fits =
    let some_bytes : (length (join (c ∷ cs)) == 0) ≡ false = ground (arith, filled) in
    ((c ∷ cs) ∷ [], rw some_bytes refl, refl, (fits, tt))

Folds-print :
    (line : List Text) (printed : Option (List Text)) (col_w : ℕ) (cs : List Text)
    → FitsLine col_w line
    → Folds printed col_w cs
    → Folds (printed_first (join line) printed) col_w (line ++ cs)
Folds-print line printed col_w cs fits (gs, e, k, all) =
    (line ∷ gs, ap (printed_first (join line)) e, ap (λ t. line ++ t) k, (fits, all))

-- The loop from a line that holds the characters `g`.
fold_lines_lem :
    (fuel col_w : ℕ) (cs g : List Text)
    → 2 ≤ col_w
    → All IsWhole cs
    → length (join cs) < fuel
    → length g ≤ length (join g)
    → FitsLine col_w g
    → Folds
        (fold_lines fuel col_w (join cs) (record { line = join g; col = width_of g }))
        col_w
        (g ++ cs)
fold_lines_lem zero col_w cs g wide whole more filled fits = absurd (omega arith)
fold_lines_lem (suc fuel) col_w [] g wide whole more filled fits =
    Folds-nil fuel col_w g filled fits
fold_lines_lem (suc fuel) col_w ([] ∷ cs) g wide whole more filled fits = absurd whole.0
fold_lines_lem (suc fuel) col_w ((b ∷ bs) ∷ cs) g wide whole more filled fits =
    let c = b ∷ bs in
    let f = begun g in
    let sizes = char_size_bounds b in
    let shorter : length (join cs) < fuel = omega (arith, whole.0, length-append {0} c (join cs)) in
    elim (Bool-cases (is_full col_w (char_size b).1 f)) [
      | inl q ↦
          let alone = length-append {0} c [] in
          let next =
            fold_lines_lem fuel col_w cs (c ∷ []) wide whole.1 shorter (omega arith)
              (omega arith, omega (arith, alone, sizes, whole.0)) in
          let next' =
            subst (λ s. Folds (fold_lines fuel col_w (join cs) s) col_w (c ∷ cs)) (begun-one c)
              next in
          subst (λ r. Folds r col_w (g ++ (c ∷ cs)))
            (sym (fold-print fuel col_w b bs (join cs) f whole.0 q))
            (Folds-print g _ col_w (c ∷ cs) fits next')
      | inr q ↦
          let room = not_full col_w (char_size b).1 f q in
          let joined = ap (length {0}) (join-snoc g c) in
          let longer = length-append {0} (join g) c in
          let counted = length-append {0} g (c ∷ []) in
          let next =
            fold_lines_lem fuel col_w cs (g ++ (c ∷ [])) wide whole.1 shorter
              (omega (arith, joined, longer, counted))
              (
                omega (arith, width_of-append g (c ∷ []), room),
                omega (arith, joined, longer, room, sizes, whole.0),
              ) in
          subst (λ r. Folds r col_w (g ++ (c ∷ cs)))
            (sym (fold-keep fuel col_w b bs (join cs) f whole.0 q))
            (subst₂ (λ s t. Folds (fold_lines fuel col_w (join cs) s) col_w t) (begun-snoc g c)
              (append_assoc g (c ∷ []) cs) next)
    ]

-- A text of whole UTF-8 characters, folded to a width of at least two columns: the loop ends and reads no
-- byte behind the text; the lines hold all characters in their order, none is cut in two, and no line is
-- wider than asked or longer than its buffer.
pub wrapped_lem :
    (col_w : ℕ) (cs : List Text)
    → 2 ≤ col_w
    → All IsWhole cs
    → (gs : List (List Text)) × (mvw_print_wrapped col_w (join cs) ≡ some (map join gs))
      × (join_all gs ≡ cs)
      × All (FitsLine col_w) gs
unfolding mvw_print_wrapped
wrapped_lem col_w cs wide whole =
    fold_lines_lem (length (join cs) + 1) col_w cs [] wide whole (omega arith) (omega arith)
      (omega arith)
