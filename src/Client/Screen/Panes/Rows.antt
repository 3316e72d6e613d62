-- ===== src/Client/Screen/Panes/Rows.antt =====
-- Lists of rows that src/client/ui_client.c draws: what stands in them, and that they grow and stay in a box.
use under_flow.Base.{
  ℕ, zero, suc, ◌+◌, ◌-◌, ◌*◌, ◌≤◌, ◌<◌, ◌≡◌, refl, ap, true, false, List, [], ◌∷◌, ◌++◌, take, ltb,
  arith, Bool-cases, inl, inr,
}
use under_flow.Client.Screen.Panes.{rows_from}

module _ {ℓ} {A : Type ℓ} where
  abbrev pub entries : List (ℕ × A) → List A
  entries [] = []
  entries ((y, x) ∷ rest) = x ∷ entries rest

  -- The rows grow, from `lo` on, and stay below `hi`.
  abbrev pub Spread : ℕ → List (ℕ × A) → ℕ → Type 0
  Spread lo [] hi = lo ≤ hi
  Spread lo ((y, x) ∷ rest) hi = (lo ≤ y) × Spread (suc y) rest hi

  pub Spread-append :
      (lo mid hi : ℕ) (rows more : List (ℕ × A))
      → Spread lo rows mid
      → ((k : ℕ) → k ≤ mid → Spread k more hi)
      → Spread lo (rows ++ more) hi
  Spread-append lo mid hi [] more h f = f lo h
  Spread-append lo mid hi ((y, x) ∷ rest) more h f =
      (h.0, Spread-append (suc y) mid hi rest more h.1 f)

  pub Spread-weaken :
      (lo lo' hi : ℕ) (rows : List (ℕ × A)) → lo' ≤ lo → Spread lo rows hi → Spread lo' rows hi
  Spread-weaken lo lo' hi [] le h = omega arith
  Spread-weaken lo lo' hi ((y, x) ∷ rest) le h = (omega (arith, h.0), h.1)

  -- A loop that has room for `n` entries draws the first `n`.
  pub rows_take :
      (h step below row n : ℕ) (xs : List A)
      → h - 1 ≤ row + below + step * n
      → row + below + step * n < h - 1 + step
      → entries (rows_from h step below row xs) ≡ take n xs
  rows_take h step below row zero [] enough room = refl
  rows_take h step below row (suc n) [] enough room = refl
  rows_take h step below row zero (x ∷ xs) enough room =
      let full : ltb (row + below) (h - 1) ≡ false = ground arith in rw full refl
  rows_take h step below row (suc n) (x ∷ xs) enough room =
      let free : ltb (row + below) (h - 1) ≡ true = ground arith in
      rw free
        (ap (λ t. x ∷ t) (rows_take h step below (row + step) n xs (omega arith) (omega arith)))

  pub rows-Spread :
      (h step below lo row : ℕ) (xs : List A)
      → 0 < step
      → lo ≤ row
      → lo ≤ h - 1
      → Spread lo (rows_from h step below row xs) (h - 1)
  rows-Spread h step below lo row [] pos le in_box = in_box
  rows-Spread h step below lo row (x ∷ xs) pos le in_box =
      elim (Bool-cases (ltb (row + below) (h - 1))) [
        | inl q ↦
            let free : row + below < h - 1 = ground (arith, q) in
            rw q (
              le,
              rows-Spread h step below (suc row) (row + step) xs pos (omega arith) (omega arith),
            )
        | inr q ↦ rw q in_box
      ]
