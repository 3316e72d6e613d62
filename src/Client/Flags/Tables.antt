-- ===== src/Client/Flags/Tables.antt =====
-- What `remove_first` and an added entry keep of a table, for the tables of src/client/ui_client.c.
use under_flow.Base.{
  inl, inr, Bool-cases, ◌≤◌, ◌≡◌, refl, Bool, List, [], ◌∷◌, ◌++◌, arith, All, length,
}
use under_flow.Client.{last_of, but_last, remove_first}

module _ {A : Type 0} where
  pub last-All :
      (P : A → Type 0) (x : A) (xs : List A)
      → P x
      → All P xs
      → P (last_of x xs) × All P (but_last x xs)
  last-All P x [] h all = (h, tt)
  last-All P x (y ∷ ys) h all = let rest = last-All P y ys all.0 all.1 in (rest.0, (h, rest.1))

  pub remove_first-All :
      (P : A → Type 0) (p : A → Bool) (xs : List A) → All P xs → All P (remove_first p xs)
  unfolding remove_first
  remove_first-All P p [] all = tt
  remove_first-All P p (x ∷ []) all = elim (Bool-cases (p x)) [ inl q ↦ rw q tt | inr q ↦ rw q all ]
  remove_first-All P p (x ∷ y ∷ ys) all =
      let later = remove_first-All P p (y ∷ ys) all.1 in
      elim (Bool-cases (p x)) [
        | inl q ↦ rw q (last-All P y ys all.1.0 all.1.1)
        | inr q ↦ rw q (all.0, later)
      ]

  pub length-but_last : (x : A) (xs : List A) → length (but_last x xs) ≡ length xs
  length-but_last x [] = refl
  length-but_last x (y ∷ ys) = omega (arith, length-but_last y ys)

  pub length-remove_first : (p : A → Bool) (xs : List A) → length (remove_first p xs) ≤ length xs
  unfolding remove_first
  length-remove_first p [] = omega arith
  length-remove_first p (x ∷ []) = ground arith
  length-remove_first p (x ∷ y ∷ ys) =
      ground (arith, length-remove_first p (y ∷ ys), length-but_last y ys)

  pub All-append : (P : A → Type 0) (xs : List A) (y : A) → All P xs → P y → All P (xs ++ (y ∷ []))
  All-append P [] y all h = (h, tt)
  All-append P (x ∷ xs) y all h = (all.0, All-append P xs y all.1 h)
