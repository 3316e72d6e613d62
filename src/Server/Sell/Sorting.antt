-- ===== src/Server/Sell/Sorting.antt =====
-- `market_doc_sort_ids` of src/server/market.c sorts.
use mathlib.Core.List.{Perm}
use mathlib.Core.List.Perm
use under_flow.Base.{suc, ◌≡◌, true, List, [], ◌∷◌, arith, inl, inr, Bool-cases, ltb, length}
use under_flow.Base.Int.{ℤ, le_ℤ, ◌≤ℤ◌}
use under_flow.Server.Sell.{insert_id, sort_ids, market_doc_sort_ids}

-- Each identifier is at most the next.
abbrev IsSorted : List ℤ → Type 0
IsSorted [] = Unit {0}
IsSorted (x ∷ []) = Unit {0}
IsSorted (x ∷ y ∷ ys) = (x ≤ℤ y) × IsSorted (y ∷ ys)

insert_id-perm : (x : ℤ) (ys : List ℤ) → Perm (insert_id x ys) (x ∷ ys)
unfolding insert_id
insert_id-perm x [] = Perm.refl _
insert_id-perm x (y ∷ ys) = elim (Bool-cases (le_ℤ x y)) [
  | inl le ↦ rw le (Perm.refl _)
  | inr gt ↦ rw gt (Perm.trans (Perm.cons y (insert_id-perm x ys)) (Perm.swap x y ys))
]

sort_ids-perm : (xs : List ℤ) → Perm (sort_ids xs) xs
unfolding sort_ids
sort_ids-perm [] = Perm.refl _
sort_ids-perm (x ∷ xs) =
    Perm.trans (insert_id-perm x (sort_ids xs)) (Perm.cons x (sort_ids-perm xs))

insert_id-IsSorted : (x : ℤ) (ys : List ℤ) → IsSorted ys → IsSorted (insert_id x ys)
unfolding insert_id
insert_id-IsSorted x [] h = tt
insert_id-IsSorted x (y ∷ []) h = ground arith
insert_id-IsSorted x (y ∷ z ∷ ys) h = ground (arith, insert_id-IsSorted x (z ∷ ys))

sort_ids-IsSorted : (xs : List ℤ) → IsSorted (sort_ids xs)
unfolding sort_ids
sort_ids-IsSorted [] = tt
sort_ids-IsSorted (x ∷ xs) = insert_id-IsSorted x (sort_ids xs) (sort_ids-IsSorted xs)

-- `market_doc_sort_ids` returns the same identifiers in ascending order.
sort_lem : (ids : List ℤ) → IsSorted (market_doc_sort_ids ids) × Perm (market_doc_sort_ids ids) ids
unfolding market_doc_sort_ids
sort_lem [] = (tt, Perm.refl _)
sort_lem (x ∷ []) = (tt, Perm.refl _)
sort_lem (x ∷ y ∷ xs) =
    let e : ltb 1 (suc (suc (length xs))) ≡ true = ground arith in
    rw (e, market_doc_sort_ids) (sort_ids-IsSorted (x ∷ y ∷ xs), sort_ids-perm (x ∷ y ∷ xs))
