-- ===== src/Events/Spawn/Stock.antt =====
-- The board and the files under src/server/events.c: every document on offer has its file in the master
-- directory.
use under_flow.Base.{
  none, true, ◌⊎◌, if◌then◌else◌, OnSome-intro, ◌==◌, ℕ, ◌+◌, ◌≤◌, ◌≡◌, refl, ap, sym, ◌∙◌, subst,
  ◌≤◌, false, some, List, [], ◌∷◌, map, OnSome, filter_by, find_by, count_by, arith, Bool-cases,
  Option-cases, inl, inr, length,
}
use under_flow.Base.Int.{pos, add32, ℤ, eq_ℤ, eq_ℤ_iff}
use under_flow.Market.{
  MarketSlot, market_find, is_listed, market_add, has_aged, market_despawn_aged, max_market_slots,
}
use under_flow.Market.Listing.{find-none, listed, Distinct, add_lem}
use under_flow.Market.Aging.{expire, ids, despawn_lem}
use under_flow.Sandbox.{dir_put, Disk, DocFile, Dir, dir_get, master_write_doc, master_remove_doc}
use under_flow.Sandbox.Files.{IsDir, IsDir-remove, dir_get-remove, dir_get-put, dir_get-remove_ne}
use under_flow.Server.{Server}
use under_flow.Events.Spawn.{
  event_random_tags, market_is_full, Engine, Rolls, event_spawn_market, put_up, remove_expired,
  event_age_market,
}

-- The file of a slot is in a directory, with its tags and its price.
abbrev pub HasFile : Dir → MarketSlot → Type 0
HasFile d slot =
    (f : DocFile) × (dir_get slot.doc_id d ≡ some f)
    × (f.tags ≡ slot.tags)
    × (f.base_price ≡ slot.base_price)

-- Every document that `market_find` finds has its file.
abbrev pub IsStocked : Server → Type 0
IsStocked s = (d : ℤ) → OnSome (HasFile s.disk.master) (market_find d s.market)

count-expire :
    (now : ℕ) (d : ℤ) (ss : List MarketSlot)
    → count_by (λ i. eq_ℤ i d) (ids (filter_by (has_aged now) ss)) + listed d (map (expire now) ss)
      ≡ listed d ss
count-expire now d [] = refl
count-expire now d (s ∷ ss) = elim (Bool-cases (has_aged now s)) [
  | inl q ↦ ground (arith, q, count-expire now d ss)
  | inr q ↦ ground (arith, q, count-expire now d ss)
]

listed-found :
    (d : ℤ) (ss : List MarketSlot) (x : MarketSlot)
    → find_by (is_listed d) ss ≡ some x
    → 1 ≤ listed d ss
listed-found d [] x e = cc
listed-found d (s ∷ ss) x e = ground (arith, listed-found d ss x)

-- What is found after expiry was found before, and had not aged.
find-expire :
    (now : ℕ) (d : ℤ) (ss : List MarketSlot) (x : MarketSlot)
    → listed d ss ≤ 1
    → find_by (is_listed d) (map (expire now) ss) ≡ some x
    → (find_by (is_listed d) ss ≡ some x)
      × (count_by (λ i. eq_ℤ i d) (ids (filter_by (has_aged now) ss)) ≡ 0)
find-expire now d [] x h e = cc
find-expire now d (s ∷ ss) x h e = elim (Bool-cases (has_aged now s)) [
  | inl q ↦ ground (
    arith,
    q,
    find-expire now d ss x,
    count-expire now d ss,
    listed-found d (map (expire now) ss) x,
  )
  | inr q ↦ ground (
    arith,
    q,
    find-expire now d ss x,
    count-expire now d ss,
    listed-found d (map (expire now) ss) x,
  )
]

dir_get-removed :
    (i d : ℤ) (disk : Disk)
    → eq_ℤ i d ≡ false
    → dir_get d (master_remove_doc i disk).1.master ≡ dir_get d disk.master
unfolding master_remove_doc
dir_get-removed i d disk h = elim (Option-cases (dir_get i disk.master)) [
  | inl q ↦ rw (q, master_remove_doc) refl
  | inr (f, q) ↦ rw (q, master_remove_doc) (ground (arith, dir_get-remove_ne i d disk.master h))
]

dir_get-remove_all :
    (d : ℤ) (is : List ℤ) (s : Server)
    → count_by (λ i. eq_ℤ i d) is ≡ 0
    → dir_get d (remove_expired is s).disk.master ≡ dir_get d s.disk.master
unfolding remove_expired
dir_get-remove_all d [] s h = refl
dir_get-remove_all d (i ∷ is) s h =
    dir_get-remove_all d is _ (ground arith) ∙ dir_get-removed i d s.disk (ground arith)

market-remove_all : (is : List ℤ) (s : Server) → (remove_expired is s).market ≡ s.market
unfolding remove_expired
market-remove_all [] s = refl
market-remove_all (i ∷ is) s = market-remove_all is _

file_of :
    (d : ℤ) (s : Server) (x : MarketSlot)
    → IsStocked s
    → market_find d s.market ≡ some x
    → HasFile s.disk.master x
file_of d s x stocked e = subst (OnSome (HasFile s.disk.master)) e (stocked d)

-- The identifier of what is found.
found_id :
    (d : ℤ) (ss : List MarketSlot) (x : MarketSlot)
    → find_by (is_listed d) ss ≡ some x
    → x.doc_id ≡ d
found_id d [] x e = cc
found_id d (s ∷ ss) x e = ground (arith, found_id d ss x, eq_ℤ_iff s.doc_id d)

-- Expiry keeps every document on offer with its file.
aged-IsStocked :
    (now : ℕ) (s : Server)
    → Distinct s.market
    → length s.market.slots ≤ max_market_slots
    → IsStocked s
    → IsStocked (event_age_market now s)
unfolding event_age_market market_find
aged-IsStocked now s distinct room stocked d =
    let (market, _, expired) = despawn_lem now max_market_slots s.market in
    let gone = ids (filter_by (has_aged now) s.market.slots) in
    OnSome-intro (HasFile (event_age_market now s).disk.master) _ (λ x e.
      let left : find_by (is_listed d) (map (expire now) s.market.slots) ≡ some x =
        ap (market_find d) (
          sym (
            market-remove_all (market_despawn_aged now max_market_slots s.market).0
              (record s { market = (market_despawn_aged now max_market_slots s.market).1 })
            ∙ market))
        ∙ e in
      let (old, kept) = find-expire now d s.market.slots x (distinct d) left in
      let (f, read, tags, price) = file_of d s x stocked old in
      let still : dir_get x.doc_id (event_age_market now s).disk.master ≡ some f =
        dir_get-remove_all x.doc_id _ _ (
          subst
            (λ k.
              count_by (λ i. eq_ℤ i k) (market_despawn_aged now max_market_slots s.market).0 ≡ 0)
            (sym (found_id d s.market.slots x old)) (rw (expired room) kept))
        ∙ read in
      (f, still, tags, price))

count-aged :
    (now : ℕ) (d : ℤ) (ss : List MarketSlot) (x : MarketSlot)
    → find_by (is_listed d) ss ≡ some x
    → has_aged now x ≡ true
    → 1 ≤ count_by (λ i. eq_ℤ i d) (ids (filter_by (has_aged now) ss))
count-aged now d [] x e h = cc
count-aged now d (s ∷ ss) x e h = elim (Bool-cases (has_aged now s)) [
  | inl q ↦ ground (arith, q, count-aged now d ss x)
  | inr q ↦ ground (arith, q, count-aged now d ss x)
]

find-kept :
    (now : ℕ) (d : ℤ) (ss : List MarketSlot) (x : MarketSlot)
    → find_by (is_listed d) ss ≡ some x
    → has_aged now x ≡ false
    → find_by (is_listed d) (map (expire now) ss) ≡ some x
find-kept now d [] x e h = cc
find-kept now d (s ∷ ss) x e h = elim (Bool-cases (has_aged now s)) [
  | inl q ↦ ground (arith, q, find-kept now d ss x)
  | inr q ↦ ground (arith, q, find-kept now d ss x)
]

-- One file removed: its place is empty, and the directory can still be written.
removed :
    (i d : ℤ) (disk : Disk)
    → disk.writable ≡ true
    → IsDir disk.master
    → let disk' = (master_remove_doc i disk).1 in
      (disk'.writable ≡ true)
      × IsDir disk'.master
      × (dir_get d disk'.master ≡ (if eq_ℤ i d then none else dir_get d disk.master))
unfolding master_remove_doc
removed i d disk w one = elim (Option-cases (dir_get i disk.master)) [
  | inl q ↦ let same = eq_ℤ_iff i d in rw (q, master_remove_doc) (w, one, ground (arith, q, same))
  | inr (f, q) ↦
      rw (q, master_remove_doc, w)
        (refl, IsDir-remove i disk.master one, dir_get-remove i d disk.master one)
]

files_gone :
    (d : ℤ) (is : List ℤ) (s : Server)
    → s.disk.writable ≡ true
    → IsDir s.disk.master
    → (dir_get d s.disk.master ≡ none) ⊎ (1 ≤ count_by (λ i. eq_ℤ i d) is)
    → dir_get d (remove_expired is s).disk.master ≡ none
unfolding remove_expired
files_gone d [] s w one (inl gone) = gone
files_gone d [] s w one (inr h) = absurd (omega arith)
files_gone d (i ∷ is) s w one h =
    let (w', one', at) = removed i d s.disk w one in
    files_gone d is _ w' one' (ground (arith, at, h))

-- Expiry takes a document off the board and its file out of the master directory together. Where no
-- identifier is on offer twice, the board has room for 32 slots, and every document on offer has its
-- file, with its tags and its price: after `event_age_market` every document on offer has its file; a
-- document that has aged is not found on the board any more, and its file is gone, in a directory that can
-- be written and holds one file of a name; and a document that has not is found as it was.
pub age-IsStocked :
    (now : ℕ) (s : Server)
    → Distinct s.market
    → length s.market.slots ≤ max_market_slots
    → IsStocked s
    → let s' = event_age_market now s in
      IsStocked s'
      × ((d : ℤ) (x : MarketSlot)
          → market_find d s.market ≡ some x
          → has_aged now x ≡ true
          → (market_find d s'.market ≡ none)
            × (s.disk.writable ≡ true → IsDir s.disk.master → dir_get d s'.disk.master ≡ none))
      × ((d : ℤ) (x : MarketSlot)
          → market_find d s.market ≡ some x
          → has_aged now x ≡ false
          → market_find d s'.market ≡ some x)
unfolding event_age_market market_find
age-IsStocked now s distinct room stocked =
    let (market, _, expired) = despawn_lem now max_market_slots s.market in
    let s' = record s { market = (market_despawn_aged now max_market_slots s.market).1 } in
    let board : (event_age_market now s).market.slots ≡ map (expire now) s.market.slots =
      ap (λ m. m.slots)
        (market-remove_all (market_despawn_aged now max_market_slots s.market).0 s' ∙ market) in
    (
      aged-IsStocked now s distinct room stocked,
      λ d x e h.
          let aged = count-aged now d s.market.slots x e h in
          let left = count-expire now d s.market.slots in
          let once = distinct d in
          (
            ap (λ ss. find_by (is_listed d) ss) board
                ∙ find-none d (map (expire now) s.market.slots) (omega (arith, aged, left, once)),
            λ w one.
                files_gone d (market_despawn_aged now max_market_slots s.market).0 s' w one
                  (inr (rw (expired room) aged)),
          ),
      λ d x e h. ap (λ ss. find_by (is_listed d) ss) board ∙ find-kept now d s.market.slots x e h,
    )

-- A document that nobody finds may come into the directory or leave it.
kept-IsStocked :
    (id d : ℤ) (s : Server) (master : Dir)
    → ((j : ℤ) → eq_ℤ id j ≡ false → dir_get j master ≡ dir_get j s.disk.master)
    → listed id s.market.slots ≡ 0
    → IsStocked s
    → OnSome (HasFile master) (market_find d s.market)
unfolding market_find
kept-IsStocked id d s master same z stocked =
    OnSome-intro (HasFile master) (find_by (is_listed d) s.market.slots) (λ x e.
      let (f, read, tags, price) = file_of d s x stocked e in
      let is_d = found_id d s.market.slots x e in
      (f, same x.doc_id (other x e is_d) ∙ read, tags, price))
  where
    other :
        (x : MarketSlot)
        → find_by (is_listed d) s.market.slots ≡ some x
        → x.doc_id ≡ d
        → eq_ℤ id x.doc_id ≡ false
    other x e is_d = elim (Bool-cases (eq_ℤ id x.doc_id)) [
      | inr q ↦ q
      | inl q ↦
          let h = listed-found d s.market.slots x e in
          let z' = subst (λ k. listed k s.market.slots ≡ 0) ((eq_ℤ_iff id x.doc_id).0 q ∙ is_d) z in
          absurd (omega (arith, h, z'))
    ]

dir_get-put_ne :
    (i j : ℤ) (f : DocFile) (d : Dir) → eq_ℤ i j ≡ false → dir_get j (dir_put i f d) ≡ dir_get j d
dir_get-put_ne i j f d ne = rw (dir_get-put i j f d, ne) refl

-- A document is put up together with its file: where every document on offer has its file and no
-- active slot has the identifier of the new one, every document on offer has its file after `put_up`,
-- also where the file cannot be written or the board is full.
put_up-IsStocked :
    (now roll : ℕ) (doc : DocFile) (s : Server)
    → listed doc.doc_id s.market.slots ≡ 0
    → IsStocked s
    → IsStocked (put_up now roll doc s)
unfolding put_up master_write_doc
put_up-IsStocked now roll doc s z stocked d =
    let add = market_add now roll doc.doc_id doc.tags doc.base_price doc.name s.market in
    elim (Bool-cases s.disk.writable) [
      | inr w ↦ rw w (stocked d)
      | inl w ↦ elim (Bool-cases add.0) [
        | inl q ↦
            rw (w, q)
              (rw ((add_lem now roll doc.doc_id doc.tags doc.base_price doc.name d s.market).2 q z)
                (elim (Bool-cases (eq_ℤ doc.doc_id d)) [
                  | inl same ↦ rw same (
                    doc,
                    rw
                        (
                          dir_get-put doc.doc_id doc.doc_id doc s.disk.master,
                          (eq_ℤ_iff doc.doc_id doc.doc_id).1 refl,
                        )
                        refl,
                    refl,
                    refl,
                  )
                  | inr ne ↦ rw ne (
                      kept-IsStocked doc.doc_id d s _
                        (λ j. dir_get-put_ne doc.doc_id j doc s.disk.master) z stocked)
                ]))
        | inr q ↦
            rw (w, q)
              (kept-IsStocked doc.doc_id d s _
                (λ j ne.
                  dir_get-removed doc.doc_id j _ ne
                  ∙ dir_get-put_ne doc.doc_id j doc s.disk.master ne)
                z stocked)
      ]
    ]

-- A spawn keeps the board and the files together: where no active slot has the next document number
-- and every document on offer has its file, with its tags and its price, every document on offer has
-- its file after `event_spawn_market`, whatever it rolls and wherever it stops.
pub spawn-IsStocked :
    (now : ℕ) (r : Rolls) (e : Engine)
    → listed (add32 e.doc_id_counter (pos 1)) e.server.market.slots ≡ 0
    → IsStocked e.server
    → IsStocked (event_spawn_market now r e).server
unfolding event_spawn_market
spawn-IsStocked now r e z stocked = elim (Bool-cases (market_is_full e.server.market)) [
  | inl full ↦ rw full stocked
  | inr room ↦ elim (Bool-cases (event_random_tags r.tags e.server.market == 0)) [
    | inl no_tags ↦ rw (room, no_tags) stocked
    | inr tags ↦ rw (room, tags) (put_up-IsStocked now r.life _ e.server z stocked)
  ]
]
