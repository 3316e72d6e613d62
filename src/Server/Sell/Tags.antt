-- ===== src/Server/Sell/Tags.antt =====
-- Which sales src/server/server_main.c accepts: the loop over the submitted documents and the subset
-- test, against what they mean for each tag.
use under_flow.Base.{
  ℕ, ◌≤◌, ◌<◌, ◌≡◌, refl, Bool, true, false, ◌&&◌, not, none, some, List, [], ◌∷◌, if◌then◌else◌,
  bit_or, max, arith, inl, inr, Bool-cases, Option-cases, ◌∙◌, ◌↔◌, take,
}
use under_flow.Base.Int.{ℤ, pos, le_ℤ, lt_ℤ, pos_part}
use under_flow.Base.Text.{Text}
use under_flow.Base.Bits.{bit, bit-bit_or, bit-zero}
use under_flow.Base.Masks.{covers, covers-bit, bit-covers}
use under_flow.Market.{is_tag_frozen}
use under_flow.Npc.{NpcSlot, npc_find}
use under_flow.Userdb.{UserRecord, max_inven_size}
use under_flow.Sandbox.{sandbox_has, sandbox_read_doc}
use under_flow.Protocol.{ErrorCode, tag_mismatch, doc_not_found, doc_frozen}
use under_flow.Server.{Server, send_error}
use under_flow.Server.Sell.{
  Gathered, refused, tags, gather, handle_sell, sell_commit, market_doc_sort_ids,
}

module _ (key : Text) (s : Server) where
  -- The user has the document, and none of its tags is frozen.
  abbrev pub sellable : ℤ → Bool
  sellable id = elim (sandbox_read_doc key id s.disk) [
    | none ↦ false
    | some f ↦ not (is_tag_frozen f.tags s.market)
  ]

  abbrev pub all_sellable : List ℤ → Bool
  all_sellable [] = true
  all_sellable (id ∷ ids) = sellable id && all_sellable ids

  -- Whether some submitted document carries tag `k`, as 0 or 1.
  abbrev pub carried : ℕ → List ℤ → ℕ
  carried k [] = 0
  carried k (id ∷ ids) =
      max (elim (sandbox_read_doc key id s.disk) [ none ↦ 0 | some f ↦ bit f.tags k ])
        (carried k ids)

  abbrev union_from : ℕ → List ℤ → ℕ
  union_from u [] = u
  union_from u (id ∷ ids) =
      union_from (elim (sandbox_read_doc key id s.disk) [ none ↦ u | some f ↦ bit_or u f.tags ]) ids

  bit-union_from :
      (k u : ℕ) (ids : List ℤ) → bit (union_from u ids) k ≡ max (bit u k) (carried k ids)
  bit-union_from k u [] = omega arith
  bit-union_from k u (id ∷ ids) = elim (Option-cases (sandbox_read_doc key id s.disk)) [
    | inl e ↦ rw e (omega (arith, bit-union_from k u ids))
    | inr (f, e) ↦
        rw e (omega (arith, bit-union_from k (bit_or u f.tags) ids, bit-bit_or u f.tags k))
  ]

  gather-tags :
      (u : ℕ) (ids : List ℤ)
      → all_sellable ids ≡ true
      → gather key s u ids ≡ tags (union_from u ids)
  unfolding gather sandbox_has
  gather-tags u [] h = refl
  gather-tags u (id ∷ ids) h = elim (Option-cases (sandbox_read_doc key id s.disk)) [
    | inl e ↦ absurd (ground (arith, e))
    | inr (f, e) ↦ ground (arith, e, gather-tags (bit_or u f.tags) ids)
  ]

  gather-refused :
      (u : ℕ) (ids : List ℤ)
      → all_sellable ids ≡ false
      → (code : ErrorCode) × (gather key s u ids ≡ refused code)
  unfolding gather sandbox_has
  gather-refused u [] h = absurd (ground arith)
  gather-refused u (id ∷ ids) h = elim (Option-cases (sandbox_read_doc key id s.disk)) [
    | inl e ↦ (doc_not_found, ground (arith, e))
    | inr (f, e) ↦ elim (Bool-cases (is_tag_frozen f.tags s.market)) [
      | inl cold ↦ (doc_frozen, ground (arith, e))
      | inr warm ↦
          let (code, e') = gather-refused (bit_or u f.tags) ids (ground (arith, e)) in
          (code, ground (arith, e, e'))
    ]
  ]

  -- The union of the submitted tags covers a mask exactly when each of its tags is on some document.
  covers-carried :
      (ids : List ℤ) (required : ℕ)
      → (covers (union_from 0 ids) required ≡ true) ↔ ((k : ℕ) → bit required k ≤ carried k ids)
  covers-carried ids required = (
    λ h k. omega (arith, covers-bit _ _ h k, bit-union_from k 0 ids, bit-zero k),
    λ h. bit-covers _ _ (λ k. omega (arith, h k, bit-union_from k 0 ids, bit-zero k)),
  )

abbrev on_gathered :
    (Server → Server)
    → UserRecord × ℕ
    → ℕ
    → Text
    → ℤ
    → List ℤ
    → NpcSlot
    → Server
    → Gathered
    → Server
on_gathered other junk sock key npc_id ids npc s (refused code) = send_error sock code s
on_gathered other junk sock key npc_id ids npc s (tags tag_union) =
    if not (covers tag_union npc.required_tags)
    then send_error sock tag_mismatch s
    else sell_commit junk sock key npc_id ids (other s)

until_gathered :
    (other : Server → Server) (junk : UserRecord × ℕ) (sock : ℕ) (key : Text) (npc_id : ℤ)
    (count : ℤ) (doc_ids : List ℤ) (s : Server) (npc : NpcSlot)
    → lt_ℤ (pos 0) count ≡ true
    → le_ℤ count (pos max_inven_size) ≡ true
    → npc_find npc_id s.npcs ≡ some npc
    → (g : Gathered) → gather key s 0 (market_doc_sort_ids (take (pos_part count) doc_ids)) ≡ g
    → handle_sell other junk sock key npc_id count doc_ids s
      ≡ on_gathered other junk sock key npc_id
          (market_doc_sort_ids (take (pos_part count) doc_ids))
          npc
          s
          g
unfolding handle_sell
until_gathered other junk sock key npc_id count doc_ids s npc lo hi e (refused code) eg =
    ground arith
until_gathered other junk sock key npc_id count doc_ids s npc lo hi e (tags u) eg = ground arith

-- A sale of one to seven documents to an offer on the board. If the user has every document, none of
-- their tags is frozen and every required tag is on one of them, the handler goes on to take the offer;
-- tags beyond the required ones do no harm. If a required tag is on none of them, the sale is refused
-- with "tag mismatch"; and if a document is missing or frozen, it is refused with some error. A refusal
-- changes nothing but the log.
pub sale_verdict :
    (other : Server → Server) (junk : UserRecord × ℕ) (sock : ℕ) (key : Text) (npc_id : ℤ)
    (count : ℤ) (doc_ids : List ℤ) (s : Server) (npc : NpcSlot)
    → lt_ℤ (pos 0) count ≡ true
    → le_ℤ count (pos max_inven_size) ≡ true
    → npc_find npc_id s.npcs ≡ some npc
    → let s' = handle_sell other junk sock key npc_id count doc_ids s in
      let ids = market_doc_sort_ids (take (pos_part count) doc_ids) in
      (all_sellable key s ids ≡ true
        → ((k : ℕ) → bit npc.required_tags k ≤ carried key s k ids)
        → s' ≡ sell_commit junk sock key npc_id ids (other s))
      × (all_sellable key s ids ≡ true
          → (k : ℕ) → carried key s k ids < bit npc.required_tags k
          → s' ≡ send_error sock tag_mismatch s)
      × (all_sellable key s ids ≡ false → (code : ErrorCode) × (s' ≡ send_error sock code s))
sale_verdict other junk sock key npc_id count doc_ids s npc lo hi e =
    (accepted, mismatch, unsellable)
  where
    ids : List ℤ
    ids = market_doc_sort_ids (take (pos_part count) doc_ids)

    accepted :
        all_sellable key s ids ≡ true
        → ((k : ℕ) → bit npc.required_tags k ≤ carried key s k ids)
        → handle_sell other junk sock key npc_id count doc_ids s
          ≡ sell_commit junk sock key npc_id ids (other s)
    accepted h all =
        until_gathered other junk sock key npc_id count doc_ids s npc lo hi e _
          (gather-tags key s 0 ids h)
        ∙ rw ((covers-carried key s ids npc.required_tags).1 all)

    mismatch :
        all_sellable key s ids ≡ true
        → (k : ℕ) → carried key s k ids < bit npc.required_tags k
        → handle_sell other junk sock key npc_id count doc_ids s ≡ send_error sock tag_mismatch s
    mismatch h k lack = elim (Bool-cases (covers (union_from key s 0 ids) npc.required_tags)) [
      | inl c ↦ absurd (omega (arith, (covers-carried key s ids npc.required_tags).0 c k))
      | inr c ↦
          until_gathered other junk sock key npc_id count doc_ids s npc lo hi e _
            (gather-tags key s 0 ids h)
          ∙ rw c
    ]

    unsellable :
        all_sellable key s ids ≡ false
        → (code : ErrorCode) × (handle_sell other junk sock key npc_id count doc_ids s
            ≡ send_error sock code s)
    unsellable h =
        let (code, g) = gather-refused key s 0 ids h in
        (code, until_gathered other junk sock key npc_id count doc_ids s npc lo hi e _ g)
