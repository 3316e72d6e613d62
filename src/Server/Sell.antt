-- ===== src/Server/Sell.antt =====
-- `handle_sell` of src/server/server_main.c, with `market_doc_sort_ids` of src/server/market.c. What other
-- threads do between the checks and `npc_take` is the argument `other`.
pub mod Sorting
pub mod Tags
pub mod Effect
use under_flow.Base.{
  ℕ, zero, suc, Bool, true, false, ◌&&◌, ◌||◌, not, Option, none, some, List, [], ◌∷◌,
  if◌then◌else◌, bit_or, take, ltb, length,
}
use under_flow.Base.Int.{ℤ, pos, le_ℤ, lt_ℤ, add32, pos_part}
use under_flow.Base.Text.{Text}
use under_flow.Base.Masks.{covers}
use under_flow.Market.{is_tag_frozen}
use under_flow.Npc.{NpcSlot, npc_find, npc_take}
use under_flow.Userdb.{UserRecord, userdb_find, userdb_update_at, max_inven_size}
use under_flow.Sandbox.{Disk, sandbox_has, sandbox_read_doc, sandbox_dispose}
use under_flow.Protocol.{
  ErrorCode, sell_ok, npc_despawn, tag_mismatch, npc_not_found, doc_not_found, doc_frozen,
  npc_already_taken,
}
use under_flow.Server.{Server, packet_send, send_error, broadcast_packet}

-- `qsort` by `cmp_int32_asc`: an insertion sort, which has the one sorted result.
unfoldable pub insert_id : ℤ → List ℤ → List ℤ
insert_id x [] = x ∷ []
insert_id x (y ∷ ys) = if le_ℤ x y then x ∷ y ∷ ys else y ∷ insert_id x ys

unfoldable pub sort_ids : List ℤ → List ℤ
sort_ids [] = []
sort_ids (x ∷ xs) = insert_id x (sort_ids xs)

unfoldable pub market_doc_sort_ids : List ℤ → List ℤ
market_doc_sort_ids ids = if ltb 1 (length ids) then sort_ids ids else ids

-- Step 2: either the first error that the loop meets, or the union of the tags.
pub data Gathered : Type 0 where
  refused : ErrorCode → Gathered
  tags : ℕ → Gathered

unfoldable pub gather : Text → Server → ℕ → List ℤ → Gathered
gather key s tag_union [] = tags tag_union
gather key s tag_union (id ∷ ids) =
    if not (sandbox_has key id s.disk)
    then refused doc_not_found
    else elim (sandbox_read_doc key id s.disk) [
      | none ↦ refused doc_not_found
      | some df ↦
          let rest = gather key s (bit_or tag_union df.tags) ids in
          if is_tag_frozen df.tags s.market then refused doc_frozen else rest
    ]

-- Step 5: `sandbox_dispose` of each document; its return value is not looked at.
unfoldable pub dispose_all : Text → List ℤ → Disk → Disk
dispose_all key [] disk = disk
dispose_all key (id ∷ ids) disk = dispose_all key ids (sandbox_dispose key id disk).1

-- What `rec` and `offset` hold after `userdb_find`, whose return value is not looked at: on failure
-- what the stack held before, `junk`.
abbrev found_or : UserRecord × ℕ → Option (UserRecord × ℕ) → UserRecord × ℕ
found_or junk none = junk
found_or junk (some hit) = hit

-- Steps 5 to 9, with the offer that `npc_take` handed out.
unfoldable pub sell_settle : UserRecord × ℕ → ℕ → Text → ℤ → List ℤ → NpcSlot → Server → Server
sell_settle junk sock key npc_id ids npc s =
    let hit = found_or junk (userdb_find key s.users) in
    let money = add32 hit.0.money npc.bounty in
    let users = (userdb_update_at hit.1 (record (hit.0) { money = money }) s.users).1 in
    broadcast_packet (npc_despawn npc_id) (
      packet_send sock (sell_ok npc.bounty money)
        (record s { disk = dispose_all key ids s.disk; users = users }))

-- Step 4 and the rest.
unfoldable pub sell_commit : UserRecord × ℕ → ℕ → Text → ℤ → List ℤ → Server → Server
unfolding sell_settle
sell_commit junk sock key npc_id ids s =
    let (offer, npcs) = npc_take npc_id s.npcs in
    elim offer [
      | none ↦ send_error sock npc_already_taken s
      | some npc ↦ sell_settle junk sock key npc_id ids npc (record s { npcs = npcs })
    ]

unfoldable pub handle_sell :
    (Server → Server) → UserRecord × ℕ → ℕ → Text → ℤ → ℤ → List ℤ → Server → Server
handle_sell other junk sock key npc_id count doc_ids s =
    if le_ℤ count (pos 0) || lt_ℤ (pos max_inven_size) count
    then send_error sock tag_mismatch s
    else let ids = market_doc_sort_ids (take (pos_part count) doc_ids) in
      elim (npc_find npc_id s.npcs) [
        | none ↦ send_error sock npc_not_found s
        | some npc ↦ elim (gather key s 0 ids) [
          | refused code ↦ send_error sock code s
          | tags tag_union ↦
              if not (covers tag_union npc.required_tags)
              then send_error sock tag_mismatch s
              else sell_commit junk sock key npc_id ids (other s)
        ]
      ]
