-- ===== src/Server/Sell/Effect.antt =====
-- What a completed sale of src/server/server_main.c does to the money, the files and the NPC board.
use under_flow.Base.{
  ℕ, ◌≤◌, ◌≡◌, refl, Bool, true, false, ◌&&◌, ◌||◌, sym, ◌≢◌, none, some, List, [], ◌∷◌,
  if◌then◌else◌, arith, ◌∙◌,
}
use under_flow.Base.Int.{ℤ, eq_ℤ, InInt32, ◌+ℤ◌, add32, wrap32_id}
use under_flow.Base.Text.{Text, same_text}
use under_flow.Npc.{NpcSlot, npc_find, npc_take}
use under_flow.Npc.Offers.{offered, npc_take-find, npc_take_exclusive}
use under_flow.Userdb.{UserRecord, userdb_find, userdb_update_at}
use under_flow.Userdb.Lookup.{same_key, update-find}
use under_flow.Sandbox.{Disk, sandbox_read_doc, sandbox_dispose}
use under_flow.Sandbox.Move.{IsSound, dispose-read, dispose-IsSound}
use under_flow.Protocol.{sell_ok, npc_despawn}
use under_flow.Server.{Server, packet_send, broadcast_packet}
use under_flow.Server.Sell.{dispose_all, sell_commit}

abbrev pub among : ℤ → List ℤ → Bool
among j [] = false
among j (i ∷ is) = eq_ℤ i j || among j is

-- Disposing of a list removes its files from the user's directory, and nothing else.
dispose_all-read :
    (key : Text) (ids : List ℤ) (disk : Disk) (key' : Text) (j : ℤ)
    → IsSound disk
    → disk.writable ≡ true
    → ((dispose_all key ids disk).master ≡ disk.master)
      × (sandbox_read_doc key' j (dispose_all key ids disk)
          ≡ (if same_text key key' && among j ids then none else sandbox_read_doc key' j disk))
unfolding dispose_all
dispose_all-read key [] disk key' j sound w = ground arith
dispose_all-read key (i ∷ ids) disk key' j sound w =
    let kept = dispose-read key i disk key' j sound w in
    let rest =
      dispose_all-read key ids (sandbox_dispose key i disk).1 key' j
        (dispose-IsSound key i disk sound) kept.0 in
    (rest.0 ∙ kept.1, ground (arith, rest.1, kept.2))

settled :
    (junk : UserRecord × ℕ) (sock : ℕ) (key : Text) (npc_id : ℤ) (ids : List ℤ) (s : Server)
    (npc : NpcSlot) (rec : UserRecord) (offset : ℕ)
    → npc_find npc_id s.npcs ≡ some npc
    → userdb_find key s.users ≡ some (rec, offset)
    → InInt32 (rec.money +ℤ npc.bounty)
    → sell_commit junk sock key npc_id ids s
      ≡ broadcast_packet (npc_despawn npc_id) (
          packet_send sock (sell_ok npc.bounty (rec.money +ℤ npc.bounty)) (record s {
            npcs = (npc_take npc_id s.npcs).1;
            disk = dispose_all key ids s.disk;
            users =
                (userdb_update_at offset
                  (record rec { money = rec.money +ℤ npc.bounty })
                  s.users).1;
          }))
unfolding sell_commit add32
settled junk sock key npc_id ids s npc rec offset e known fits =
    let offer : (npc_take npc_id s.npcs).0 ≡ some npc = npc_take-find npc_id s.npcs ∙ e in
    ground (arith, offer, wrap32_id (rec.money +ℤ npc.bounty) fits)

-- A sale that took the offer, on files that can be written, with no identifier in two offers, and with a
-- bounty that does not overflow the balance: the seller's account has exactly the bounty more and no other account changes; the offer is gone, and
-- every other offer stays; the submitted documents are gone from the seller's directory and no other
-- file moves; market, round and raid are as they were.
pub sell_pays :
    (junk : UserRecord × ℕ) (sock : ℕ) (key : Text) (npc_id : ℤ) (ids : List ℤ) (s : Server)
    (npc : NpcSlot) (rec : UserRecord) (offset : ℕ) (key' : Text) (j : ℤ)
    → npc_find npc_id s.npcs ≡ some npc
    → ((k : ℤ) → offered k s.npcs ≤ 1)
    → userdb_find key s.users ≡ some (rec, offset)
    → s.users.writable ≡ true
    → s.disk.writable ≡ true
    → IsSound s.disk
    → InInt32 (rec.money +ℤ npc.bounty)
    → let s' = sell_commit junk sock key npc_id ids s in
      let paid = record rec { money = rec.money +ℤ npc.bounty } in
      (userdb_find key' s'.users
        ≡ (if same_key key key' then some (paid, offset) else userdb_find key' s.users))
      × (npc_find npc_id s'.npcs ≡ none)
      × (npc_id ≢ j → npc_find j s'.npcs ≡ npc_find j s.npcs)
      × (s'.disk.master ≡ s.disk.master)
      × (sandbox_read_doc key' j s'.disk
          ≡ (if same_text key key' && among j ids then none else sandbox_read_doc key' j s.disk))
      × (record s' { npcs = s.npcs; users = s.users; disk = s.disk; out = s.out } ≡ s)
sell_pays junk sock key npc_id ids s npc rec offset key' j e distinct known uw dw sound fits =
    let taking = npc_take_exclusive npc_id j s.npcs distinct in
    let gone = sym (npc_take-find npc_id (npc_take npc_id s.npcs).1) ∙ taking.2 in
    let files = dispose_all-read key ids s.disk key' j sound dw in
    let paid =
      update-find key key' offset rec (record rec { money = rec.money +ℤ npc.bounty }) s.users known
        refl uw in
    rw (settled junk sock key npc_id ids s npc rec offset e known fits)
      (paid.1, gone, taking.3, files.0, files.1, refl)
