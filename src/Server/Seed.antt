-- ===== src/Server/Seed.antt =====
-- `seed_market_and_npc` of src/server/server_main.c: four documents on the board and in the master
-- directory, and two offers. The names are their UTF-8 bytes.
use under_flow.Base.{ℕ, ◌*◌, bit_or}
use under_flow.Base.Int.{ℤ, pos}
use under_flow.Base.Text.{Text, utf8}
use under_flow.Protocol.{
  tag_corp_a, tag_corp_b, tag_customer, tag_finance, tag_military, tag_government, tag_personal,
}
use under_flow.Market.{market_add}
use under_flow.Npc.{npc_add, popcount_u32}
use under_flow.Sandbox.{DocFile, master_write_doc}
use under_flow.Server.{Server}

-- `MARKET_PRICE_PER_TAG`
abbrev pub market_price_per_tag : ℕ
market_price_per_tag = 400

abbrev financials_name : Text
financials_name = utf8 "바이오젠 기밀폐기 재무제표"

abbrev drone_name : Text
drone_name = utf8 "연방정부 전술 드론 설계도"

abbrev agents_name : Text
agents_name = utf8 "퇴직 요원 신상정보"

abbrev bribes_name : Text
bribes_name = utf8 "아사사카 임직원 비리 증거"

-- One round of the loop over `docs`; `now` and `roll` are the `time` and `rand` of `market_add`.
-- `count_bits` of server_main.c is the same loop as `popcount_u32`.
unfoldable pub seed_doc : ℕ → ℕ → ℤ → ℕ → Text → Server → Server
seed_doc now roll doc_id tags name s =
    let price = pos (popcount_u32 tags * market_price_per_tag) in
    let doc : DocFile = record { doc_id = doc_id; tags = tags; base_price = price; name = name } in
    record s {
      disk = (master_write_doc doc s.disk).1;
      market = (market_add now roll doc_id tags price name s.market).1;
    }

-- `rolls i` is the `rand` of the i-th `market_add`.
unfoldable pub seed_market_and_npc : ℕ → (ℕ → ℕ) → Server → Server
unfolding seed_doc
seed_market_and_npc now rolls s =
    let s1 = seed_doc now (rolls 0) (pos 124) (bit_or tag_corp_b tag_finance) financials_name s in
    let s2 = seed_doc now (rolls 1) (pos 111) (bit_or tag_government tag_military) drone_name s1 in
    let s3 = seed_doc now (rolls 2) (pos 47) (bit_or tag_personal tag_customer) agents_name s2 in
    let s4 = seed_doc now (rolls 3) (pos 70) (bit_or tag_corp_a tag_personal) bribes_name s3 in
    let npcs1 = (npc_add now (pos 102) (bit_or tag_corp_b tag_finance) (pos 1200) s4.npcs).1 in
    let npcs2 = (npc_add now (pos 356) (bit_or tag_government tag_military) (pos 2500) npcs1).1 in
    record s4 { npcs = npcs2 }
