-- ===== src/Events/Names.antt =====
-- `make_doc_name` of src/server/events.c: the name of a document from its tags, cut to its buffer.
use under_flow.Base.{
  ℕ, ◌+◌, ◌-◌, ◌%◌, ◌&&◌, not, Option, none, some, List, [], ◌∷◌, ◌++◌, get_elem?, take,
  if◌then◌else◌, ◌==◌,
}
use under_flow.Base.Text.{Text, utf8}
use under_flow.Base.Masks.{meets}
use under_flow.Npc.{popcount_u32}
use under_flow.Protocol.{
  tag_corp_a, tag_corp_b, tag_corp_c, tag_customer, tag_finance, tag_military, tag_government,
  tag_medical, tag_research, tag_personal, tag_corp_d, tag_corp_e,
}
use under_flow.Events.Tags.{tag_list, first_tag_index}

-- `TAG_SHORT`
abbrev pub tag_short : List Text
tag_short =
    utf8 "아사사카"
    ∷ utf8 "바이오젠"
    ∷ utf8 "넥서스"
    ∷ utf8 "유저DB/신상"
    ∷ utf8 "크레딧/비자금"
    ∷ utf8 "전술AI/무기"
    ∷ utf8 "연방기밀"
    ∷ utf8 "인체실험/바이오"
    ∷ utf8 "프로토타입"
    ∷ utf8 "블랙메일/약점"
    ∷ utf8 "밀리테크"
    ∷ utf8 "레이븐"
    ∷ []

-- `EXTENSIONS`
abbrev extensions : List Text
extensions =
    utf8 ".decrypted"
    ∷ utf8 ".dump"
    ∷ utf8 ".pcap"
    ∷ utf8 "_CRACKED.bin"
    ∷ utf8 "_Leak_v1.0"
    ∷ utf8 ".raw"
    ∷ utf8 ".enc"
    ∷ []

-- `SINGLE_NAMES`
abbrev single_names : List (List Text)
single_names =
    (utf8 "아사사카_전력망_백업시트" ∷ utf8 "아사사카_궤도보안_구동계" ∷ utf8 "아사사카_용병계약서" ∷ [])
    ∷ (utf8 "바이오젠_인공신경_시제품" ∷ utf8 "바이오젠_유전자배열_시퀀싱" ∷ utf8 "바이오젠_중간임상_통계" ∷ [])
    ∷ (utf8 "넥서스_넷그리드_미러" ∷ utf8 "넥서스_가상계정_트랜잭션" ∷ utf8 "넥서스_백오피스_접속권한" ∷ [])
    ∷ (utf8 "VIP_주민정보_2.4TB" ∷ utf8 "네오시애틀_거주자_DB" ∷ utf8 "유명가문_가계도DB_dump" ∷ [])
    ∷ (utf8 "스위스_비자금_계좌내역" ∷ utf8 "암호화폐_세탁경로_원장" ∷ utf8 "메가코프_조세회피처_정산서" ∷ [])
    ∷ (utf8 "XM-909_전술무인기_도면" ∷ utf8 "나노봇_궤도제어_스펙시트" ∷ utf8 "레이저방어_백도어키" ∷ [])
    ∷ (utf8 "연방기밀_블랙사이트_위치" ∷ utf8 "비밀수사관_신상기록" ∷ utf8 "의회비자금_로비분배장부" ∷ [])
    ∷ (utf8 "임상뇌사_부작용_기록" ∷ utf8 "사이버웨어_조절실패_사례" ∷ utf8 "생체실험_크로노스_원안" ∷ [])
    ∷ (utf8 "양자통신_암호화키" ∷ utf8 "차세대_자율메카닉_가이드" ∷ utf8 "그리드우회_프로토타입" ∷ [])
    ∷ (utf8 "유력가_사생활_비밀녹취" ∷ utf8 "VIP_딥페이크_사보타주_소스" ∷ utf8 "불법복제_배아폭로문건" ∷ [])
    ∷ (utf8 "밀리테크_전술자주포_궤적원장" ∷ utf8 "밀리테크_스마트탄환_프로토콜" ∷ utf8 "밀리테크_용병기동전술서" ∷ [])
    ∷ (utf8 "레이븐_사이버크롬_스펙시트" ∷ utf8 "레이븐_신경망복구_시퀀스" ∷ utf8 "레이븐_내부통신_크랙패스" ∷ [])
    ∷ []

-- A read of a table; every index of the source is in range.
abbrev text_at : List Text → ℕ → Text
text_at ts i = elim (get_elem? ts i) [ none ↦ [] | some t ↦ t ]

abbrev row_at : List (List Text) → ℕ → List Text
row_at rows i = elim (get_elem? rows i) [ none ↦ [] | some r ↦ r ]

-- The loop for the second tag: the first index other than `first_idx` whose tag is in the mask.
unfoldable second_from : ℕ → ℕ → ℕ → List ℕ → Option ℕ
second_from tags first_idx i [] = none
second_from tags first_idx i (t ∷ ts) =
    if meets tags t && not (i == first_idx) then some i else second_from tags first_idx (i + 1) ts

-- The name of several tags without a name of their own.
unfoldable package_name : ℕ → ℕ → Text → Text
unfolding second_from
package_name tags first_idx ext = elim (second_from tags first_idx 0 tag_list) [
  | some second_idx ↦
      text_at tag_short first_idx
      ++ (utf8 "_" ++ (text_at tag_short second_idx ++ (utf8 "_융합패키지_CRACKED" ++ ext)))
  | none ↦ text_at tag_short first_idx ++ (utf8 "_암시장유출기밀" ++ ext)
]

-- The names of pairs of tags, the first pair that is in the mask.
unfoldable combined_name : ℕ → ℕ → Text → Text
unfolding package_name
combined_name tags first_idx ext =
    if meets tags tag_corp_a && meets tags tag_military
    then utf8 "아사사카_XM-909_자율살상드론_설계도" ++ ext
    else if meets tags tag_corp_b && meets tags tag_medical
    then utf8 "바이오젠_뇌사임상실험_치명적부작용_보고서" ++ ext
    else if meets tags tag_corp_c && meets tags tag_research
    then utf8 "넥서스_양자백도어_소스코드_원본" ++ ext
    else if meets tags tag_corp_d && meets tags tag_military
    then utf8 "밀리테크_전술AI공격헬기_방화벽인증키" ++ ext
    else if meets tags tag_corp_e && meets tags tag_research
    then utf8 "레이븐_양자보안망_시냅스우회로_설계도" ++ ext
    else if meets tags tag_finance && meets tags tag_customer
    then utf8 "메가코프_VIP_해외비자금_탈세자명단" ++ ext
    else if meets tags tag_government && meets tags tag_personal
    then utf8 "연방의회_고위의원_사생활협박_블랙메일" ++ ext
    else if meets tags tag_research && meets tags tag_military
    then utf8 "차세대_나노봇무기_BMI제어_프로토타입" ++ ext
    else package_name tags first_idx ext

-- `snprintf` keeps `sz - 1` bytes.
unfoldable pub make_doc_name : ℕ → ℕ → ℕ → ℕ → Text
unfolding first_tag_index combined_name
make_doc_name tags ext_roll name_roll sz =
    let first_idx = first_tag_index tags in
    let ext = text_at extensions (ext_roll % 7) in
    take (sz - 1) (
      if popcount_u32 tags == 1
      then text_at (row_at single_names first_idx) (name_roll % 3) ++ ext
      else combined_name tags first_idx ext)
