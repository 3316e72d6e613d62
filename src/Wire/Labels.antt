-- ===== src/Wire/Labels.antt =====
-- `get_tag_name` of src/common/protocol.c: the label of a tag for the client.
use under_flow.Base.{ℕ, List, [], ◌∷◌, if◌then◌else◌, ◌==◌}
use under_flow.Base.Text.{Text, utf8}
use under_flow.Protocol.{
  tag_corp_a, tag_corp_b, tag_corp_c, tag_customer, tag_finance, tag_military, tag_government,
  tag_medical, tag_research, tag_personal, tag_corp_d, tag_corp_e,
}

abbrev labels : List (ℕ × Text)
labels =
    (tag_corp_a, utf8 "아사사카")
    ∷ (tag_corp_b, utf8 "바이오젠")
    ∷ (tag_corp_c, utf8 "넥서스")
    ∷ (tag_customer, utf8 "유저DB/신상")
    ∷ (tag_finance, utf8 "크레딧/비자금")
    ∷ (tag_military, utf8 "전술AI/무기")
    ∷ (tag_government, utf8 "연방기밀")
    ∷ (tag_medical, utf8 "인체실험/바이오")
    ∷ (tag_research, utf8 "프로토타입")
    ∷ (tag_personal, utf8 "블랙메일/약점")
    ∷ (tag_corp_d, utf8 "밀리테크")
    ∷ (tag_corp_e, utf8 "레이븐")
    ∷ []

label_in : ℕ → List (ℕ × Text) → Text
label_in tag_bit [] = utf8 "알수없음"
label_in tag_bit ((t, label) ∷ rest) =
    let later = label_in tag_bit rest in if tag_bit == t then label else later

unfoldable pub get_tag_name : ℕ → Text
unfolding label_in
get_tag_name tag_bit = label_in tag_bit labels
