-- ===== src/Client/Screen/Tags.antt =====
-- `tags_to_str` of src/client/ui_client.c: the labels of a mask, printed one behind the other into a buffer.
-- `none` is a write behind the end of the buffer.
use under_flow.Base.{
  subst, ℕ, suc, ◌+◌, ◌-◌, ◌*◌, ◌≤◌, ◌<◌, ◌≡◌, refl, ◌∙◌, ap, true, false, Option, none, some, List,
  [], ◌∷◌, ◌++◌, length, length-append, take, take_all, filter_by, if◌then◌else◌, ltb, ◌==◌, arith,
  Bool-cases, inl, inr,
}
use native.Mathlib.Decide.{dec_lt}
use mathlib.Core.List.{append_assoc, append-nil}
use under_flow.Base.Text.{Text, bytes}
use under_flow.Base.Masks.{meets}
use under_flow.Protocol.{
  tag_corp_a, tag_corp_b, tag_corp_c, tag_customer, tag_finance, tag_military, tag_government,
  tag_medical, tag_research, tag_personal, tag_corp_d, tag_corp_e,
}
use under_flow.Wire.Labels.{get_tag_name}

abbrev pub tag_display_order : List ℕ
tag_display_order =
    tag_corp_a ∷ tag_corp_b ∷ tag_corp_c ∷ tag_corp_d ∷ tag_corp_e ∷ tag_customer ∷ tag_finance
    ∷ tag_military ∷ tag_government ∷ tag_medical ∷ tag_research ∷ tag_personal ∷ []

-- "[%s]"
unfoldable pub bracketed : ℕ → Text
unfolding get_tag_name
bracketed tag = 91 ∷ get_tag_name tag ++ (93 ∷ [])

-- The bytes in `out` before its NUL byte, and `len`.
pub record Printed : Type 0 where
  pub text : Text
  pub len : ℕ

-- `snprintf(out + len, out_sz - len, ...)` and `len += w`. With `len` beyond `out_sz` the difference of
-- the two sizes wraps to a huge one.
unfoldable print_label : ℕ → Text → Printed → Option Printed
print_label out_sz label p =
    if ltb out_sz p.len
    then none
    else some (record { text = take (out_sz - 1) (p.text ++ label); len = p.len + length label })

unfoldable print_labels : ℕ → ℕ → List ℕ → Printed → Option Printed
unfolding print_label
print_labels out_sz mask [] p = some p
print_labels out_sz mask (bit ∷ bits) p = elim (meets mask bit) [
  | false ↦ print_labels out_sz mask bits p
  | true ↦ elim (print_label out_sz (bracketed bit) p) [
    | none ↦ none
    | some q ↦ print_labels out_sz mask bits q
  ]
]

abbrev pub or_no_tag : Printed → Text
or_no_tag p = if p.len == 0 then bytes "[NO_TAG]" else p.text

abbrev finished : Option Printed → Option Text
finished none = none
finished (some p) = some (or_no_tag p)

-- Every caller has a buffer of 128 bytes.
unfoldable pub tags_to_str : ℕ → ℕ → Option Text
unfolding print_labels
tags_to_str mask out_sz =
    finished (print_labels out_sz mask tag_display_order (record { text = []; len = 0 }))

-- The tags of a list that the mask has, and their labels one behind the other.
abbrev pub shown : ℕ → List ℕ → List ℕ
shown mask bits = filter_by (meets mask) bits

abbrev pub labels_of : List ℕ → Text
labels_of [] = []
labels_of (bit ∷ bits) = bracketed bit ++ labels_of bits

-- By how much the labels are longer, and shorter, than 17 bytes each.
excess : List ℕ → ℕ
excess [] = 0
excess (bit ∷ bits) = length (bracketed bit) - 17 + excess bits

lack : List ℕ → ℕ
lack [] = 0
lack (bit ∷ bits) = 17 - length (bracketed bit) + lack bits

excess_in_all : excess tag_display_order ≡ 15
unfolding excess bracketed
excess_in_all = refl

lack_in_all : lack tag_display_order ≡ 24
unfolding lack bracketed
lack_in_all = refl

module _ (mask bit : ℕ) (bits : List ℕ) where
  shown_in : meets mask bit ≡ true → shown mask (bit ∷ bits) ≡ bit ∷ shown mask bits
  shown_in q = ap (λ b. elim b [ true ↦ bit ∷ shown mask bits | false ↦ shown mask bits ]) q

  shown_out : meets mask bit ≡ false → shown mask (bit ∷ bits) ≡ shown mask bits
  shown_out q = ap (λ b. elim b [ true ↦ bit ∷ shown mask bits | false ↦ shown mask bits ]) q

  print_out :
      (out_sz : ℕ) (p : Printed)
      → meets mask bit ≡ false
      → print_labels out_sz mask (bit ∷ bits) p ≡ print_labels out_sz mask bits p
  unfolding print_labels
  print_out out_sz p q = rw (q, print_labels)

  print_in :
      (out_sz : ℕ) (p : Printed)
      → meets mask bit ≡ true
      → p.len ≤ out_sz
      → print_labels out_sz mask (bit ∷ bits) p
        ≡ print_labels out_sz mask bits (record {
          text = take (out_sz - 1) (p.text ++ bracketed bit);
          len = p.len + length (bracketed bit);
        })
  unfolding print_labels
  print_in out_sz p q h =
      let room : ltb out_sz p.len ≡ false = ground arith in rw (q, print_labels, room, print_label)

  print_behind :
      (out_sz : ℕ) (p : Printed)
      → meets mask bit ≡ true
      → out_sz < p.len
      → print_labels out_sz mask (bit ∷ bits) p ≡ none
  unfolding print_labels
  print_behind out_sz p q h =
      let full : ltb out_sz p.len ≡ true = ground arith in rw (q, print_labels, full, print_label)

labels-le :
    (mask : ℕ) (bits : List ℕ)
    → length (labels_of (shown mask bits)) ≤ 17 * length (shown mask bits) + excess bits
unfolding excess
labels-le mask [] = omega arith
labels-le mask (bit ∷ bits) = elim (Bool-cases (meets mask bit)) [
  | inl q ↦ rw (shown_in mask bit bits q) (
      omega (
        arith,
        labels-le mask bits,
        length-append {0} (bracketed bit) (labels_of (shown mask bits)),
      ))
  | inr q ↦ rw (shown_out mask bit bits q) (omega (arith, labels-le mask bits))
]

-- Labels that fit are all printed.
print_labels-fit :
    (out_sz mask : ℕ) (bits : List ℕ) (text : Text)
    → length text + length (labels_of (shown mask bits)) < out_sz
    → print_labels out_sz mask bits (record { text = text; len = length text })
      ≡ some (record {
        text = text ++ labels_of (shown mask bits);
        len = length (text ++ labels_of (shown mask bits));
      })
print_labels-fit out_sz mask [] text h = unfold print_labels in rw (append-nil text)
print_labels-fit out_sz mask (bit ∷ bits) text h = elim (Bool-cases (meets mask bit)) [
  | inr q ↦ rw (shown_out mask bit bits q) (
      print_out mask bit bits out_sz _ q
      ∙ print_labels-fit out_sz mask bits text
          (subst (λ l. length text + length (labels_of l) < out_sz) (shown_out mask bit bits q) h))
  | inl q ↦
      let label = bracketed bit in
      let rest = labels_of (shown mask bits) in
      let parts = length-append {0} label rest in
      let joined = length-append {0} text label in
      let small : length text + length (label ++ rest) < out_sz =
        subst (λ l. length text + length (labels_of l) < out_sz) (shown_in mask bit bits q) h in
      let whole : take (out_sz - 1) (text ++ label) ≡ text ++ label =
        take_all (out_sz - 1) (text ++ label) (omega (arith, parts, joined, small)) in
      let ih =
        print_labels-fit out_sz mask bits (text ++ label) (omega (arith, parts, joined, small)) in
      rw (shown_in mask bit bits q) (
        print_in mask bit bits out_sz _ q (omega (arith, parts, joined, small))
        ∙ cc (ih, whole, joined, append_assoc text label rest))
]

-- Labels that are too many go behind the end.
print_labels-none :
    (mask : ℕ) (bits : List ℕ) (p : Printed)
    → 0 < length (shown mask bits)
    → 129 + lack bits ≤ p.len + 17 * (length (shown mask bits) - 1)
    → print_labels 128 mask bits p ≡ none
unfolding lack
print_labels-none mask [] p some_left h = absurd (omega arith)
print_labels-none mask (bit ∷ bits) p some_left h = elim (Bool-cases (meets mask bit)) [
  | inr q ↦
      let same : length (shown mask (bit ∷ bits)) ≡ length (shown mask bits) =
        ap (length {0}) (shown_out mask bit bits q) in
      print_out mask bit bits 128 p q
      ∙ print_labels-none mask bits p (omega (arith, same)) (omega (arith, same))
  | inl q ↦
      let more : length (shown mask (bit ∷ bits)) ≡ suc (length (shown mask bits)) =
        ap (length {0}) (shown_in mask bit bits q) in
      elim (dec_lt 128 p.len) [
        | yes full ↦ print_behind mask bit bits 128 p q full
        | no room ↦
            print_in mask bit bits 128 p q (omega arith)
            ∙ print_labels-none mask bits _ (omega (arith, more)) (omega (arith, more))
      ]
]

-- On a buffer of 128 bytes: a mask with at most six of the twelve tags is printed whole, the labels in
-- the order of the table or "[NO_TAG]" without any; with ten of them or more the last write goes behind
-- the end of the buffer.
pub tags_lem :
    (mask : ℕ)
    → (length (shown mask tag_display_order) ≤ 6
        → tags_to_str mask 128
          ≡ some (
              or_no_tag (record {
                text = labels_of (shown mask tag_display_order);
                len = length (labels_of (shown mask tag_display_order));
              })))
      × (10 ≤ length (shown mask tag_display_order) → tags_to_str mask 128 ≡ none)
unfolding tags_to_str
tags_lem mask = (
  λ few. ap finished (
      print_labels-fit 128 mask tag_display_order []
        (omega (arith, labels-le mask tag_display_order, few, excess_in_all))),
  λ many.
      ap finished
        (print_labels-none mask tag_display_order _ (omega arith) (omega (arith, lack_in_all))),
)
