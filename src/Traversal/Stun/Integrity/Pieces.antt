-- ===== src/Traversal/Stun/Integrity/Pieces.antt =====
-- internal/traversal/stun/message.go: sections, wires and splits of attribute lists that are put
-- together.
use anti_nat.Common.{
  ℕ, ◌+◌, ◌≤◌, ◌<◌, ◌≡◌, inl, inr, refl, sym, ap, ◌∙◌, ◌&&◌, List, [], ◌∷◌, ◌++◌, append_assoc,
  some, leb, length, take, length-append, take-append_length, bytes_eq, bytes_eq→eq, Bool-cases,
  arith, All,
}
use anti_nat.Traversal.Stun.{
  Bytes, Attribute, Message, ok, count, count_type, section_length, attr_message_integrity,
  attr_fingerprint,
}
use anti_nat.Traversal.Stun.Wire.{last_type, header_wire, attribute_wire, attributes_wire}
use anti_nat.Traversal.Stun.Wire.RoundTrip.{length-attributes_wire, section-IsSendable}
use anti_nat.Traversal.Stun.Integrity.{
  integrity_length, prefix_wire, split_integrity, raw_input, patched, split_last, verify_attributes,
  verify_last,
}

pub count_type-append :
    (xs ys : List Attribute) (t : ℕ) → count_type (xs ++ ys) t ≡ count_type xs t + count_type ys t
unfolding count_type
count_type-append [] ys t = omega arith
count_type-append (x ∷ xs) ys t = ground (arith, count_type-append xs ys t)

pub section-append :
    (xs ys : List Attribute) → section_length (xs ++ ys) ≡ section_length xs + section_length ys
unfolding section_length
section-append [] ys = omega arith
section-append (x ∷ xs) ys = omega (arith, section-append xs ys)

pub attributes_wire-append :
    (xs ys : List Attribute) → attributes_wire (xs ++ ys) ≡ attributes_wire xs ++ attributes_wire ys
unfolding attributes_wire
attributes_wire-append [] ys = refl
attributes_wire-append (x ∷ xs) ys =
    ap (◌++◌ (attribute_wire x)) (attributes_wire-append xs ys)
    ∙ sym (append_assoc (attribute_wire x) (attributes_wire xs) (attributes_wire ys))

pub split_integrity-append :
    (xs : List Attribute) (a : Attribute) (rest : List Attribute)
    → count_type xs attr_message_integrity ≡ 0
    → a.type ≡ attr_message_integrity
    → split_integrity (xs ++ a ∷ rest) ≡ some (xs, a.value)
unfolding split_integrity count_type
split_integrity-append [] a rest h e = rw e refl
split_integrity-append (x ∷ xs) a rest h e = ground (arith, split_integrity-append xs a rest)

pub split_last-append :
    (a : Attribute) (xs : List Attribute) (x : Attribute)
    → split_last a (xs ++ x ∷ []) ≡ (a ∷ xs, x)
unfolding split_last
split_last-append a [] x = refl
split_last-append a (b ∷ xs) x = rw (split_last-append b xs x) refl

pub last_type-append :
    (t : ℕ) (xs : List Attribute) (x : Attribute) → last_type t (xs ++ x ∷ []) ≡ x.type
last_type-append t [] x = refl
last_type-append t (y ∷ xs) x = last_type-append y.type xs x

-- Either way the input that is read off the wire is the one that was signed.
pub raw_input_is :
    (raw wire : Bytes) (section : ℕ)
    → 20 + section ≤ length raw
    → patched (take (20 + section) raw) (section + 4 + integrity_length) ≡ wire
    → raw_input raw wire section ≡ ok wire
unfolding raw_input
raw_input_is raw wire section long same =
    elim (Bool-cases (leb (length wire) (length raw) && bytes_eq (take (length wire) raw) wire)) [
      | inl e ↦ rw e (ap ok (bytes_eq→eq _ _ (ground arith)))
      | inr e ↦ rw e (rw same (ground arith))
    ]

pub verify_attributes-append :
    (crc : Bytes → ℕ) (m : Message) (front : List Attribute) (last : Attribute)
    → count m attr_fingerprint ≡ 1
    → verify_attributes crc m (front ++ last ∷ []) ≡ verify_last crc m front last
unfolding verify_attributes split_last
verify_attributes-append crc m [] last one = rw one refl
verify_attributes-append crc m (a ∷ front) last one = rw (split_last-append a front last, one) refl

pub length-prefix :
    (m : Message) (n : ℕ) (attrs : List Attribute)
    → length m.transaction_id ≡ 12
    → All (λ (a : Attribute). a.type < 65536) attrs
    → section_length attrs ≤ 65535
    → length (prefix_wire m n attrs) ≡ 20 + section_length attrs
unfolding header_wire
length-prefix m n attrs id typed fits = omega (
  arith,
  length-append m.transaction_id (attributes_wire attrs),
  id,
  length-attributes_wire attrs (section-IsSendable attrs typed fits),
)

-- A prefix of the wire, whatever its header says, is the header and the attributes in it.
pub take-prefix :
    (m : Message) (n : ℕ) (xs ys : List Attribute)
    → length m.transaction_id ≡ 12
    → All (λ (a : Attribute). a.type < 65536) xs
    → section_length xs ≤ 65535
    → take (20 + section_length xs) (prefix_wire m n (xs ++ ys)) ≡ prefix_wire m n xs
take-prefix m n xs ys id typed fits =
    rw
      (
        attributes_wire-append xs ys,
        ← append_assoc (header_wire m n) (attributes_wire xs) (attributes_wire ys),
      )
      (take-append_length (20 + section_length xs) (prefix_wire m n xs) (attributes_wire ys)
        (length-prefix m n xs id typed fits))
