-- ===== src/Traversal/Stun/Integrity.antt =====
-- internal/traversal/stun/message.go: MESSAGE-INTEGRITY and FINGERPRINT. HMAC-SHA1 and CRC-32 are
-- parameters: of the first a result of 20 bytes is assumed where it matters, of the second nothing.
pub mod Pieces
pub mod Signed
pub mod Trip
use Prim.Native.Nat.{bit_xor}
use anti_nat.Common.{
  ℕ, suc, ◌+◌, ◌<◌, Bool, true, false, not, ◌&&◌, List, [], ◌∷◌, ◌++◌, Option, none, some,
  if◌then◌else◌, ◌==◌, ltb, leb, length, take, drop, put_u16, put_u32, get_u32, u32, bytes_eq,
}
use anti_nat.Traversal.Stun.{
  Bytes, Attribute, Message, Result, ok, err, CodecError, truncated, malformed, oversize,
  no_integrity, no_fingerprint, already_present, header_size, max_message_size, add, count,
  section_length, attr_message_integrity, attr_fingerprint,
}
use anti_nat.Traversal.Stun.Wire.{header_wire, attributes_wire}

abbrev pub integrity_length : ℕ
integrity_length = 20

-- The message up to the attributes given, under a header with the length given.
abbrev pub prefix_wire : Message → ℕ → List Attribute → Bytes
prefix_wire m n attrs = header_wire m n ++ attributes_wire attrs

-- The attributes before the first MESSAGE-INTEGRITY, and its value.
unfoldable pub split_integrity : List Attribute → Option (List Attribute × Bytes)
split_integrity [] = none
split_integrity (a ∷ rest) =
    let later : Option (List Attribute × Bytes) = elim (split_integrity rest) [
      | none ↦ none
      | some (before, value) ↦ some (a ∷ before, value)
    ] in
    if a.type == attr_message_integrity then some ([], a.value) else later

-- The raw prefix with its length field replaced.
abbrev patched : Bytes → ℕ → Bytes
patched raw n = take 2 raw ++ (put_u16 n ++ drop 4 raw)

pub raw_input : Bytes → Bytes → ℕ → Result Bytes
raw_input raw wire section =
    if leb (length wire) (length raw) && bytes_eq (take (length wire) raw) wire
    then ok (take (length wire) raw)
    else if leb (header_size + section) (length raw)
    then ok (patched (take (header_size + section) raw) (section + 4 + integrity_length))
    else err truncated

input_of : Bytes → Bytes → ℕ → Result Bytes
unfolding raw_input
input_of [] wire section = ok wire
input_of (b ∷ raw) wire section = raw_input (b ∷ raw) wire section

unfoldable pub integrity_input : Message → List Attribute → Result Bytes
unfolding input_of
integrity_input m before =
    let section = section_length before in
    input_of m.raw (prefix_wire m (section + 4 + integrity_length) before) section

module _ (hmac : Bytes → Bytes → Bytes) where
  unfoldable pub add_message_integrity : Message → Bytes → Result Message
  add_message_integrity m key =
      let section = section_length m.attributes in
      if ltb 0 (count m attr_message_integrity)
      then err already_present
      else if ltb max_message_size (section + 4 + integrity_length)
      then err oversize
      else ok (
          add m attr_message_integrity
            (hmac key (prefix_wire m (section + 4 + integrity_length) m.attributes)))

  compare_mac : Bytes → Bytes → Result Bytes → Result Bool
  compare_mac key stored (err e) = err e
  compare_mac key stored (ok wire) = ok (bytes_eq (hmac key wire) stored)

  verify_split : Message → Bytes → Option (List Attribute × Bytes) → Result Bool
  unfolding compare_mac
  verify_split m key none = err no_integrity
  verify_split m key (some (before, stored)) =
      if ltb 1 (count m attr_message_integrity)
      then err malformed
      else if not (length stored == integrity_length)
      then err malformed
      else compare_mac key stored (integrity_input m before)

  unfoldable pub verify_message_integrity : Message → Bytes → Result Bool
  unfolding verify_split
  verify_message_integrity m key = verify_split m key (split_integrity m.attributes)

abbrev fingerprint_xor : ℕ
fingerprint_xor = 0x5354554E

-- All attributes but the last, and the last.
unfoldable pub split_last : Attribute → List Attribute → List Attribute × Attribute
split_last a [] = ([], a)
split_last a (b ∷ rest) = let (front, last) = split_last b rest in (a ∷ front, last)

abbrev fingerprint_input : Bytes → Bytes → ℕ → Result Bytes
fingerprint_input raw wire section =
    if leb (header_size + section) (length raw)
    then ok (take (header_size + section) raw)
    else if ltb 0 (length raw)
    then err truncated
    else ok wire

module _ (crc : Bytes → ℕ) where
  abbrev pub fingerprint_of : Bytes → ℕ
  fingerprint_of wire = u32 (bit_xor (crc wire) fingerprint_xor)

  unfoldable pub add_fingerprint : Message → Result Message
  add_fingerprint m =
      let section = section_length m.attributes in
      if ltb 0 (count m attr_fingerprint)
      then err already_present
      else if ltb max_message_size (section + 8)
      then err oversize
      else ok (
          add m attr_fingerprint
            (put_u32 (fingerprint_of (prefix_wire m (section + 8) m.attributes))))

  compare_crc : Bytes → Result Bytes → Result Bool
  compare_crc value (err e) = err e
  compare_crc value (ok wire) = ok (get_u32 value == fingerprint_of wire)

  pub verify_last : Message → List Attribute → Attribute → Result Bool
  unfolding compare_crc
  verify_last m front last =
      let section = section_length front in
      if not (last.type == attr_fingerprint)
      then err malformed
      else if not (length last.value == 4)
      then err malformed
      else compare_crc last.value
          (fingerprint_input m.raw (prefix_wire m (section + 8) front) section)

  pub verify_attributes : Message → List Attribute → Result Bool
  unfolding verify_last
  verify_attributes m [] = err no_fingerprint
  verify_attributes m (a ∷ rest) =
      let (front, last) = split_last a rest in
      if count m attr_fingerprint == 0 then err no_fingerprint else verify_last m front last

  unfoldable pub verify_fingerprint : Message → Result Bool
  unfolding verify_attributes
  verify_fingerprint m = verify_attributes m m.attributes
