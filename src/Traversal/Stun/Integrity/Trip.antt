-- ===== src/Traversal/Stun/Integrity/Trip.antt =====
-- internal/traversal/stun/message.go: a message that is signed, sent and parsed verifies.
use anti_nat.Common.{
  ℕ, ◌+◌, ◌≡◌, refl, ap, ◌∙◌, true, List, [], ◌∷◌, ◌++◌, append_assoc, length, put_u32, arith,
}
use anti_nat.Traversal.Stun.{
  Bytes, Attribute, Message, ok, add, count, section_length, attr_message_integrity,
  attr_fingerprint,
}
use anti_nat.Traversal.Stun.Wire.{done, header_wire, marshal, parse_message}
use anti_nat.Traversal.Stun.Integrity.{
  integrity_length, prefix_wire, add_message_integrity, verify_message_integrity, add_fingerprint,
  fingerprint_of, verify_fingerprint,
}
use anti_nat.Traversal.Stun.Integrity.Pieces.{count_type-append}
use anti_nat.Traversal.Stun.Integrity.Signed.{
  mi, fp, sent, IsSignable, wire, section_signed, marshals, parses, verifies_mac,
  verifies_fingerprint,
}

-- A message that is signed with HMAC and then CRC, marshalled and parsed again.
pub data SignedTrip (hmac : Bytes → Bytes → Bytes) (crc : Bytes → ℕ) (key : Bytes) (m : Message)
    : Type 0 where
  signed_trip :
      (signed marked received : Message) (wire : Bytes)
      → add_message_integrity hmac m key ≡ ok signed
      → add_fingerprint crc signed ≡ ok marked
      → marshal marked ≡ done wire
      → parse_message wire ≡ done received
      → verify_message_integrity hmac received key ≡ ok true
      → verify_fingerprint crc received ≡ ok true
      → SignedTrip hmac crc key m

abbrev mac_of : (Bytes → Bytes → Bytes) → Bytes → Message → Bytes
mac_of hmac key m =
    hmac key (prefix_wire m (section_length m.attributes + 4 + integrity_length) m.attributes)

abbrev crc_of : (Bytes → ℕ) → Message → Bytes → ℕ
crc_of crc m mac =
    fingerprint_of crc
      (prefix_wire m (section_length m.attributes + 32) (m.attributes ++ mi mac ∷ []))

integrity_added :
    (hmac : Bytes → Bytes → Bytes) (key : Bytes) (m : Message)
    → IsSignable m
    → add_message_integrity hmac m key ≡ ok (add m attr_message_integrity (mac_of hmac key m))
unfolding add_message_integrity
integrity_added hmac key m ready = rw ready.unsigned (ground (arith, ready.fits))

fingerprint_added :
    (crc : Bytes → ℕ) (m : Message) (mac : Bytes)
    → IsSignable m
    → length mac ≡ 20
    → add_fingerprint crc (add m attr_message_integrity mac)
      ≡ ok (add (add m attr_message_integrity mac) attr_fingerprint (put_u32 (crc_of crc m mac)))
unfolding add_fingerprint add count header_wire
fingerprint_added crc m mac ready mac_length =
    rw
      (
        section_signed m ready mac 0 mac_length,
        count_type-append m.attributes (mi mac ∷ []) attr_fingerprint,
        same,
      )
      (ground (arith, ready.fits, ready.unmarked))
  where
    same : section_length m.attributes + 24 + 8 ≡ section_length m.attributes + 32
    same = omega arith

added_flat :
    (m : Message) (mac : Bytes) (v : ℕ)
    → add (add m attr_message_integrity mac) attr_fingerprint (put_u32 v) ≡ sent m mac v m.raw
unfolding add
added_flat m mac v =
    ap (λ (xs : List Attribute). record m { attributes = xs })
      (append_assoc m.attributes (mi mac ∷ []) (fp v ∷ []))

-- If HMAC yields 20 bytes, a message with a type and attribute types of 16 bits, a transaction of
-- 12 bytes, neither MESSAGE-INTEGRITY nor FINGERPRINT, and room for 32 more bytes can be given both
-- attributes, marshalled and parsed, and in the parsed message both verify under the same key.
pub signed_message_verifies :
    (hmac : Bytes → Bytes → Bytes) (crc : Bytes → ℕ) (key : Bytes) (m : Message)
    → ((k b : Bytes) → length (hmac k b) ≡ 20)
    → IsSignable m
    → SignedTrip hmac crc key m
signed_message_verifies hmac crc key m hmac_length ready =
    signed_trip _ _ (sent m mac v (wire m ready mac v same)) (wire m ready mac v same)
      (integrity_added hmac key m ready) (fingerprint_added crc m mac ready same)
      (ap marshal (added_flat m mac v) ∙ marshals m ready mac v same m.raw)
      (parses m ready mac v same) (verifies_mac m ready mac v same hmac key refl)
      (verifies_fingerprint m ready mac v same crc refl)
  where
    mac : Bytes
    mac = mac_of hmac key m

    v : ℕ
    v = crc_of crc m mac

    same : length (mac_of hmac key m) ≡ 20
    same = hmac_length key _
