-- ===== src/Traversal/Stun/Integrity/Signed.antt =====
-- internal/traversal/stun/message.go: a message with MESSAGE-INTEGRITY and FINGERPRINT at its end,
-- as it is sent and as it is parsed.
use anti_nat.Common.{
  ℕ, ◌+◌, ◌≤◌, ◌<◌, ◌≡◌, refl, sym, ap, subst, ◌∙◌, true, List, [], ◌∷◌, ◌++◌, append_assoc, some,
  leb, length, take, put_u32, get_u32-put_u32, bytes_eq_self, arith, All, All-append,
}
use anti_nat.Traversal.Stun.{
  Bytes, Attribute, Message, ok, count, count_type, section_length, attr_message_integrity,
  attr_fingerprint,
}
use anti_nat.Traversal.Stun.Wire.{done, fingerprint_misplaced, header_wire, marshal, parse_message}
use anti_nat.Traversal.Stun.Wire.RoundTrip.{IsEncodable, parse-marshal}
use anti_nat.Traversal.Stun.Integrity.{
  integrity_length, prefix_wire, split_integrity, integrity_input, patched,
  verify_message_integrity, fingerprint_of, fingerprint_input, verify_fingerprint, verify_split,
  compare_mac, compare_crc, verify_attributes, verify_last,
}
use anti_nat.Traversal.Stun.Integrity.Pieces.{
  count_type-append, section-append, split_integrity-append, last_type-append, raw_input_is,
  verify_attributes-append, length-prefix, take-prefix,
}

abbrev pub mi : Bytes → Attribute
mi mac = record { type = attr_message_integrity; value = mac }

abbrev pub fp : ℕ → Attribute
fp v = record { type = attr_fingerprint; value = put_u32 v }

-- The message with both attributes, as it is parsed from `raw`.
abbrev pub sent : Message → Bytes → ℕ → Bytes → Message
sent m mac v raw = record m { attributes = m.attributes ++ mi mac ∷ fp v ∷ []; raw = raw }

-- What a message must satisfy to be signed: room for 32 more bytes and neither attribute yet.
pub record IsSignable (m : Message) : Type 0 where
  pub typed : m.type < 65536
  pub id_length : length m.transaction_id ≡ 12
  pub attributes_typed : All (λ (a : Attribute). a.type < 65536) m.attributes
  pub unsigned : count m attr_message_integrity ≡ 0
  pub unmarked : count m attr_fingerprint ≡ 0
  pub fits : section_length m.attributes + 32 ≤ 65535

module _ (m : Message) (ready : IsSignable m) (mac : Bytes) (v : ℕ)
    (mac_length : length mac ≡ 20) where
  abbrev pub size : ℕ
  size = section_length m.attributes

  abbrev pub wire : Bytes
  wire = prefix_wire m (size + 32) (m.attributes ++ mi mac ∷ fp v ∷ [])

  pub section_signed : section_length (m.attributes ++ mi mac ∷ []) ≡ size + 24
  unfolding section_length
  section_signed = omega (arith, section-append m.attributes (mi mac ∷ []), mac_length)

  section_sent : section_length (m.attributes ++ mi mac ∷ fp v ∷ []) ≡ size + 32
  unfolding section_length
  section_sent = omega (arith, section-append m.attributes (mi mac ∷ fp v ∷ []), mac_length)

  sent_typed : All (λ (a : Attribute). a.type < 65536) (m.attributes ++ mi mac ∷ fp v ∷ [])
  sent_typed =
      All-append (λ (a : Attribute). a.type < 65536) m.attributes (mi mac ∷ fp v ∷ [])
        ready.attributes_typed (omega arith)

  length-wire : length wire ≡ 20 + (size + 32)
  length-wire =
      length-prefix m (size + 32) (m.attributes ++ mi mac ∷ fp v ∷ []) ready.id_length sent_typed
        (omega (arith, section_sent, ready.fits))
      ∙ ap (◌+◌ 20) section_sent

  regrouped : m.attributes ++ mi mac ∷ fp v ∷ [] ≡ (m.attributes ++ mi mac ∷ []) ++ fp v ∷ []
  regrouped = sym (append_assoc m.attributes (mi mac ∷ []) (fp v ∷ []))

  pub marshals : (raw : Bytes) → marshal (sent m mac v raw) ≡ done wire
  unfolding marshal header_wire
  marshals raw = rw section_sent (ground (arith, ready.fits))

  encodable : IsEncodable (sent m mac v [])
  unfolding fingerprint_misplaced
  encodable = record {
    typed = ready.typed;
    id_length = ready.id_length;
    attributes_typed = sent_typed;
    fingerprint_last =
        rw (regrouped, last_type-append 0 (m.attributes ++ mi mac ∷ []) (fp v)) (ground arith);
  }

  pub parses : parse_message wire ≡ done (sent m mac v wire)
  parses = parse-marshal (sent m mac v []) wire encodable (marshals [])

  patched_prefix :
      patched (prefix_wire m (size + 32) m.attributes) (size + 4 + integrity_length)
      ≡ prefix_wire m (size + 4 + integrity_length) m.attributes
  unfolding header_wire
  patched_prefix = refl

  input_sent :
      integrity_input (sent m mac v wire) m.attributes
      ≡ ok (prefix_wire m (size + 4 + integrity_length) m.attributes)
  unfolding integrity_input header_wire
  input_sent =
      raw_input_is wire (prefix_wire m (size + 4 + integrity_length) m.attributes) size
        (omega (arith, length-wire))
        (ap (λ (b : Bytes). patched b (size + 4 + integrity_length)) cut ∙ patched_prefix)
    where
      cut : take (20 + size) wire ≡ prefix_wire m (size + 32) m.attributes
      cut =
          take-prefix m (size + 32) m.attributes (mi mac ∷ fp v ∷ []) ready.id_length
            ready.attributes_typed (omega (arith, ready.fits))

  pub found : split_integrity (m.attributes ++ mi mac ∷ fp v ∷ []) ≡ some (m.attributes, mac)
  unfolding count
  found = split_integrity-append m.attributes (mi mac) (fp v ∷ []) ready.unsigned refl

  one_integrity : count (sent m mac v wire) attr_message_integrity ≡ 1
  unfolding count_type count
  one_integrity =
      count_type-append m.attributes (mi mac ∷ fp v ∷ []) attr_message_integrity
      ∙ ap (λ (n : ℕ). n + 1) ready.unsigned

  pub verifies_mac :
      (hmac : Bytes → Bytes → Bytes) (key : Bytes)
      → mac ≡ hmac key (prefix_wire m (size + 4 + integrity_length) m.attributes)
      → verify_message_integrity hmac (sent m mac v wire) key ≡ ok true
  unfolding verify_message_integrity verify_split compare_mac
  verifies_mac hmac key is_mac =
      rw (found, one_integrity, mac_length, input_sent, ← is_mac, bytes_eq_self mac) refl

  one_fingerprint : count (sent m mac v wire) attr_fingerprint ≡ 1
  unfolding count_type count
  one_fingerprint =
      count_type-append m.attributes (mi mac ∷ fp v ∷ []) attr_fingerprint
      ∙ ap (λ (n : ℕ). n + 1) ready.unmarked

  covered : take (20 + (size + 24)) wire ≡ prefix_wire m (size + 32) (m.attributes ++ mi mac ∷ [])
  covered =
      subst
        (λ (n : ℕ). take (20 + n) wire ≡ prefix_wire m (size + 32) (m.attributes ++ mi mac ∷ []))
        section_signed
        (ap
            (λ (xs : List Attribute).
              take (20 + section_length (m.attributes ++ mi mac ∷ []))
                (prefix_wire m (size + 32) xs))
            regrouped
          ∙ take-prefix m (size + 32) (m.attributes ++ mi mac ∷ []) (fp v ∷ []) ready.id_length
              (All-append (λ (a : Attribute). a.type < 65536) m.attributes (mi mac ∷ [])
                ready.attributes_typed (omega arith))
              (omega (arith, section_signed, ready.fits)))

  fingerprint_input_sent :
      (prefix : Bytes)
      → fingerprint_input wire prefix (size + 24)
        ≡ ok (prefix_wire m (size + 32) (m.attributes ++ mi mac ∷ []))
  fingerprint_input_sent prefix = rw long (ap ok covered)
    where
      long : leb (20 + (size + 24)) (length wire) ≡ true
      long = ground (arith, length-wire)

  verifies_last :
      (crc : Bytes → ℕ)
      → v ≡ fingerprint_of crc (prefix_wire m (size + 32) (m.attributes ++ mi mac ∷ []))
      → verify_last crc (sent m mac v wire) (m.attributes ++ mi mac ∷ []) (fp v) ≡ ok true
  unfolding verify_last compare_crc
  verifies_last crc is_crc =
      rw
        (
          section_signed,
          fingerprint_input_sent _,
          get_u32-put_u32 v (subst (λ (n : ℕ). n < 4294967296) (sym is_crc) (omega arith)),
          ← is_crc,
        )
        (ground arith)

  pub verifies_fingerprint :
      (crc : Bytes → ℕ)
      → v ≡ fingerprint_of crc (prefix_wire m (size + 32) (m.attributes ++ mi mac ∷ []))
      → verify_fingerprint crc (sent m mac v wire) ≡ ok true
  unfolding verify_fingerprint
  verifies_fingerprint crc is_crc =
      ap (λ (xs : List Attribute). verify_attributes crc (sent m mac v wire) xs) regrouped
      ∙ verify_attributes-append crc (sent m mac v wire) (m.attributes ++ mi mac ∷ []) (fp v)
          one_fingerprint
      ∙ verifies_last crc is_crc
