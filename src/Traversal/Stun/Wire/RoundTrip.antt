-- ===== src/Traversal/Stun/Wire/RoundTrip.antt =====
-- A marshalled message parses to itself.
use anti_nat.Common.{
  ℕ, zero, suc, ◌+◌, ◌-◌, ◌%◌, ◌≤◌, ◌<◌, ◌≡◌, refl, ap, subst, ◌∙◌, true, false, List, [], ◌∷◌,
  ◌++◌, append_assoc, ◌==◌, ltb, length, take, drop, slice, replicate, length-append, length-drop,
  Bool-cases, inl, inr, length-replicate, take-append_length, drop-append_length, take_all, arith,
  get_u16, get_u32, get_u16-put_u16, All,
}
use anti_nat.Traversal.Stun.{Bytes, Attribute, Message, pad4, section_length, magic_cookie}
use anti_nat.Traversal.Stun.Wire.{
  Outcome, done, cons_attribute, read_attribute, read_attributes, parse_message,
  fingerprint_misplaced, attribute_wire, attributes_wire, header_wire, marshal,
}

read_attribute_when :
    (rest : Bytes) (later : Bytes → Outcome (List Attribute)) (t n : ℕ) (v tail : Bytes)
    → get_u16 (slice 0 2 rest) ≡ t
    → get_u16 (slice 2 4 rest) ≡ n
    → pad4 (4 + n) ≤ length rest
    → slice 4 (4 + n) rest ≡ v
    → drop (pad4 (4 + n)) rest ≡ tail
    → read_attribute rest later ≡ cons_attribute (record { type = t; value = v }) (later tail)
unfolding read_attribute
read_attribute_when rest later t n v tail et en fits ev etail =
    rw (en, et, enough, halfway, room, value_within, within, ev, etail)
  where
    enough : ltb (length rest) 4 ≡ false
    enough = ground arith

    room : ltb (length rest - 4) n ≡ false
    room = ground arith

    halfway : ltb (length rest) 2 ≡ false
    halfway = ground arith

    value_within : ltb (length rest) (4 + n) ≡ false
    value_within = ground arith

    within : ltb (length rest) (pad4 (4 + n)) ≡ false
    within = ground arith

value_slice : (v pad tail : Bytes) → take (4 + length v - 4) ((v ++ pad) ++ tail) ≡ v
value_slice v pad tail =
    let e : 4 + length v - 4 ≡ length v = omega arith in
    rw (e, append_assoc v pad tail) (take-append_length (length v) v (pad ++ tail) refl)

module _ (a : Attribute) (typed : a.type < 65536) (short : length a.value < 65536) where
  length-attribute_wire : length (attribute_wire a) ≡ pad4 (4 + length a.value)
  unfolding attribute_wire
  length-attribute_wire = omega (
    arith,
    length-append a.value (replicate (pad4 (length a.value) - length a.value) 0),
    length-replicate {A = ℕ} (pad4 (length a.value) - length a.value) 0,
  )

  read_attribute-wire :
      (tail : Bytes) (later : Bytes → Outcome (List Attribute))
      → read_attribute (attribute_wire a ++ tail) later ≡ cons_attribute a (later tail)
  unfolding attribute_wire
  read_attribute-wire tail later =
      read_attribute_when (attribute_wire a ++ tail) later a.type (length a.value) a.value tail
        (get_u16-put_u16 a.type typed) (get_u16-put_u16 (length a.value) short)
        (omega (arith, length-append (attribute_wire a) tail, length-attribute_wire))
        (value_slice a.value (replicate (pad4 (length a.value) - length a.value) 0) tail)
        (drop-append_length (pad4 (4 + length a.value)) (attribute_wire a) tail
          length-attribute_wire)

abbrev IsSendable : Attribute → Type 0
IsSendable a = (a.type < 65536) × (length a.value < 65536)

pub length-attributes_wire :
    (attrs : List Attribute)
    → All IsSendable attrs
    → length (attributes_wire attrs) ≡ section_length attrs
unfolding attributes_wire section_length
length-attributes_wire [] h = refl
length-attributes_wire (a ∷ rest) h = omega (
  arith,
  length-append (attribute_wire a) (attributes_wire rest),
  length-attribute_wire a h.0.0 h.0.1,
  length-attributes_wire rest h.1,
)

read_attributes-wire :
    (fuel : ℕ) (attrs : List Attribute)
    → All IsSendable attrs
    → section_length attrs ≤ fuel
    → read_attributes fuel (attributes_wire attrs) ≡ done attrs
unfolding read_attributes attributes_wire section_length
read_attributes-wire fuel [] h f = refl
read_attributes-wire zero (a ∷ rest) h f = absurd (omega arith)
read_attributes-wire (suc fuel) (a ∷ rest) h f =
    read_attribute-wire a h.0.0 h.0.1 (attributes_wire rest) (read_attributes fuel)
    ∙ ap (cons_attribute a) (read_attributes-wire fuel rest h.1 (omega arith))

-- What the Go types of a message guarantee, and that FINGERPRINT is last if it is there at all.
pub record IsEncodable (m : Message) : Type 0 where
  pub typed : m.type < 65536
  pub id_length : length m.transaction_id ≡ 12
  pub attributes_typed : All (λ (a : Attribute). a.type < 65536) m.attributes
  pub fingerprint_last : fingerprint_misplaced m.attributes ≡ false

pub section-IsSendable :
    (attrs : List Attribute)
    → All (λ (a : Attribute). a.type < 65536) attrs
    → section_length attrs ≤ 65535
    → All IsSendable attrs
unfolding section_length
section-IsSendable [] h s = tt
section-IsSendable (a ∷ rest) h s = ((h.0, omega arith), section-IsSendable rest h.1 (omega arith))

section_aligned : (attrs : List Attribute) → section_length attrs % 4 ≡ 0
unfolding section_length
section_aligned [] = omega arith
section_aligned (a ∷ rest) = omega (arith, section_aligned rest)

parse_message_when :
    (input : Bytes) (n : ℕ) (attrs : List Attribute)
    → length input ≡ 20 + n
    → get_u32 (slice 4 8 input) ≡ magic_cookie
    → get_u16 (slice 2 4 input) ≡ n
    → n ≤ 65535
    → n % 4 ≡ 0
    → read_attributes n (drop 20 input) ≡ done attrs
    → fingerprint_misplaced attrs ≡ false
    → parse_message input
      ≡ done (record {
        type = get_u16 (slice 0 2 (take 20 input));
        transaction_id = slice 8 20 (take 20 input);
        attributes = attrs;
        raw = input;
      })
unfolding parse_message
parse_message_when input n attrs len cookie en bound aligned reads last = rw (
  en,
  cookie,
  inside 20 (omega arith),
  inside 8 (omega arith),
  inside 4 (omega arith),
  inside 2 (omega arith),
  inside (20 + n) (omega arith),
  small,
  multiple,
  whole,
  whole_section,
  whole_input,
  reads,
  last,
)
  where
    inside : (j : ℕ) → j ≤ length input → ltb (length input) j ≡ false
    inside j h = ground arith

    small : ltb 65535 n ≡ false
    small = ground arith

    multiple : (n % 4 == 0) ≡ true
    multiple = ground arith

    whole : ltb (length input - 20) n ≡ false
    whole = ground arith

    whole_section : take n (drop 20 input) ≡ drop 20 input
    whole_section = take_all n (drop 20 input) (omega (arith, length-drop 20 input))

    whole_input : take (20 + n) input ≡ input
    whole_input = take_all (20 + n) input len

module _ (m : Message) (v : IsEncodable m) (fits : section_length m.attributes ≤ 65535) where
  length-header : length (header_wire m (section_length m.attributes)) ≡ 20
  unfolding header_wire
  length-header = omega (arith, v.id_length)

  header_section :
      get_u16
        (slice 2 4 (header_wire m (section_length m.attributes) ++ attributes_wire m.attributes))
      ≡ section_length m.attributes
  unfolding header_wire
  header_section = get_u16-put_u16 (section_length m.attributes) (omega arith)

  header_cookie :
      get_u32
        (slice 4 8 (header_wire m (section_length m.attributes) ++ attributes_wire m.attributes))
      ≡ magic_cookie
  unfolding header_wire
  header_cookie = refl

  header_type : get_u16 (slice 0 2 (header_wire m (section_length m.attributes))) ≡ m.type
  unfolding header_wire
  header_type = get_u16-put_u16 m.type v.typed

  header_id : slice 8 20 (header_wire m (section_length m.attributes)) ≡ m.transaction_id
  unfolding header_wire
  header_id = take_all 12 m.transaction_id v.id_length

  parse-wire :
      parse_message (header_wire m (section_length m.attributes) ++ attributes_wire m.attributes)
      ≡ done (record m {
        raw = header_wire m (section_length m.attributes) ++ attributes_wire m.attributes;
      })
  parse-wire =
      let sendable = section-IsSendable m.attributes v.attributes_typed fits in
      let n = section_length m.attributes in
      let header = header_wire m n in
      let body = attributes_wire m.attributes in
      let body_is : drop 20 (header ++ body) ≡ body =
        drop-append_length 20 header body length-header in
      let head_is : take 20 (header ++ body) ≡ header =
        take-append_length 20 header body length-header in
      parse_message_when (header ++ body) n m.attributes
        (omega (
          arith,
          length-append header body,
          length-header,
          length-attributes_wire m.attributes sendable,
        ))
        header_cookie header_section fits (section_aligned m.attributes)
        (rw body_is (read_attributes-wire n m.attributes sendable (omega arith))) v.fingerprint_last
      ∙ rw (head_is, header_type, header_id)

-- A message with a type and attribute types of 16 bits, a transaction of 12 bytes and no
-- FINGERPRINT before its last attribute, if it marshals, parses back from its wire form to itself:
-- the same type, transaction and attributes, with the wire form as its raw bytes.
pub parse-marshal :
    (m : Message) (wire : Bytes)
    → IsEncodable m
    → marshal m ≡ done wire
    → parse_message wire ≡ done (record m { raw = wire })
unfolding marshal
parse-marshal m wire v h = elim (Bool-cases (ltb 65535 (section_length m.attributes))) [
  | inl over ↦ absurd (ground arith)
  | inr fits ↦
      let e : header_wire m (section_length m.attributes) ++ attributes_wire m.attributes ≡ wire =
        ground arith in
      subst (λ w. parse_message w ≡ done (record m { raw = w })) e (parse-wire m v (ground arith))
]
