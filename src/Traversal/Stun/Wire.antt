-- ===== src/Traversal/Stun/Wire.antt =====
-- internal/traversal/stun/message.go: ParseMessage and Marshal. A write into a zeroed buffer at a
-- running offset is the concatenation of what is written. A slice expression of ParseMessage whose
-- bound lies past the length is a panic, which the model keeps apart from an error; Go would allow
-- some of them up to the capacity.
pub mod Total
pub mod RoundTrip
use anti_nat.Common.{
  ℕ, zero, suc, ◌+◌, ◌-◌, ◌%◌, Bool, true, false, not, ◌&&◌, List, [], ◌∷◌, ◌++◌, if◌then◌else◌,
  ◌==◌, ltb, length, take, drop, slice, replicate, put_u16, put_u32, get_u16, get_u32, u16,
}
use anti_nat.Traversal.Stun.{
  Bytes, Attribute, Message, CodecError, truncated, malformed, bad_cookie, oversize, header_size,
  max_message_size, magic_cookie, attr_fingerprint, count_type, pad4, section_length,
}

pub data Outcome {ℓ} (A : Type ℓ) : Type ℓ where
  done : A → Outcome A
  error : CodecError → Outcome A
  panic : Outcome A
  out_of_fuel : Outcome A

abbrev cons_attribute : Attribute → Outcome (List Attribute) → Outcome (List Attribute)
cons_attribute a (done rest) = done (a ∷ rest)
cons_attribute a (error e) = error e
cons_attribute a panic = panic
cons_attribute a out_of_fuel = out_of_fuel

-- `b[i:j]`, or a conversion to an array that ends at `j`, and what is computed from it.
abbrev pub in_range {ℓ} : {A : Type ℓ} → ℕ → Bytes → Outcome A → Outcome A
in_range j b computed = if ltb (length b) j then panic else computed

-- One round of the loop, with the rest of the loop after it as `later`.
read_attribute : Bytes → (Bytes → Outcome (List Attribute)) → Outcome (List Attribute)
read_attribute rest later =
    let attr_type = get_u16 (slice 0 2 rest) in
    let attr_len = get_u16 (slice 2 4 rest) in
    if ltb (length rest) 4
    then error malformed
    else in_range 2 rest (
        in_range 4 rest (
          if ltb (length rest - 4) attr_len
          then error truncated
          else in_range (4 + attr_len) rest (
              in_range (pad4 (4 + attr_len)) rest (
                cons_attribute (record { type = attr_type; value = slice 4 (4 + attr_len) rest })
                  (later (drop (pad4 (4 + attr_len)) rest))))))

unfoldable pub read_attributes : ℕ → Bytes → Outcome (List Attribute)
unfolding read_attribute
read_attributes fuel [] = done []
read_attributes zero (b ∷ rest) = out_of_fuel
read_attributes (suc fuel) (b ∷ rest) = read_attribute (b ∷ rest) (read_attributes fuel)

abbrev pub last_type : ℕ → List Attribute → ℕ
last_type t [] = t
last_type t (a ∷ rest) = last_type a.type rest

-- The test that FINGERPRINT comes last.
unfoldable pub fingerprint_misplaced : List Attribute → Bool
fingerprint_misplaced attrs =
    ltb 0 (count_type attrs attr_fingerprint) && not (last_type 0 attrs == attr_fingerprint)

finish_parse : Bytes → Bytes → Outcome (List Attribute) → Outcome Message
finish_parse header raw (done attrs) =
    if fingerprint_misplaced attrs
    then error malformed
    else done (record {
      type = get_u16 (slice 0 2 header);
      transaction_id = slice 8 20 header;
      attributes = attrs;
      raw = raw;
    })
finish_parse header raw (error e) = error e
finish_parse header raw panic = panic
finish_parse header raw out_of_fuel = out_of_fuel

unfoldable pub parse_message : Bytes → Outcome Message
unfolding finish_parse
parse_message input =
    let declared = get_u16 (slice 2 4 input) in
    if ltb (length input) header_size
    then error truncated
    else in_range 8 input (
        if not (get_u32 (slice 4 8 input) == magic_cookie)
        then error bad_cookie
        else in_range 4 input (
            if ltb max_message_size declared
            then error oversize
            else if not (declared % 4 == 0)
            then error malformed
            else if ltb (length input - header_size) declared
            then error truncated
            else in_range 2 input (
                in_range 20 input (
                  in_range (header_size + declared) input (
                    finish_parse (take header_size input) (take (header_size + declared) input)
                      (read_attributes declared (take declared (drop header_size input))))))))

unfoldable pub attribute_wire : Attribute → Bytes
attribute_wire a =
    put_u16 a.type
    ++ (put_u16 (length a.value)
        ++ (a.value ++ replicate (pad4 (length a.value) - length a.value) 0))

unfoldable pub attributes_wire : List Attribute → Bytes
unfolding attribute_wire
attributes_wire [] = []
attributes_wire (a ∷ rest) = attribute_wire a ++ attributes_wire rest

-- The header with a given value of its length field.
unfoldable pub header_wire : Message → ℕ → Bytes
header_wire m section =
    put_u16 m.type ++ (put_u16 section ++ (put_u32 magic_cookie ++ m.transaction_id))

unfoldable pub marshal : Message → Outcome Bytes
unfolding header_wire attributes_wire
marshal m =
    let section = section_length m.attributes in
    if ltb max_message_size section
    then error oversize
    else done (header_wire m section ++ attributes_wire m.attributes)
