-- ===== src/Traversal/Stun.antt =====
-- internal/traversal/stun/message.go: the bounded STUN message codec. The children follow the file:
-- types and attributes here, then the wire, the address attributes, the error attributes and the
-- integrity attributes, and for each what is proved of it.
pub mod Types
pub mod Wire
pub mod Attributes
pub mod Address
pub mod Errors
pub mod Integrity
use anti_nat.Common.{
  ℕ, ◌+◌, ◌-◌, ◌*◌, ◌/◌, ◌%◌, Bool, true, false, not, ◌&&◌, ◌||◌, List, [], ◌∷◌, ◌++◌, Option, none,
  some, if◌then◌else◌, ◌==◌, ltb, leb, length,
}

abbrev pub Bytes : Type 0
Bytes = List ℕ

abbrev pub header_size : ℕ
header_size = 20

abbrev pub max_message_size : ℕ
max_message_size = 65535

abbrev pub magic_cookie : ℕ
magic_cookie = 0x2112A442

pub data CodecError : Type 0 where
  truncated malformed bad_cookie oversize no_integrity no_fingerprint : CodecError
  unknown_family duplicate_address already_present code_out_of_range : CodecError

pub data Result {ℓ} (A : Type ℓ) : Type ℓ where
  ok : A → Result A
  err : CodecError → Result A

pub record Attribute : Type 0 where
  pub type : ℕ  -- uint16
  pub value : Bytes

-- `raw` is empty for a message that was built.
pub record Message : Type 0 where
  pub type : ℕ  -- uint16
  pub transaction_id : Bytes  -- 12 bytes
  pub attributes : List Attribute
  pub raw : Bytes

abbrev attr_mapped_address : ℕ
attr_mapped_address = 0x0001

abbrev pub attr_message_integrity : ℕ
attr_message_integrity = 0x0008

abbrev pub attr_error_code : ℕ
attr_error_code = 0x0009

abbrev pub attr_unknown_attributes : ℕ
attr_unknown_attributes = 0x000A

abbrev pub attr_xor_mapped_address : ℕ
attr_xor_mapped_address = 0x0020

abbrev pub attr_alternate_server : ℕ
attr_alternate_server = 0x0023

abbrev pub attr_fingerprint : ℕ
attr_fingerprint = 0x8028

-- The top bit of the 16-bit type is clear.
abbrev pub comprehension_required : ℕ → Bool
comprehension_required t = ltb (t % 65536) 32768

abbrev pub member : ℕ → List ℕ → Bool
member t [] = false
member t (x ∷ xs) = (t == x) || member t xs

abbrev known_types : List ℕ
known_types =
    0x0001 ∷ 0x0006 ∷ 0x0008 ∷ 0x0009 ∷ 0x000A ∷ 0x0020 ∷ 0x0023 ∷ 0x0024 ∷ 0x8022 ∷ 0x8029 ∷ 0x8028
    ∷ []

unfoldable pub known : ℕ → Bool
known t = member t known_types

abbrev binding_request : ℕ
binding_request = 0x0001

abbrev pub binding_error : ℕ
binding_error = 0x0111

unfoldable new_binding_request : Bytes → Message
new_binding_request txid = record {
  type = binding_request;
  transaction_id = txid;
  attributes = [];
  raw = [];
}

unfoldable pub add : Message → ℕ → Bytes → Message
add m t value = record m { attributes = m.attributes ++ record { type = t; value = value } ∷ [] }

unfoldable pub first_value : List Attribute → ℕ → Option Bytes
first_value [] t = none
first_value (a ∷ rest) t = if a.type == t then some a.value else first_value rest t

unfoldable pub get : Message → ℕ → Option Bytes
unfolding first_value
get m t = first_value m.attributes t

unfoldable pub count_type : List Attribute → ℕ → ℕ
count_type [] t = 0
count_type (a ∷ rest) t = let n = count_type rest t in if a.type == t then n + 1 else n

unfoldable pub count : Message → ℕ → ℕ
unfolding count_type
count m t = count_type m.attributes t

-- The loop over the attributes, with the types already listed.
unfoldable pub unknown_from : List ℕ → List Attribute → List ℕ
unknown_from seen [] = []
unknown_from seen (a ∷ rest) =
    let more = a.type ∷ unknown_from (a.type ∷ seen) rest in
    let skip = unknown_from seen rest in
    if comprehension_required a.type && not (known a.type) && not (member a.type seen)
    then more
    else skip

unfoldable pub unknown_comprehension_required : Message → List ℕ
unfolding unknown_from
unknown_comprehension_required m = unknown_from [] m.attributes

-- `(n + 3) &^ 3`: the next multiple of 4.
abbrev pub pad4 : ℕ → ℕ
pad4 n = (n + 3) / 4 * 4

unfoldable pub section_length : List Attribute → ℕ
section_length [] = 0
section_length (a ∷ rest) = 4 + pad4 (length a.value) + section_length rest
