-- ===== src/Traversal/Stun/Errors.antt =====
-- internal/traversal/stun/message.go: ERROR-CODE and UNKNOWN-ATTRIBUTES.
use mathlib.Core.Path.{ap₂}
use anti_nat.Common.{
  ℕ, ◌+◌, ◌*◌, ◌/◌, ◌%◌, ◌≤◌, ◌<◌, ◌≡◌, refl, not, ◌||◌, List, [], ◌∷◌, ◌++◌, Option, none, some,
  if◌then◌else◌, ◌==◌, ltb, length, drop, byte_at, put_u16, get_u16, get_u16-put_u16, u8, arith,
  All, ℤ, pos, ltb_ℤ, pos_part,
}
use anti_nat.Traversal.Stun.{
  Bytes, Message, Result, ok, err, malformed, code_out_of_range, add, get, count, attr_error_code,
  attr_unknown_attributes, binding_error,
}
use anti_nat.Traversal.Stun.Attributes.{get-add}

unfoldable pub set_error_code : Message → ℤ → Bytes → Result Message
set_error_code m code reason =
    if ltb_ℤ code (pos 300) || ltb_ℤ (pos 699) code
    then err code_out_of_range
    else ok (
        add m attr_error_code
          (0 ∷ 0 ∷ u8 (pos_part code / 100) ∷ u8 (pos_part code % 100) ∷ reason))

abbrev keep : Message → Result Message → Message
keep m (ok m') = m'
keep m (err e) = m

-- The error of SetErrorCode is dropped, and with it the attribute.
unfoldable new_error_response : Bytes → ℤ → Bytes → Message
unfolding set_error_code
new_error_response txid code reason =
    let msg : Message = record {
      type = binding_error;
      transaction_id = txid;
      attributes = [];
      raw = [];
    } in
    keep msg (set_error_code msg code reason)

decode_error_code : Option Bytes → ℕ → Result (ℕ × Bytes)
decode_error_code none n = err malformed
decode_error_code (some value) n =
    let code = byte_at 2 value * 100 + byte_at 3 value in
    if ltb 1 n || ltb (length value) 4
    then err malformed
    else if ltb code 300 || ltb 699 code
    then err malformed
    else ok (code, drop 4 value)

unfoldable pub error_code : Message → Result (ℕ × Bytes)
unfolding decode_error_code
error_code m = decode_error_code (get m attr_error_code) (count m attr_error_code)

unfoldable pub types_wire : List ℕ → Bytes
types_wire [] = []
types_wire (t ∷ ts) = put_u16 t ++ types_wire ts

unfoldable pub add_unknown_attributes : Message → List ℕ → Message
add_unknown_attributes m types = add m attr_unknown_attributes (types_wire types)

unfoldable pub types_of : Bytes → List ℕ
types_of [] = []
types_of (h ∷ []) = []
types_of (h ∷ (l ∷ rest)) = get_u16 (h ∷ l ∷ []) ∷ types_of rest

decode_unknown : Option Bytes → Result (List ℕ)
decode_unknown none = ok []
decode_unknown (some value) =
    if not (length value % 2 == 0) then err malformed else ok (types_of value)

unfoldable pub unknown_attributes : Message → Result (List ℕ)
unfolding decode_unknown
unknown_attributes m = decode_unknown (get m attr_unknown_attributes)

decoded :
    (code : ℕ) (reason : Bytes)
    → 300 ≤ code
    → code ≤ 699
    → decode_error_code (some (0 ∷ 0 ∷ u8 (code / 100) ∷ u8 (code % 100) ∷ reason)) 1
      ≡ ok (code, reason)
unfolding decode_error_code
decoded code reason lo hi = ground arith

-- In a message without an error code, every code from 300 to 699 is read back with its reason after
-- it has been set.
pub error_code_round_trip :
    (m : Message) (code : ℕ) (reason : Bytes)
    → count m attr_error_code ≡ 0
    → 300 ≤ code
    → code ≤ 699
    → (m' : Message) × (set_error_code m (pos code) reason ≡ ok m')
      × (error_code m' ≡ ok (code, reason))
unfolding set_error_code error_code
error_code_round_trip m code reason none_yet lo hi =
    let value = 0 ∷ 0 ∷ u8 (code / 100) ∷ u8 (code % 100) ∷ reason in
    let (found, single) = get-add m attr_error_code value none_yet in
    (add m attr_error_code value, ground arith, rw (found, single) (decoded code reason lo hi))

length-types_wire : (types : List ℕ) → length (types_wire types) % 2 ≡ 0
unfolding types_wire
length-types_wire [] = omega arith
length-types_wire (t ∷ ts) = omega (arith, length-types_wire ts)

types_of-types_wire :
    (types : List ℕ) → All (λ t. t < 65536) types → types_of (types_wire types) ≡ types
unfolding types_of types_wire
types_of-types_wire [] h = refl
types_of-types_wire (t ∷ ts) h = ap₂ ◌∷◌ (get_u16-put_u16 t h.0) (types_of-types_wire ts h.1)

-- In a message without UNKNOWN-ATTRIBUTES, a list of 16-bit types that is added is read back in
-- order.
pub unknown_attributes_round_trip :
    (m : Message) (types : List ℕ)
    → All (λ t. t < 65536) types
    → count m attr_unknown_attributes ≡ 0
    → unknown_attributes (add_unknown_attributes m types) ≡ ok types
unfolding add_unknown_attributes unknown_attributes
unknown_attributes_round_trip m types h none_yet =
    rw
      (
        (get-add m attr_unknown_attributes (types_wire types) none_yet).0,
        length-types_wire types,
        types_of-types_wire types h,
      )
      refl
