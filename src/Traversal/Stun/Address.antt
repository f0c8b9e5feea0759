-- ===== src/Traversal/Stun/Address.antt =====
-- internal/traversal/stun/message.go: XOR-MAPPED-ADDRESS and ALTERNATE-SERVER.
pub mod RoundTrip
use Prim.Native.Nat.{bit_xor}
use anti_nat.Common.{
  ℕ, ◌+◌, Bool, true, false, not, ◌&&◌, List, [], ◌∷◌, ◌++◌, Option, none, some, if◌then◌else◌,
  ◌==◌, ltb, length, slice, byte_at, put_u16, put_u32, get_u16,
}
use anti_nat.Net.Addr.{Addr, invalid, v4, v6, is_4in6}
use anti_nat.Traversal.Stun.{
  Bytes, Message, Result, ok, err, CodecError, malformed, unknown_family, duplicate_address, add,
  get, count, magic_cookie, attr_xor_mapped_address, attr_alternate_server,
}

pub record AddrPort : Type 0 where
  pub addr : Addr
  pub port : ℕ  -- uint16

-- `uint16(MagicCookie >> 16)`.
abbrev pub cookie_port : ℕ
cookie_port = 0x2112

unfoldable pub xor_bytes : Bytes → Bytes → Bytes
xor_bytes [] ks = []
xor_bytes (x ∷ xs) [] = x ∷ xs
xor_bytes (x ∷ xs) (k ∷ ks) = bit_xor x k ∷ xor_bytes xs ks

xor_value_v6 : Bytes → AddrPort → Bytes → Option Bytes
unfolding xor_bytes
xor_value_v6 txid a bs =
    if is_4in6 a.addr
    then none
    else some (
        0
        ∷ 2
        ∷ (put_u16 (bit_xor a.port cookie_port) ++ xor_bytes bs (put_u32 magic_cookie ++ txid)))

xor_value_of : Addr → Bytes → AddrPort → Option Bytes
unfolding xor_value_v6
xor_value_of (v4 x y z w) txid a = some (
    0
    ∷ 1
    ∷ (put_u16 (bit_xor a.port cookie_port)
        ++ bit_xor x 0x21 ∷ bit_xor y 0x12 ∷ bit_xor z 0xA4 ∷ bit_xor w 0x42 ∷ []))
xor_value_of (v6 bs zone) txid a = xor_value_v6 txid a bs
xor_value_of invalid txid a = none

add_value : Message → ℕ → Option Bytes → Result Message
add_value m t none = err unknown_family
add_value m t (some value) = ok (add m t value)

unfoldable pub add_xor_mapped_address : Message → AddrPort → Result Message
unfolding xor_value_of add_value
add_xor_mapped_address m a =
    if ltb 0 (count m attr_xor_mapped_address)
    then err duplicate_address
    else add_value m attr_xor_mapped_address (xor_value_of a.addr m.transaction_id a)

plain_value_of : Addr → AddrPort → Option Bytes
plain_value_of (v4 x y z w) a = some (0 ∷ 1 ∷ (put_u16 a.port ++ x ∷ y ∷ z ∷ w ∷ []))
plain_value_of (v6 bs zone) a =
    if is_4in6 a.addr then none else some (0 ∷ 2 ∷ (put_u16 a.port ++ bs))
plain_value_of invalid a = none

unfoldable pub add_alternate_server : Message → AddrPort → Result Message
unfolding plain_value_of add_value
add_alternate_server m a = add_value m attr_alternate_server (plain_value_of a.addr a)

decode_port : Bytes → Bool → ℕ
decode_port value xor =
    let port = get_u16 (slice 2 4 value) in if xor then bit_xor port cookie_port else port

decode_v4 : Bytes → Bool → Addr
decode_v4 value xor =
    if xor
    then v4 (bit_xor (byte_at 4 value) 0x21) (bit_xor (byte_at 5 value) 0x12)
        (bit_xor (byte_at 6 value) 0xA4) (bit_xor (byte_at 7 value) 0x42)
    else v4 (byte_at 4 value) (byte_at 5 value) (byte_at 6 value) (byte_at 7 value)

decode_v6 : Bytes → Bytes → Bool → Addr
unfolding xor_bytes
decode_v6 value txid xor =
    let bs = slice 4 20 value in
    v6 (if xor then xor_bytes bs (put_u32 magic_cookie ++ txid) else bs) ""

unfoldable pub decode_address_attribute : Bytes → Bytes → Bool → Result AddrPort
unfolding decode_port decode_v4 decode_v6
decode_address_attribute value txid xor =
    let port = decode_port value xor in
    if ltb (length value) 4
    then err malformed
    else if byte_at 1 value == 1
    then (if ltb (length value) 8
        then err malformed
        else ok (record { addr = decode_v4 value xor; port = port }))
    else if byte_at 1 value == 2
    then (if ltb (length value) 20
        then err malformed
        else ok (record { addr = decode_v6 value txid xor; port = port }))
    else err unknown_family

decode_single : Option Bytes → ℕ → Bytes → Bool → Result AddrPort
unfolding decode_address_attribute
decode_single none n txid xor = err unknown_family
decode_single (some value) n txid xor =
    if ltb 1 n then err duplicate_address else decode_address_attribute value txid xor

unfoldable pub xor_mapped_address : Message → Result AddrPort
unfolding decode_single
xor_mapped_address m =
    decode_single (get m attr_xor_mapped_address) (count m attr_xor_mapped_address) m.transaction_id
      true

unfoldable pub alternate_server : Message → Result AddrPort
unfolding decode_single
alternate_server m =
    decode_single (get m attr_alternate_server) (count m attr_alternate_server) m.transaction_id
      false
