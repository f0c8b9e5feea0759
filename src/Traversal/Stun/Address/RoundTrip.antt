-- ===== src/Traversal/Stun/Address/RoundTrip.antt =====
-- An address that was added is the one that is read back.
use Prim.Native.Nat.{bit_xor, suc}
use mathlib.Core.Path.{ap₂}
use anti_nat.Common.{
  ℕ, ◌+◌, ◌*◌, ◌/◌, ◌%◌, ◌<◌, ◌≡◌, refl, ◌∙◌, ap, subst, true, false, ◌&&◌, [], ◌∷◌, ◌++◌, ◌==◌,
  ltb, length, arith, AreBytes, put_u16, put_u32, get_u16-put_u16, take_all,
}
use anti_nat.Common.Tables.{xor_byte, holds_below, holds_below-at}
use anti_nat.Net.Addr.{v4, v6, is_4in6, IsV4}
use anti_nat.Traversal.Stun.{
  Bytes, Message, ok, add, count, magic_cookie, attr_xor_mapped_address, attr_alternate_server,
}
use anti_nat.Traversal.Stun.Attributes.{get-add}
use anti_nat.Traversal.Stun.Address.{
  xor_bytes, cookie_port, add_xor_mapped_address, xor_mapped_address, add_alternate_server,
  alternate_server, decode_address_attribute,
}

port_table :
    holds_below 256 (λ h. holds_below 256 (λ l.
      (bit_xor (bit_xor (h * 256 + l) cookie_port) cookie_port == h * 256 + l)
      && ltb (bit_xor (h * 256 + l) cookie_port) 65536))
    ≡ true
unfolding holds_below
port_table = refl

xor_port_pair :
    (h l : ℕ)
    → h < 256
    → l < 256
    → (bit_xor (bit_xor (h * 256 + l) cookie_port) cookie_port ≡ h * 256 + l)
      × (bit_xor (h * 256 + l) cookie_port < 65536)
xor_port_pair h l a b =
    let t = holds_below-at 256 _ l (holds_below-at 256 _ h port_table a) b in ground arith

xor_port :
    (p : ℕ)
    → p < 65536
    → (bit_xor (bit_xor p cookie_port) cookie_port ≡ p) × (bit_xor p cookie_port < 65536)
xor_port p h =
    let e : p / 256 * 256 + p % 256 ≡ p = omega arith in
    subst (λ x. (bit_xor (bit_xor x cookie_port) cookie_port ≡ x) × (bit_xor x cookie_port < 65536))
      e (xor_port_pair (p / 256) (p % 256) (omega arith) (omega arith))

xor_bytes_twice : (xs ks : Bytes) → AreBytes xs → AreBytes ks → xor_bytes (xor_bytes xs ks) ks ≡ xs
unfolding xor_bytes
xor_bytes_twice [] ks hx hk = refl
xor_bytes_twice (x ∷ xs) [] hx hk = refl
xor_bytes_twice (x ∷ xs) (k ∷ ks) hx hk =
    ap₂ ◌∷◌ (xor_byte x k hx.0 hk.0).0 (xor_bytes_twice xs ks hx.1 hk.1)

length-xor_bytes : (xs ks : Bytes) → length (xor_bytes xs ks) ≡ length xs
unfolding xor_bytes
length-xor_bytes [] ks = refl
length-xor_bytes (x ∷ xs) [] = refl
length-xor_bytes (x ∷ xs) (k ∷ ks) = ap suc (length-xor_bytes xs ks)

-- An IPv4 address and a 16-bit port, added as XOR-MAPPED-ADDRESS to a message that has none, are
-- read back as they were.
pub xor_mapped_v4 :
    (m : Message) (a b c d port : ℕ)
    → IsV4 a b c d
    → port < 65536
    → count m attr_xor_mapped_address ≡ 0
    → (m' : Message) × (add_xor_mapped_address m (record { addr = v4 a b c d; port = port })
        ≡ ok m')
      × (xor_mapped_address m' ≡ ok (record { addr = v4 a b c d; port = port }))
unfolding add_xor_mapped_address xor_mapped_address
xor_mapped_v4 m a b c d port h p none_yet =
    let value =
      0
      ∷ 1
      ∷ (put_u16 (bit_xor port cookie_port)
          ++ bit_xor a 0x21 ∷ bit_xor b 0x12 ∷ bit_xor c 0xA4 ∷ bit_xor d 0x42 ∷ []) in
    (
      add m attr_xor_mapped_address value,
      rw none_yet refl,
      rw
          (
            (get-add m attr_xor_mapped_address value none_yet).0,
            (get-add m attr_xor_mapped_address value none_yet).1,
          )
          (rw (
            get_u16-put_u16 _ (xor_port port p).1,
            (xor_port port p).0,
            (xor_byte a 33 h.first (omega arith)).0,
            (xor_byte b 18 h.second (omega arith)).0,
            (xor_byte c 164 h.third (omega arith)).0,
            (xor_byte d 66 h.fourth (omega arith)).0,
          )),
    )

decode_plain_v6 :
    (bs : Bytes) (port : ℕ) (txid : Bytes)
    → length bs ≡ 16
    → port < 65536
    → decode_address_attribute (0 ∷ 2 ∷ (put_u16 port ++ bs)) txid false
      ≡ ok (record { addr = v6 bs ""; port = port })
unfolding decode_address_attribute
decode_plain_v6 bs port txid long p = rw (long, take_all 16 bs long, get_u16-put_u16 port p) refl

decode_xor_v6 :
    (bs : Bytes) (port : ℕ) (txid : Bytes)
    → AreBytes bs
    → AreBytes txid
    → length bs ≡ 16
    → port < 65536
    → decode_address_attribute
        (0
          ∷ 2
          ∷ (put_u16 (bit_xor port cookie_port) ++ xor_bytes bs (put_u32 magic_cookie ++ txid)))
        txid
        true
      ≡ ok (record { addr = v6 bs ""; port = port })
unfolding decode_address_attribute
decode_xor_v6 bs port txid bytes id_bytes long p =
    let key = put_u32 magic_cookie ++ txid in
    let size : length (xor_bytes bs key) ≡ 16 = length-xor_bytes bs key ∙ long in
    let key_bytes : AreBytes key =
      (omega arith, (omega arith, (omega arith, (omega arith, id_bytes)))) in
    rw
      (
        size,
        take_all 16 (xor_bytes bs key) size,
        get_u16-put_u16 _ (xor_port port p).1,
        (xor_port port p).0,
        xor_bytes_twice bs key bytes key_bytes,
      )
      refl

module _ (m : Message) (bs : Bytes) (port : ℕ) where
  -- An IPv6 address of 16 bytes that maps no IPv4 address and a 16-bit port, added as
  -- XOR-MAPPED-ADDRESS to a message that has none and whose transaction is made of bytes, are read
  -- back as they were.
  pub xor_mapped_v6 :
      AreBytes bs
      → length bs ≡ 16
      → AreBytes m.transaction_id
      → is_4in6 (v6 bs "") ≡ false
      → port < 65536
      → count m attr_xor_mapped_address ≡ 0
      → (m' : Message) × (add_xor_mapped_address m (record { addr = v6 bs ""; port = port })
          ≡ ok m')
        × (xor_mapped_address m' ≡ ok (record { addr = v6 bs ""; port = port }))
  unfolding add_xor_mapped_address xor_mapped_address add
  xor_mapped_v6 bytes long id_bytes plain p none_yet =
      let key = put_u32 magic_cookie ++ m.transaction_id in
      let value = 0 ∷ 2 ∷ (put_u16 (bit_xor port cookie_port) ++ xor_bytes bs key) in
      let (found, single) = get-add m attr_xor_mapped_address value none_yet in
      (
        add m attr_xor_mapped_address value,
        rw (none_yet, plain) refl,
        rw (found, single) (decode_xor_v6 bs port m.transaction_id bytes id_bytes long p),
      )

  -- An IPv6 address of 16 bytes that maps no IPv4 address and a 16-bit port, added as
  -- ALTERNATE-SERVER to a message that has none, are read back as they were.
  pub alternate_v6 :
      length bs ≡ 16
      → is_4in6 (v6 bs "") ≡ false
      → port < 65536
      → count m attr_alternate_server ≡ 0
      → (m' : Message) × (add_alternate_server m (record { addr = v6 bs ""; port = port }) ≡ ok m')
        × (alternate_server m' ≡ ok (record { addr = v6 bs ""; port = port }))
  unfolding add_alternate_server alternate_server add
  alternate_v6 long plain p none_yet =
      let value = 0 ∷ 2 ∷ (put_u16 port ++ bs) in
      let (found, single) = get-add m attr_alternate_server value none_yet in
      (
        add m attr_alternate_server value,
        rw plain refl,
        rw (found, single) (decode_plain_v6 bs port m.transaction_id long p),
      )
