-- ===== src/Traversal/Natpmp.antt =====
-- internal/traversal/natpmp/natpmp.go: the NAT-PMP wire codec, with Protocol of client.go.
pub mod Responses
use anti_nat.Common.{
  ℕ, ◌+◌, ◌-◌, ◌/◌, Bool, true, false, not, ◌&&◌, ◌||◌, List, [], ◌∷◌, ◌++◌, if◌then◌else◌, ◌==◌,
  ltb, length, slice, byte_at, put_u16, put_u32, get_u16, get_u32, u8, u32, ℤ, pos, negsuc,
}
use anti_nat.Net.Addr.{Addr, v4}

abbrev pub Bytes : Type 0
Bytes = List ℕ

pub data CodecError : Type 0 where
  unsupported_protocol truncated wrong_version wrong_opcode trailing internal_port : CodecError

pub data Result {ℓ} (A : Type ℓ) : Type ℓ where
  ok : A → Result A
  err : CodecError → Result A

-- Protocol is a byte: 1 for UDP, 2 for TCP.
abbrev pub protocol_valid : ℕ → Bool
protocol_valid p = (p == 1) || (p == 2)

abbrev pub opcode : ℕ → ℕ
opcode p = if p == 1 then 1 else if p == 2 then 2 else 0

pub record MapRequest : Type 0 where
  pub protocol : ℕ
  pub internal_port : ℕ  -- uint16
  pub requested_external_port : ℕ  -- uint16
  pub lifetime : ℤ  -- nanoseconds

-- `uint32(d / time.Second)`: the division truncates towards zero, the conversion wraps.
abbrev lifetime_seconds : ℤ → ℕ
lifetime_seconds (pos n) = u32 (n / 1000000000)
lifetime_seconds (negsuc n) = u32 (4294967296 - u32 ((n + 1) / 1000000000))

unfoldable pub build_map_request : MapRequest → Result Bytes
build_map_request req =
    if not (protocol_valid req.protocol)
    then err unsupported_protocol
    else ok (
        0
        ∷ opcode req.protocol
        ∷ 0
        ∷ 0
        ∷ (put_u16 req.internal_port
            ++ (put_u16 req.requested_external_port ++ put_u32 (lifetime_seconds req.lifetime))))

pub record MapResponse : Type 0 where
  pub result_code : ℕ  -- uint16
  pub epoch : ℕ  -- uint32
  pub internal_port : ℕ  -- uint16
  pub assigned_external_port : ℕ  -- uint16
  pub lifetime_seconds : ℕ  -- uint32

abbrev pub map_fields : Bytes → MapResponse
map_fields packet = record {
  result_code = get_u16 (slice 2 4 packet);
  epoch = get_u32 (slice 4 8 packet);
  internal_port = get_u16 (slice 8 10 packet);
  assigned_external_port = get_u16 (slice 10 12 packet);
  lifetime_seconds = get_u32 (slice 12 16 packet);
}

pub map_checked : Bytes → ℕ → ℕ → MapResponse → Result MapResponse
map_checked packet want_opcode want_internal_port response =
    if ltb (length packet) 16
    then err truncated
    else if not (byte_at 0 packet == 0)
    then err wrong_version
    else if not (byte_at 1 packet == u8 (want_opcode + 128))
    then err wrong_opcode
    else if not (length packet == 16)
    then err trailing
    else if (response.result_code == 0) && not (response.internal_port == want_internal_port)
    then err internal_port
    else ok response

unfoldable pub parse_map_response : Bytes → ℕ → ℕ → Result MapResponse
unfolding map_checked
parse_map_response packet want_opcode want_internal_port =
    map_checked packet want_opcode want_internal_port (map_fields packet)

pub record PublicResponse : Type 0 where
  pub result_code : ℕ  -- uint16
  pub epoch : ℕ  -- uint32
  pub address : Addr

-- `AddrFromSlice` of four bytes is an IPv4 address, so ErrBadPublicAddress is never returned.
unfoldable pub parse_public_response : Bytes → Result PublicResponse
parse_public_response packet =
    if ltb (length packet) 12
    then err truncated
    else if not (byte_at 0 packet == 0)
    then err wrong_version
    else if not (byte_at 1 packet == 128)
    then err wrong_opcode
    else if not (length packet == 12)
    then err trailing
    else ok (record {
      result_code = get_u16 (slice 2 4 packet);
      epoch = get_u32 (slice 4 8 packet);
      address = v4 (byte_at 8 packet) (byte_at 9 packet) (byte_at 10 packet) (byte_at 11 packet);
    })
