-- ===== src/Protocol/Envelope.antt =====
-- internal/protocol/envelope.go: the signed control envelope, its protected header and its parser. An
-- error without a stage of its own is `none`; SHA-256 and Ed25519 are parameters. A Go string is its
-- bytes; an index into the header is what is left of it.
pub mod Header
pub mod Frame
pub mod RoundTrip
use anti_nat.Common.{
  ℕ, zero, suc, ◌+◌, ◌-◌, ◌*◌, Bool, true, false, not, ◌&&◌, ◌||◌, List, [], ◌∷◌, ◌++◌, Option,
  none, some, if◌then◌else◌, ◌==◌, ltb, length, take, drop, slice, byte_at, bytes_eq, put_u32,
  get_u32, put_u64, get_u64, u32, u64,
}
use anti_nat.Security.Framecrypto.{
  Bytes, sign_envelope, verify_envelope, public_key_size, private_key_size, signature_size,
}
use anti_nat.Protocol.Fields.{part}

-- "AntiNAT-Control-v1".
abbrev pub protocol_domain : Bytes
protocol_domain =
    65 ∷ 110 ∷ 116 ∷ 105 ∷ 78 ∷ 65 ∷ 84 ∷ 45 ∷ 67 ∷ 111 ∷ 110 ∷ 116 ∷ 114 ∷ 111 ∷ 108 ∷ 45 ∷ 118
    ∷ 49 ∷ []

-- "ANAT".
abbrev pub envelope_magic : Bytes
envelope_magic = 65 ∷ 78 ∷ 65 ∷ 84 ∷ []

abbrev pub wire_version : ℕ
wire_version = 1

abbrev pub max_header_bytes : ℕ
max_header_bytes = 4096

abbrev pub max_payload_bytes : ℕ
max_payload_bytes = 65536

abbrev pub direction_c2a : ℕ
direction_c2a = 1

abbrev pub direction_a2c : ℕ
direction_a2c = 2

abbrev pub max_header_string_field : ℕ
max_header_string_field = 255

abbrev pub envelope_sig_len : ℕ
envelope_sig_len = signature_size

abbrev pub envelope_header_field_count : ℕ
envelope_header_field_count = 14

-- The stages that reject; a payload's JSON is decoded elsewhere.
pub data Stage : Type 0 where
  stage_framing stage_header stage_consistency stage_signature : Stage

pub record ProtectedHeader : Type 0 where
  pub domain : Bytes
  pub controller_instance_id : Bytes
  pub node_id : Bytes
  pub controller_key_id : Bytes
  pub agent_credential_ver : ℕ  -- uint32
  pub connection_epoch : ℕ  -- uint64
  pub session_id : Bytes
  pub direction : ℕ  -- byte
  pub sequence : ℕ  -- uint64
  pub message_id : Bytes
  pub message_type : Bytes
  pub schema_version : ℕ  -- uint32
  pub payload_length : ℕ  -- uint64
  pub payload_sha256 : Bytes

pub record Envelope : Type 0 where
  pub header_len : ℕ
  pub payload_len : ℕ
  pub header : ProtectedHeader
  pub header_bytes : Bytes
  pub payload : Bytes
  pub signature : Bytes

abbrev out_of_range : Bytes → Bool
out_of_range s = (length s == 0) || ltb max_header_string_field (length s)

-- Whether validateHeaderStringFields returns nil.
abbrev pub header_strings_valid : ProtectedHeader → Bool
header_strings_valid h =
    not
      (out_of_range h.controller_key_id || out_of_range h.session_id || out_of_range h.message_type)

abbrev pub header_fields : ProtectedHeader → List Bytes
header_fields h =
    h.domain
    ∷ h.controller_instance_id
    ∷ h.node_id
    ∷ h.controller_key_id
    ∷ put_u32 h.agent_credential_ver
    ∷ put_u64 h.connection_epoch
    ∷ h.session_id
    ∷ (h.direction ∷ [])
    ∷ put_u64 h.sequence
    ∷ h.message_id
    ∷ h.message_type
    ∷ put_u32 h.schema_version
    ∷ put_u64 h.payload_length
    ∷ h.payload_sha256
    ∷ []

abbrev pub append_some : Bytes → Option Bytes → Option Bytes
append_some b none = none
append_some b (some rest) = some (b ++ rest)

unfoldable pub put_fields : List Bytes → Option Bytes
put_fields [] = some []
put_fields (f ∷ fields) =
    let rest = put_fields fields in
    if ltb 4294967295 (length f) then none else append_some (put_u32 (length f) ++ f) rest

unfoldable pub encode_protected_header : ProtectedHeader → Option Bytes
encode_protected_header h =
    if not (header_strings_valid h) then none else put_fields (header_fields h)

-- The next field, and what is left after it.
unfoldable pub next_field : Bytes → Option (Bytes × Bytes)
next_field b =
    let l = get_u32 b in
    let rest = drop 4 b in
    if ltb (length b) 4
    then none
    else if ltb (length rest) l
    then none
    else some (take l rest, drop l rest)

abbrev pub cons_part : Bytes → Option (List Bytes × Bytes) → Option (List Bytes × Bytes)
cons_part f none = none
cons_part f (some (parts, rest)) = some (f ∷ parts, rest)

abbrev pub parts_after :
    (Bytes → Option (List Bytes × Bytes)) → Option (Bytes × Bytes) → Option (List Bytes × Bytes)
parts_after more none = none
parts_after more (some (f, rest)) = cons_part f (more rest)

unfoldable pub next_parts : ℕ → Bytes → Option (List Bytes × Bytes)
next_parts zero b = some ([], b)
next_parts (suc n) b = parts_after (next_parts n) (next_field b)

abbrev pub header_of : List Bytes → ProtectedHeader
header_of parts = record {
  domain = part 0 parts;
  controller_instance_id = part 1 parts;
  node_id = part 2 parts;
  controller_key_id = part 3 parts;
  agent_credential_ver = get_u32 (part 4 parts);
  connection_epoch = get_u64 (part 5 parts);
  session_id = part 6 parts;
  direction = byte_at 0 (part 7 parts);
  sequence = get_u64 (part 8 parts);
  message_id = part 9 parts;
  message_type = part 10 parts;
  schema_version = get_u32 (part 11 parts);
  payload_length = get_u64 (part 12 parts);
  payload_sha256 = part 13 parts;
}

abbrev pub header_widths : List Bytes → Bool
header_widths parts =
    (length (part 1 parts) == 16)
    && (length (part 2 parts) == 16)
    && (length (part 4 parts) == 4)
    && (length (part 5 parts) == 8)
    && (length (part 7 parts) == 1)
    && (length (part 8 parts) == 8)
    && (length (part 9 parts) == 16)
    && (length (part 11 parts) == 4)
    && (length (part 12 parts) == 8)
    && (length (part 13 parts) == 32)

abbrev pub header_checked : Option (List Bytes × Bytes) → Option ProtectedHeader
header_checked none = none
header_checked (some (parts, rest)) =
    if not (length rest == 0)
    then none
    else if not (header_widths parts)
    then none
    else if not (header_strings_valid (header_of parts))
    then none
    else some (header_of parts)

unfoldable pub decode_protected_header : Bytes → Option ProtectedHeader
decode_protected_header b = header_checked (next_parts envelope_header_field_count b)

pub data Parsed : Type 0 where
  accepted : Envelope → Parsed
  rejected : Stage → Parsed

abbrev pub assemble : Bytes → Bytes → Bytes → Bytes
assemble header_bytes payload sig =
    envelope_magic
    ++ (wire_version
        ∷ (put_u32 (u32 (length header_bytes))
            ++ (put_u32 (u32 (length payload)) ++ (header_bytes ++ (payload ++ sig)))))

abbrev assemble_signed : Bytes → Bytes → Option Bytes → Option Bytes
assemble_signed header_bytes payload none = none
assemble_signed header_bytes payload (some sig) = some (assemble header_bytes payload sig)

module _ (sha256 : Bytes → Bytes) where
  -- The header with the payload's length and digest filled in.
  abbrev pub filled : ProtectedHeader → Bytes → ProtectedHeader
  filled h payload = record h {
    payload_length = u64 (length payload);
    payload_sha256 = sha256 payload;
  }

  module _ (ed_sign : Bytes → Bytes → Bytes) where
    abbrev pub build_encoded : Bytes → ProtectedHeader → Bytes → Option Bytes → Option Bytes
    build_encoded priv h payload none = none
    build_encoded priv h payload (some header_bytes) =
        if ltb max_header_bytes (length header_bytes)
        then none
        else if ltb max_payload_bytes (length payload)
        then none
        else if not (length priv == private_key_size)
        then none
        else assemble_signed header_bytes payload
            (sign_envelope ed_sign priv h.domain header_bytes h.payload_sha256)

    unfoldable pub build_envelope : Bytes → ProtectedHeader → Bytes → Option Bytes
    build_envelope priv h payload =
        build_encoded priv (filled h payload) payload (encode_protected_header (filled h payload))

  module _ (ed_verify : Bytes → Bytes → Bytes → Bool) where
    -- After the framing: the header is decoded, then checked against the frame and the key.
    abbrev pub parse_decoded :
        Bytes → ℕ → ℕ → Bytes → Bytes → Bytes → Option ProtectedHeader → Parsed
    parse_decoded peer header_len payload_len header_bytes payload sig none = rejected stage_header
    parse_decoded peer header_len payload_len header_bytes payload sig (some h) =
        if not (bytes_eq h.domain protocol_domain)
        then rejected stage_consistency
        else if not (h.payload_length == payload_len)
        then rejected stage_consistency
        else if not (bytes_eq (sha256 payload) h.payload_sha256)
        then rejected stage_consistency
        else if not (h.direction == direction_c2a) && not (h.direction == direction_a2c)
        then rejected stage_consistency
        else if h.agent_credential_ver == 0
        then rejected stage_consistency
        else if not (length peer == public_key_size)
        then rejected stage_consistency
        else if not (verify_envelope ed_verify peer h.domain header_bytes h.payload_sha256 sig)
        then rejected stage_signature
        else accepted (record {
          header_len = header_len;
          payload_len = payload_len;
          header = h;
          header_bytes = header_bytes;
          payload = payload;
          signature = sig;
        })

    unfoldable pub parse_envelope : Bytes → Bytes → Parsed
    parse_envelope frame peer =
        let header_len = get_u32 (slice 5 9 frame) in
        let payload_len = get_u32 (slice 9 13 frame) in
        let header_bytes = slice 13 (13 + header_len) frame in
        let payload = slice (13 + header_len) (13 + header_len + payload_len) frame in
        let sig = drop (13 + header_len + payload_len) frame in
        if ltb (length frame) (13 + envelope_sig_len)
        then rejected stage_framing
        else if not (bytes_eq (slice 0 4 frame) envelope_magic)
        then rejected stage_framing
        else if not (byte_at 4 frame == wire_version)
        then rejected stage_framing
        else if (header_len == 0) || ltb max_header_bytes header_len
        then rejected stage_framing
        else if ltb max_payload_bytes payload_len
        then rejected stage_framing
        else if not (length frame == 13 + header_len + payload_len + envelope_sig_len)
        then rejected stage_framing
        else parse_decoded peer header_len payload_len header_bytes payload sig
            (decode_protected_header header_bytes)
