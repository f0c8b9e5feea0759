-- ===== src/Security/Session.antt =====
-- internal/security/challenge.go: the three messages of the session handshake, their canonical bytes
-- and their parsers. Strings are bytes; SHA-256 and Ed25519 are parameters.
pub mod Authentic
use anti_nat.Common.{
  ℕ, zero, suc, ◌+◌, ◌-◌, ◌*◌, Bool, true, false, not, ◌||◌, List, [], ◌∷◌, ◌++◌, Option,
  if◌then◌else◌, ◌==◌, ltb, length, take, drop, u32, put_u32, get_u32, put_u64, get_u64,
}
use anti_nat.Security.Framecrypto.{Bytes, sign, verify}
use anti_nat.Protocol.Fields.{part}

-- "AntiNAT-Session-v1".
abbrev pub session_domain : Bytes
session_domain =
    65 ∷ 110 ∷ 116 ∷ 105 ∷ 78 ∷ 65 ∷ 84 ∷ 45 ∷ 83 ∷ 101 ∷ 115 ∷ 115 ∷ 105 ∷ 111 ∷ 110 ∷ 45 ∷ 118
    ∷ 49 ∷ []

abbrev session_nonce_size : ℕ
session_nonce_size = 32

abbrev session_id_max : ℕ
session_id_max = 255

abbrev session_id_size : ℕ
session_id_size = 16

abbrev pub session_hello_max : ℕ
session_hello_max =
    7 * 4 + session_id_size + session_id_size + 4 + 32 + session_nonce_size + 8 + 1 + 64

abbrev pub session_welcome_max : ℕ
session_welcome_max =
    8 * 4
    + session_id_size
    + session_id_max
    + session_id_size
    + session_nonce_size
    + session_nonce_size
    + 8
    + session_id_max
    + 8
    + 64

abbrev pub session_final_max : ℕ
session_final_max =
    5 * 4 + session_id_size + session_id_size + session_nonce_size + 8 + session_id_max + 64

pub data SessionError : Type 0 where
  too_large too_short empty_fields truncated_prefix length_exceeds trailing_bytes : SessionError
  malformed zero_version empty_id bad_signature : SessionError

pub data Reading {ℓ} (A : Type ℓ) : Type ℓ where
  ok : A → Reading A
  err : SessionError → Reading A

unfoldable pub session_encode : List Bytes → Bytes
session_encode [] = []
session_encode (f ∷ fields) = put_u32 (u32 (length f)) ++ (f ++ session_encode fields)

abbrev pub cons_read : Bytes → Reading (List Bytes) → Reading (List Bytes)
cons_read f (err e) = err e
cons_read f (ok parts) = ok (f ∷ parts)

unfoldable pub read_fields : ℕ → Bytes → Reading (List Bytes)
read_fields zero b = if not (length b == 0) then err trailing_bytes else ok []
read_fields (suc count) b =
    let l = get_u32 b in
    let rest = drop 4 b in
    let later = read_fields count (drop l rest) in
    if ltb (length b) 4
    then err truncated_prefix
    else if ltb (length rest) l
    then err length_exceeds
    else cons_read (take l rest) later

unfoldable pub split_fields : Bytes → Reading (Bytes × Bytes)
split_fields raw =
    let n = length raw - 64 in
    if ltb (length raw) 64
    then err too_short
    else if length (take n raw) == 0
    then err empty_fields
    else ok (take n raw, drop n raw)

-- What the parsers begin with: the size, the signature cut off, and the parts.
module _ {ℓ} {M : Type ℓ} (limit count : ℕ) (check : Bytes → List Bytes → Reading M) where
  abbrev pub with_parts : Bytes → Reading (List Bytes) → Reading M
  with_parts sig (err e) = err e
  with_parts sig (ok parts) = check sig parts

  abbrev pub with_split : Reading (Bytes × Bytes) → Reading M
  with_split (err e) = err e
  with_split (ok (fields, sig)) = with_parts sig (read_fields count fields)

  abbrev pub open_message : Bytes → Reading M
  open_message raw = if ltb limit (length raw) then err too_large else with_split (split_fields raw)

pub record SessionHello : Type 0 where
  pub controller_instance_id : Bytes
  pub node_id : Bytes
  pub agent_credential_ver : ℕ  -- uint32
  pub agent_public_key : Bytes
  pub agent_nonce : Bytes
  pub agent_max_epoch : ℕ  -- uint64
  pub protocol_versions : Bytes

abbrev pub hello_fields : SessionHello → List Bytes
hello_fields h =
    h.controller_instance_id
    ∷ h.node_id
    ∷ put_u32 h.agent_credential_ver
    ∷ h.agent_public_key
    ∷ h.agent_nonce
    ∷ put_u64 h.agent_max_epoch
    ∷ h.protocol_versions
    ∷ []

abbrev pub hello_canonical : SessionHello → Bytes
hello_canonical h = session_encode (hello_fields h)

abbrev pub hello_of : List Bytes → SessionHello
hello_of parts = record {
  controller_instance_id = part 0 parts;
  node_id = part 1 parts;
  agent_credential_ver = get_u32 (part 2 parts);
  agent_public_key = part 3 parts;
  agent_nonce = part 4 parts;
  agent_max_epoch = get_u64 (part 5 parts);
  protocol_versions = part 6 parts;
}

abbrev pub hello_widths : List Bytes → Bool
hello_widths parts =
    not (length (part 0 parts) == 16)
    || not (length (part 1 parts) == 16)
    || not (length (part 2 parts) == 4)
    || not (length (part 3 parts) == 32)
    || not (length (part 4 parts) == session_nonce_size)
    || not (length (part 5 parts) == 8)

pub record SessionWelcome : Type 0 where
  pub controller_instance_id : Bytes
  pub controller_key_id : Bytes
  pub node_id : Bytes
  pub agent_nonce : Bytes
  pub server_nonce : Bytes
  pub connection_epoch : ℕ  -- uint64
  pub session_id : Bytes
  pub expiry_unix : ℕ  -- uint64

abbrev pub welcome_fields : SessionWelcome → List Bytes
welcome_fields w =
    w.controller_instance_id
    ∷ w.controller_key_id
    ∷ w.node_id
    ∷ w.agent_nonce
    ∷ w.server_nonce
    ∷ put_u64 w.connection_epoch
    ∷ w.session_id
    ∷ put_u64 w.expiry_unix
    ∷ []

abbrev pub welcome_canonical : SessionWelcome → Bytes
welcome_canonical w = session_encode (welcome_fields w)

abbrev pub welcome_of : List Bytes → SessionWelcome
welcome_of parts = record {
  controller_instance_id = part 0 parts;
  controller_key_id = part 1 parts;
  node_id = part 2 parts;
  agent_nonce = part 3 parts;
  server_nonce = part 4 parts;
  connection_epoch = get_u64 (part 5 parts);
  session_id = part 6 parts;
  expiry_unix = get_u64 (part 7 parts);
}

abbrev pub welcome_widths : List Bytes → Bool
welcome_widths parts =
    not (length (part 0 parts) == 16)
    || not (length (part 2 parts) == 16)
    || not (length (part 3 parts) == session_nonce_size)
    || not (length (part 4 parts) == session_nonce_size)
    || not (length (part 5 parts) == 8)
    || not (length (part 7 parts) == 8)

pub record SessionFinal : Type 0 where
  pub controller_instance_id : Bytes
  pub node_id : Bytes
  pub server_nonce : Bytes
  pub connection_epoch : ℕ  -- uint64
  pub session_id : Bytes

abbrev pub final_fields : SessionFinal → List Bytes
final_fields f =
    f.controller_instance_id
    ∷ f.node_id
    ∷ f.server_nonce
    ∷ put_u64 f.connection_epoch
    ∷ f.session_id
    ∷ []

abbrev pub final_canonical : SessionFinal → Bytes
final_canonical f = session_encode (final_fields f)

abbrev pub final_of : List Bytes → SessionFinal
final_of parts = record {
  controller_instance_id = part 0 parts;
  node_id = part 1 parts;
  server_nonce = part 2 parts;
  connection_epoch = get_u64 (part 3 parts);
  session_id = part 4 parts;
}

abbrev pub final_widths : List Bytes → Bool
final_widths parts =
    not (length (part 0 parts) == 16)
    || not (length (part 1 parts) == 16)
    || not (length (part 2 parts) == session_nonce_size)
    || not (length (part 3 parts) == 8)

module _ (ed_sign : Bytes → Bytes → Bytes) where
  abbrev pub session_sign : Bytes → Bytes → Bytes → Option Bytes
  session_sign priv domain fields = sign ed_sign priv (domain ++ fields)

  abbrev pub sign_hello : Bytes → SessionHello → Option Bytes
  sign_hello priv h = session_sign priv session_domain (hello_canonical h)

  abbrev pub sign_welcome : Bytes → SessionWelcome → Option Bytes
  sign_welcome priv w = session_sign priv session_domain (welcome_canonical w)

  abbrev pub sign_final : Bytes → SessionFinal → Option Bytes
  sign_final priv f = session_sign priv session_domain (final_canonical f)

module _ (ed_verify : Bytes → Bytes → Bytes → Bool) where
  abbrev pub session_verify : Bytes → Bytes → Bytes → Bytes → Bool
  session_verify key domain fields sig = verify ed_verify key (domain ++ fields) sig

  abbrev pub hello_checked : Bytes → List Bytes → Reading SessionHello
  hello_checked sig parts =
      let h = hello_of parts in
      if hello_widths parts
      then err malformed
      else if h.agent_credential_ver == 0
      then err zero_version
      else if not (session_verify h.agent_public_key session_domain (hello_canonical h) sig)
      then err bad_signature
      else ok h

  unfoldable pub parse_session_hello : Bytes → Reading SessionHello
  parse_session_hello raw = open_message session_hello_max 7 hello_checked raw

  abbrev pub welcome_checked : Bytes → Bytes → List Bytes → Reading SessionWelcome
  welcome_checked controller_pub sig parts =
      let w = welcome_of parts in
      if welcome_widths parts
      then err malformed
      else if (length w.controller_key_id == 0) || (length w.session_id == 0)
      then err empty_id
      else if not (session_verify controller_pub session_domain (welcome_canonical w) sig)
      then err bad_signature
      else ok w

  unfoldable pub parse_session_welcome : Bytes → Bytes → Reading SessionWelcome
  parse_session_welcome raw controller_pub =
      open_message session_welcome_max 8 (welcome_checked controller_pub) raw

  abbrev pub final_checked : Bytes → Bytes → List Bytes → Reading SessionFinal
  final_checked agent_pub sig parts =
      let f = final_of parts in
      if final_widths parts
      then err malformed
      else if length f.session_id == 0
      then err empty_id
      else if not (session_verify agent_pub session_domain (final_canonical f) sig)
      then err bad_signature
      else ok f

  unfoldable pub parse_session_final : Bytes → Bytes → Reading SessionFinal
  parse_session_final raw agent_pub = open_message session_final_max 5 (final_checked agent_pub) raw
