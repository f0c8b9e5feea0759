-- ===== src/Protocol/Enrollment.antt =====
-- internal/protocol/enrollment.go: the three messages of the enrollment transcript, their canonical
-- bytes and their parsers. A Go string is its bytes; a fixed-size array is a byte list, and the copy
-- of a part into it is that part, since the parsers check the width first. An index into the bytes is
-- what is left of them. What Go panics at, an index, a slice or a big-endian read past an end, is
-- `panic_if` before it is computed. Ed25519 is a parameter.
pub mod Codec
pub mod Opening
pub mod Challenge
pub mod Request
pub mod ResultMessage
pub mod Total
use anti_nat.Common.{
  ℕ, zero, suc, ◌+◌, ◌-◌, ◌*◌, Bool, true, false, not, ◌&&◌, ◌||◌, List, [], ◌∷◌, ◌++◌,
  if◌then◌else◌, ◌==◌, ltb, length, take, drop, bytes_eq, put_u32, get_u32, put_u64, get_u64,
}
use anti_nat.Security.Framecrypto.{
  Bytes, verify, domain_separated_message, public_key_size, signature_size,
}
use anti_nat.Protocol.Fields.{part}

-- "AntiNAT-Enroll-v1".
abbrev pub enroll_domain : Bytes
enroll_domain =
    65 ∷ 110 ∷ 116 ∷ 105 ∷ 78 ∷ 65 ∷ 84 ∷ 45 ∷ 69 ∷ 110 ∷ 114 ∷ 111 ∷ 108 ∷ 108 ∷ 45 ∷ 118 ∷ 49 ∷ []

-- "1".
abbrev pub enroll_version : Bytes
enroll_version = 49 ∷ []

abbrev pub max_token_bytes : ℕ
max_token_bytes = 256

abbrev pub enroll_nonce_size : ℕ
enroll_nonce_size = 32

abbrev pub enroll_key_size : ℕ
enroll_key_size = public_key_size

abbrev pub enroll_hash_size : ℕ
enroll_hash_size = 32

abbrev pub enroll_id_size : ℕ
enroll_id_size = 16

abbrev pub enroll_sig_len : ℕ
enroll_sig_len = signature_size

abbrev pub enroll_challenge_max : ℕ
enroll_challenge_max =
    6 * 4 + enroll_id_size + 255 + enroll_id_size + enroll_nonce_size + 1 + 8 + enroll_sig_len

abbrev pub enroll_request_max : ℕ
enroll_request_max =
    6 * 4
    + enroll_hash_size
    + enroll_nonce_size
    + enroll_key_size
    + 4
    + max_token_bytes
    + enroll_hash_size
    + enroll_sig_len

abbrev pub enroll_result_max : ℕ
enroll_result_max =
    7 * 4
    + enroll_id_size
    + 255
    + enroll_id_size
    + enroll_hash_size
    + 4
    + enroll_id_size
    + 8
    + enroll_sig_len

pub data EnrollError : Type 0 where
  bad_signature bad_challenge malformed : EnrollError

-- A call returns a value, returns an error, or panics.
pub data Outcome {ℓ} (A : Type ℓ) : Type ℓ where
  ok : A → Outcome A
  err : EnrollError → Outcome A
  panic : Outcome A

-- A step and what follows it; a panic unwinds past everything.
infixl 5 ◌>>=◌
abbrev pub ◌>>=◌ {ℓ₁ ℓ₂} : {X : Type ℓ₁} {Y : Type ℓ₂} → Outcome X → (X → Outcome Y) → Outcome Y
panic >>= next = panic
err reason >>= next = err reason
ok value >>= next = next value

infixl 5 ◌>>◌
abbrev pub ◌>>◌ {ℓ₂} : {Y : Type ℓ₂} → Outcome (Unit {0}) → Outcome Y → Outcome Y
check >> next = check >>= λ passed. next

-- `if bad { return err }`.
abbrev pub reject_if : Bool → EnrollError → Outcome (Unit {0})
reject_if true e = err e
reject_if false e = ok tt

-- An index, a slice bound or a big-endian read past the end.
abbrev pub panic_if : Bool → Outcome (Unit {0})
panic_if true = panic
panic_if false = ok tt

unfoldable pub enroll_encode : List Bytes → Outcome Bytes
enroll_encode [] = ok []
enroll_encode (f ∷ fields) =
    if ltb 4294967295 (length f)
    then panic
    else do rest ← enroll_encode fields; ok (put_u32 (length f) ++ (f ++ rest))

abbrev enroll_u32 : ℕ → Bytes
enroll_u32 v = put_u32 v

abbrev enroll_u64 : ℕ → Bytes
enroll_u64 v = put_u64 v

abbrev enroll_signature_input : Bytes → Bytes → Bytes
enroll_signature_input domain fields = domain_separated_message domain fields

unfoldable pub enroll_read_fields : ℕ → Bytes → Outcome (List Bytes)
enroll_read_fields zero b = if not (length b == 0) then err malformed else ok []
enroll_read_fields (suc count) b =
    let l = get_u32 b in
    let rest = drop 4 b in
    let later = enroll_read_fields count (drop l rest) in
    if ltb (length b) 4
    then err malformed
    else panic_if (ltb (length b) 4)
      >> (if ltb (length rest) l
          then err malformed
          else panic_if (ltb (length rest) l) >> (later >>= λ parts. ok (take l rest ∷ parts)))

-- The fields and the signature.
unfoldable pub enroll_split : Bytes → Outcome (Bytes × Bytes)
enroll_split raw =
    let n = length raw - enroll_sig_len in
    if ltb (length raw) enroll_sig_len
    then err malformed
    else panic_if (ltb (length raw) enroll_sig_len)
      >> (if length (take n raw) == 0 then err malformed else ok (take n raw, drop n raw))

pub record EnrollChallenge : Type 0 where
  pub controller_instance_id : Bytes
  pub controller_key_id : Bytes
  pub node_id : Bytes
  pub server_nonce : Bytes
  pub protocol_versions : Bytes
  pub expiry_unix : ℕ  -- uint64

abbrev pub challenge_fields : EnrollChallenge → List Bytes
challenge_fields c =
    c.controller_instance_id
    ∷ c.controller_key_id
    ∷ c.node_id
    ∷ c.server_nonce
    ∷ c.protocol_versions
    ∷ enroll_u64 c.expiry_unix
    ∷ []

abbrev pub challenge_canonical : EnrollChallenge → Outcome Bytes
challenge_canonical c = enroll_encode (challenge_fields c)

abbrev pub challenge_signing_bytes : EnrollChallenge → Outcome Bytes
challenge_signing_bytes c = do
  canonical ← challenge_canonical c
  ok (enroll_signature_input enroll_domain canonical)

abbrev pub challenge_of : List Bytes → EnrollChallenge
challenge_of parts = record {
  controller_instance_id = part 0 parts;
  controller_key_id = part 1 parts;
  node_id = part 2 parts;
  server_nonce = part 3 parts;
  protocol_versions = part 4 parts;
  expiry_unix = get_u64 (part 5 parts);
}

abbrev pub challenge_widths : List Bytes → Bool
challenge_widths parts =
    not (length (part 0 parts) == enroll_id_size)
    || not (length (part 2 parts) == enroll_id_size)
    || not (length (part 3 parts) == enroll_nonce_size)
    || not (length (part 5 parts) == 8)

pub record EnrollRequest : Type 0 where
  pub challenge_hash : Bytes
  pub agent_nonce : Bytes
  pub agent_public_key : Bytes
  pub agent_credential_version : ℕ  -- uint32
  pub token : Bytes
  pub capability_hash : Bytes

abbrev pub request_fields : EnrollRequest → List Bytes
request_fields r =
    r.challenge_hash
    ∷ r.agent_nonce
    ∷ r.agent_public_key
    ∷ enroll_u32 r.agent_credential_version
    ∷ r.token
    ∷ r.capability_hash
    ∷ []

abbrev pub request_canonical : EnrollRequest → Outcome Bytes
request_canonical r = enroll_encode (request_fields r)

abbrev pub request_signing_bytes : EnrollRequest → Outcome Bytes
request_signing_bytes r = do
  canonical ← request_canonical r
  ok (enroll_signature_input enroll_domain canonical)

abbrev public_key : EnrollRequest → Bytes
public_key r = r.agent_public_key

abbrev pub request_of : List Bytes → EnrollRequest
request_of parts = record {
  challenge_hash = part 0 parts;
  agent_nonce = part 1 parts;
  agent_public_key = part 2 parts;
  agent_credential_version = get_u32 (part 3 parts);
  token = part 4 parts;
  capability_hash = part 5 parts;
}

abbrev pub request_widths : List Bytes → Bool
request_widths parts =
    not (length (part 0 parts) == enroll_hash_size)
    || not (length (part 1 parts) == enroll_nonce_size)
    || not (length (part 2 parts) == enroll_key_size)
    || not (length (part 3 parts) == 4)
    || not (length (part 5 parts) == enroll_hash_size)

pub record EnrollResult : Type 0 where
  pub controller_instance_id : Bytes
  pub controller_key_id : Bytes
  pub node_id : Bytes
  pub agent_public_key_hash : Bytes
  pub agent_credential_version : ℕ  -- uint32
  pub enrollment_result_id : Bytes
  pub expiry_unix : ℕ  -- uint64

abbrev pub result_fields : EnrollResult → List Bytes
result_fields r =
    r.controller_instance_id
    ∷ r.controller_key_id
    ∷ r.node_id
    ∷ r.agent_public_key_hash
    ∷ enroll_u32 r.agent_credential_version
    ∷ r.enrollment_result_id
    ∷ enroll_u64 r.expiry_unix
    ∷ []

abbrev pub result_canonical : EnrollResult → Outcome Bytes
result_canonical r = enroll_encode (result_fields r)

abbrev pub result_signing_bytes : EnrollResult → Outcome Bytes
result_signing_bytes r = do
  canonical ← result_canonical r
  ok (enroll_signature_input enroll_domain canonical)

abbrev pub result_of : List Bytes → EnrollResult
result_of parts = record {
  controller_instance_id = part 0 parts;
  controller_key_id = part 1 parts;
  node_id = part 2 parts;
  agent_public_key_hash = part 3 parts;
  agent_credential_version = get_u32 (part 4 parts);
  enrollment_result_id = part 5 parts;
  expiry_unix = get_u64 (part 6 parts);
}

abbrev pub result_widths : List Bytes → Bool
result_widths parts =
    not (length (part 0 parts) == enroll_id_size)
    || not (length (part 2 parts) == enroll_id_size)
    || not (length (part 3 parts) == enroll_hash_size)
    || not (length (part 4 parts) == 4)
    || not (length (part 5 parts) == enroll_id_size)
    || not (length (part 6 parts) == 8)

module _ (ed_verify : Bytes → Bytes → Bytes → Bool) where
  -- After the parts are read.
  unfoldable pub challenge_checked : Bytes → List Bytes → Bytes → Outcome EnrollChallenge
  challenge_checked sig parts controller_pub = do
    panic_if (ltb (length parts) 6)
    reject_if (challenge_widths parts) malformed
    reject_if (length (part 1 parts) == 0) malformed
    reject_if (not (bytes_eq (part 4 parts) enroll_version)) malformed
    panic_if (ltb (length (part 5 parts)) 8)
    signed ← challenge_signing_bytes (challenge_of parts)
    reject_if (not (verify ed_verify controller_pub signed sig)) bad_signature
    ok (challenge_of parts)

  unfoldable pub parse_enroll_challenge : Bytes → Bytes → Outcome EnrollChallenge
  parse_enroll_challenge raw controller_pub = do
    reject_if (ltb enroll_challenge_max (length raw)) malformed
    (fields, sig) ← enroll_split raw
    parts ← enroll_read_fields 6 fields
    challenge_checked sig parts controller_pub

  unfoldable pub request_checked : Bytes → List Bytes → Bytes → Outcome EnrollRequest
  request_checked sig parts challenge_hash = do
    let r = request_of parts
    panic_if (ltb (length parts) 6)
    reject_if (request_widths parts) malformed
    reject_if (length r.token == 0 || ltb max_token_bytes (length r.token)) malformed
    panic_if (ltb (length (part 3 parts)) 4)
    reject_if (r.agent_credential_version == 0) malformed
    reject_if (not (bytes_eq r.challenge_hash challenge_hash)) bad_challenge
    signed ← request_signing_bytes r
    reject_if (not (verify ed_verify (public_key r) signed sig)) bad_signature
    ok r

  unfoldable pub parse_enroll_request : Bytes → Bytes → Outcome EnrollRequest
  parse_enroll_request raw challenge_hash = do
    reject_if (ltb enroll_request_max (length raw)) malformed
    (fields, sig) ← enroll_split raw
    parts ← enroll_read_fields 6 fields
    request_checked sig parts challenge_hash

  unfoldable pub result_checked : Bytes → List Bytes → Bytes → Outcome EnrollResult
  result_checked sig parts controller_pub = do
    let r = result_of parts
    panic_if (ltb (length parts) 7)
    reject_if (result_widths parts) malformed
    reject_if (length r.controller_key_id == 0) malformed
    panic_if (ltb (length (part 4 parts)) 4 || ltb (length (part 6 parts)) 8)
    reject_if (r.agent_credential_version == 0) malformed
    signed ← result_signing_bytes r
    reject_if (not (verify ed_verify controller_pub signed sig)) bad_signature
    ok r

  unfoldable pub parse_enroll_result : Bytes → Bytes → Outcome EnrollResult
  parse_enroll_result raw controller_pub = do
    reject_if (ltb enroll_result_max (length raw)) malformed
    (fields, sig) ← enroll_split raw
    parts ← enroll_read_fields 7 fields
    result_checked sig parts controller_pub
