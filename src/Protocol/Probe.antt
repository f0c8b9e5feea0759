-- ===== src/Protocol/Probe.antt =====
-- internal/protocol/probe.go: the five fixed binary frames of a probe, their canonical bytes and
-- their parsers. SHA-256 and Ed25519 are parameters. A fixed-size Go array is a byte list, and the
-- copy of a slice into it is that slice, since the parsers check the length first.
pub mod Agent
pub mod Canonical
use anti_nat.Common.{
  ℕ, ◌+◌, ◌-◌, ◌*◌, Bool, true, false, not, ◌&&◌, ◌||◌, List, [], ◌∷◌, ◌++◌, if◌then◌else◌, ◌==◌,
  ltb, length, take, drop, slice, byte_at, replicate, bytes_eq, u8, put_u64, get_u64,
}
use anti_nat.Security.Framecrypto.{Bytes, verify, signature_size, public_key_size}
use anti_nat.Protocol.Endpoint.Literal.{validate_probe_endpoint}

pub data ProbeError : Type 0 where
  malformed bad_signature replay id_conflict state_full bad_endpoint : ProbeError

pub data Result {ℓ} (A : Type ℓ) : Type ℓ where
  ok : A → Result A
  err : ProbeError → Result A

abbrev magic_arm : Bytes
magic_arm = 65 ∷ 82 ∷ 77 ∷ 49 ∷ []

abbrev magic_armed : Bytes
magic_armed = 82 ∷ 68 ∷ 89 ∷ 49 ∷ []

abbrev pub magic_wan : Bytes
magic_wan = 87 ∷ 65 ∷ 78 ∷ 49 ∷ []

abbrev magic_ack : Bytes
magic_ack = 65 ∷ 67 ∷ 75 ∷ 49 ∷ []

abbrev magic_receipt : Bytes
magic_receipt = 82 ∷ 67 ∷ 84 ∷ 49 ∷ []

abbrev probe_frame_max : ℕ
probe_frame_max = 4 + 32 + 16 + 16 + 16 + 1 + 255 + 16 + 32 + 64

-- 24 hours in milliseconds.
abbrev probe_ttl_max : ℕ
probe_ttl_max = 86400000

pub record ProbeArm : Type 0 where
  pub probe_id : Bytes
  pub provider_id : Bytes
  pub provider_public_key : Bytes
  pub expected_source_ip : Bytes
  pub activation : Bytes
  pub endpoint : Bytes
  pub ttl_ms : ℕ  -- uint64
  pub expiry_opaque : Bytes

unfoldable pub arm_canonical : ProbeArm → Bytes
arm_canonical arm =
    magic_arm
    ++ (arm.probe_id
        ++ (arm.provider_id
            ++ (arm.provider_public_key
                ++ (arm.expected_source_ip
                    ++ (arm.activation
                        ++ (u8 (length arm.endpoint)
                            ∷ (arm.endpoint ++ (put_u64 arm.ttl_ms ++ arm.expiry_opaque))))))))

unfoldable pub validate_arm : ProbeArm → Result (Unit {0})
validate_arm arm =
    if bytes_eq arm.provider_id (replicate 16 0) || bytes_eq arm.probe_id (replicate 16 0)
    then err malformed
    else if (arm.ttl_ms == 0) || ltb probe_ttl_max arm.ttl_ms
    then err malformed
    else if (length arm.endpoint == 0) || ltb 255 (length arm.endpoint)
    then err malformed
    else if not (validate_probe_endpoint arm.endpoint)
    then err bad_endpoint
    else ok tt

abbrev then_ok {ℓ} : {A : Type ℓ} → Result (Unit {0}) → A → Result A
then_ok (ok u) a = ok a
then_ok (err e) a = err e

unfoldable parse_probe_arm : Bytes → Result ProbeArm
unfolding validate_arm
parse_probe_arm raw =
    let endpoint_len = byte_at 88 raw in
    let arm : ProbeArm = record {
      probe_id = slice 4 20 raw;
      provider_id = slice 20 36 raw;
      provider_public_key = slice 36 68 raw;
      expected_source_ip = slice 68 72 raw;
      activation = slice 72 88 raw;
      endpoint = slice 89 (89 + endpoint_len) raw;
      ttl_ms = get_u64 (slice (89 + endpoint_len) (89 + endpoint_len + 8) raw);
      expiry_opaque = drop (89 + endpoint_len + 8) raw;
    } in
    if ltb (length raw) 89
      || ltb probe_frame_max (length raw)
      || not (bytes_eq (take 4 raw) magic_arm)
    then err malformed
    else if (endpoint_len == 0) || not (length raw == 89 + endpoint_len + 8 + 16)
    then err malformed
    else then_ok (validate_arm arm) arm

pub record ProbeArmed : Type 0 where
  pub arm_digest : Bytes
  pub signature : Bytes

unfoldable pub armed_signing_bytes : ProbeArmed → Bytes
armed_signing_bytes a = magic_armed ++ a.arm_digest

pub record ProviderFrame : Type 0 where
  pub arm_digest : Bytes
  pub probe_id : Bytes
  pub provider_id : Bytes
  pub activation : Bytes
  pub endpoint : Bytes
  pub expiry_opaque : Bytes
  pub challenge : Bytes
  pub signature : Bytes

unfoldable pub frame_canonical : ProviderFrame → Bytes
frame_canonical f =
    magic_wan
    ++ (f.arm_digest
        ++ (f.probe_id
            ++ (f.provider_id
                ++ (f.activation
                    ++ (u8 (length f.endpoint)
                        ∷ (f.endpoint ++ (f.expiry_opaque ++ f.challenge)))))))

abbrev pub frame_signing_bytes : ProviderFrame → Bytes
frame_signing_bytes f = frame_canonical f

-- The fields at their places, for an endpoint of the given length.
unfoldable pub frame_fields : Bytes → ℕ → ProviderFrame
frame_fields raw endpoint_len =
    let trailer_start = 85 + endpoint_len in
    record {
      arm_digest = slice 4 36 raw;
      probe_id = slice 36 52 raw;
      provider_id = slice 52 68 raw;
      activation = slice 68 84 raw;
      endpoint = slice 85 trailer_start raw;
      expiry_opaque = slice trailer_start (trailer_start + 16) raw;
      challenge = slice (trailer_start + 16) (trailer_start + 16 + 32) raw;
      signature = drop (trailer_start + 16 + 32) raw;
    }

frame_checked : Bytes → ℕ → ProviderFrame → Bool → Result ProviderFrame
frame_checked raw endpoint_len f valid_endpoint =
    if ltb (length raw) 85
      || ltb probe_frame_max (length raw)
      || not (bytes_eq (take 4 raw) magic_wan)
    then err malformed
    else if (endpoint_len == 0) || not (length raw == 85 + endpoint_len + (16 + 32 + 64))
    then err malformed
    else if not valid_endpoint
    then err bad_endpoint
    else ok f

unfoldable pub parse_provider_frame : Bytes → Result ProviderFrame
unfolding frame_checked
parse_provider_frame raw =
    let f = frame_fields raw (byte_at 84 raw) in
    frame_checked raw (byte_at 84 raw) f (validate_probe_endpoint f.endpoint)

pub record ProbeAck : Type 0 where
  pub arm_digest : Bytes
  pub challenge_hash : Bytes
  pub signature : Bytes

unfoldable pub ack_signing_bytes : ProbeAck → Bytes
ack_signing_bytes a = magic_ack ++ (a.arm_digest ++ a.challenge_hash)

pub record ProbeReceipt : Type 0 where
  pub arm_digest : Bytes
  pub challenge_hash : Bytes
  pub provider_id : Bytes
  pub signature : Bytes

unfoldable pub receipt_signing_bytes : ProbeReceipt → Bytes
receipt_signing_bytes r = magic_receipt ++ (r.arm_digest ++ (r.challenge_hash ++ r.provider_id))

module _ (sha256 : Bytes → Bytes) where
  unfoldable pub digest_of : ProbeArm → Bytes
  digest_of arm = sha256 (arm_canonical arm)

  unfoldable pub challenge_hash_of : ProviderFrame → Bytes
  challenge_hash_of f = sha256 f.challenge

module _ (ed_verify : Bytes → Bytes → Bytes → Bool) where
  unfoldable parse_probe_armed : Bytes → Bytes → Bytes → Result ProbeArmed
  parse_probe_armed raw node_pub want_digest =
      let a : ProbeArmed = record { arm_digest = slice 4 36 raw; signature = drop 36 raw } in
      if not (length raw == 36 + signature_size) || not (bytes_eq (take 4 raw) magic_armed)
      then err malformed
      else if not (bytes_eq a.arm_digest want_digest)
      then err malformed
      else if not (verify ed_verify node_pub (armed_signing_bytes a) a.signature)
      then err bad_signature
      else ok a

  unfoldable parse_probe_ack : Bytes → Bytes → Result ProbeAck
  parse_probe_ack raw node_pub =
      let a : ProbeAck = record {
        arm_digest = slice 4 36 raw;
        challenge_hash = slice 36 68 raw;
        signature = drop 68 raw;
      } in
      if not (length raw == 68 + signature_size) || not (bytes_eq (take 4 raw) magic_ack)
      then err malformed
      else if not (verify ed_verify node_pub (ack_signing_bytes a) a.signature)
      then err bad_signature
      else ok a

  unfoldable parse_probe_receipt : Bytes → Bytes → Result ProbeReceipt
  parse_probe_receipt raw node_pub =
      let r : ProbeReceipt = record {
        arm_digest = slice 4 36 raw;
        challenge_hash = slice 36 68 raw;
        provider_id = slice 68 84 raw;
        signature = drop 84 raw;
      } in
      if not (length raw == 84 + signature_size) || not (bytes_eq (take 4 raw) magic_receipt)
      then err malformed
      else if not (verify ed_verify node_pub (receipt_signing_bytes r) r.signature)
      then err bad_signature
      else ok r
