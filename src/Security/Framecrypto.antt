-- ===== src/Security/Framecrypto.antt =====
-- internal/security/framecrypto: Ed25519 with the sizes checked first. The signature scheme itself,
-- crypto/ed25519, is a parameter.
use anti_nat.Common.{
  ℕ, Bool, false, not, ◌||◌, ◌≡◌, true, arith, List, ◌++◌, Option, none, some, if◌then◌else◌, ◌==◌,
  length,
}

abbrev pub Bytes : Type 0
Bytes = List ℕ

abbrev pub public_key_size : ℕ
public_key_size = 32

abbrev pub private_key_size : ℕ
private_key_size = 64

abbrev pub signature_size : ℕ
signature_size = 64

abbrev pub envelope_signature_input : Bytes → Bytes → Bytes → Bytes
envelope_signature_input domain protected_header payload_sha256 =
    domain ++ (protected_header ++ payload_sha256)

abbrev pub domain_separated_message : Bytes → Bytes → Bytes
domain_separated_message domain canonical = domain ++ canonical

module _ (ed_sign : Bytes → Bytes → Bytes) where
  unfoldable pub sign : Bytes → Bytes → Option Bytes
  sign priv message =
      if not (length priv == private_key_size) then none else some (ed_sign priv message)

  unfoldable pub sign_envelope : Bytes → Bytes → Bytes → Bytes → Option Bytes
  unfolding sign
  sign_envelope priv domain protected_header payload_sha256 =
      sign priv (envelope_signature_input domain protected_header payload_sha256)

module _ (ed_verify : Bytes → Bytes → Bytes → Bool) where
  unfoldable pub verify : Bytes → Bytes → Bytes → Bool
  verify public message sig =
      if not (length public == public_key_size) || not (length sig == signature_size)
      then false
      else ed_verify public message sig

  unfoldable pub verify_envelope : Bytes → Bytes → Bytes → Bytes → Bytes → Bool
  unfolding verify
  verify_envelope public domain protected_header payload_sha256 sig =
      if not (length sig == signature_size)
      then false
      else verify public (envelope_signature_input domain protected_header payload_sha256) sig

  pub verify_size :
      (public message sig : Bytes)
      → verify public message sig ≡ true
      → (length public ≡ 32) × (length sig ≡ 64)
  unfolding verify
  verify_size public message sig h = ground arith

  pub verify_envelope_size :
      (public domain header digest sig : Bytes)
      → verify_envelope public domain header digest sig ≡ true
      → (length public ≡ 32) × (length sig ≡ 64)
  unfolding verify_envelope verify
  verify_envelope_size public domain header digest sig h = ground arith

  pub verify_envelope_of :
      (public domain header digest sig : Bytes)
      → verify public (envelope_signature_input domain header digest) sig ≡ true
      → verify_envelope public domain header digest sig ≡ true
  unfolding verify_envelope
  verify_envelope_of public domain header digest sig h =
      checked (length sig == signature_size) _
        (size (verify_size public (envelope_signature_input domain header digest) sig h).1) h
    where
      checked : (b v : Bool) → b ≡ true → v ≡ true → (if not b then false else v) ≡ true
      checked true v e q = q
      checked false v e q = cc

      size : length sig ≡ 64 → (length sig == signature_size) ≡ true
      size e = ground arith
