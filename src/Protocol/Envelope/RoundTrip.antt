-- ===== src/Protocol/Envelope/RoundTrip.antt =====
-- internal/protocol/envelope.go: a frame that is built is accepted, with its header and payload.
use anti_nat.Common.{
  ◌<◌, ◌≤◌, ◌≡◌, ◌∙◌, ◌⊎◌, refl, sym, ap, Bool, true, false, not, Option, none, some, if◌then◌else◌,
  ltb, ◌==◌, length, arith,
}
use anti_nat.Security.Framecrypto.{
  Bytes, sign, verify, verify_envelope, sign_envelope, private_key_size, verify_envelope_of,
  envelope_signature_input,
}
use anti_nat.Protocol.Envelope.{
  Envelope, ProtectedHeader, accepted, protocol_domain, max_header_bytes, max_payload_bytes,
  encode_protected_header, assemble, assemble_signed, filled, build_encoded, build_envelope,
  parse_envelope,
}
use anti_nat.Protocol.Envelope.Header.{IsHeader}
use anti_nat.Protocol.Envelope.Frame.{complete}

module _ (sha256 : Bytes → Bytes) (ed_sign : Bytes → Bytes → Bytes) where
  build_encoded_inv :
      (priv : Bytes) (h : ProtectedHeader) (payload frame : Bytes) (o : Option Bytes)
      → build_encoded sha256 ed_sign priv h payload o ≡ some frame
      → (hb : Bytes) × (o ≡ some hb)
        × (length hb ≤ 4096)
        × (length payload ≤ 65536)
        × (frame
            ≡ assemble hb payload
                (ed_sign priv (envelope_signature_input h.domain hb h.payload_sha256)))
  unfolding sign_envelope sign
  build_encoded_inv priv h payload frame none q = absurd (ground arith)
  build_encoded_inv priv h payload frame (some hb) q =
      let sig = ed_sign priv (envelope_signature_input h.domain hb h.payload_sha256) in
      let (bh, bp, same) =
        checks (ltb max_header_bytes (length hb)) (ltb max_payload_bytes (length payload))
          (length priv == private_key_size) sig q in
      (hb, refl, ground arith, ground arith, same)
    where
      checks :
          (a b k : Bool) (sig : Bytes)
          → (if a
              then none
              else if b
              then none
              else if not k
              then none
              else assemble_signed hb payload (if not k then none else some sig))
            ≡ some frame
          → (a ≡ false) × (b ≡ false) × (frame ≡ assemble hb payload sig)
      checks true b k sig e = cc
      checks false true k sig e = cc
      checks false false false sig e = cc
      checks false false true sig e = (refl, refl, sym (inj e))
        where
          inj : some (assemble hb payload sig) ≡ some frame → assemble hb payload sig ≡ frame
          inj p = ground arith

  module _ (ed_verify : Bytes → Bytes → Bytes → Bool) where
    -- If the peer's key verifies what the private key signs, then a frame built from a header that
    -- is well formed once filled in, of the control domain, with a direction and a credential
    -- version that is not zero, is accepted under that key, with the header as it was filled in and
    -- the payload as it was given.
    pub built_envelope_accepted :
        (priv peer : Bytes) (h : ProtectedHeader) (payload frame : Bytes)
        → IsHeader (filled sha256 h payload)
        → h.domain ≡ protocol_domain
        → (h.direction ≡ 1) ⊎ (h.direction ≡ 2)
        → 0 < h.agent_credential_ver
        → ((message : Bytes) → verify ed_verify peer message (ed_sign priv message) ≡ true)
        → build_envelope sha256 ed_sign priv h payload ≡ some frame
        → (env : Envelope) × (parse_envelope sha256 ed_verify frame peer ≡ accepted env)
          × (env.header ≡ filled sha256 h payload)
          × (env.payload ≡ payload)
    unfolding build_envelope
    built_envelope_accepted priv peer h payload frame z dom dir cred honest q =
        let f = filled sha256 h payload in
        let (hb, encoded, bh, bp, whole) =
          build_encoded_inv priv f payload frame (encode_protected_header f) q in
        let input = envelope_signature_input f.domain hb f.payload_sha256 in
        let env : Envelope = record {
          header_len = length hb;
          payload_len = length payload;
          header = f;
          header_bytes = hb;
          payload = payload;
          signature = ed_sign priv input;
        } in
        (
          env,
          complete sha256 ed_verify frame peer env
              (record {
                header_wf = z;
                encoded = encoded;
                header_size = refl;
                header_bound = bh;
                payload_size = refl;
                payload_bound = bp;
                domain_eq = dom;
                length_eq = omega (arith, bp);
                digest_eq = refl;
                direction_ok = dir;
                credential_ok = cred;
                verified =
                    ap
                      (λ (d : Bytes).
                        verify_envelope ed_verify peer d hb (sha256 payload) (ed_sign priv input))
                      (sym dom)
                    ∙ verify_envelope_of ed_verify peer f.domain hb (sha256 payload)
                        (ed_sign priv input) (honest input);
              })
              whole,
          refl,
          refl,
        )
