-- ===== src/Protocol/Enrollment/Request.antt =====
-- internal/protocol/enrollment.go, ParseEnrollRequest: which bytes are a signed challenge.
use anti_nat.Common.{
  ◌<◌, ◌≤◌, ◌≡◌, ◌∙◌, ◌↔◌, refl, sym, ap, subst, Bool, true, false, not, ◌||◌, List, ◌==◌, ltb,
  length, bytes_eq, bytes_eq→eq, bytes_eq_self, get_u32-put_u32, AreBytes, All, arith,
}
use anti_nat.Security.Framecrypto.{Bytes, verify, domain_separated_message}
use anti_nat.Protocol.Fields.{
  part, frame, tabulate_parts, AreBytes-part, u32_field, get_u32-IsShort, IsShort,
}
use anti_nat.Protocol.Enrollment.{
  EnrollRequest, ok, malformed, bad_challenge, max_token_bytes, enroll_domain, enroll_request_max,
  request_fields, request_canonical, request_signing_bytes, request_of, request_widths,
  request_checked, parse_enroll_request, Outcome, reject_if, ◌>>=◌, ◌>>◌, bad_signature,
}
use anti_nat.Protocol.Enrollment.Opening.{
  no_panic, past_reject, guarded_inv, reject_if_then, opening_inv, verified, signing_of-frame,
  authentic, opening_authentic, IsAuthentic,
}

-- What the Go types and the checks of the parser say of a request.
pub record IsRequest (r : EnrollRequest) : Type 0 where
  pub challenge_hash_size : length r.challenge_hash ≡ 32
  pub nonce_size : length r.agent_nonce ≡ 32
  pub key_size : length r.agent_public_key ≡ 32
  pub version_bound : (0 < r.agent_credential_version) × (r.agent_credential_version < 4294967296)
  pub token_size : (0 < length r.token) × (length r.token ≤ 256)
  pub capability_hash_size : length r.capability_hash ≡ 32

pub request-parts :
    (parts : List Bytes)
    → length parts ≡ 6
    → All AreBytes parts
    → length (part 3 parts) ≡ 4
    → request_fields (request_of parts) ≡ parts
request-parts parts counted bytes h =
    rw (u32_field (part 3 parts) (AreBytes-part 3 parts bytes) h) (tabulate_parts 6 parts counted)

pub request_widths_inv :
    (parts : List Bytes)
    → request_widths parts ≡ false
    → (length (part 0 parts) ≡ 32)
      × (length (part 1 parts) ≡ 32)
      × (length (part 2 parts) ≡ 32)
      × (length (part 3 parts) ≡ 4)
      × (length (part 5 parts) ≡ 32)
request_widths_inv parts h = ground arith

module _ (ed_verify : Bytes → Bytes → Bytes → Bool) where
  -- With six parts no index and no read goes past an end.
  abbrev pub request_guarded : Bytes → List Bytes → Bytes → Outcome EnrollRequest
  request_guarded sig parts hash = do
    let r = request_of parts
    reject_if (request_widths parts) malformed
    reject_if (length r.token == 0 || ltb max_token_bytes (length r.token)) malformed
    reject_if (r.agent_credential_version == 0) malformed
    reject_if (not (bytes_eq r.challenge_hash hash)) bad_challenge
    signed ← request_signing_bytes r
    reject_if (not (verify ed_verify r.agent_public_key signed sig)) bad_signature
    ok r

  pub request_checked-guarded :
      (sig : Bytes) (parts : List Bytes) (hash : Bytes)
      → length parts ≡ 6
      → request_checked ed_verify sig parts hash ≡ request_guarded sig parts hash
  unfolding request_checked
  request_checked-guarded sig parts hash counted =
      let token = part 4 parts in
      no_panic (ltb (length parts) 6) _ (ground arith)
      ∙ past_reject (request_widths parts) malformed _ _ (λ w.
        past_reject (length token == 0 || ltb max_token_bytes (length token)) malformed _ _
          (λ _. no_panic (ltb (length (part 3 parts)) 4) _ (wide w)))
    where
      wide : request_widths parts ≡ false → ltb (length (part 3 parts)) 4 ≡ false
      wide w = let (_, _, _, h, _) = request_widths_inv parts w in ground arith

  request_checked_inv :
      (sig : Bytes) (parts : List Bytes) (hash : Bytes) (r : EnrollRequest)
      → length parts ≡ 6
      → All AreBytes parts
      → All IsShort parts
      → request_checked ed_verify sig parts hash ≡ ok r
      → (request_fields r ≡ parts)
        × IsRequest r
        × (r.challenge_hash ≡ hash)
        × (verify ed_verify r.agent_public_key
              (domain_separated_message enroll_domain (frame parts))
              sig
            ≡ true)
  request_checked_inv sig parts hash r counted bytes short h =
      let q = request_of parts in
      let (widths, h1) =
        reject_if_then (request_widths parts) malformed _ r
          (sym (request_checked-guarded sig parts hash counted) ∙ h) in
      let (token, version, hashes, same, (signed, canonical, valid)) =
        guarded_inv (length q.token == 0 || ltb max_token_bytes (length q.token))
          (q.agent_credential_version == 0) (not (bytes_eq q.challenge_hash hash)) bad_challenge
          (request_signing_bytes q) (λ (s : Bytes). not (verify ed_verify q.agent_public_key s sig))
          q r h1 in
      let w = request_widths_inv parts widths in
      let fields = request-parts parts counted bytes w.3 in
      (
        ap request_fields (sym same) ∙ fields,
        subst IsRequest same (record {
          challenge_hash_size = w.0;
          nonce_size = w.1;
          key_size = w.2;
          version_bound =
              (ground arith, get_u32-IsShort (part 3 parts) (AreBytes-part 3 parts bytes));
          token_size = (ground arith, ground arith);
          capability_hash_size = w.4;
        }),
        ap (λ (m : EnrollRequest). m.challenge_hash) (sym same)
            ∙ bytes_eq→eq (part 0 parts) hash (ground arith),
        ap
              (λ (m : EnrollRequest).
                verify ed_verify m.agent_public_key
                  (domain_separated_message enroll_domain (frame parts)) sig)
              (sym same)
            ∙ verified (λ (s : Bytes). verify ed_verify q.agent_public_key s sig) (request_fields q)
                parts signed short fields canonical valid,
      )

  request_checked_of :
      (sig : Bytes) (hash : Bytes) (r : EnrollRequest)
      → IsRequest r
      → r.challenge_hash ≡ hash
      → All IsShort (request_fields r)
      → verify ed_verify r.agent_public_key
          (domain_separated_message enroll_domain (frame (request_fields r)))
          sig
        ≡ true
      → request_checked ed_verify sig (request_fields r) hash ≡ ok r
  request_checked_of sig hash r z same short valid =
      request_checked-guarded sig (request_fields r) hash refl
      ∙ rw
          (
            get_u32-put_u32 r.agent_credential_version z.version_bound.1,
            signing_of-frame (request_fields r) short,
            valid,
            widths,
            named,
            versioned,
            hashes,
          )
          refl
    where
      widths : request_widths (request_fields r) ≡ false
      widths =
          ground (arith, z.challenge_hash_size, z.nonce_size, z.key_size, z.capability_hash_size)

      named : (length r.token == 0 || ltb max_token_bytes (length r.token)) ≡ false
      named = ground (arith, z.token_size)

      versioned : (r.agent_credential_version == 0) ≡ false
      versioned = ground (arith, z.version_bound.0)

      hashes : bytes_eq r.challenge_hash hash ≡ true
      hashes = rw (← same) (bytes_eq_self r.challenge_hash)

  -- A byte string is accepted as an enrollment request for a challenge hash exactly when it is,
  -- within the size limit, the canonical bytes of that request followed by a signature that the
  -- request's own key verifies over the domain and those bytes, the request carries that hash, its
  -- fields have their widths, its token 1 to 256 bytes, and its credential version is not zero.
  pub parse_enroll_request_iff :
      (raw : Bytes) (hash : Bytes) (r : EnrollRequest)
      → AreBytes raw
      → (parse_enroll_request ed_verify raw hash ≡ ok r) ↔ (
          IsRequest r
          × (r.challenge_hash ≡ hash)
          × IsAuthentic ed_verify enroll_request_max (request_canonical r) r.agent_public_key raw)
  unfolding parse_enroll_request
  parse_enroll_request_iff raw hash r bytes = (sound, complete)
    where
      sound :
          parse_enroll_request ed_verify raw hash ≡ ok r
          → IsRequest r
            × (r.challenge_hash ≡ hash)
            × IsAuthentic ed_verify enroll_request_max (request_canonical r) r.agent_public_key raw
      sound h =
          let (parts, sig, o, done) =
            opening_inv enroll_request_max 6
              (λ (s : Bytes) (ps : List Bytes). request_checked ed_verify s ps hash) raw r bytes
              h in
          let (same, z, asked, valid) =
            request_checked_inv sig parts hash r o.counted o.bytes o.short done in
          (
            z,
            asked,
            authentic ed_verify enroll_request_max 6 raw r.agent_public_key sig _ parts o same
                valid,
          )

      complete :
          IsRequest r
            × (r.challenge_hash ≡ hash)
            × IsAuthentic ed_verify enroll_request_max (request_canonical r) r.agent_public_key raw
          → parse_enroll_request ed_verify raw hash ≡ ok r
      complete (z, asked, a) =
          opening_authentic ed_verify enroll_request_max 6
            (λ (s : Bytes) (ps : List Bytes). request_checked ed_verify s ps hash) raw
            r.agent_public_key (request_fields r) r refl (omega arith) a
            (λ s short valid. request_checked_of s hash r z asked short valid)
