-- ===== src/Protocol/Enrollment/Challenge.antt =====
-- internal/protocol/enrollment.go, ParseEnrollChallenge: which bytes are a signed challenge.
use anti_nat.Common.{
  ◌<◌, ◌≡◌, ◌∙◌, ◌↔◌, refl, sym, ap, subst, Bool, true, false, not, List, ◌==◌, ltb, length,
  bytes_eq, bytes_eq→eq, AreBytes, All, arith,
}
use anti_nat.Security.Framecrypto.{Bytes, verify, domain_separated_message}
use anti_nat.Protocol.Fields.{
  part, frame, tabulate_parts, AreBytes-part, u64_field, get_u64-put_u64, get_u64-bound, IsShort,
}
use anti_nat.Protocol.Enrollment.{
  EnrollChallenge, ok, malformed, enroll_domain, enroll_version, enroll_challenge_max,
  challenge_fields, challenge_canonical, challenge_signing_bytes, challenge_of, challenge_widths,
  challenge_checked, parse_enroll_challenge, Outcome, reject_if, ◌>>=◌, ◌>>◌, bad_signature,
}
use anti_nat.Protocol.Enrollment.Opening.{
  no_panic, past_reject, guarded_inv, opening_inv, verified, signing_of-frame, authentic,
  opening_authentic, IsAuthentic,
}

-- What the Go types and the checks of the parser say of a challenge.
pub record IsChallenge (c : EnrollChallenge) : Type 0 where
  pub instance_size : length c.controller_instance_id ≡ 16
  pub key_id_size : 0 < length c.controller_key_id
  pub node_size : length c.node_id ≡ 16
  pub nonce_size : length c.server_nonce ≡ 32
  pub version : c.protocol_versions ≡ enroll_version
  pub expiry_bound : c.expiry_unix < 18446744073709551616

pub challenge-parts :
    (parts : List Bytes)
    → length parts ≡ 6
    → All AreBytes parts
    → length (part 5 parts) ≡ 8
    → challenge_fields (challenge_of parts) ≡ parts
challenge-parts parts counted bytes h =
    rw (u64_field (part 5 parts) (AreBytes-part 5 parts bytes) h) (tabulate_parts 6 parts counted)

pub challenge_widths_inv :
    (parts : List Bytes)
    → challenge_widths parts ≡ false
    → (length (part 0 parts) ≡ 16)
      × (length (part 2 parts) ≡ 16)
      × (length (part 3 parts) ≡ 32)
      × (length (part 5 parts) ≡ 8)
challenge_widths_inv parts h = ground arith

module _ (ed_verify : Bytes → Bytes → Bytes → Bool) where
  -- With six parts no index and no read goes past an end.
  abbrev pub challenge_guarded : Bytes → List Bytes → Bytes → Outcome EnrollChallenge
  challenge_guarded sig parts pk = do
    reject_if (challenge_widths parts) malformed
    reject_if (length (part 1 parts) == 0) malformed
    reject_if (not (bytes_eq (part 4 parts) enroll_version)) malformed
    signed ← challenge_signing_bytes (challenge_of parts)
    reject_if (not (verify ed_verify pk signed sig)) bad_signature
    ok (challenge_of parts)

  pub challenge_checked-guarded :
      (sig : Bytes) (parts : List Bytes) (pk : Bytes)
      → length parts ≡ 6
      → challenge_checked ed_verify sig parts pk ≡ challenge_guarded sig parts pk
  unfolding challenge_checked
  challenge_checked-guarded sig parts pk counted =
      no_panic (ltb (length parts) 6) _ (ground arith)
      ∙ past_reject (challenge_widths parts) malformed _ _ (λ w.
        past_reject (length (part 1 parts) == 0) malformed _ _ (λ _.
          past_reject (not (bytes_eq (part 4 parts) enroll_version)) malformed _ _
            (λ _. no_panic (ltb (length (part 5 parts)) 8) _ (wide w))))
    where
      wide : challenge_widths parts ≡ false → ltb (length (part 5 parts)) 8 ≡ false
      wide w = let (_, _, _, h) = challenge_widths_inv parts w in ground arith

  challenge_checked_inv :
      (sig : Bytes) (parts : List Bytes) (pk : Bytes) (c : EnrollChallenge)
      → length parts ≡ 6
      → All AreBytes parts
      → All IsShort parts
      → challenge_checked ed_verify sig parts pk ≡ ok c
      → (challenge_fields c ≡ parts)
        × IsChallenge c
        × (verify ed_verify pk (domain_separated_message enroll_domain (frame parts)) sig ≡ true)
  challenge_checked_inv sig parts pk c counted bytes short h =
      let (widths, key, version, same, (signed, canonical, valid)) =
        guarded_inv (challenge_widths parts) (length (part 1 parts) == 0)
          (not (bytes_eq (part 4 parts) enroll_version)) malformed
          (challenge_signing_bytes (challenge_of parts))
          (λ (s : Bytes). not (verify ed_verify pk s sig)) (challenge_of parts) c
          (sym (challenge_checked-guarded sig parts pk counted) ∙ h) in
      let w = challenge_widths_inv parts widths in
      let fields = challenge-parts parts counted bytes w.3 in
      (
        ap challenge_fields (sym same) ∙ fields,
        subst IsChallenge same (record {
          instance_size = w.0;
          key_id_size = ground arith;
          node_size = w.1;
          nonce_size = w.2;
          version = bytes_eq→eq (part 4 parts) enroll_version (ground arith);
          expiry_bound = get_u64-bound (part 5 parts) (AreBytes-part 5 parts bytes);
        }),
        verified (λ (s : Bytes). verify ed_verify pk s sig) (challenge_fields (challenge_of parts))
            parts signed short fields canonical valid,
      )

  challenge_checked_of :
      (sig : Bytes) (pk : Bytes) (c : EnrollChallenge)
      → IsChallenge c
      → All IsShort (challenge_fields c)
      → verify ed_verify pk
          (domain_separated_message enroll_domain (frame (challenge_fields c)))
          sig
        ≡ true
      → challenge_checked ed_verify sig (challenge_fields c) pk ≡ ok c
  challenge_checked_of sig pk c z short valid =
      challenge_checked-guarded sig (challenge_fields c) pk refl
      ∙ rw
          (
            get_u64-put_u64 c.expiry_unix z.expiry_bound,
            signing_of-frame (challenge_fields c) short,
            valid,
            z.version,
            widths,
            named,
          )
          refl
    where
      widths : challenge_widths (challenge_fields c) ≡ false
      widths = ground (arith, z.instance_size, z.node_size, z.nonce_size)

      named : (length c.controller_key_id == 0) ≡ false
      named = ground (arith, z.key_id_size)

  pub parse_enroll_challenge_of :
      (raw : Bytes) (pk : Bytes) (c : EnrollChallenge)
      → IsChallenge c
      → IsAuthentic ed_verify enroll_challenge_max (challenge_canonical c) pk raw
      → parse_enroll_challenge ed_verify raw pk ≡ ok c
  unfolding parse_enroll_challenge
  parse_enroll_challenge_of raw pk c z a =
      opening_authentic ed_verify enroll_challenge_max 6
        (λ (s : Bytes) (ps : List Bytes). challenge_checked ed_verify s ps pk) raw pk
        (challenge_fields c) c refl (omega arith) a
        (λ s short valid. challenge_checked_of s pk c z short valid)

  pub parse_enroll_challenge_iff :
      (raw : Bytes) (pk : Bytes) (c : EnrollChallenge)
      → AreBytes raw
      → (parse_enroll_challenge ed_verify raw pk ≡ ok c) ↔ (
          IsChallenge c × IsAuthentic ed_verify enroll_challenge_max (challenge_canonical c) pk raw)
  unfolding parse_enroll_challenge
  parse_enroll_challenge_iff raw pk c bytes =
      (sound, (λ p. parse_enroll_challenge_of raw pk c p.0 p.1))
    where
      sound :
          parse_enroll_challenge ed_verify raw pk ≡ ok c
          → IsChallenge c
            × IsAuthentic ed_verify enroll_challenge_max (challenge_canonical c) pk raw
      sound h =
          let (parts, sig, o, done) =
            opening_inv enroll_challenge_max 6
              (λ (s : Bytes) (ps : List Bytes). challenge_checked ed_verify s ps pk) raw c bytes
              h in
          let (same, z, valid) =
            challenge_checked_inv sig parts pk c o.counted o.bytes o.short done in
          (z, authentic ed_verify enroll_challenge_max 6 raw pk sig _ parts o same valid)
