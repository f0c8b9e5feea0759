-- ===== src/Protocol/Enrollment/ResultMessage.antt =====
-- internal/protocol/enrollment.go, ParseEnrollResult: which bytes are a signed challenge.
use anti_nat.Common.{
  ◌<◌, ◌≡◌, ◌∙◌, ◌↔◌, refl, sym, ap, subst, Bool, true, false, not, List, ◌==◌, ◌||◌, ltb, length,
  get_u32, get_u32-put_u32, AreBytes, All, arith,
}
use anti_nat.Security.Framecrypto.{Bytes, verify, domain_separated_message}
use anti_nat.Protocol.Fields.{
  part, frame, tabulate_parts, AreBytes-part, u64_field, u32_field, get_u32-IsShort,
  get_u64-put_u64, get_u64-bound, IsShort,
}
use anti_nat.Protocol.Enrollment.{
  EnrollResult, ok, malformed, enroll_domain, enroll_result_max, result_fields, result_canonical,
  result_signing_bytes, result_of, result_widths, result_checked, parse_enroll_result, Outcome,
  reject_if, ◌>>=◌, ◌>>◌, bad_signature,
}
use anti_nat.Protocol.Enrollment.Opening.{
  no_panic, past_reject, guarded_inv, opening_inv, verified, signing_of-frame, authentic,
  opening_authentic, IsAuthentic,
}

-- What the Go types and the checks of the parser say of a result.
pub record IsResult (c : EnrollResult) : Type 0 where
  pub instance_size : length c.controller_instance_id ≡ 16
  pub key_id_size : 0 < length c.controller_key_id
  pub node_size : length c.node_id ≡ 16
  pub hash_size : length c.agent_public_key_hash ≡ 32
  pub version_bound : (0 < c.agent_credential_version) × (c.agent_credential_version < 4294967296)
  pub result_id_size : length c.enrollment_result_id ≡ 16
  pub expiry_bound : c.expiry_unix < 18446744073709551616

pub result-parts :
    (parts : List Bytes)
    → length parts ≡ 7
    → All AreBytes parts
    → length (part 4 parts) ≡ 4
    → length (part 6 parts) ≡ 8
    → result_fields (result_of parts) ≡ parts
result-parts parts counted bytes v h =
    rw
      (
        u32_field (part 4 parts) (AreBytes-part 4 parts bytes) v,
        u64_field (part 6 parts) (AreBytes-part 6 parts bytes) h,
      )
      (tabulate_parts 7 parts counted)

pub result_widths_inv :
    (parts : List Bytes)
    → result_widths parts ≡ false
    → (length (part 0 parts) ≡ 16)
      × (length (part 2 parts) ≡ 16)
      × (length (part 3 parts) ≡ 32)
      × (length (part 4 parts) ≡ 4)
      × (length (part 5 parts) ≡ 16)
      × (length (part 6 parts) ≡ 8)
result_widths_inv parts h = ground arith

module _ (ed_verify : Bytes → Bytes → Bytes → Bool) where
  -- With seven parts no index and no read goes past an end.
  abbrev pub result_guarded : Bytes → List Bytes → Bytes → Outcome EnrollResult
  result_guarded sig parts pk = do
    reject_if (result_widths parts) malformed
    reject_if (length (part 1 parts) == 0) malformed
    reject_if (get_u32 (part 4 parts) == 0) malformed
    signed ← result_signing_bytes (result_of parts)
    reject_if (not (verify ed_verify pk signed sig)) bad_signature
    ok (result_of parts)

  pub result_checked-guarded :
      (sig : Bytes) (parts : List Bytes) (pk : Bytes)
      → length parts ≡ 7
      → result_checked ed_verify sig parts pk ≡ result_guarded sig parts pk
  unfolding result_checked
  result_checked-guarded sig parts pk counted =
      no_panic (ltb (length parts) 7) _ (ground arith)
      ∙ past_reject (result_widths parts) malformed _ _ (λ w.
        past_reject (length (part 1 parts) == 0) malformed _ _ (λ _.
          no_panic (ltb (length (part 4 parts)) 4 || ltb (length (part 6 parts)) 8) _ (wide w)))
    where
      wide :
          result_widths parts ≡ false
          → (ltb (length (part 4 parts)) 4 || ltb (length (part 6 parts)) 8) ≡ false
      wide w = let (_, _, _, h, _, k) = result_widths_inv parts w in ground arith

  result_checked_inv :
      (sig : Bytes) (parts : List Bytes) (pk : Bytes) (c : EnrollResult)
      → length parts ≡ 7
      → All AreBytes parts
      → All IsShort parts
      → result_checked ed_verify sig parts pk ≡ ok c
      → (result_fields c ≡ parts)
        × IsResult c
        × (verify ed_verify pk (domain_separated_message enroll_domain (frame parts)) sig ≡ true)
  result_checked_inv sig parts pk c counted bytes short h =
      let (widths, key, version, same, (signed, canonical, valid)) =
        guarded_inv (result_widths parts) (length (part 1 parts) == 0) (get_u32 (part 4 parts) == 0)
          malformed (result_signing_bytes (result_of parts))
          (λ (s : Bytes). not (verify ed_verify pk s sig)) (result_of parts) c
          (sym (result_checked-guarded sig parts pk counted) ∙ h) in
      let w = result_widths_inv parts widths in
      let fields = result-parts parts counted bytes w.3 w.5 in
      (
        ap result_fields (sym same) ∙ fields,
        subst IsResult same (record {
          instance_size = w.0;
          key_id_size = ground arith;
          node_size = w.1;
          hash_size = w.2;
          version_bound =
              (ground arith, get_u32-IsShort (part 4 parts) (AreBytes-part 4 parts bytes));
          result_id_size = w.4;
          expiry_bound = get_u64-bound (part 6 parts) (AreBytes-part 6 parts bytes);
        }),
        verified (λ (s : Bytes). verify ed_verify pk s sig) (result_fields (result_of parts)) parts
            signed short fields canonical valid,
      )

  result_checked_of :
      (sig : Bytes) (pk : Bytes) (c : EnrollResult)
      → IsResult c
      → All IsShort (result_fields c)
      → verify ed_verify pk (domain_separated_message enroll_domain (frame (result_fields c))) sig
        ≡ true
      → result_checked ed_verify sig (result_fields c) pk ≡ ok c
  result_checked_of sig pk c z short valid =
      result_checked-guarded sig (result_fields c) pk refl
      ∙ rw
          (
            get_u32-put_u32 c.agent_credential_version z.version_bound.1,
            get_u64-put_u64 c.expiry_unix z.expiry_bound,
            signing_of-frame (result_fields c) short,
            valid,
            widths,
            named,
            versioned,
          )
          refl
    where
      widths : result_widths (result_fields c) ≡ false
      widths = ground (arith, z.instance_size, z.node_size, z.hash_size, z.result_id_size)

      named : (length c.controller_key_id == 0) ≡ false
      named = ground (arith, z.key_id_size)

      versioned : (c.agent_credential_version == 0) ≡ false
      versioned = ground (arith, z.version_bound.0)

  pub parse_enroll_result_iff :
      (raw : Bytes) (pk : Bytes) (c : EnrollResult)
      → AreBytes raw
      → (parse_enroll_result ed_verify raw pk ≡ ok c)
        ↔ (IsResult c × IsAuthentic ed_verify enroll_result_max (result_canonical c) pk raw)
  unfolding parse_enroll_result
  parse_enroll_result_iff raw pk c bytes = (sound, complete)
    where
      sound :
          parse_enroll_result ed_verify raw pk ≡ ok c
          → IsResult c × IsAuthentic ed_verify enroll_result_max (result_canonical c) pk raw
      sound h =
          let (parts, sig, o, done) =
            opening_inv enroll_result_max 7
              (λ (s : Bytes) (ps : List Bytes). result_checked ed_verify s ps pk) raw c bytes h in
          let (same, z, valid) = result_checked_inv sig parts pk c o.counted o.bytes o.short done in
          (z, authentic ed_verify enroll_result_max 7 raw pk sig _ parts o same valid)

      complete :
          IsResult c × IsAuthentic ed_verify enroll_result_max (result_canonical c) pk raw
          → parse_enroll_result ed_verify raw pk ≡ ok c
      complete (z, a) =
          opening_authentic ed_verify enroll_result_max 7
            (λ (s : Bytes) (ps : List Bytes). result_checked ed_verify s ps pk) raw pk
            (result_fields c) c refl (omega arith) a
            (λ s short valid. result_checked_of s pk c z short valid)
