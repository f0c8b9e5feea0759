-- ===== src/Protocol/Enrollment/Total.antt =====
-- internal/protocol/enrollment.go: the parsers return on every input.
use anti_nat.Common.{
  ℕ, ◌-◌, ◌≡◌, ◌≢◌, ◌∙◌, refl, sym, subst, Bool, true, false, not, ◌||◌, List, Option, none, some,
  ◌==◌, ltb, length, bytes_eq, get_u32, AreBytes, AreBytes-take, All, arith,
}
use anti_nat.Security.Framecrypto.{Bytes, domain_separated_message}
use anti_nat.Protocol.Fields.{frame, unframe, part, frame-unframe, IsShort}
use anti_nat.Protocol.Enrollment.{
  EnrollError, Outcome, ok, err, panic, malformed, bad_challenge, bad_signature, reject_if, ◌>>=◌,
  ◌>>◌, enroll_domain, enroll_version, max_token_bytes, enroll_read_fields, enroll_split,
  challenge_fields, challenge_of, challenge_widths, challenge_checked, request_fields, request_of,
  request_widths, request_checked, result_fields, result_of, result_widths, result_checked,
  parse_enroll_challenge, parse_enroll_request, parse_enroll_result, enroll_challenge_max,
  enroll_request_max, enroll_result_max,
}
use anti_nat.Protocol.Enrollment.Codec.{
  of_option, enroll_read_fields-unframe, read_some, enroll_split_inv,
}
use anti_nat.Protocol.Enrollment.Opening.{opening, signing_of, signing_of-frame}
use anti_nat.Protocol.Enrollment.Challenge.{
  challenge-parts, challenge_checked-guarded, challenge_widths_inv,
}
use anti_nat.Protocol.Enrollment.Request.{
  request-parts, request_checked-guarded, request_widths_inv,
}
use anti_nat.Protocol.Enrollment.ResultMessage.{
  result-parts, result_checked-guarded, result_widths_inv,
}

>>=-ne-panic {ℓ κ} :
    {A : Type ℓ} {B : Type κ} (m : Outcome A) (f : A → Outcome B)
    → m ≢ panic
    → ((a : A) → m ≡ ok a → f a ≢ panic)
    → (m >>= f) ≢ panic
>>=-ne-panic (ok a) f h k = k a refl
>>=-ne-panic (err e) f h k = λ q. cc
>>=-ne-panic panic f h k = λ q. h refl

reject-ne-panic {ℓ} :
    {A : Type ℓ} (b : Bool) (e : EnrollError) (k : Outcome A)
    → (b ≡ false → k ≢ panic)
    → (reject_if b e >> k) ≢ panic
reject-ne-panic true e k h = λ q. cc
reject-ne-panic false e k h = h refl

read-ne-panic : (n : ℕ) (b : Bytes) → enroll_read_fields n b ≢ panic
read-ne-panic n b q = from (unframe n b) (sym (enroll_read_fields-unframe n b) ∙ q)
  where
    from : (o : Option (List Bytes)) → of_option o ≡ panic → ⊥
    from none e = ground arith
    from (some p) e = ground arith

split-ne-panic : (raw : Bytes) → enroll_split raw ≢ panic
unfolding enroll_split
split-ne-panic raw q = ground arith

along {ℓ} : {A : Type ℓ} {m n : Outcome A} → m ≡ n → n ≢ panic → m ≢ panic
along e h q = h (sym e ∙ q)

-- What is signed can be rendered when the fields are those that were read.
tail-ne-panic {ℓ} :
    {M : Type ℓ} (fields parts : List Bytes) (bad : Bytes → Bool) (k : M)
    → fields ≡ parts
    → All IsShort parts
    → (signing_of fields >>= λ s. reject_if (bad s) bad_signature >> ok k) ≢ panic
tail-ne-panic fields parts bad k same short =
    rw (same, signing_of-frame parts short)
      (reject-ne-panic (bad (domain_separated_message enroll_domain (frame parts))) bad_signature
        (ok k) (λ _ q. cc))

module _ {ℓ} {M : Type ℓ} (limit count : ℕ) (check : Bytes → List Bytes → Outcome M) where
  opening-ne-panic :
      (raw : Bytes)
      → AreBytes raw
      → ((sig : Bytes) (parts : List Bytes)
          → length parts ≡ count
          → All AreBytes parts
          → All IsShort parts
          → check sig parts ≢ panic)
      → opening limit count check raw ≢ panic
  opening-ne-panic raw bytes checked = reject-ne-panic _ malformed _ (λ _.
      >>=-ne-panic (enroll_split raw) _ (split-ne-panic raw) (λ (fs : Bytes × Bytes) cut.
        >>=-ne-panic (enroll_read_fields count fs.0) _ (read-ne-panic count fs.0) (λ parts read.
          let (front, _, _) = enroll_split_inv raw fs.0 fs.1 cut in
          let (_, counted, b, short) =
            frame-unframe count fs.0 parts
              (subst AreBytes (sym front) (AreBytes-take (length raw - 64) raw bytes))
              (read_some count fs.0 parts read) in
          checked fs.1 parts counted b short)))

module _ (ed_verify : Bytes → Bytes → Bytes → Bool) where
  -- None of the three enrollment parsers panics, on any bytes: no index, slice or big-endian read
  -- goes past an end, and what they read can always be rendered again for the signature check.
  pub parsers_never_panic :
      (raw : Bytes) (controller_pub challenge_hash : Bytes)
      → AreBytes raw
      → (parse_enroll_challenge ed_verify raw controller_pub ≢ panic)
        × (parse_enroll_request ed_verify raw challenge_hash ≢ panic)
        × (parse_enroll_result ed_verify raw controller_pub ≢ panic)
  unfolding parse_enroll_challenge parse_enroll_request parse_enroll_result
  parsers_never_panic raw pk hash bytes = (
    opening-ne-panic enroll_challenge_max 6 (λ s ps. challenge_checked ed_verify s ps pk) raw bytes
        (λ s ps counted b short. along (challenge_checked-guarded ed_verify s ps pk counted) (
          reject-ne-panic (challenge_widths ps) malformed _ (λ w.
            reject-ne-panic (length (part 1 ps) == 0) malformed _ (λ _.
              reject-ne-panic (not (bytes_eq (part 4 ps) enroll_version)) malformed _ (λ _.
                tail-ne-panic (challenge_fields (challenge_of ps)) ps _ _
                  (challenge-parts ps counted b (challenge_widths_inv ps w).3) short))))),
    opening-ne-panic enroll_request_max 6 (λ s ps. request_checked ed_verify s ps hash) raw bytes
        (λ s ps counted b short. along (request_checked-guarded ed_verify s ps hash counted) (
          reject-ne-panic (request_widths ps) malformed _ (λ w.
            reject-ne-panic (length (part 4 ps) == 0 || ltb max_token_bytes (length (part 4 ps)))
              malformed _
              (λ _. reject-ne-panic (get_u32 (part 3 ps) == 0) malformed _ (λ _.
                reject-ne-panic (not (bytes_eq (part 0 ps) hash)) bad_challenge _ (λ _.
                  tail-ne-panic (request_fields (request_of ps)) ps _ _
                    (request-parts ps counted b (request_widths_inv ps w).3) short)))))),
    opening-ne-panic enroll_result_max 7 (λ s ps. result_checked ed_verify s ps pk) raw bytes
        (λ s ps counted b short. along (result_checked-guarded ed_verify s ps pk counted) (
          reject-ne-panic (result_widths ps) malformed _ (λ w.
            reject-ne-panic (length (part 1 ps) == 0) malformed _ (λ _.
              reject-ne-panic (get_u32 (part 4 ps) == 0) malformed _ (λ _.
                tail-ne-panic (result_fields (result_of ps)) ps _ _
                  (result-parts ps counted b (result_widths_inv ps w).3 (result_widths_inv ps w).5)
                  short))))),
  )
