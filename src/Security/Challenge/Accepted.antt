-- ===== src/Security/Challenge/Accepted.antt =====
-- internal/security/challenge.go with internal/protocol/enrollment.go: an agent reads the challenge
-- that was issued, and the controller consumes it for the node it was issued to.
use anti_nat.Common.{
  ℕ, ◌+◌, ◌-◌, ◌≤◌, ◌<◌, ◌≡◌, inl, inr, refl, sym, ap, ◌∙◌, subst, Bool, true, false, ◌++◌, Option,
  none, some, ltb, leb, length, replicate, Bool-cases, length-append, length-replicate, arith,
}
use anti_nat.Common.ByteMap.{lookup, insert, evict, lookup_hit}
use anti_nat.Security.Framecrypto.{Bytes, verify, verify_size, domain_separated_message}
use anti_nat.Protocol.Fields.{length-frame}
use anti_nat.Protocol.Enrollment.{
  EnrollChallenge, Outcome, ok, err, panic, challenge_canonical, challenge_signing_bytes,
  challenge_fields, parse_enroll_challenge, enroll_domain,
}
use anti_nat.Protocol.Enrollment.Codec.{enroll_encode_inv}
use anti_nat.Protocol.Enrollment.Challenge.{IsChallenge, parse_enroll_challenge_of}
use anti_nat.Security.Challenge.{
  ChallengeManager, ChallengeEntry, ChallengeError, Clock, Issued, issued, not_issued, consumed,
  entry_dead, node_id_bytes, challenge_for, issue_signed, issue_encoded, issue_fresh, issue_for,
  issue, validate_and_consume, positive, reached,
}

node_id_bytes_inv : (node_id node : Bytes) → node_id_bytes node_id ≡ some node → length node ≡ 16
node_id_bytes_inv node_id node h = elim (Bool-cases (ltb 16 (length node_id))) [
  | inl e ↦ absurd (no (rw e at h))
  | inr e ↦
      ap length (sym (inj (rw e at h)))
      ∙ length-append node_id (replicate (16 - length node_id) 0)
      ∙ omega (arith, length-replicate {A = ℕ} (16 - length node_id) 0, small e)
]
  where
    no : none ≡ some node → ⊥
    no q = ground arith

    small : ltb 16 (length node_id) ≡ false → length node_id ≤ 16
    small e = ground arith

    inj :
        some (node_id ++ replicate (16 - length node_id) 0) ≡ some node
        → node_id ++ replicate (16 - length node_id) 0 ≡ node
    inj q = ground arith

length-challenge :
    (c : EnrollChallenge) (body : Bytes)
    → IsChallenge c
    → challenge_canonical c ≡ ok body
    → length body ≡ 97 + length c.controller_key_id
length-challenge c body z h =
    let (_, same) = enroll_encode_inv (challenge_fields c) body h in
    ap length (sym same)
    ∙ omega (
      arith,
      length-frame (challenge_fields c),
      z.instance_size,
      z.node_size,
      z.nonce_size,
      ap length z.version,
    )

module _ (sha256 : Bytes → Bytes) (signer : Bytes → Option Bytes) where
  issue_encoded_inv :
      (m m' : ChallengeManager) (e : ChallengeEntry) (ch c : EnrollChallenge)
      (canonical signing : Outcome Bytes) (raw : Bytes)
      → issue_encoded sha256 signer m e ch canonical signing ≡ (m', issued c raw)
      → (body s sig : Bytes) × (canonical ≡ ok body)
        × (signing ≡ ok s)
        × (signer s ≡ some sig)
        × (ch ≡ c)
        × (raw ≡ body ++ sig)
        × (record m { cache = insert (sha256 body) e m.cache } ≡ m')
  issue_encoded_inv m m' e ch c (ok body) (ok s) raw h =
      let (sig, signed, same, whole, stored_eq) = by_signature (signer s) h in
      (body, s, sig, refl, refl, signed, same, whole, stored_eq)
    where
      stored : ChallengeManager
      stored = record m { cache = insert (sha256 body) e m.cache }

      by_signature :
          (o : Option Bytes)
          → issue_signed sha256 signer stored (sha256 body) ch body o ≡ (m', issued c raw)
          → (sig : Bytes) × (o ≡ some sig) × (ch ≡ c) × (raw ≡ body ++ sig) × (stored ≡ m')
      by_signature none q = absurd (ground arith)
      by_signature (some sig) q = (sig, refl, ground arith, ground arith, ground arith)
  issue_encoded_inv m m' e ch c (ok body) (err x) raw h = absurd (ground arith)
  issue_encoded_inv m m' e ch c (ok body) panic raw h = absurd (ground arith)
  issue_encoded_inv m m' e ch c (err x) signing raw h = absurd (ground arith)
  issue_encoded_inv m m' e ch c panic signing raw h = absurd (ground arith)

  issue_for_inv :
      (m m' : ChallengeManager) (instance_id key_id node_id : Bytes) (padded : Option Bytes)
      (nonce : Bytes) (clock : Clock) (c : EnrollChallenge) (raw : Bytes)
      → issue_for sha256 signer m instance_id key_id node_id padded (some nonce) clock
        ≡ (m', issued c raw)
      → (node : Bytes) × (m1 : ChallengeManager) × (padded ≡ some node)
        × (m1.ttl ≡ m.ttl)
        × (issue_fresh sha256 signer m1 instance_id key_id node_id node (some nonce) clock
            ≡ (m', issued c raw))
  unfolding issue_for
  issue_for_inv m m' instance_id key_id node_id none nonce clock c raw h = absurd (ground arith)
  issue_for_inv m m' instance_id key_id node_id (some node) nonce clock c raw h =
      elim (Bool-cases (positive m.max)) [
        | inl p ↦
            elim (Bool-cases (reached (length (evict (entry_dead clock.evict_at) m.cache)) m.max)) [
              | inl r ↦ absurd (full (rw (p, r) at h))
              | inr r ↦ (node, _, refl, refl, rw (p, r) at h)
            ]
        | inr p ↦ (node, m, refl, refl, rw p at h)
      ]
    where
      full :
          {x : ChallengeManager} {e : ChallengeError}
          → ◌≡◌ {A = ChallengeManager × Issued} (x, not_issued e) (m', issued c raw)
          → ⊥
      full q = ground arith

  issue_fresh_inv :
      (m m' : ChallengeManager) (instance_id key_id node_id node nonce : Bytes) (clock : Clock)
      (c : EnrollChallenge) (raw : Bytes)
      → issue_fresh sha256 signer m instance_id key_id node_id node (some nonce) clock
        ≡ (m', issued c raw)
      → (body sig : Bytes) × (challenge_for instance_id key_id node nonce (clock.wire_at + m.ttl)
          ≡ c)
        × (challenge_canonical c ≡ ok body)
        × (signer (domain_separated_message enroll_domain body) ≡ some sig)
        × (raw ≡ body ++ sig)
        × (lookup (sha256 body) m'.cache
            ≡ some (record {
              node_id = node_id;
              instance_id = instance_id;
              expiry = clock.cache_at + m.ttl;
              used = false;
            }))
  unfolding issue_fresh
  issue_fresh_inv m m' instance_id key_id node_id node nonce clock c raw h =
      let ch = challenge_for instance_id key_id node nonce (clock.wire_at + m.ttl) in
      let (body, s, sig, canonical, signing, signed, same, whole, stored) =
        issue_encoded_inv m m' _ ch c (challenge_canonical ch) (challenge_signing_bytes ch) raw h in
      (
        body,
        sig,
        same,
        ap challenge_canonical (sym same) ∙ canonical,
        ap signer (signing_eq ch body s canonical signing) ∙ signed,
        whole,
        ap (λ (x : ChallengeManager). lookup (sha256 body) x.cache) (sym stored)
            ∙ lookup_hit (sha256 body) _ _,
      )
    where
      signing_eq :
          (ch : EnrollChallenge) (body s : Bytes)
          → challenge_canonical ch ≡ ok body
          → challenge_signing_bytes ch ≡ ok s
          → domain_separated_message enroll_domain body ≡ s
      signing_eq ch body s p q = inj (rw p at q)
        where
          inj :
              ok (domain_separated_message enroll_domain body) ≡ ok s
              → domain_separated_message enroll_domain body ≡ s
          inj e = ground arith

  module _ (ed_verify : Bytes → Bytes → Bytes → Bool) where
    -- If a key verifies what the signer signs, and the instance has 16 bytes, the key identifier 1
    -- to 255 and the nonce 32, then the bytes of a challenge that was issued are parsed by the
    -- agent, under that key, as that challenge, and its hash, presented before the expiry that was
    -- stored, is consumed for the node that it was issued to.
    pub issued_challenge_accepted :
        (m m' : ChallengeManager) (instance_id key_id node_id nonce : Bytes) (clock : Clock)
        (c : EnrollChallenge) (raw pk : Bytes) (now : ℕ)
        → length instance_id ≡ 16
        → (0 < length key_id) × (length key_id ≤ 255)
        → length nonce ≡ 32
        → ((message sig : Bytes)
            → signer message ≡ some sig
            → verify ed_verify pk message sig ≡ true)
        → issue sha256 signer m instance_id key_id node_id (some nonce) clock ≡ (m', issued c raw)
        → now < clock.cache_at + m.ttl
        → (parse_enroll_challenge ed_verify raw pk ≡ ok c)
          × ((body : Bytes) × (challenge_canonical c ≡ ok body)
              × ((validate_and_consume m' (sha256 body) now).1 ≡ consumed node_id))
    unfolding issue validate_and_consume
    issued_challenge_accepted m m' instance_id key_id node_id nonce clock c raw pk now size_i size_k
          size_n honest h live =
        let (node, m1, padded, ttl, fresh) =
          issue_for_inv m m' instance_id key_id node_id (node_id_bytes node_id) nonce clock c raw
            h in
        let (body, sig, same, canonical, signed, whole, cached) =
          issue_fresh_inv m1 m' instance_id key_id node_id node nonce clock c raw fresh in
        let valid = honest (domain_separated_message enroll_domain body) sig signed in
        let z : IsChallenge c = subst IsChallenge same (record {
          instance_size = size_i;
          key_id_size = size_k.0;
          node_size = node_id_bytes_inv node_id node padded;
          nonce_size = size_n;
          version = refl;
          expiry_bound = omega arith;
        }) in
        let key : length c.controller_key_id ≡ length key_id =
          ap (λ (x : EnrollChallenge). length x.controller_key_id) (sym same) in
        (
          parse_enroll_challenge_of ed_verify raw pk c z (
            body,
            sig,
            canonical,
            whole,
            omega (
              arith,
              ap length whole,
              length-append body sig,
              length-challenge c body z canonical,
              key,
              (verify_size ed_verify pk _ sig valid).1,
              size_k.1,
            ),
            valid,
          ),
          (body, canonical, rw (cached, alive m1.ttl ttl) refl),
        )
      where
        alive : (t : ℕ) → t ≡ m.ttl → leb (clock.cache_at + t) now ≡ false
        alive t e = ground arith
