-- ===== src/Protocol/Envelope/Frame.antt =====
-- internal/protocol/envelope.go, ParseEnvelope and BuildEnvelope: which frames are accepted.
use anti_nat.Common.{
  ℕ, ◌+◌, ◌-◌, ◌<◌, ◌≤◌, ◌≡◌, ◌∙◌, ◌↔◌, ◌⊎◌, inl, inr, Bool-cases, refl, sym, ap, subst, Bool, true,
  false, not, ◌&&◌, ◌||◌, ◌∷◌, ◌++◌, Option, none, some, if◌then◌else◌, ltb, ◌==◌, length, drop,
  slice, byte_at, bytes_eq, bytes_eq→eq, bytes_eq_self, u32, put_u32, get_u32, get_u32-put_u32,
  AreBytes, AreBytes-take, AreBytes-drop, length-take, length-drop, slice-drop, byte-drop, advance,
  take-append-drop, length-append, arith,
}
use anti_nat.Security.Framecrypto.{Bytes, verify_envelope, verify_envelope_size, public_key_size}
use anti_nat.Protocol.Fields.{u32_field, get_u32-IsShort}
use anti_nat.Protocol.Envelope.{
  Envelope, ProtectedHeader, Parsed, accepted, rejected, Stage, stage_framing, stage_consistency,
  stage_signature, protocol_domain, envelope_magic, wire_version, max_header_bytes,
  max_payload_bytes, direction_c2a, direction_a2c, envelope_sig_len, encode_protected_header,
  decode_protected_header, assemble, parse_decoded, parse_envelope,
}
use anti_nat.Protocol.Envelope.Header.{IsHeader, decode_protected_header_iff, decode_encoded}

-- Six checks of one stage.
six_guards :
    (s : Stage) (a b c d e f : Bool) (k : Parsed) (env : Envelope)
    → (if a
        then rejected s
        else if b
        then rejected s
        else if c
        then rejected s
        else if d
        then rejected s
        else if e
        then rejected s
        else if f
        then rejected s
        else k)
      ≡ accepted env
    → (a ≡ false)
      × (b ≡ false)
      × (c ≡ false)
      × (d ≡ false)
      × (e ≡ false)
      × (f ≡ false)
      × (k ≡ accepted env)
six_guards s true b c d e f k env h = cc
six_guards s false true c d e f k env h = cc
six_guards s false false true d e f k env h = cc
six_guards s false false false true e f k env h = cc
six_guards s false false false false true f k env h = cc
six_guards s false false false false false true k env h = cc
six_guards s false false false false false false k env h = (refl, refl, refl, refl, refl, refl, h)

last_guard :
    (s : Stage) (b : Bool) (k env : Envelope)
    → (if b then rejected s else accepted k) ≡ accepted env
    → (b ≡ false) × (k ≡ env)
last_guard s true k env h = cc
last_guard s false k env h = (refl, inj h)
  where
    inj : accepted k ≡ accepted env → k ≡ env
    inj e = ground arith

-- What the parser promises of the envelope that it returns.
pub record IsAccepted (sha256 : Bytes → Bytes) (ed_verify : Bytes → Bytes → Bytes → Bool)
    (peer : Bytes) (env : Envelope) : Type 0 where
  pub header_wf : IsHeader env.header
  pub encoded : encode_protected_header env.header ≡ some env.header_bytes
  pub header_size : env.header_len ≡ length env.header_bytes
  pub header_bound : length env.header_bytes ≤ 4096
  pub payload_size : env.payload_len ≡ length env.payload
  pub payload_bound : length env.payload ≤ 65536
  pub domain_eq : env.header.domain ≡ protocol_domain
  pub length_eq : env.header.payload_length ≡ length env.payload
  pub digest_eq : sha256 env.payload ≡ env.header.payload_sha256
  pub direction_ok : (env.header.direction ≡ 1) ⊎ (env.header.direction ≡ 2)
  pub credential_ok : 0 < env.header.agent_credential_ver
  pub verified :
      verify_envelope ed_verify peer protocol_domain env.header_bytes
        (sha256 env.payload)
        env.signature
      ≡ true

word_of :
    (raw : Bytes) (i j v : ℕ)
    → AreBytes raw
    → j ≡ i + 4
    → j ≤ length raw
    → v ≡ get_u32 (slice i j raw)
    → put_u32 (u32 v) ≡ slice i j raw
word_of raw i j v bytes next fits h =
    let w = AreBytes-take (j - i) (drop i raw) (AreBytes-drop i raw bytes) in
    ap put_u32 (small v (get_u32 (slice i j raw)) (get_u32-IsShort (slice i j raw) w) h)
    ∙ u32_field (slice i j raw) w
        (omega (arith, length-take (j - i) (drop i raw), length-drop i raw))
  where
    small : (v n : ℕ) → n < 4294967296 → v ≡ n → u32 v ≡ n
    small v n b e = omega arith

assemble_cut :
    (raw header payload sig : Bytes)
    → 13 ≤ length raw
    → slice 0 4 raw ≡ envelope_magic
    → byte_at 4 raw ≡ wire_version
    → put_u32 (u32 (length header)) ≡ slice 5 9 raw
    → put_u32 (u32 (length payload)) ≡ slice 9 13 raw
    → header ++ (payload ++ sig) ≡ drop 13 raw
    → assemble header payload sig ≡ raw
assemble_cut raw header payload sig long magic version w1 w2 rest =
    ap
      (λ (t : Bytes).
        envelope_magic
        ++ (1 ∷ (put_u32 (u32 (length header)) ++ (put_u32 (u32 (length payload)) ++ t))))
      rest
    ∙ ap
        (λ (w : Bytes).
          envelope_magic ++ (1 ∷ (put_u32 (u32 (length header)) ++ (w ++ drop 13 raw))))
        w2
    ∙ ap (λ (t : Bytes). envelope_magic ++ (1 ∷ (put_u32 (u32 (length header)) ++ t)))
        (slice-drop 9 13 raw (omega arith))
    ∙ ap (λ (w : Bytes). envelope_magic ++ (1 ∷ (w ++ drop 9 raw))) w1
    ∙ ap (λ (t : Bytes). envelope_magic ++ (1 ∷ t)) (slice-drop 5 9 raw (omega arith))
    ∙ ap (λ (b : ℕ). envelope_magic ++ (b ∷ drop 5 raw)) (sym version)
    ∙ ap (◌++◌ envelope_magic) (byte-drop 4 5 raw (omega arith) refl)
    ∙ ap (λ (m : Bytes). m ++ drop 4 raw) (sym magic)
    ∙ take-append-drop 4 raw

cuts :
    (raw : Bytes) (n m : ℕ)
    → AreBytes raw
    → length raw ≡ 13 + n + m + 64
    → slice 0 4 raw ≡ envelope_magic
    → byte_at 4 raw ≡ wire_version
    → n ≡ get_u32 (slice 5 9 raw)
    → m ≡ get_u32 (slice 9 13 raw)
    → (length (slice 13 (13 + n) raw) ≡ n)
      × (length (slice (13 + n) (13 + n + m) raw) ≡ m)
      × (assemble (slice 13 (13 + n) raw) (slice (13 + n) (13 + n + m) raw) (drop (13 + n + m) raw)
          ≡ raw)
cuts raw n m bytes total magic version hn hm = (
  size_n,
  size_m,
  assemble_cut raw _ _ _ (omega arith) magic version
      (word_of raw 5 9 _ bytes refl (omega arith) (size_n ∙ hn))
      (word_of raw 9 13 _ bytes refl (omega arith) (size_m ∙ hm))
      (ap (◌++◌ (slice 13 (13 + n) raw)) (slice-drop (13 + n) (13 + n + m) raw (omega arith))
        ∙ slice-drop 13 (13 + n) raw (omega arith)),
)
  where
    size_n : length (slice 13 (13 + n) raw) ≡ n
    size_n = omega (arith, length-take (13 + n - 13) (drop 13 raw), length-drop 13 raw)

    size_m : length (slice (13 + n) (13 + n + m) raw) ≡ m
    size_m =
        omega
          (arith, length-take (13 + n + m - (13 + n)) (drop (13 + n) raw), length-drop (13 + n) raw)

-- The parts of an assembled frame, read back.
assembled :
    (header payload sig : Bytes)
    → length header ≤ 4096
    → length payload ≤ 65536
    → length sig ≡ 64
    → let raw = assemble header payload sig in
      (slice 0 4 raw ≡ envelope_magic)
      × (byte_at 4 raw ≡ wire_version)
      × (get_u32 (slice 5 9 raw) ≡ length header)
      × (get_u32 (slice 9 13 raw) ≡ length payload)
      × (slice 13 (13 + length header) raw ≡ header)
      × (slice (13 + length header) (13 + length header + length payload) raw ≡ payload)
      × (drop (13 + length header + length payload) raw ≡ sig)
      × (length raw ≡ 13 + length header + length payload + 64)
assembled header payload sig bh bp bs =
    let raw = assemble header payload sig in
    let n = length header in
    let m = length payload in
    let (h, t0) = advance 13 (13 + n) raw header (payload ++ sig) refl refl in
    let (p, t1) = advance (13 + n) (13 + n + m) raw payload sig refl t0 in
    (
      refl,
      refl,
      ap get_u32 {x = slice 5 9 raw} {y = put_u32 (u32 n)} refl
          ∙ ap get_u32 (ap put_u32 (fits n (omega arith)))
          ∙ get_u32-put_u32 n (omega arith),
      ap get_u32 {x = slice 9 13 raw} {y = put_u32 (u32 m)} refl
          ∙ ap get_u32 (ap put_u32 (fits m (omega arith)))
          ∙ get_u32-put_u32 m (omega arith),
      h,
      p,
      t1,
      omega (arith, length-append header (payload ++ sig), length-append payload sig),
    )
  where
    fits : (v : ℕ) → v < 4294967296 → u32 v ≡ v
    fits v b = omega arith

module _ (sha256 : Bytes → Bytes) (ed_verify : Bytes → Bytes → Bytes → Bool) where
  -- What the checks after the framing give.
  parse_decoded_inv :
      (peer : Bytes) (n m : ℕ) (hb p sig : Bytes) (o : Option ProtectedHeader) (env : Envelope)
      → parse_decoded sha256 ed_verify peer n m hb p sig o ≡ accepted env
      → (h : ProtectedHeader) × (o ≡ some h)
        × (h.domain ≡ protocol_domain)
        × (h.payload_length ≡ m)
        × (sha256 p ≡ h.payload_sha256)
        × ((h.direction ≡ 1) ⊎ (h.direction ≡ 2))
        × (0 < h.agent_credential_ver)
        × (verify_envelope ed_verify peer protocol_domain hb (sha256 p) sig ≡ true)
        × (record {
          header_len = n;
          payload_len = m;
          header = h;
          header_bytes = hb;
          payload = p;
          signature = sig;
        }
            ≡ env)
  parse_decoded_inv peer n m hb p sig none env q = absurd (ground arith)
  parse_decoded_inv peer n m hb p sig (some h) env q =
      let valid = verify_envelope ed_verify peer h.domain hb h.payload_sha256 sig in
      let (dom, len, digest, dir, cred, key, k) =
        six_guards stage_consistency (not (bytes_eq h.domain protocol_domain))
          (not (h.payload_length == m)) (not (bytes_eq (sha256 p) h.payload_sha256))
          (not (h.direction == direction_c2a) && not (h.direction == direction_a2c))
          (h.agent_credential_ver == 0) (not (length peer == public_key_size)) _ env q in
      let (v, same) = last_guard stage_signature (not valid) _ env k in
      let domain_eq = bytes_eq→eq h.domain protocol_domain (holds _ dom) in
      let digest_eq = bytes_eq→eq (sha256 p) h.payload_sha256 (holds _ digest) in
      (
        h,
        refl,
        domain_eq,
        ground arith,
        digest_eq,
        direction h.direction dir,
        ground arith,
        rw (← domain_eq, digest_eq) (holds valid v),
        same,
      )
    where
      holds : (b : Bool) → not b ≡ false → b ≡ true
      holds true e = refl
      holds false e = cc

      direction :
          (d : ℕ)
          → (not (d == direction_c2a) && not (d == direction_a2c)) ≡ false
          → (d ≡ 1) ⊎ (d ≡ 2)
      direction d e = elim (Bool-cases (d == 1)) [
        | inl f ↦ inl (ground arith)
        | inr f ↦ inr (ground arith)
      ]

  sound :
      (frame peer : Bytes) (env : Envelope)
      → AreBytes frame
      → parse_envelope sha256 ed_verify frame peer ≡ accepted env
      → IsAccepted sha256 ed_verify peer env
        × (frame ≡ assemble env.header_bytes env.payload env.signature)
  unfolding parse_envelope
  sound frame peer env bytes q =
      let n = get_u32 (slice 5 9 frame) in
      let m = get_u32 (slice 9 13 frame) in
      let hb = slice 13 (13 + n) frame in
      let p = slice (13 + n) (13 + n + m) frame in
      let sig = drop (13 + n + m) frame in
      let (long, magic, version, hsize, psize, total, k) =
        six_guards stage_framing (ltb (length frame) (13 + envelope_sig_len))
          (not (bytes_eq (slice 0 4 frame) envelope_magic)) (not (byte_at 4 frame == wire_version))
          ((n == 0) || ltb max_header_bytes n) (ltb max_payload_bytes m)
          (not (length frame == 13 + n + m + envelope_sig_len)) _ env q in
      let (h, decoded, dom, len, digest, dir, cred, valid, same) =
        parse_decoded_inv peer n m hb p sig (decode_protected_header hb) env k in
      let (size_n, size_m, whole) =
        cuts frame n m bytes (ground arith) (bytes_eq→eq _ _ (ground arith)) (ground arith) refl
          refl in
      let (wf, encoded) =
        (decode_protected_header_iff hb h
            (AreBytes-take (13 + n - 13) (drop 13 frame) (AreBytes-drop 13 frame bytes))).0
          decoded in
      (
        subst (IsAccepted sha256 ed_verify peer) same (record {
          header_wf = wf;
          encoded = encoded;
          header_size = sym size_n;
          header_bound = ground arith;
          payload_size = sym size_m;
          payload_bound = ground arith;
          domain_eq = dom;
          length_eq = len ∙ sym size_m;
          digest_eq = digest;
          direction_ok = dir;
          credential_ok = cred;
          verified = valid;
        }),
        sym whole ∙ ap (λ (e : Envelope). assemble e.header_bytes e.payload e.signature) same,
      )

  decoded_complete :
      (peer : Bytes) (env : Envelope)
      → IsAccepted sha256 ed_verify peer env
      → parse_decoded sha256 ed_verify peer env.header_len env.payload_len env.header_bytes
          env.payload env.signature
          (some env.header)
        ≡ accepted env
  decoded_complete peer env v =
      rw (domain, len, digest, direction env.header.direction v.direction_ok, cred, key, valid) refl
    where
      domain : bytes_eq env.header.domain protocol_domain ≡ true
      domain = rw v.domain_eq (bytes_eq_self protocol_domain)

      len : (env.header.payload_length == env.payload_len) ≡ true
      len = ground (arith, v.length_eq, v.payload_size)

      digest : bytes_eq (sha256 env.payload) env.header.payload_sha256 ≡ true
      digest = rw v.digest_eq (bytes_eq_self env.header.payload_sha256)

      direction :
          (d : ℕ)
          → (d ≡ 1) ⊎ (d ≡ 2)
          → (not (d == direction_c2a) && not (d == direction_a2c)) ≡ false
      direction d (inl e) = ground arith
      direction d (inr e) = ground arith

      cred : (env.header.agent_credential_ver == 0) ≡ false
      cred = ground (arith, v.credential_ok)

      key : (length peer == public_key_size) ≡ true
      key = ground (arith, (verify_envelope_size ed_verify peer _ _ _ _ v.verified).0)

      valid :
          verify_envelope ed_verify peer env.header.domain env.header_bytes
            env.header.payload_sha256 env.signature
          ≡ true
      valid = rw (v.domain_eq, ← v.digest_eq) v.verified

  framed :
      (frame hb p sig peer : Bytes)
      → 0 < length hb
      → length hb ≤ 4096
      → length p ≤ 65536
      → slice 0 4 frame ≡ envelope_magic
      → byte_at 4 frame ≡ wire_version
      → get_u32 (slice 5 9 frame) ≡ length hb
      → get_u32 (slice 9 13 frame) ≡ length p
      → slice 13 (13 + length hb) frame ≡ hb
      → slice (13 + length hb) (13 + length hb + length p) frame ≡ p
      → drop (13 + length hb + length p) frame ≡ sig
      → length frame ≡ 13 + length hb + length p + 64
      → parse_envelope sha256 ed_verify frame peer
        ≡ parse_decoded sha256 ed_verify peer
            (length hb)
            (length p)
            hb
            p
            sig
            (decode_protected_header hb)
  unfolding parse_envelope
  framed frame hb p sig peer nonempty bh bp magic version n m eh ep es total =
      rw (n, m, eh, ep, es, long, magic, version, hsize, psize, whole) refl
    where
      long : ltb (length frame) (13 + envelope_sig_len) ≡ false
      long = ground arith

      hsize : ((length hb == 0) || ltb max_header_bytes (length hb)) ≡ false
      hsize = ground arith

      psize : ltb max_payload_bytes (length p) ≡ false
      psize = ground arith

      whole : (length frame == 13 + length hb + length p + envelope_sig_len) ≡ true
      whole = ground arith

  pub complete :
      (frame peer : Bytes) (env : Envelope)
      → IsAccepted sha256 ed_verify peer env
      → frame ≡ assemble env.header_bytes env.payload env.signature
      → parse_envelope sha256 ed_verify frame peer ≡ accepted env
  unfolding parse_envelope
  complete frame peer env v e =
      let sizes = verify_envelope_size ed_verify peer _ _ _ _ v.verified in
      let (decoded, nonempty) = decode_encoded env.header_bytes env.header v.header_wf v.encoded in
      let (magic, version, n, m, hb, p, sig, total) =
        assembled env.header_bytes env.payload env.signature v.header_bound v.payload_bound
          sizes.1 in
      ap (λ (f : Bytes). parse_envelope sha256 ed_verify f peer) e
      ∙ framed (assemble env.header_bytes env.payload env.signature) env.header_bytes env.payload
          env.signature peer nonempty v.header_bound v.payload_bound magic version n m hb p sig
          total
      ∙ rw (decoded, ← v.header_size, ← v.payload_size) (decoded_complete peer env v)

  -- A byte string is accepted as an envelope exactly when it is the magic, the version, the two
  -- lengths, the header's bytes, the payload and the signature of that envelope in order, and the
  -- envelope is right: its header is well formed and encodes to those bytes, of at most 4096, the
  -- payload has at most 65536 bytes, the header names the control domain, the payload's length and
  -- its SHA-256, a direction and a credential version that is not zero, and the signature over
  -- domain, header and digest verifies under the peer's key.
  pub parse_envelope_iff :
      (frame peer : Bytes) (env : Envelope)
      → AreBytes frame
      → (parse_envelope sha256 ed_verify frame peer ≡ accepted env) ↔ (
          IsAccepted sha256 ed_verify peer env
          × (frame ≡ assemble env.header_bytes env.payload env.signature))
  parse_envelope_iff frame peer env bytes =
      (sound frame peer env bytes, (λ p. complete frame peer env p.0 p.1))
