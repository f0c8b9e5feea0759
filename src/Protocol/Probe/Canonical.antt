-- ===== src/Protocol/Probe/Canonical.antt =====
-- internal/protocol/probe.go: the provider frame's bytes and its parser determine each other, and
-- no two kinds of frame sign the same bytes.
use anti_nat.Common.{
  ℕ, ◌+◌, ◌-◌, ◌≤◌, ◌<◌, ◌≡◌, ◌≢◌, refl, sym, ap, ◌∙◌, Bool, true, false, [], ◌∷◌, ◌++◌,
  append_assoc, ◌==◌, length, take, drop, slice, byte_at, bytes_eq→eq, u8, length-take, length-drop,
  take-append-drop, AreBytes, byte_at-IsByte, slice-drop, byte-drop, advance, byte_of-drop, arith,
}
use anti_nat.Security.Framecrypto.{Bytes}
use anti_nat.Protocol.Endpoint.Literal.{validate_probe_endpoint}
use anti_nat.Protocol.Probe.{
  ProbeArm, ProbeArmed, ProviderFrame, ProbeAck, ProbeReceipt, ok, magic_wan, arm_canonical,
  armed_signing_bytes, frame_canonical, frame_signing_bytes, ack_signing_bytes,
  receipt_signing_bytes, parse_provider_frame, frame_fields, frame_checked,
}

-- The sizes of the frame's fixed arrays and of its endpoint.
pub record IsSized (f : ProviderFrame) : Type 0 where
  pub digest_size : length f.arm_digest ≡ 32
  pub probe_size : length f.probe_id ≡ 16
  pub provider_size : length f.provider_id ≡ 16
  pub activation_size : length f.activation ≡ 16
  pub endpoint_size : (0 < length f.endpoint) × (length f.endpoint ≤ 255)
  pub expiry_size : length f.expiry_opaque ≡ 16
  pub challenge_size : length f.challenge ≡ 32
  pub signature_size : length f.signature ≡ 64

checked→ok :
    (raw : Bytes) (n : ℕ) (g f : ProviderFrame) (v : Bool)
    → frame_checked raw n g v ≡ ok f
    → (take 4 raw ≡ magic_wan) × (length raw ≡ 85 + n + 112) × (0 < n) × (v ≡ true) × (g ≡ f)
unfolding frame_checked
checked→ok raw n g f v h =
    (bytes_eq→eq _ _ (ground arith), ground arith, ground arith, ground arith, ground arith)

ok→checked :
    (raw : Bytes) (n : ℕ) (g : ProviderFrame) (v : Bool)
    → take 4 raw ≡ magic_wan
    → length raw ≡ 85 + n + 112
    → 0 < n
    → n ≤ 255
    → v ≡ true
    → frame_checked raw n g v ≡ ok g
unfolding frame_checked
ok→checked raw n g v magic total some few valid = rw (magic, total, valid) (ground arith)

-- The wire form with its parts in order.
flat : ProviderFrame → Bytes
flat f =
    magic_wan
    ++ (f.arm_digest
        ++ (f.probe_id
            ++ (f.provider_id
                ++ (f.activation
                    ++ (u8 (length f.endpoint)
                        ∷ (f.endpoint ++ (f.expiry_opaque ++ (f.challenge ++ f.signature))))))))

flat-canonical : (f : ProviderFrame) → frame_canonical f ++ f.signature ≡ flat f
unfolding frame_canonical flat
flat-canonical f = simp append_assoc

flat-fields :
    (raw : Bytes)
    → AreBytes raw
    → length raw ≡ 85 + byte_at 84 raw + 112
    → take 4 raw ≡ magic_wan
    → flat (frame_fields raw (byte_at 84 raw)) ≡ raw
unfolding flat frame_fields
flat-fields raw bytes total magic =
    let n = byte_at 84 raw in
    rw
      (
        slice-drop (85 + n + 16) (85 + n + 16 + 32) raw (omega arith),
        slice-drop (85 + n) (85 + n + 16) raw (omega arith),
        slice-drop 85 (85 + n) raw (omega arith),
        endpoint_length,
        byte-drop 84 85 raw (omega arith) refl,
        slice-drop 68 84 raw (omega arith),
        slice-drop 52 68 raw (omega arith),
        slice-drop 36 52 raw (omega arith),
        slice-drop 4 36 raw (omega arith),
      )
      (ap (λ (m : Bytes). m ++ drop 4 raw) (sym magic) ∙ take-append-drop 4 raw)
  where
    endpoint_length : u8 (length (slice 85 (85 + byte_at 84 raw) raw)) ≡ byte_at 84 raw
    endpoint_length = omega (
      arith,
      length-take (85 + byte_at 84 raw - 85) (drop 85 raw),
      length-drop 85 raw,
      byte_at-IsByte 84 raw bytes,
    )

-- A byte string that parses is the canonical bytes of the frame followed by its signature.
pub parse_provider_frame-canonical :
    (raw : Bytes) (f : ProviderFrame)
    → AreBytes raw
    → parse_provider_frame raw ≡ ok f
    → frame_canonical f ++ f.signature ≡ raw
unfolding parse_provider_frame
parse_provider_frame-canonical raw f bytes h =
    let (magic, total, some, valid, same) = checked→ok raw (byte_at 84 raw) _ f _ h in
    flat-canonical f ∙ ap flat (sym same) ∙ flat-fields raw bytes total magic

fields-flat :
    (f : ProviderFrame)
    → IsSized f
    → (byte_at 84 (flat f) ≡ length f.endpoint)
      × (length (flat f) ≡ 85 + length f.endpoint + 112)
      × (take 4 (flat f) ≡ magic_wan)
      × (frame_fields (flat f) (length f.endpoint) ≡ f)
unfolding frame_fields flat
fields-flat f z =
    let n = length f.endpoint in
    let raw = flat f in
    let (m, t0) = advance 0 4 raw magic_wan _ refl flat_eq in
    let (d, t1) = advance 4 36 raw f.arm_digest _ (omega arith) t0 in
    let (p, t2) = advance 36 52 raw f.probe_id _ (omega arith) t1 in
    let (v, t3) = advance 52 68 raw f.provider_id _ (omega arith) t2 in
    let (a, t4) = advance 68 84 raw f.activation _ (omega arith) t3 in
    let (l, t5) = advance 84 85 raw (u8 n ∷ []) _ refl t4 in
    let (e, t6) = advance 85 (85 + n) raw f.endpoint _ refl t5 in
    let (x, t7) = advance (85 + n) (85 + n + 16) raw f.expiry_opaque _ (omega arith) t6 in
    let (c, t8) =
      advance (85 + n + 16) (85 + n + 16 + 32) raw f.challenge f.signature (omega arith) t7 in
    (byte_of-drop 84 _ raw _ t4 ∙ omega arith, total t8, refl, rw (d, p, v, a, e, x, c, t8) refl)
  where
    total :
        drop (85 + length f.endpoint + 16 + 32) (flat f) ≡ f.signature
        → length (flat f) ≡ 85 + length f.endpoint + 112
    total e =
        omega (arith, sym (length-drop (85 + length f.endpoint + 16 + 32) (flat f)) ∙ ap length e)

    flat_eq : drop 0 (flat f) ≡ flat f
    flat_eq = refl

-- A frame of the right sizes whose endpoint is valid is read back from its canonical bytes and its
-- signature.
pub parse_provider_frame_round_trip :
    (f : ProviderFrame)
    → IsSized f
    → validate_probe_endpoint f.endpoint ≡ true
    → parse_provider_frame (frame_canonical f ++ f.signature) ≡ ok f
unfolding parse_provider_frame
parse_provider_frame_round_trip f z valid =
    let (len, total, magic, same) = fields-flat f z in
    rw (flat-canonical f, len, same)
      (ok→checked (flat f) (length f.endpoint) f (validate_probe_endpoint f.endpoint) magic total
        z.endpoint_size.0 z.endpoint_size.1 valid)

apart : (i : ℕ) (xs ys : Bytes) → (byte_at i xs == byte_at i ys) ≡ false → xs ≢ ys
apart i xs ys h e = clash (byte_at i xs) (byte_at i ys) h (ap (byte_at i) e)
  where
    clash : (x y : ℕ) → (x == y) ≡ false → x ≡ y → ⊥
    clash x y p q = ground arith

-- The bytes that are signed in an arm, an armed response, a provider frame, an ACK and a receipt
-- are pairwise different, whatever the frames hold.
pub signing_bytes_are_separate :
    (arm : ProbeArm) (a : ProbeArmed) (f : ProviderFrame) (k : ProbeAck) (r : ProbeReceipt)
    → (arm_canonical arm ≢ armed_signing_bytes a)
      × (arm_canonical arm ≢ frame_signing_bytes f)
      × (arm_canonical arm ≢ ack_signing_bytes k)
      × (arm_canonical arm ≢ receipt_signing_bytes r)
      × (armed_signing_bytes a ≢ frame_signing_bytes f)
      × (armed_signing_bytes a ≢ ack_signing_bytes k)
      × (armed_signing_bytes a ≢ receipt_signing_bytes r)
      × (frame_signing_bytes f ≢ ack_signing_bytes k)
      × (frame_signing_bytes f ≢ receipt_signing_bytes r)
      × (ack_signing_bytes k ≢ receipt_signing_bytes r)
unfolding arm_canonical armed_signing_bytes frame_canonical ack_signing_bytes receipt_signing_bytes
signing_bytes_are_separate arm a f k r = (
  apart 0 _ _ refl,
  apart 0 _ _ refl,
  apart 1 _ _ refl,
  apart 0 _ _ refl,
  apart 0 _ _ refl,
  apart 0 _ _ refl,
  apart 1 _ _ refl,
  apart 0 _ _ refl,
  apart 0 _ _ refl,
  apart 0 _ _ refl,
)
