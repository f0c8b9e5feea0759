-- ===== src/Protocol/Enrollment/Opening.antt =====
-- internal/protocol/enrollment.go: what the three parsers do before they look at the parts.
use anti_nat.Common.{
  ℕ, ◌-◌, ◌<◌, ◌≤◌, ◌≡◌, ◌∙◌, inl, inr, refl, sym, ap, subst, Bool, true, false, not, List, [], ◌∷◌,
  ◌++◌, ltb, length, AreBytes, AreBytes-take, All, Bool-cases, arith,
}
use anti_nat.Security.Framecrypto.{Bytes, verify, verify_size, domain_separated_message}
use anti_nat.Protocol.Fields.{frame, IsShort, frame-unframe}
use anti_nat.Protocol.Enrollment.{
  Outcome, ok, err, panic, EnrollError, enroll_domain, malformed, bad_signature, ◌>>=◌, ◌>>◌,
  reject_if, panic_if, enroll_encode, enroll_read_fields, enroll_split,
}
use anti_nat.Protocol.Enrollment.Codec.{
  read_some, read_frame, enroll_encode-frame, enroll_encode_inv, enroll_split_inv,
  enroll_split_append,
}

-- A chain that ends well had a first step that ended well.
pub then_ok {ℓ₁ ℓ₂} :
    {X : Type ℓ₁} {Y : Type ℓ₂} (step : Outcome X) (next : X → Outcome Y) {y : Y}
    → (step >>= next) ≡ ok y
    → (x : X) × (step ≡ ok x) × (next x ≡ ok y)
then_ok panic next q = cc
then_ok (err reason) next q = cc
then_ok (ok x) next q = (x, refl, q)

-- What is not rejected meets no ground for rejection.
pub reject_if_inv : (b : Bool) (e : EnrollError) {u : Unit {0}} → reject_if b e ≡ ok u → b ≡ false
reject_if_inv true e h = cc
reject_if_inv false e h = refl

pub reject_if_then {ℓ} :
    {A : Type ℓ} (b : Bool) (e : EnrollError) (k : Outcome A) (a : A)
    → (reject_if b e >> k) ≡ ok a
    → (b ≡ false) × (k ≡ ok a)
reject_if_then true e k a h = cc
reject_if_then false e k a h = (refl, h)

-- A panic that cannot happen, and a rejection with what follows when it does not happen.
pub no_panic {ℓ} : {A : Type ℓ} (b : Bool) (k : Outcome A) → b ≡ false → (panic_if b >> k) ≡ k
no_panic true k h = cc
no_panic false k h = refl

pub past_reject {ℓ} :
    {A : Type ℓ} (b : Bool) (e : EnrollError) (k later : Outcome A)
    → (b ≡ false → k ≡ later)
    → (reject_if b e >> k) ≡ (reject_if b e >> later)
past_reject true e k later h = refl
past_reject false e k later h = h refl

-- Three checks, and the signature's over the bytes to be signed.
pub guarded_inv {ℓ} :
    {M : Type ℓ} (a b c : Bool) (third : EnrollError) (signed : Outcome Bytes) (bad : Bytes → Bool)
    (k m : M)
    → (reject_if a malformed
        >> (reject_if b malformed
            >> (reject_if c third >> (signed >>= λ s. reject_if (bad s) bad_signature >> ok k))))
      ≡ ok m
    → (a ≡ false)
      × (b ≡ false)
      × (c ≡ false)
      × (k ≡ m)
      × ((s : Bytes) × (signed ≡ ok s) × (bad s ≡ false))
guarded_inv true b c third signed bad k m h = cc
guarded_inv false true c third signed bad k m h = cc
guarded_inv false false true third signed bad k m h = cc
guarded_inv false false false third (err e) bad k m h = cc
guarded_inv false false false third panic bad k m h = cc
guarded_inv false false false third (ok s) bad k m h = elim (Bool-cases (bad s)) [
  | inl e ↦ absurd (refused (rw e at h))
  | inr e ↦ (refl, refl, refl, accepted (rw e at h), (s, refl, e))
]
  where
    refused : err bad_signature ≡ ok m → ⊥
    refused q = ground arith

    accepted : ok k ≡ ok m → k ≡ m
    accepted q = ground arith

-- The bytes to be signed, from the fields.
abbrev pub signing_of : List Bytes → Outcome Bytes
signing_of fields = do
  canonical ← enroll_encode fields
  ok (domain_separated_message enroll_domain canonical)

pub signing_of-frame :
    (fields : List Bytes)
    → All IsShort fields
    → signing_of fields ≡ ok (domain_separated_message enroll_domain (frame fields))
signing_of-frame fields short = rw (enroll_encode-frame fields short) refl

pub verified :
    (verify : Bytes → Bool) (fields parts : List Bytes) (s : Bytes)
    → All IsShort parts
    → fields ≡ parts
    → signing_of fields ≡ ok s
    → not (verify s) ≡ false
    → verify (domain_separated_message enroll_domain (frame parts)) ≡ true
verified verify fields parts s short same signed h =
    subst (λ (b : Bytes). verify b ≡ true)
      (inj (sym signed ∙ ap signing_of same ∙ signing_of-frame parts short)) (holds (verify s) h)
  where
    holds : (b : Bool) → not b ≡ false → b ≡ true
    holds true e = refl
    holds false e = cc

    inj :
        ok s ≡ ok (domain_separated_message enroll_domain (frame parts))
        → s ≡ domain_separated_message enroll_domain (frame parts)
    inj q = ground arith

-- The parts that a message was read from, and its signature.
pub record Opened (limit count : ℕ) (raw : Bytes) (parts : List Bytes) (sig : Bytes) : Type 0 where
  pub within : length raw ≤ limit
  pub assembled : raw ≡ frame parts ++ sig
  pub counted : length parts ≡ count
  pub bytes : All AreBytes parts
  pub short : All IsShort parts
  pub signature_length : length sig ≡ 64

frame_nonempty : (parts : List Bytes) → 0 < length parts → 0 < length (frame parts)
unfolding frame
frame_nonempty [] h = absurd (omega arith)
frame_nonempty (p ∷ parts) h = omega arith

module _ {ℓ} {M : Type ℓ} (limit count : ℕ) (check : Bytes → List Bytes → Outcome M) where
  abbrev pub opening : Bytes → Outcome M
  opening raw = do
    reject_if (ltb limit (length raw)) malformed
    (fields, sig) ← enroll_split raw
    parts ← enroll_read_fields count fields
    check sig parts

  pub opening_inv :
      (raw : Bytes) (m : M)
      → AreBytes raw
      → opening raw ≡ ok m
      → (parts : List Bytes) × (sig : Bytes) × Opened limit count raw parts sig
        × (check sig parts ≡ ok m)
  opening_inv raw m bytes h =
      let (_, small, h1) = then_ok _ _ h in
      let ((fields, sig), cut, h2) = then_ok _ _ h1 in
      let (parts, read, done) = then_ok _ _ h2 in
      let (front, whole, size) = enroll_split_inv raw fields sig cut in
      let (same, count_eq, part_bytes, short) =
        frame-unframe count fields parts
          (subst AreBytes (sym front) (AreBytes-take (length raw - 64) raw bytes))
          (read_some count fields parts read) in
      (
        parts,
        sig,
        record {
          within = within (reject_if_inv _ _ small);
          assembled = whole ∙ ap (λ (f : Bytes). f ++ sig) (sym same);
          counted = count_eq;
          bytes = part_bytes;
          short = short;
          signature_length = size;
        },
        done,
      )
    where
      within : ltb limit (length raw) ≡ false → length raw ≤ limit
      within e = ground arith

  pub opening-frame :
      (parts : List Bytes) (sig : Bytes)
      → All IsShort parts
      → length parts ≡ count
      → 0 < count
      → length sig ≡ 64
      → length (frame parts ++ sig) ≤ limit
      → opening (frame parts ++ sig) ≡ check sig parts
  opening-frame parts sig short counted some_field size small =
      rw
        (
          within,
          enroll_split_append (frame parts) sig
              (frame_nonempty parts (omega (arith, counted, some_field))) size,
          read_frame count parts short counted,
        )
        refl
    where
      within : ltb limit (length (frame parts ++ sig)) ≡ false
      within = ground arith

-- The bytes are a canonical form and a signature of it that the key verifies.
abbrev pub IsAuthentic : (Bytes → Bytes → Bytes → Bool) → ℕ → Outcome Bytes → Bytes → Bytes → Type 0
IsAuthentic ed_verify limit canonical key raw =
    (body : Bytes) × (sig : Bytes) × (canonical ≡ ok body)
    × (raw ≡ body ++ sig)
    × (length raw ≤ limit)
    × (verify ed_verify key (domain_separated_message enroll_domain body) sig ≡ true)

pub authentic :
    (ed_verify : Bytes → Bytes → Bytes → Bool) (limit count : ℕ) (raw key sig : Bytes)
    (fields parts : List Bytes)
    → Opened limit count raw parts sig
    → fields ≡ parts
    → verify ed_verify key (domain_separated_message enroll_domain (frame parts)) sig ≡ true
    → IsAuthentic ed_verify limit (enroll_encode fields) key raw
authentic ed_verify limit count raw key sig fields parts o same valid = (
  frame parts,
  sig,
  ap enroll_encode same ∙ enroll_encode-frame parts o.short,
  o.assembled,
  o.within,
  valid,
)

pub opening_authentic {ℓ} :
    {M : Type ℓ} (ed_verify : Bytes → Bytes → Bytes → Bool) (limit count : ℕ)
    (check : Bytes → List Bytes → Outcome M) (raw key : Bytes) (fields : List Bytes) (m : M)
    → length fields ≡ count
    → 0 < count
    → IsAuthentic ed_verify limit (enroll_encode fields) key raw
    → ((sig : Bytes)
        → All IsShort fields
        → verify ed_verify key (domain_separated_message enroll_domain (frame fields)) sig ≡ true
        → check sig fields ≡ ok m)
    → opening limit count check raw ≡ ok m
opening_authentic ed_verify limit count check raw key fields m counted some_field a checked =
    let (body, sig, canonical, whole, within, valid) = a in
    let (short, same) = enroll_encode_inv fields body canonical in
    let body_valid : verify ed_verify key (domain_separated_message enroll_domain (frame fields))
          sig
        ≡ true =
      rw same valid in
    let raw_eq : raw ≡ frame fields ++ sig = whole ∙ ap (λ (b : Bytes). b ++ sig) (sym same) in
    ap (opening limit count check) raw_eq
    ∙ opening-frame limit count check fields sig short counted some_field
        (verify_size ed_verify key _ sig body_valid).1 (omega (arith, ap length raw_eq, within))
    ∙ checked sig short body_valid
