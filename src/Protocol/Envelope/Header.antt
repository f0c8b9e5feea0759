-- ===== src/Protocol/Envelope/Header.antt =====
-- internal/protocol/envelope.go: which bytes are a protected header.
use anti_nat.Common.{
  ℕ, zero, suc, ◌<◌, ◌≡◌, ◌∙◌, ◌↔◌, inl, inr, refl, sym, ap, subst, Bool, true, false, not, List,
  [], ◌∷◌, ◌++◌, append_assoc, Option, none, some, if◌then◌else◌, ltb, ◌==◌, length, take, drop,
  byte_at, put_u32, get_u32, get_u32-put_u32, AreBytes, All, Bool-cases, Option-cases, arith,
}
use anti_nat.Security.Framecrypto.{Bytes}
use anti_nat.Protocol.Fields.{
  part, frame, unframe, cons_some, IsShort, unframe-frame, frame-unframe, length-frame,
  tabulate_parts, AreBytes-part, u32_field, u64_field, get_u32-IsShort, get_u64-bound,
  get_u64-put_u64,
}
use anti_nat.Protocol.Envelope.{
  ProtectedHeader, header_strings_valid, header_fields, append_some, put_fields,
  encode_protected_header, next_field, next_parts, cons_part, header_of, header_widths,
  header_checked, decode_protected_header,
}

put_fields-frame :
    (fields : List Bytes) → All IsShort fields → put_fields fields ≡ some (frame fields)
unfolding put_fields frame
put_fields-frame [] h = refl
put_fields-frame (f ∷ fields) h =
    rw (put_fields-frame fields h.1)
      (ground (arith, append_assoc (put_u32 (length f)) f (frame fields)))

put_fields_inv :
    (fields : List Bytes) (b : Bytes)
    → put_fields fields ≡ some b
    → All IsShort fields × (frame fields ≡ b)
unfolding put_fields frame
put_fields_inv [] b h = (tt, ground arith)
put_fields_inv (f ∷ fields) b h = elim (Option-cases (put_fields fields)) [
  | inl e ↦ absurd (none_then (rw e at h))
  | inr (rest, e) ↦
      let (short, same) = put_fields_inv fields rest e in
      let q = some_then rest (rw e at h) in ((q.0, short), rw same q.1)
]
  where
    after : Option Bytes → Option Bytes
    after rest =
        if ltb 4294967295 (length f) then none else append_some (put_u32 (length f) ++ f) rest

    none_then : after none ≡ some b → ⊥
    none_then q = ground arith

    some_then :
        (rest : Bytes)
        → after (some rest) ≡ some b
        → IsShort f × (put_u32 (length f) ++ (f ++ rest) ≡ b)
    some_then rest q = (ground arith, ground arith)

-- The parts, where nothing is left after them.
abbrev whole : Option (List Bytes × Bytes) → Option (List Bytes)
whole none = none
whole (some (parts, rest)) = if not (length rest == 0) then none else some parts

whole-cons_part :
    (f : Bytes) (o : Option (List Bytes × Bytes)) → whole (cons_part f o) ≡ cons_some f (whole o)
whole-cons_part f none = refl
whole-cons_part f (some (parts, rest)) = ground arith

next_parts-unframe : (n : ℕ) (b : Bytes) → whole (next_parts n b) ≡ unframe n b
unfolding next_parts unframe next_field
next_parts-unframe zero [] = refl
next_parts-unframe zero (x ∷ b) = ground arith
next_parts-unframe (suc n) b = elim (Bool-cases (ltb (length b) 4)) [
  | inl e ↦ rw (e, next_field) refl
  | inr e ↦ elim (Bool-cases (ltb (length (drop 4 b)) (get_u32 b))) [
    | inl f ↦ rw (e, f, next_field) refl
    | inr f ↦
        rw (e, f, next_field)
          (whole-cons_part (take (get_u32 b) (drop 4 b))
              (next_parts n (drop (get_u32 b) (drop 4 b)))
            ∙ ap (cons_some (take (get_u32 b) (drop 4 b)))
                (next_parts-unframe n (drop (get_u32 b) (drop 4 b))))
  ]
]

-- What the Go types and the decoder say of a header.
pub record IsHeader (h : ProtectedHeader) : Type 0 where
  pub strings : header_strings_valid h ≡ true
  pub instance_size : length h.controller_instance_id ≡ 16
  pub node_size : length h.node_id ≡ 16
  pub credential_bound : h.agent_credential_ver < 4294967296
  pub epoch_bound : h.connection_epoch < 18446744073709551616
  pub sequence_bound : h.sequence < 18446744073709551616
  pub message_size : length h.message_id ≡ 16
  pub schema_bound : h.schema_version < 4294967296
  pub payload_bound : h.payload_length < 18446744073709551616
  pub digest_size : length h.payload_sha256 ≡ 32

header_widths_inv :
    (parts : List Bytes)
    → header_widths parts ≡ true
    → (length (part 1 parts) ≡ 16)
      × (length (part 2 parts) ≡ 16)
      × (length (part 4 parts) ≡ 4)
      × (length (part 5 parts) ≡ 8)
      × (length (part 7 parts) ≡ 1)
      × (length (part 8 parts) ≡ 8)
      × (length (part 9 parts) ≡ 16)
      × (length (part 11 parts) ≡ 4)
      × (length (part 12 parts) ≡ 8)
      × (length (part 13 parts) ≡ 32)
header_widths_inv parts h = ground arith

one_byte : (b : Bytes) → length b ≡ 1 → byte_at 0 b ∷ [] ≡ b
one_byte [] h = absurd (omega arith)
one_byte (x ∷ []) h = refl
one_byte (x ∷ y ∷ b) h = absurd (omega arith)

header-parts :
    (parts : List Bytes)
    → length parts ≡ 14
    → All AreBytes parts
    → header_widths parts ≡ true
    → header_fields (header_of parts) ≡ parts
header-parts parts counted bytes h =
    let w = header_widths_inv parts h in
    let b = λ (i : ℕ). AreBytes-part i parts bytes in
    rw
      (
        u32_field (part 4 parts) (b 4) w.2,
        u64_field (part 5 parts) (b 5) w.3,
        one_byte (part 7 parts) w.4,
        u64_field (part 8 parts) (b 8) w.5,
        u32_field (part 11 parts) (b 11) w.7,
        u64_field (part 12 parts) (b 12) w.8,
      )
      (tabulate_parts 14 parts counted)

parts-header : (h : ProtectedHeader) → IsHeader h → header_of (header_fields h) ≡ h
parts-header h z =
    rw
      (
        get_u32-put_u32 h.agent_credential_ver z.credential_bound,
        get_u64-put_u64 h.connection_epoch z.epoch_bound,
        get_u64-put_u64 h.sequence z.sequence_bound,
        get_u32-put_u32 h.schema_version z.schema_bound,
        get_u64-put_u64 h.payload_length z.payload_bound,
      )
      refl

three_guards {ℓ} :
    {A : Type ℓ} (e w v : Bool) (k h : A)
    → (if not e then none else if not w then none else if not v then none else some k) ≡ some h
    → (e ≡ true) × (w ≡ true) × (v ≡ true) × (k ≡ h)
three_guards false w v k h q = cc
three_guards true false v k h q = cc
three_guards true true false k h q = cc
three_guards true true true k h q = (refl, refl, refl, inj q)
  where
    inj : some k ≡ some h → k ≡ h
    inj e = ground arith

whole_inv :
    (o : Option (List Bytes × Bytes)) (parts : List Bytes)
    → whole o ≡ some parts
    → (rest : Bytes) × (o ≡ some (parts, rest)) × (length rest ≡ 0)
whole_inv none parts q = absurd (ground arith)
whole_inv (some (ps, rest)) parts q = (rest, ground arith, ground arith)

header_checked_inv :
    (o : Option (List Bytes × Bytes)) (h : ProtectedHeader)
    → header_checked o ≡ some h
    → (parts : List Bytes) × (whole o ≡ some parts)
      × (header_widths parts ≡ true)
      × (header_strings_valid (header_of parts) ≡ true)
      × (header_of parts ≡ h)
header_checked_inv none h q = absurd (ground arith)
header_checked_inv (some (parts, rest)) h q =
    let (e, w, v, same) =
      three_guards (length rest == 0) (header_widths parts) (header_strings_valid (header_of parts))
        (header_of parts) h q in
    (parts, rw e refl, w, v, same)

-- A well-formed header is read back from its bytes, which are not empty.
pub decode_encoded :
    (b : Bytes) (h : ProtectedHeader)
    → IsHeader h
    → encode_protected_header h ≡ some b
    → (decode_protected_header b ≡ some h) × (0 < length b)
unfolding decode_protected_header encode_protected_header
decode_encoded b h z q =
    let (short, framed) = put_fields_inv (header_fields h) b (rw z.strings at q) in
    let (rest, read, none_left) = whole_inv (next_parts 14 b) (header_fields h) (
      next_parts-unframe 14 b
      ∙ ap (unframe 14) (sym framed)
      ∙ unframe-frame (header_fields h) short) in
    (
      rw (read, empty rest none_left, widths, parts-header h z, z.strings) refl,
      omega (arith, ap length framed, length-frame (header_fields h)),
    )
  where
    empty : (rest : Bytes) → length rest ≡ 0 → (length rest == 0) ≡ true
    empty rest e = ground arith

    widths : header_widths (header_fields h) ≡ true
    widths = ground (arith, z.instance_size, z.node_size, z.message_size, z.digest_size)

pub decode_protected_header_iff :
    (b : Bytes) (h : ProtectedHeader)
    → AreBytes b
    → (decode_protected_header b ≡ some h) ↔ (IsHeader h × (encode_protected_header h ≡ some b))
unfolding decode_protected_header encode_protected_header
decode_protected_header_iff b h bytes = (decodes, (λ p. (decode_encoded b h p.0 p.1).0))
  where
    decodes : decode_protected_header b ≡ some h → IsHeader h × (encode_protected_header h ≡ some b)
    decodes q =
        let (parts, read, widths, strings, same) = header_checked_inv (next_parts 14 b) h q in
        let (framed, counted, part_bytes, short) =
          frame-unframe 14 b parts bytes (sym (next_parts-unframe 14 b) ∙ read) in
        let w = header_widths_inv parts widths in
        let at = λ (i : ℕ). AreBytes-part i parts part_bytes in
        let fields = ap header_fields (sym same) ∙ header-parts parts counted part_bytes widths in
        let valid = ap header_strings_valid (sym same) ∙ strings in
        (
          subst IsHeader same (record {
            strings = strings;
            instance_size = w.0;
            node_size = w.1;
            credential_bound = get_u32-IsShort (part 4 parts) (at 4);
            epoch_bound = get_u64-bound (part 5 parts) (at 5);
            sequence_bound = get_u64-bound (part 8 parts) (at 8);
            message_size = w.6;
            schema_bound = get_u32-IsShort (part 11 parts) (at 11);
            payload_bound = get_u64-bound (part 12 parts) (at 12);
            digest_size = w.9;
          }),
          rw (valid, fields) (put_fields-frame parts short ∙ ap some framed),
        )
