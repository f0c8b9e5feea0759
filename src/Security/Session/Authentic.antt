-- ===== src/Security/Session/Authentic.antt =====
-- internal/security/challenge.go: what a parser of the session handshake has checked when it accepts.
use anti_nat.Common.{
  ℕ, zero, suc, ◌-◌, ◌<◌, ◌≤◌, ◌≡◌, ◌∙◌, inl, inr, refl, sym, ap, subst, Bool, true, false, not,
  ◌||◌, List, [], ◌∷◌, ◌++◌, none, some, if◌then◌else◌, ◌==◌, ltb, length, take, drop, u32, put_u32,
  get_u32, u8, ◌/◌, AreBytes, AreBytes-take, All, take-append-drop, Bool-cases, arith,
}
use anti_nat.Security.Framecrypto.{Bytes}
use anti_nat.Protocol.Fields.{
  part, frame, unframe, cons_some, frame-unframe, tabulate_parts, AreBytes-part, u32_field,
  u64_field,
}
use anti_nat.Security.Session.{
  Reading, ok, err, SessionError, too_large, truncated_prefix, length_exceeds, session_domain,
  session_hello_max, session_welcome_max, session_final_max, session_encode, cons_read, read_fields,
  split_fields, with_parts, with_split, open_message, SessionHello, hello_fields, hello_canonical,
  hello_of, hello_widths, hello_checked, parse_session_hello, SessionWelcome, welcome_fields,
  welcome_canonical, welcome_of, welcome_widths, welcome_checked, parse_session_welcome,
  SessionFinal, final_fields, final_canonical, final_of, final_widths, final_checked,
  parse_session_final, session_verify, malformed, zero_version, empty_id, bad_signature,
}

session_encode-frame : (fields : List Bytes) → session_encode fields ≡ frame fields
unfolding session_encode frame
session_encode-frame [] = refl
session_encode-frame (f ∷ fields) =
    rw (session_encode-frame fields) (ap (λ (p : Bytes). p ++ (f ++ frame fields)) (low (length f)))
  where
    low : (n : ℕ) → put_u32 (u32 n) ≡ put_u32 n
    low n = rw (e0, e1, e2, e3) refl
      where
        e0 : u8 (u32 n / 16777216) ≡ u8 (n / 16777216)
        e0 = omega arith

        e1 : u8 (u32 n / 65536) ≡ u8 (n / 65536)
        e1 = omega arith

        e2 : u8 (u32 n / 256) ≡ u8 (n / 256)
        e2 = omega arith

        e3 : u8 (u32 n) ≡ u8 n
        e3 = omega arith

read_fields-unframe :
    (n : ℕ) (b : Bytes) (parts : List Bytes) → read_fields n b ≡ ok parts → unframe n b ≡ some parts
unfolding read_fields unframe
read_fields-unframe zero [] parts h = ground arith
read_fields-unframe zero (x ∷ b) parts h = absurd (ground arith)
read_fields-unframe (suc n) b parts h =
    joined (read_fields n (drop (get_u32 b) (drop 4 b))) (read_fields-unframe n _) h
  where
    joined :
        (later : Reading (List Bytes))
        → ((more : List Bytes)
            → later ≡ ok more
            → unframe n (drop (get_u32 b) (drop 4 b)) ≡ some more)
        → (if ltb (length b) 4
            then err truncated_prefix
            else if ltb (length (drop 4 b)) (get_u32 b)
            then err length_exceeds
            else cons_read (take (get_u32 b) (drop 4 b)) later)
          ≡ ok parts
        → (if ltb (length b) 4
            then none
            else if ltb (length (drop 4 b)) (get_u32 b)
            then none
            else cons_some (take (get_u32 b) (drop 4 b)) (unframe n (drop (get_u32 b) (drop 4 b))))
          ≡ some parts
    joined (err e) ih q = absurd (ground arith)
    joined (ok more) ih q = rw (ih more refl) (ground arith)

-- The parts that a message was read from, and its signature.
pub record Opened (limit count : ℕ) (raw : Bytes) (parts : List Bytes) (sig : Bytes) : Type 0 where
  pub within : length raw ≤ limit
  pub assembled : raw ≡ session_encode parts ++ sig
  pub counted : length parts ≡ count
  pub bytes : All AreBytes parts

split_fields_inv :
    (raw fields sig : Bytes)
    → split_fields raw ≡ ok (fields, sig)
    → (fields ≡ take (length raw - 64) raw) × (raw ≡ fields ++ sig)
unfolding split_fields
split_fields_inv raw fields sig h =
    let f : take (length raw - 64) raw ≡ fields = ground arith in
    let s : drop (length raw - 64) raw ≡ sig = ground arith in
    (sym f, sym (rw (← f, ← s) (take-append-drop (length raw - 64) raw)))

module _ {ℓ} {M : Type ℓ} (limit count : ℕ) (check : Bytes → List Bytes → Reading M) where
  pub open_message_inv :
      (raw : Bytes) (m : M)
      → AreBytes raw
      → open_message limit count check raw ≡ ok m
      → (parts : List Bytes) × (sig : Bytes) × Opened limit count raw parts sig
        × (check sig parts ≡ ok m)
  open_message_inv raw m bytes h = elim (Bool-cases (ltb limit (length raw))) [
    | inl e ↦ absurd (refused (rw e at h))
    | inr e ↦ divided e (split_fields raw) refl (rw e at h)
  ]
    where
      refused : err too_large ≡ ok m → ⊥
      refused q = ground arith

      divided :
          ltb limit (length raw) ≡ false
          → (s : Reading (Bytes × Bytes)) → split_fields raw ≡ s
          → with_split limit count check s ≡ ok m
          → (parts : List Bytes) × (sig : Bytes) × Opened limit count raw parts sig
            × (check sig parts ≡ ok m)
      divided small (err e) cut q = absurd (ground arith)
      divided small (ok (fields, sig)) cut q = read (read_fields count fields) refl q
        where
          read :
              (r : Reading (List Bytes))
              → read_fields count fields ≡ r
              → with_parts limit count check sig r ≡ ok m
              → (parts : List Bytes) × (sig : Bytes) × Opened limit count raw parts sig
                × (check sig parts ≡ ok m)
          read (err e) found z = absurd (ground arith)
          read (ok parts) found z =
              let (front, whole) = split_fields_inv raw fields sig cut in
              let (same, count_eq, part_bytes, _) =
                frame-unframe count fields parts
                  (subst AreBytes (sym front) (AreBytes-take (length raw - 64) raw bytes))
                  (read_fields-unframe count fields parts found) in
              (
                parts,
                sig,
                record {
                  within = ground (arith, small);
                  assembled =
                      whole
                      ∙ ap (λ (f : Bytes). f ++ sig) (sym same ∙ sym (session_encode-frame parts));
                  counted = count_eq;
                  bytes = part_bytes;
                },
                z,
              )

hello-parts :
    (parts : List Bytes)
    → length parts ≡ 7
    → All AreBytes parts
    → hello_widths parts ≡ false
    → hello_fields (hello_of parts) ≡ parts
hello-parts parts counted bytes h =
    rw
      (
        u32_field (part 2 parts) (AreBytes-part 2 parts bytes) (ground arith),
        u64_field (part 5 parts) (AreBytes-part 5 parts bytes) (ground arith),
      )
      (tabulate_parts 7 parts counted)

welcome-parts :
    (parts : List Bytes)
    → length parts ≡ 8
    → All AreBytes parts
    → welcome_widths parts ≡ false
    → welcome_fields (welcome_of parts) ≡ parts
welcome-parts parts counted bytes h =
    rw
      (
        u64_field (part 5 parts) (AreBytes-part 5 parts bytes) (ground arith),
        u64_field (part 7 parts) (AreBytes-part 7 parts bytes) (ground arith),
      )
      (tabulate_parts 8 parts counted)

final-parts :
    (parts : List Bytes)
    → length parts ≡ 5
    → All AreBytes parts
    → final_widths parts ≡ false
    → final_fields (final_of parts) ≡ parts
final-parts parts counted bytes h =
    rw (u64_field (part 3 parts) (AreBytes-part 3 parts bytes) (ground arith))
      (tabulate_parts 5 parts counted)

-- Three checks passed.
checked_inv {ℓ} :
    {M : Type ℓ} (a b c : Bool) (second : SessionError) (k m : M)
    → (if a
        then err malformed
        else if b
        then err second
        else if not c
        then err bad_signature
        else ok k)
      ≡ ok m
    → (a ≡ false) × (b ≡ false) × (c ≡ true) × (k ≡ m)
checked_inv true b c second k m h = absurd (ground arith)
checked_inv false true c second k m h = absurd (ground arith)
checked_inv false false false second k m h = absurd (ground arith)
checked_inv false false true second k m h = (refl, refl, refl, ground arith)

-- One of the three messages.
pub data SessionMessage : Type 0 where
  hello_message : SessionHello → SessionMessage
  welcome_message : SessionWelcome → SessionMessage
  final_message : SessionFinal → SessionMessage

abbrev pub canonical_of : SessionMessage → Bytes
canonical_of (hello_message h) = hello_canonical h
canonical_of (welcome_message w) = welcome_canonical w
canonical_of (final_message f) = final_canonical f

abbrev pub limit_of : SessionMessage → ℕ
limit_of (hello_message h) = session_hello_max
limit_of (welcome_message w) = session_welcome_max
limit_of (final_message f) = session_final_max

-- A hello is verified under the key that it presents, the others under the pinned key.
abbrev pub key_of : Bytes → SessionMessage → Bytes
key_of pinned (hello_message h) = h.agent_public_key
key_of pinned (welcome_message w) = pinned
key_of pinned (final_message f) = pinned

-- What must not be left out.
abbrev pub IsNamed : SessionMessage → Type 0
IsNamed (hello_message h) = 0 < h.agent_credential_ver
IsNamed (welcome_message w) = (0 < length w.controller_key_id) × (0 < length w.session_id)
IsNamed (final_message f) = 0 < length f.session_id

module _ (ed_verify : Bytes → Bytes → Bytes → Bool) where
  abbrev pub IsParsed : Bytes → Bytes → SessionMessage → Type 0
  IsParsed raw pinned (hello_message h) = parse_session_hello ed_verify raw ≡ ok h
  IsParsed raw pinned (welcome_message w) = parse_session_welcome ed_verify raw pinned ≡ ok w
  IsParsed raw pinned (final_message f) = parse_session_final ed_verify raw pinned ≡ ok f

  -- The bytes are, within the limit, the message's canonical form and a signature of it that the
  -- key verifies.
  abbrev pub IsSigned : Bytes → Bytes → SessionMessage → Type 0
  IsSigned raw pinned m =
      (sig : Bytes) × (raw ≡ canonical_of m ++ sig)
      × (length raw ≤ limit_of m)
      × (session_verify ed_verify (key_of pinned m) session_domain (canonical_of m) sig ≡ true)

  Opened→IsSigned :
      (raw pinned sig : Bytes) (m : SessionMessage) (count : ℕ) (fields parts : List Bytes)
      → Opened (limit_of m) count raw parts sig
      → canonical_of m ≡ session_encode fields
      → fields ≡ parts
      → session_verify ed_verify (key_of pinned m) session_domain (canonical_of m) sig ≡ true
      → IsSigned raw pinned m
  Opened→IsSigned raw pinned sig m count fields parts o form same valid = (
    sig,
    o.assembled ∙ ap (λ (b : Bytes). b ++ sig) (sym (form ∙ ap session_encode same)),
    o.within,
    valid,
  )

  -- Every message of the session handshake that is accepted names what it must (a hello a
  -- credential version that is not zero, a welcome a key and a session, a final message a session),
  -- and its bytes are, within its size limit, its canonical form and a signature over the session
  -- domain and that form, verified by the key that a hello presents or by the pinned key.
  pub accepted_session_authentic :
      (raw pinned : Bytes) (m : SessionMessage)
      → AreBytes raw
      → IsParsed raw pinned m
      → IsNamed m × IsSigned raw pinned m
  unfolding parse_session_hello parse_session_welcome parse_session_final
  accepted_session_authentic raw pinned (hello_message h) bytes p =
      let (parts, sig, o, done) =
        open_message_inv session_hello_max 7 (hello_checked ed_verify) raw h bytes p in
      let q = hello_of parts in
      let (widths, version, valid, same) =
        checked_inv (hello_widths parts) (q.agent_credential_ver == 0)
          (session_verify ed_verify q.agent_public_key session_domain (hello_canonical q) sig)
          zero_version q h done in
      subst
        (λ (k : SessionHello). IsNamed (hello_message k) × IsSigned raw pinned (hello_message k))
        same
        (
          ground arith,
          Opened→IsSigned raw pinned sig (hello_message q) 7 (hello_fields q) parts o refl
              (hello-parts parts o.counted o.bytes widths) valid,
        )
  accepted_session_authentic raw pinned (welcome_message w) bytes p =
      let (parts, sig, o, done) =
        open_message_inv session_welcome_max 8 (welcome_checked ed_verify pinned) raw w bytes p in
      let q = welcome_of parts in
      let (widths, named, valid, same) =
        checked_inv (welcome_widths parts)
          ((length q.controller_key_id == 0) || (length q.session_id == 0))
          (session_verify ed_verify pinned session_domain (welcome_canonical q) sig) empty_id q w
          done in
      subst
        (λ (k : SessionWelcome).
          IsNamed (welcome_message k) × IsSigned raw pinned (welcome_message k))
        same
        (
          (ground arith, ground arith),
          Opened→IsSigned raw pinned sig (welcome_message q) 8 (welcome_fields q) parts o refl
              (welcome-parts parts o.counted o.bytes widths) valid,
        )
  accepted_session_authentic raw pinned (final_message f) bytes p =
      let (parts, sig, o, done) =
        open_message_inv session_final_max 5 (final_checked ed_verify pinned) raw f bytes p in
      let q = final_of parts in
      let (widths, named, valid, same) =
        checked_inv (final_widths parts) (length q.session_id == 0)
          (session_verify ed_verify pinned session_domain (final_canonical q) sig) empty_id q f
          done in
      subst
        (λ (k : SessionFinal). IsNamed (final_message k) × IsSigned raw pinned (final_message k))
        same
        (
          ground arith,
          Opened→IsSigned raw pinned sig (final_message q) 5 (final_fields q) parts o refl
              (final-parts parts o.counted o.bytes widths) valid,
        )
