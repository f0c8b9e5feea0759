-- ===== src/Protocol/Enrollment/Codec.antt =====
-- internal/protocol/enrollment.go: enrollEncode, enrollReadFields and enrollSplit against the plain
-- length-prefixed lists.
use anti_nat.Common.{
  ℕ, zero, suc, ◌-◌, ◌<◌, ◌≡◌, ◌∙◌, ◌↔◌, refl, sym, ap, List, [], ◌∷◌, ◌++◌, Option, none, some,
  if◌then◌else◌, ltb, length, take, drop, put_u32, get_u32, AreBytes, All, take-append-drop,
  length-drop, length-append, arith,
}
use anti_nat.Security.Framecrypto.{Bytes}
use anti_nat.Protocol.Fields.{
  frame, unframe, cons_some, IsShort, unframe-frame, frame-unframe, cut_suffix,
}
use anti_nat.Protocol.Enrollment.{
  Outcome, ok, err, panic, malformed, panic_if, ◌>>=◌, ◌>>◌, enroll_encode, enroll_read_fields,
  enroll_split,
}

pub enroll_encode-frame :
    (fields : List Bytes) → All IsShort fields → enroll_encode fields ≡ ok (frame fields)
unfolding enroll_encode frame
enroll_encode-frame [] h = refl
enroll_encode-frame (f ∷ fields) h = rw (enroll_encode-frame fields h.1) (ground arith)

pub enroll_encode_inv :
    (fields : List Bytes) (b : Bytes)
    → enroll_encode fields ≡ ok b
    → All IsShort fields × (frame fields ≡ b)
unfolding enroll_encode frame
enroll_encode_inv [] b h = (tt, ground arith)
enroll_encode_inv (f ∷ fields) b h =
    with_rest (enroll_encode fields) refl (enroll_encode_inv fields) h
  where
    after : Outcome Bytes → Outcome Bytes
    after later =
        if ltb 4294967295 (length f)
        then panic
        else do rest ← later; ok (put_u32 (length f) ++ (f ++ rest))

    with_rest :
        (later : Outcome Bytes)
        → enroll_encode fields ≡ later
        → ((rest : Bytes)
            → enroll_encode fields ≡ ok rest
            → All IsShort fields × (frame fields ≡ rest))
        → after later ≡ ok b
        → All IsShort (f ∷ fields) × (frame (f ∷ fields) ≡ b)
    with_rest (ok rest) e ih q =
        let (short, same) = ih rest e in ((ground arith, short), rw same (ground arith))
    with_rest (err x) e ih q = absurd (ground arith)
    with_rest panic e ih q = absurd (ground arith)

abbrev pub of_option {ℓ} : {A : Type ℓ} → Option A → Outcome A
of_option none = err malformed
of_option (some a) = ok a

pub enroll_read_fields-unframe :
    (n : ℕ) (b : Bytes) → enroll_read_fields n b ≡ of_option (unframe n b)
unfolding enroll_read_fields unframe
enroll_read_fields-unframe zero [] = refl
enroll_read_fields-unframe zero (x ∷ b) = ground arith
enroll_read_fields-unframe (suc n) b =
    rw (enroll_read_fields-unframe n (drop (get_u32 b) (drop 4 b)))
      (joined (unframe n (drop (get_u32 b) (drop 4 b))))
  where
    joined :
        (more : Option (List Bytes))
        → (if ltb (length b) 4
            then err malformed
            else panic_if (ltb (length b) 4)
              >> (if ltb (length (drop 4 b)) (get_u32 b)
                  then err malformed
                  else panic_if (ltb (length (drop 4 b)) (get_u32 b))
                    >> (of_option more >>= λ parts. ok (take (get_u32 b) (drop 4 b) ∷ parts))))
          ≡ of_option (
              if ltb (length b) 4
              then none
              else if ltb (length (drop 4 b)) (get_u32 b)
              then none
              else cons_some (take (get_u32 b) (drop 4 b)) more)
    joined none = ground arith
    joined (some more) = ground arith

pub read_some :
    (n : ℕ) (b : Bytes) (parts : List Bytes)
    → enroll_read_fields n b ≡ ok parts
    → unframe n b ≡ some parts
read_some n b parts h = from (unframe n b) (sym (enroll_read_fields-unframe n b) ∙ h)
  where
    from : (o : Option (List Bytes)) → of_option o ≡ ok parts → o ≡ some parts
    from none e = absurd (ground arith)
    from (some p) e = ground arith

pub read_frame :
    (n : ℕ) (parts : List Bytes)
    → All IsShort parts
    → length parts ≡ n
    → enroll_read_fields n (frame parts) ≡ ok parts
read_frame n parts short counted = rw (← counted) (
    enroll_read_fields-unframe (length parts) (frame parts)
    ∙ ap of_option (unframe-frame parts short))

-- Reading a number of fields from bytes gives a list exactly when the list has that number of
-- fields and encodes to those bytes: the encoding is canonical, and nothing may be left over.
pub enroll_read_fields_iff :
    (n : ℕ) (raw : Bytes) (parts : List Bytes)
    → AreBytes raw
    → (enroll_read_fields n raw ≡ ok parts) ↔ ((length parts ≡ n) × (enroll_encode parts ≡ ok raw))
enroll_read_fields_iff n raw parts bytes = (reads, writes)
  where
    reads :
        enroll_read_fields n raw ≡ ok parts → (length parts ≡ n) × (enroll_encode parts ≡ ok raw)
    reads h =
        let (same, count, _, short) = frame-unframe n raw parts bytes (read_some n raw parts h) in
        (count, enroll_encode-frame parts short ∙ ap ok same)

    writes :
        (length parts ≡ n) × (enroll_encode parts ≡ ok raw) → enroll_read_fields n raw ≡ ok parts
    writes h =
        let (short, same) = enroll_encode_inv parts raw h.1 in
        rw (← same) (read_frame n parts short h.0)

pub enroll_split_inv :
    (raw fields sig : Bytes)
    → enroll_split raw ≡ ok (fields, sig)
    → (fields ≡ take (length raw - 64) raw) × (raw ≡ fields ++ sig) × (length sig ≡ 64)
unfolding enroll_split
enroll_split_inv raw fields sig h =
    let f : take (length raw - 64) raw ≡ fields = ground arith in
    let s : drop (length raw - 64) raw ≡ sig = ground arith in
    (
      sym f,
      sym (rw (← f, ← s) (take-append-drop (length raw - 64) raw)),
      rw (← s) (length-drop (length raw - 64) raw ∙ ground arith),
    )

pub enroll_split_append :
    (fields sig : Bytes)
    → 0 < length fields
    → length sig ≡ 64
    → enroll_split (fields ++ sig) ≡ ok (fields, sig)
unfolding enroll_split
enroll_split_append fields sig some_field size =
    let (f, s) = cut_suffix (fields ++ sig) fields sig size refl in
    rw (f, s) (ground (arith, length-append fields sig))
