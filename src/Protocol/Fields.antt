-- ===== src/Protocol/Fields.antt =====
-- The length-prefixed field lists that internal/protocol/enrollment.go, internal/protocol/envelope.go
-- and internal/security/challenge.go write and read: what their encoders and readers have in common.
use anti_nat.Common.{
  ℕ, zero, suc, ◌+◌, ◌<◌, ◌≤◌, ◌≡◌, ◌∙◌, inl, inr, refl, sym, ap, List, [], ◌∷◌, ◌++◌, append-nil,
  Option, none, some, Option-cases, AreBytes-take, AreBytes-drop, byte_at-IsByte, ◌*◌, ◌-◌, min,
  subst, if◌then◌else◌, ltb, length, take, drop, put_u32, get_u32, get_u64, put_u64, AreBytes, All,
  take-append-drop, take-append_length, drop-append_length, length-take, length-drop, length-append,
  get_u32-put_u32, u8, byte_at, ◌/◌, arith,
}
use anti_nat.Security.Framecrypto.{Bytes}

-- `parts[i]`, where the number of parts is known.
abbrev pub part : ℕ → List Bytes → Bytes
part i [] = []
part zero (p ∷ parts) = p
part (suc i) (p ∷ parts) = part i parts

abbrev pub cons_some : Bytes → Option (List Bytes) → Option (List Bytes)
cons_some f none = none
cons_some f (some fs) = some (f ∷ fs)

-- Each field after its length as a big-endian uint32.
unfoldable pub frame : List Bytes → Bytes
frame [] = []
frame (f ∷ fields) = put_u32 (length f) ++ (f ++ frame fields)

unfoldable pub unframe : ℕ → Bytes → Option (List Bytes)
unframe zero [] = some []
unframe zero (b ∷ bs) = none
unframe (suc n) bs =
    let size = get_u32 bs in
    let rest = drop 4 bs in
    let more = unframe n (drop size rest) in
    if ltb (length bs) 4
    then none
    else if ltb (length rest) size
    then none
    else cons_some (take size rest) more

abbrev pub IsShort : Bytes → Type 0
IsShort f = length f < 4294967296

put_u32-get_u32 :
    (bs : Bytes) → AreBytes bs → 4 ≤ length bs → put_u32 (get_u32 bs) ++ drop 4 bs ≡ bs
put_u32-get_u32 [] h l = absurd (omega arith)
put_u32-get_u32 (a ∷ []) h l = absurd (omega arith)
put_u32-get_u32 (a ∷ b ∷ []) h l = absurd (omega arith)
put_u32-get_u32 (a ∷ b ∷ c ∷ []) h l = absurd (omega arith)
put_u32-get_u32 (a ∷ b ∷ c ∷ d ∷ bs) h l = rw (e0, e1, e2, e3) refl
  where
    n : ℕ
    n = a * 16777216 + b * 65536 + c * 256 + d

    e0 : u8 (n / 16777216) ≡ a
    e0 = omega arith

    e1 : u8 (n / 65536) ≡ b
    e1 = omega arith

    e2 : u8 (n / 256) ≡ c
    e2 = omega arith

    e3 : u8 n ≡ d
    e3 = omega arith

pub get_u32-IsShort : (bs : Bytes) → AreBytes bs → get_u32 bs < 4294967296
get_u32-IsShort bs h = omega (arith, b 0, b 1, b 2, b 3)
  where
    b : (i : ℕ) → byte_at i bs < 256
    b i = byte_at-IsByte i bs h

pub unframe-frame :
    (fields : List Bytes)
    → All IsShort fields
    → unframe (length fields) (frame fields) ≡ some fields
unfolding unframe frame
unframe-frame [] h = refl
unframe-frame (f ∷ fields) h =
    rw
      (
        size,
        take-append_length (length f) f (frame fields) refl,
        drop-append_length (length f) f (frame fields) refl,
        unframe-frame fields h.1,
      )
      (ground (arith, length-append f (frame fields)))
  where
    size : get_u32 (put_u32 (length f) ++ (f ++ frame fields)) ≡ length f
    size = get_u32-put_u32 (length f) h.0

unframe_step :
    (n : ℕ) (bs : Bytes) (fields : List Bytes)
    → unframe (suc n) bs ≡ some fields
    → (4 ≤ length bs)
      × (get_u32 bs ≤ length (drop 4 bs))
      × ((more : List Bytes) × (unframe n (drop (get_u32 bs) (drop 4 bs)) ≡ some more)
          × (fields ≡ take (get_u32 bs) (drop 4 bs) ∷ more))
unfolding unframe
unframe_step n bs fields h = elim (Option-cases (unframe n (drop (get_u32 bs) (drop 4 bs)))) [
  | inl e ↦ absurd (stuck (rw e at h))
  | inr (more, e) ↦ split more e (rw e at h)
]
  where
    after : Option (List Bytes) → Option (List Bytes)
    after more =
        if ltb (length bs) 4
        then none
        else if ltb (length (drop 4 bs)) (get_u32 bs)
        then none
        else cons_some (take (get_u32 bs) (drop 4 bs)) more

    stuck : after none ≡ some fields → ⊥
    stuck q = ground arith

    split :
        (more : List Bytes)
        → unframe n (drop (get_u32 bs) (drop 4 bs)) ≡ some more
        → after (some more) ≡ some fields
        → (4 ≤ length bs)
          × (get_u32 bs ≤ length (drop 4 bs))
          × ((more : List Bytes) × (unframe n (drop (get_u32 bs) (drop 4 bs)) ≡ some more)
              × (fields ≡ take (get_u32 bs) (drop 4 bs) ∷ more))
    split more e q = (ground arith, ground arith, (more, e, ground arith))

pub frame-unframe :
    (n : ℕ) (bs : Bytes) (fields : List Bytes)
    → AreBytes bs
    → unframe n bs ≡ some fields
    → (frame fields ≡ bs) × (length fields ≡ n) × All AreBytes fields × All IsShort fields
unfolding frame unframe
frame-unframe zero [] fields b h = (ground arith, ground arith, ground arith, ground arith)
frame-unframe zero (x ∷ bs) fields b h = absurd (ground arith)
frame-unframe (suc n) bs fields b h =
    let (long, fits, (more, e, same)) = unframe_step n bs fields h in
    let rest = drop 4 bs in
    let (canonical, count, bytes, short) =
      frame-unframe n (drop (get_u32 bs) rest) more
        (AreBytes-drop (get_u32 bs) rest (AreBytes-drop 4 bs b)) e in
    let size : min (get_u32 bs) (length rest) ≡ get_u32 bs = omega arith in
    (
      ap frame same
          ∙ rw (canonical, length-take (get_u32 bs) rest, size, take-append-drop (get_u32 bs) rest)
              (put_u32-get_u32 bs b long),
      ap length same ∙ ap suc count,
      subst (All AreBytes) (sym same)
          (AreBytes-take (get_u32 bs) rest (AreBytes-drop 4 bs b), bytes),
      subst (All IsShort) (sym same)
          (omega (arith, length-take (get_u32 bs) rest, get_u32-IsShort bs b), short),
    )

-- Four bytes for each length, and the fields.
abbrev pub framed_length : List Bytes → ℕ
framed_length [] = 0
framed_length (f ∷ fields) = 4 + length f + framed_length fields

pub length-frame : (fields : List Bytes) → length (frame fields) ≡ framed_length fields
unfolding frame
length-frame [] = refl
length-frame (f ∷ fields) = omega (arith, length-append f (frame fields), length-frame fields)

-- The list of the first `n` values of a function.
abbrev pub tabulate : ℕ → (ℕ → Bytes) → List Bytes
tabulate zero f = []
tabulate (suc n) f = f 0 ∷ tabulate n (λ i. f (suc i))

pub tabulate_parts :
    (n : ℕ) (parts : List Bytes) → length parts ≡ n → tabulate n (λ i. part i parts) ≡ parts
tabulate_parts zero [] h = refl
tabulate_parts zero (p ∷ parts) h = absurd (omega arith)
tabulate_parts (suc n) [] h = absurd (omega arith)
tabulate_parts (suc n) (p ∷ parts) h = ap (◌∷◌ p) (tabulate_parts n parts (omega arith))

pub AreBytes-part : (i : ℕ) (parts : List Bytes) → All AreBytes parts → AreBytes (part i parts)
AreBytes-part i [] h = tt
AreBytes-part zero (p ∷ parts) h = h.0
AreBytes-part (suc i) (p ∷ parts) h = AreBytes-part i parts h.1

pub u32_field : (bs : Bytes) → AreBytes bs → length bs ≡ 4 → put_u32 (get_u32 bs) ≡ bs
u32_field bs h l =
    sym (append-nil (put_u32 (get_u32 bs)))
    ∙ ap (◌++◌ (put_u32 (get_u32 bs))) (sym (nothing (drop 4 bs) (omega (arith, length-drop 4 bs))))
    ∙ put_u32-get_u32 bs h (omega arith)
  where
    nothing : (xs : Bytes) → length xs ≡ 0 → xs ≡ []
    nothing [] e = refl
    nothing (x ∷ xs) e = absurd (omega arith)

low_word : (a b : ℕ) → put_u32 (a * 4294967296 + b) ≡ put_u32 b
low_word a b = rw (e0, e1, e2, e3) refl
  where
    e0 : u8 ((a * 4294967296 + b) / 16777216) ≡ u8 (b / 16777216)
    e0 = omega arith

    e1 : u8 ((a * 4294967296 + b) / 65536) ≡ u8 (b / 65536)
    e1 = omega arith

    e2 : u8 ((a * 4294967296 + b) / 256) ≡ u8 (b / 256)
    e2 = omega arith

    e3 : u8 (a * 4294967296 + b) ≡ u8 b
    e3 = omega arith

pub u64_field : (bs : Bytes) → AreBytes bs → length bs ≡ 8 → put_u64 (get_u64 bs) ≡ bs
u64_field bs h l =
    ap (λ (v : Bytes). v ++ put_u32 (get_u64 bs)) (ap put_u32 high)
    ∙ ap (◌++◌ (put_u32 (get_u32 (take 4 bs)))) (low_word _ (get_u32 (drop 4 bs)))
    ∙ ap (λ (v : Bytes). v ++ put_u32 (get_u32 (drop 4 bs)))
        (u32_field (take 4 bs) (AreBytes-take 4 bs h) (omega (arith, length-take 4 bs)))
    ∙ ap (◌++◌ (take 4 bs))
        (u32_field (drop 4 bs) (AreBytes-drop 4 bs h) (omega (arith, length-drop 4 bs)))
    ∙ take-append-drop 4 bs
  where
    small : get_u32 (drop 4 bs) < 4294967296
    small = get_u32-IsShort (drop 4 bs) (AreBytes-drop 4 bs h)

    high : get_u64 bs / 4294967296 ≡ get_u32 (take 4 bs)
    high = omega (arith, small)

pub get_u64-put_u64 : (v : ℕ) → v < 18446744073709551616 → get_u64 (put_u64 v) ≡ v
get_u64-put_u64 v h = omega arith

pub get_u64-bound : (bs : Bytes) → AreBytes bs → get_u64 bs < 18446744073709551616
get_u64-bound bs h = omega (
  arith,
  get_u32-IsShort (take 4 bs) (AreBytes-take 4 bs h),
  get_u32-IsShort (drop 4 bs) (AreBytes-drop 4 bs h),
)

-- The last 64 bytes of a message cut off exactly.
pub cut_suffix :
    (bs fields sig : Bytes)
    → length sig ≡ 64
    → bs ≡ fields ++ sig
    → (take (length bs - 64) bs ≡ fields) × (drop (length bs - 64) bs ≡ sig)
cut_suffix bs fields sig s e =
    let size : length bs - 64 ≡ length fields =
      omega (arith, ap length e, length-append fields sig) in
    rw size (
      ap (take (length fields)) e ∙ take-append_length (length fields) fields sig refl,
      ap (drop (length fields)) e ∙ drop-append_length (length fields) fields sig refl,
    )
