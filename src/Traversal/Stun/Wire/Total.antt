-- ===== src/Traversal/Stun/Wire/Total.antt =====
-- ParseMessage returns on every input: a message or an error, and it never panics.
use anti_nat.Common.{
  ℕ, zero, suc, ◌+◌, ◌-◌, ◌%◌, ◌≤◌, ◌≡◌, refl, Bool, true, false, not, List, [], ◌∷◌, if◌then◌else◌,
  ◌==◌, ltb, length, take, drop, slice, length-take, length-drop, arith, get_u16, get_u32,
}
use anti_nat.Traversal.Stun.{Bytes, Attribute, pad4, header_size, magic_cookie}
use anti_nat.Traversal.Stun.Wire.{
  in_range, cons_attribute, finish_parse, Outcome, done, error, panic, out_of_fuel, read_attribute,
  read_attributes, parse_message, fingerprint_misplaced,
}

-- A result or an error.
abbrev pub Returns {ℓ} : {A : Type ℓ} → Outcome A → Type 0
Returns (done a) = Unit
Returns (error e) = Unit
Returns panic = ⊥
Returns out_of_fuel = ⊥

cons_attribute-Returns :
    (a : Attribute) (o : Outcome (List Attribute)) → Returns o → Returns (cons_attribute a o)
cons_attribute-Returns a (done x) h = tt
cons_attribute-Returns a (error e) h = tt
cons_attribute-Returns a panic h = h
cons_attribute-Returns a out_of_fuel h = h

if-Returns {ℓ} :
    {A : Type ℓ} (b : Bool) (x y : Outcome A)
    → (b ≡ true → Returns x)
    → (b ≡ false → Returns y)
    → Returns (if b then x else y)
if-Returns true x y h k = h refl
if-Returns false x y h k = k refl

in_range-Returns {ℓ} :
    {A : Type ℓ} (j : ℕ) (b : Bytes) (o : Outcome A)
    → j ≤ length b
    → Returns o
    → Returns (in_range j b o)
in_range-Returns j b o h r = if-Returns (ltb (length b) j) _ _ (λ e. ground arith) (λ e. r)

padded_fits :
    (len n : ℕ)
    → len % 4 ≡ 0
    → ltb len 4 ≡ false
    → ltb (len - 4) n ≡ false
    → (4 ≤ len) × (4 + n ≤ len) × (pad4 (4 + n) ≤ len)
padded_fits len n m long fits = (ground arith, ground arith, ground arith)

read_attribute-Returns :
    (rest : Bytes) (later : Bytes → Outcome (List Attribute))
    → length rest % 4 ≡ 0
    → Returns (later (drop (pad4 (4 + get_u16 (slice 2 4 rest))) rest))
    → Returns (read_attribute rest later)
unfolding read_attribute
read_attribute-Returns rest later m k =
    let n = get_u16 (slice 2 4 rest) in
    if-Returns (ltb (length rest) 4) _ _ (λ e. tt)
      λ long. in_range-Returns 2 rest _ (ground arith) (
        in_range-Returns 4 rest _ (ground arith) (
          if-Returns (ltb (length rest - 4) n) _ _ (λ e. tt)
            λ fits.
              let p = padded_fits (length rest) n m long fits in
              in_range-Returns (4 + n) rest _ p.1
                (in_range-Returns (pad4 (4 + n)) rest _ p.2 (cons_attribute-Returns _ _ k))))

-- Where the length is a multiple of 4, every padded attribute fits.
read_attributes-Returns :
    (fuel : ℕ) (rest : Bytes)
    → length rest ≤ fuel
    → length rest % 4 ≡ 0
    → Returns (read_attributes fuel rest)
unfolding read_attributes
read_attributes-Returns fuel [] h m = tt
read_attributes-Returns zero (b ∷ rest) h m = absurd (omega arith)
read_attributes-Returns (suc fuel) (b ∷ rest) h m =
    read_attribute-Returns (b ∷ rest) (read_attributes fuel) m (
      read_attributes-Returns fuel _ (shorter (get_u16 (slice 2 4 (b ∷ rest))))
        (aligned (get_u16 (slice 2 4 (b ∷ rest)))))
  where
    shorter : (n : ℕ) → length (drop (pad4 (4 + n)) (b ∷ rest)) ≤ fuel
    shorter n = omega (arith, length-drop (pad4 (4 + n)) (b ∷ rest))

    aligned : (n : ℕ) → length (drop (pad4 (4 + n)) (b ∷ rest)) % 4 ≡ 0
    aligned n = omega (arith, length-drop (pad4 (4 + n)) (b ∷ rest))

finish_parse-Returns :
    (header raw : Bytes) (o : Outcome (List Attribute))
    → Returns o
    → Returns (finish_parse header raw o)
unfolding finish_parse
finish_parse-Returns header raw (done attrs) h =
    if-Returns (fingerprint_misplaced attrs) _ _ (λ e. tt) (λ e. tt)
finish_parse-Returns header raw (error e) h = tt
finish_parse-Returns header raw panic h = h
finish_parse-Returns header raw out_of_fuel h = h

section_short : (n : ℕ) (input : Bytes) → length (take n (drop 20 input)) ≤ n
section_short n input = omega (arith, length-take n (drop 20 input))

section_aligned :
    (n : ℕ) (input : Bytes)
    → not (n % 4 == 0) ≡ false
    → ltb (length input - 20) n ≡ false
    → length (take n (drop 20 input)) % 4 ≡ 0
section_aligned n input m h = ground (arith, length-take n (drop 20 input), length-drop 20 input)

-- Parsing any bytes ends in a message or an error: no slice expression of the parser has a bound
-- past the length of what it cuts, and the fuel, which is the declared length, is enough.
pub parse_message-Returns : (input : Bytes) → Returns (parse_message input)
unfolding parse_message
parse_message-Returns input =
    let n = get_u16 (slice 2 4 input) in
    if-Returns (ltb (length input) 20) _ _ (λ e. tt)
      λ long. in_range-Returns 8 input _ (ground arith) (
        if-Returns (not (get_u32 (slice 4 8 input) == magic_cookie)) _ _ (λ e. tt)
          λ cookie. in_range-Returns 4 input _ (ground arith) (
            if-Returns (ltb 65535 n) _ _ (λ e. tt)
              λ small.
                if-Returns (not (n % 4 == 0)) _ _ (λ e. tt)
                  λ multiple.
                    if-Returns (ltb (length input - 20) n) _ _ (λ e. tt)
                      λ whole. in_range-Returns 2 input _ (ground arith) (
                        in_range-Returns 20 input _ (ground arith) (
                          in_range-Returns (20 + n) input _ (ground arith) (
                            finish_parse-Returns (take header_size input)
                              (take (header_size + n) input) _
                              (read_attributes-Returns n _ (section_short n input)
                                (section_aligned n input multiple whole)))))))
