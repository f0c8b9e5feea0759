-- ===== src/Traversal/Natpmp/Responses.antt =====
-- internal/traversal/natpmp/natpmp.go: which responses are accepted, and what they are read as.
use anti_nat.Common.{
  ℕ, ◌+◌, ◌*◌, ◌/◌, ◌%◌, ◌≡◌, ◌↔◌, ◌⊎◌, inl, inr, refl, sym, ap, subst, ◌∙◌, false, not, ◌&&◌, ◌∷◌,
  ◌++◌, ◌==◌, [], AreBytes, length, byte_at, put_u16, put_u32, u8, ◌<◌, ◌≤◌, ◌-◌, drop, slice,
  get_u16, get_u32, length-take, length-drop, slice-drop, byte-drop, AreBytes-take, AreBytes-drop,
  byte_at-IsByte, ◌≢◌, arith,
}
use anti_nat.Protocol.Fields.{u32_field, get_u32-IsShort}
use anti_nat.Traversal.Natpmp.{Bytes, ok, MapResponse, map_fields, map_checked, parse_map_response}

-- The wire form of a response, as RFC 6886 lays it out.
abbrev pub map_wire : ℕ → MapResponse → Bytes
map_wire want_opcode r =
    0
    ∷ u8 (want_opcode + 128)
    ∷ (put_u16 r.result_code
        ++ (put_u32 r.epoch
            ++ (put_u16 r.internal_port
                ++ (put_u16 r.assigned_external_port ++ put_u32 r.lifetime_seconds))))

pub record IsWord (r : MapResponse) : Type 0 where
  pub code_fits : r.result_code < 65536
  pub epoch_fits : r.epoch < 4294967296
  pub internal_fits : r.internal_port < 65536
  pub external_fits : r.assigned_external_port < 65536
  pub lifetime_fits : r.lifetime_seconds < 4294967296

code_read : (v : ℕ) → v < 65536 → v / 256 % 256 * 256 + v % 256 ≡ v
code_read v h = omega arith

word_read :
    (v : ℕ)
    → v < 4294967296
    → v / 16777216 % 256 * 16777216 + v / 65536 % 256 * 65536 + v / 256 % 256 * 256 + v % 256 ≡ v
word_read v h = omega arith

fields_read : (op : ℕ) (r : MapResponse) → IsWord r → map_fields (map_wire op r) ≡ r
fields_read op r w =
    rw
      (
        code_read r.result_code w.code_fits,
        word_read r.epoch w.epoch_fits,
        code_read r.internal_port w.internal_fits,
        code_read r.assigned_external_port w.external_fits,
        word_read r.lifetime_seconds w.lifetime_fits,
      )
      refl

u16_field : (bs : Bytes) → AreBytes bs → length bs ≡ 2 → put_u16 (get_u16 bs) ≡ bs
u16_field [] h l = absurd (omega arith)
u16_field (a ∷ []) h l = absurd (omega arith)
u16_field (a ∷ b ∷ []) h l = rw (high, low) refl
  where
    high : u8 ((a * 256 + b) / 256) ≡ a
    high = omega arith

    low : u8 (a * 256 + b) ≡ b
    low = omega arith
u16_field (a ∷ b ∷ c ∷ bs) h l = absurd (omega arith)

module _ (packet : Bytes) (bytes : AreBytes packet) (size : length packet ≡ 16) where
  slice-AreBytes : (i j : ℕ) → AreBytes (slice i j packet)
  slice-AreBytes i j = AreBytes-take (j - i) (drop i packet) (AreBytes-drop i packet bytes)

  -- A field and what follows it are what is there from its place on.
  u16_at :
      (i j : ℕ) (rest : Bytes)
      → j ≡ i + 2
      → j ≤ 16
      → rest ≡ drop j packet
      → put_u16 (get_u16 (slice i j packet)) ++ rest ≡ drop i packet
  u16_at i j rest e h follows =
      ap (◌++◌ (put_u16 (get_u16 (slice i j packet)))) follows
      ∙ ap (λ (f : Bytes). f ++ drop j packet)
          (u16_field (slice i j packet) (slice-AreBytes i j)
            (omega (arith, length-take (j - i) (drop i packet), length-drop i packet)))
      ∙ slice-drop i j packet (omega arith)

  u32_at :
      (i j : ℕ) (rest : Bytes)
      → j ≡ i + 4
      → j ≤ 16
      → rest ≡ drop j packet
      → put_u32 (get_u32 (slice i j packet)) ++ rest ≡ drop i packet
  u32_at i j rest e h follows =
      ap (◌++◌ (put_u32 (get_u32 (slice i j packet)))) follows
      ∙ ap (λ (f : Bytes). f ++ drop j packet)
          (u32_field (slice i j packet) (slice-AreBytes i j)
            (omega (arith, length-take (j - i) (drop i packet), length-drop i packet)))
      ∙ slice-drop i j packet (omega arith)

  fields-IsWord : IsWord (map_fields packet)
  fields-IsWord = record {
    code_fits = u16_fits _ (slice-AreBytes 2 4);
    epoch_fits = get_u32-IsShort (slice 4 8 packet) (slice-AreBytes 4 8);
    internal_fits = u16_fits _ (slice-AreBytes 8 10);
    external_fits = u16_fits _ (slice-AreBytes 10 12);
    lifetime_fits = get_u32-IsShort (slice 12 16 packet) (slice-AreBytes 12 16);
  }
    where
      u16_fits : (bs : Bytes) → AreBytes bs → get_u16 bs < 65536
      u16_fits bs h = omega (arith, byte_at-IsByte 0 bs h, byte_at-IsByte 1 bs h)

  -- Sixteen bytes are a wire form: the version, the opcode and the fields in their places.
  map_wire-fields :
      (op : ℕ)
      → byte_at 0 packet ≡ 0
      → byte_at 1 packet ≡ u8 (op + 128)
      → map_wire op (map_fields packet) ≡ packet
  map_wire-fields op version opcode_echo =
      ap (λ (b : ℕ). b ∷ u8 (op + 128) ∷ fields) (sym version)
      ∙ ap (λ (b : ℕ). byte_at 0 packet ∷ b ∷ fields) (sym opcode_echo)
      ∙ ap (λ (f : Bytes). byte_at 0 packet ∷ byte_at 1 packet ∷ f) placed
      ∙ ap (◌∷◌ (byte_at 0 packet)) (byte-drop 1 2 packet (omega arith) refl)
      ∙ byte-drop 0 1 packet (omega arith) refl
    where
      r : MapResponse
      r = map_fields packet

      fields : Bytes
      fields =
          put_u16 r.result_code
          ++ (put_u32 r.epoch
              ++ (put_u16 r.internal_port
                  ++ (put_u16 r.assigned_external_port ++ put_u32 r.lifetime_seconds)))

      nothing : (xs : Bytes) → length xs ≡ 0 → [] ≡ xs
      nothing [] e = refl
      nothing (x ∷ xs) e = absurd (omega arith)

      placed : fields ≡ drop 2 packet
      placed = u16_at 2 4 _ refl (omega arith) (
          u32_at 4 8 _ refl (omega arith) (
            u16_at 8 10 _ refl (omega arith) (
              u16_at 10 12 _ refl (omega arith) (
                u32_at 12 16 [] refl (omega arith)
                  (nothing (drop 16 packet) (omega (arith, length-drop 16 packet)))))))

-- What the parser asks beyond the form: success must echo the internal port.
abbrev pub EchoesPort : ℕ → MapResponse → Type 0
EchoesPort want r = (r.result_code ≢ 0) ⊎ (r.internal_port ≡ want)

echo_cases : (c p w : ℕ) → ((c == 0) && not (p == w)) ≡ false → (c ≢ 0) ⊎ (p ≡ w)
echo_cases c p w h = ground arith

checked_inv :
    (packet : Bytes) (op want : ℕ) (g r : MapResponse)
    → map_checked packet op want g ≡ ok r
    → (length packet ≡ 16)
      × (byte_at 0 packet ≡ 0)
      × (byte_at 1 packet ≡ u8 (op + 128))
      × EchoesPort want g
      × (g ≡ r)
unfolding map_checked
checked_inv packet op want g r h = (
  ground arith,
  ground arith,
  ground arith,
  echo_cases g.result_code g.internal_port want (ground arith),
  ground arith,
)

map_checked-wire :
    (op want : ℕ) (r : MapResponse)
    → EchoesPort want r
    → map_checked (map_wire op r) op want r ≡ ok r
unfolding map_checked
map_checked-wire op want r (inl failed) = ground arith
map_checked-wire op want r (inr same) = ground arith

-- Bytes are accepted as a MAP response for an opcode and an internal port exactly when they are,
-- byte for byte, the wire form of that response with the version 0 and the opcode plus 128, each
-- field fits its 16 or 32 bits, and the response either failed or carries the internal port.
pub parse_map_response_iff :
    (packet : Bytes) (op want : ℕ) (r : MapResponse)
    → AreBytes packet
    → (parse_map_response packet op want ≡ ok r)
      ↔ ((packet ≡ map_wire op r) × IsWord r × EchoesPort want r)
unfolding parse_map_response
parse_map_response_iff packet op want r bytes = (reads, written)
  where
    reads :
        map_checked packet op want (map_fields packet) ≡ ok r
        → (packet ≡ map_wire op r) × IsWord r × EchoesPort want r
    reads h =
        let (size, version, opcode_echo, echo, same) =
          checked_inv packet op want (map_fields packet) r h in
        (
          sym (map_wire-fields packet bytes size op version opcode_echo) ∙ ap (map_wire op) same,
          subst IsWord same (fields-IsWord packet bytes size),
          subst (EchoesPort want) same echo,
        )

    written :
        (packet ≡ map_wire op r) × IsWord r × EchoesPort want r
        → map_checked packet op want (map_fields packet) ≡ ok r
    written (wire, word, echo) =
        ap (λ (p : Bytes). map_checked p op want (map_fields p)) wire
        ∙ ap (map_checked (map_wire op r) op want) (fields_read op r word)
        ∙ map_checked-wire op want r echo
