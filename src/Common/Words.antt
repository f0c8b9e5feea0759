-- ===== src/Common/Words.antt =====
-- encoding/binary.BigEndian: fixed-width integers as bytes, most significant first.
use Prim.Native.Nat.{ℕ, ◌+◌, ◌*◌, ◌/◌, ◌%◌, ◌<◌}
use mathlib.Core.Path.{◌≡◌}
use mathlib.Core.List.{List, [], ◌∷◌, ◌++◌}
use native.Mathlib.Omega.{arith}
use anti_nat.Common.Lists.{take, drop, byte_at}

abbrev pub u8 : ℕ → ℕ
u8 n = n % 256

abbrev pub u16 : ℕ → ℕ
u16 n = n % 65536

abbrev pub u32 : ℕ → ℕ
u32 n = n % 4294967296

abbrev pub u64 : ℕ → ℕ
u64 n = n % 18446744073709551616

-- PutUint16(b, v) into a fresh two-byte slice, and Uint16(b).
abbrev pub put_u16 : ℕ → List ℕ
put_u16 v = u8 (v / 256) ∷ u8 v ∷ []

abbrev pub get_u16 : List ℕ → ℕ
get_u16 b = byte_at 0 b * 256 + byte_at 1 b

abbrev pub put_u32 : ℕ → List ℕ
put_u32 v = u8 (v / 16777216) ∷ u8 (v / 65536) ∷ u8 (v / 256) ∷ u8 v ∷ []

abbrev pub get_u32 : List ℕ → ℕ
get_u32 b = byte_at 0 b * 16777216 + byte_at 1 b * 65536 + byte_at 2 b * 256 + byte_at 3 b

abbrev pub put_u64 : ℕ → List ℕ
put_u64 v = put_u32 (v / 4294967296) ++ put_u32 v

abbrev pub get_u64 : List ℕ → ℕ
get_u64 b = get_u32 (take 4 b) * 4294967296 + get_u32 (drop 4 b)

pub get_u16-put_u16 : (v : ℕ) → v < 65536 → get_u16 (put_u16 v) ≡ v
get_u16-put_u16 v h = omega arith

pub get_u32-put_u32 : (v : ℕ) → v < 4294967296 → get_u32 (put_u32 v) ≡ v
get_u32-put_u32 v h = omega arith
