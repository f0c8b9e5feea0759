-- ===== src/Net/Prefix/Bytes.antt =====
-- A network of a few common lengths holds an address exactly when a test on its bytes passes.
use anti_nat.Common.{ℕ, ◌+◌, ◌*◌, ◌/◌, ◌≡◌, ◌<◌, ◌&&◌, ◌==◌, leb, arith}
use anti_nat.Net.Addr.{IsV4}
use anti_nat.Net.Prefix.{prefix, to_u32, contains}

module _ (a b c d : ℕ) (h : IsV4 a b c d) where
  pub net8 : (n : ℕ) → (to_u32 a b c d / 16777216 == n) ≡ (a == n)
  net8 n = ground arith

  pub net16 : (m n : ℕ) → n < 256 → (to_u32 a b c d / 65536 == m * 256 + n) ≡ ((a == m) && (b == n))
  net16 m n p = ground arith

  pub net24 :
      (m n k : ℕ)
      → n < 256
      → k < 256
      → (to_u32 a b c d / 256 == m * 65536 + n * 256 + k) ≡ ((a == m) && (b == n) && (c == k))
  net24 m n k p q = ground arith

  pub net_172 :
      contains (prefix 172 16 0 0 12) (to_u32 a b c d) ≡ ((a == 172) && leb 16 b && leb b 31)
  net_172 = ground arith

  pub net_100 :
      contains (prefix 100 64 0 0 10) (to_u32 a b c d) ≡ ((a == 100) && leb 64 b && leb b 127)
  net_100 = ground arith

  pub net_198 :
      contains (prefix 198 18 0 0 15) (to_u32 a b c d) ≡ ((a == 198) && leb 18 b && leb b 19)
  net_198 = ground arith

  pub net_224 : contains (prefix 224 0 0 0 4) (to_u32 a b c d) ≡ (leb 224 a && leb a 239)
  net_224 = ground arith

  pub net_240 : contains (prefix 240 0 0 0 4) (to_u32 a b c d) ≡ leb 240 a
  net_240 = ground arith

  pub host_any :
      contains (prefix 0 0 0 0 32) (to_u32 a b c d) ≡ ((a == 0) && (b == 0) && (c == 0) && (d == 0))
  host_any = ground arith
