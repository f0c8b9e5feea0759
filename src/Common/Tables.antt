-- ===== src/Common/Tables.antt =====
-- Checks of every value below a bound, by evaluation.
use Prim.Native.Nat.{ℕ, zero, suc, ◌<◌, bit_xor}
use mathlib.Core.Path.{◌≡◌, refl}
use mathlib.Core.Bool.{Bool, true, ◌&&◌}
use native.Mathlib.Omega.{arith}
use anti_nat.Common.Tests.{◌==◌, ltb}

unfoldable pub holds_below : ℕ → (ℕ → Bool) → Bool
holds_below zero test = true
holds_below (suc bound) test = holds_below bound test && test bound

pub holds_below-at :
    (bound : ℕ) (test : ℕ → Bool) (i : ℕ)
    → holds_below bound test ≡ true
    → i < bound
    → test i ≡ true
unfolding holds_below
holds_below-at (suc bound) test i all in_range = ground (arith, holds_below-at bound test i)
holds_below-at zero test i all in_range = absurd (omega arith)

xor_table :
    holds_below 256
      (λ a. holds_below 256 (λ b. (bit_xor (bit_xor a b) b == a) && ltb (bit_xor a b) 256))
    ≡ true
unfolding holds_below
xor_table = refl

-- On bytes, exclusive or with one byte is its own inverse.
pub xor_byte : (a b : ℕ) → a < 256 → b < 256 → (bit_xor (bit_xor a b) b ≡ a) × (bit_xor a b < 256)
xor_byte a b ha hb =
    let h = holds_below-at 256 _ b (holds_below-at 256 _ a xor_table ha) hb in ground arith
