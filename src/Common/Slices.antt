-- ===== src/Common/Slices.antt =====
-- Parts of a byte string, cut off one after another.
use Prim.Native.Nat.{ℕ, zero, suc, ◌+◌, ◌-◌, ◌≤◌, ◌<◌}
use mathlib.Core.Path.{◌≡◌, refl, ap, ◌∙◌}
use mathlib.Core.List.{List, [], ◌∷◌, ◌++◌}
use native.Mathlib.Omega.{arith}
use anti_nat.Common.Lists.{
  length, take, drop, slice, byte_at, take-append_length, drop-append_length, take-append-drop,
}

pub drop-drop : (k i n : ℕ) (raw : List ℕ) → k ≡ i + n → drop k raw ≡ drop n (drop i raw)
drop-drop k zero n raw h = ap (λ (m : ℕ). drop m raw) (omega arith)
drop-drop zero (suc i) n raw h = absurd (omega arith)
drop-drop (suc k) (suc i) zero [] h = refl
drop-drop (suc k) (suc i) (suc n) [] h = refl
drop-drop (suc k) (suc i) n (x ∷ raw) h = drop-drop k i n raw (omega arith)

pub slice-drop : (i j : ℕ) (raw : List ℕ) → i ≤ j → slice i j raw ++ drop j raw ≡ drop i raw
slice-drop i j raw h =
    ap (◌++◌ (slice i j raw)) (drop-drop j i (j - i) raw (omega arith))
    ∙ take-append-drop (j - i) (drop i raw)

pub byte-drop :
    (i k : ℕ) (raw : List ℕ) → i < length raw → k ≡ i + 1 → byte_at i raw ∷ drop k raw ≡ drop i raw
byte-drop i k [] h e = absurd (omega arith)
byte-drop zero k (x ∷ raw) h e = rw e refl
byte-drop (suc i) zero (x ∷ raw) h e = absurd (omega arith)
byte-drop (suc i) (suc k) (x ∷ raw) h e = byte-drop i k raw (omega arith) (omega arith)

-- A part of known length is the slice at its place, and the rest follows it.
pub advance :
    (i j : ℕ) (raw xs ys : List ℕ)
    → j ≡ i + length xs
    → drop i raw ≡ xs ++ ys
    → (slice i j raw ≡ xs) × (drop j raw ≡ ys)
advance i j raw xs ys h e = (
  ap (take (j - i)) e ∙ take-append_length (j - i) xs ys (omega arith),
  drop-drop j i (j - i) raw (omega arith)
      ∙ ap (drop (j - i)) e
      ∙ drop-append_length (j - i) xs ys (omega arith),
)

pub byte_of-drop : (i b : ℕ) (raw ys : List ℕ) → drop i raw ≡ b ∷ ys → byte_at i raw ≡ b
byte_of-drop zero b [] ys e = ground arith
byte_of-drop (suc i) b [] ys e = absurd (ground arith)
byte_of-drop zero b (x ∷ raw) ys e = ground arith
byte_of-drop (suc i) b (x ∷ raw) ys e = byte_of-drop i b raw ys e
