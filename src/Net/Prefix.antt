-- ===== src/Net/Prefix.antt =====
-- net/netip.Prefix over IPv4: a network address and a number of leading bits.
pub mod Bytes
use anti_nat.Common.{
  ℕ, ◌+◌, ◌*◌, ◌/◌, ◌-◌, ◌^◌, Bool, false, ◌||◌, List, [], ◌∷◌, ◌==◌, Option, none, some,
  if◌then◌else◌,
}

abbrev pub to_u32 : ℕ → ℕ → ℕ → ℕ → ℕ
to_u32 a b c d = a * 16777216 + b * 65536 + c * 256 + d

pub record Prefix : Type 0 where
  pub net : ℕ
  pub bits : ℕ

-- The network `a.b.c.d/bits`.
abbrev pub prefix : ℕ → ℕ → ℕ → ℕ → ℕ → Prefix
prefix a b c d bits = record { net = to_u32 a b c d; bits = bits }

abbrev pub contains : Prefix → ℕ → Bool
contains p x = x / 2 ^ (32 - p.bits) == p.net / 2 ^ (32 - p.bits)

abbrev pub any_contains : List Prefix → ℕ → Bool
any_contains [] x = false
any_contains (p ∷ ps) x = contains p x || any_contains ps x

-- The value of the first network in a table that holds an address.
abbrev pub lookup_prefix {ℓ} : {A : Type ℓ} → List (Prefix × A) → A → ℕ → A
lookup_prefix [] other x = other
lookup_prefix ((p, v) ∷ t) other x = if contains p x then v else lookup_prefix t other x
