-- ===== src/Hook/IpCheck.antt =====
-- internal/hook/ipcheck.go: the gate that a webhook's resolved addresses pass.
pub mod Gate
use anti_nat.Common.{
  ℕ, Bool, true, false, ◌&&◌, ◌||◌, List, [], ◌∷◌, not, ◌==◌, byte_at, if◌then◌else◌,
}
use anti_nat.Net.Addr.{
  Addr, invalid, v4, v6, is_valid, is_4in6, is_unspecified, is_loopback, is_link_local_unicast,
  is_link_local_multicast, is_multicast, is_private,
}
use anti_nat.Net.Prefix.{Prefix, prefix, to_u32, any_contains}

abbrev blocked_v4_prefixes : List Prefix
blocked_v4_prefixes =
    prefix 100 64 0 0 10
    ∷ prefix 169 254 0 0 16
    ∷ prefix 192 0 0 0 24
    ∷ prefix 192 0 2 0 24
    ∷ prefix 192 88 99 0 24
    ∷ prefix 198 18 0 0 15
    ∷ prefix 198 51 100 0 24
    ∷ prefix 203 0 113 0 24
    ∷ prefix 240 0 0 0 4
    ∷ []

-- 2001:db8::/32, 2001::/32 and 2002::/16.
abbrev blocked_v6 : List ℕ → Bool
blocked_v6 v =
    ((byte_at 0 v == 32) && (byte_at 1 v == 1) && (byte_at 2 v == 13) && (byte_at 3 v == 184))
    || ((byte_at 0 v == 32) && (byte_at 1 v == 1) && (byte_at 2 v == 0) && (byte_at 3 v == 0))
    || ((byte_at 0 v == 32) && (byte_at 1 v == 2))

prefix_blocked : Addr → Bool
prefix_blocked (v4 a b c d) = any_contains blocked_v4_prefixes (to_u32 a b c d)
prefix_blocked (v6 v zone) = blocked_v6 v
prefix_blocked invalid = false

scope_blocked : Addr → Bool
scope_blocked a =
    is_loopback a
    || is_private a
    || is_link_local_unicast a
    || is_link_local_multicast a
    || is_multicast a
    || is_unspecified a

unfoldable pub address_blocked : Addr → Bool
unfolding prefix_blocked scope_blocked
address_blocked a =
    if not (is_valid a)
    then true
    else if is_4in6 a
    then true
    else if scope_blocked a
    then true
    else prefix_blocked a

pub data Verdict : Type 0 where
  accepted blocked_address : Verdict

each_address : List Addr → Verdict
each_address [] = accepted
each_address (a ∷ rest) =
    if not (is_valid a) || address_blocked a then blocked_address else each_address rest

unfoldable pub validate_addresses : List Addr → Verdict
unfolding each_address
validate_addresses [] = blocked_address
validate_addresses (a ∷ rest) = each_address (a ∷ rest)
