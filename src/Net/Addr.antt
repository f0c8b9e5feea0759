-- ===== src/Net/Addr.antt =====
-- net/netip.Addr: the zero Addr, an IPv4 address, or an IPv6 address with its zone, and the
-- predicates on it. A mapped address is unmapped first, as netip does it.
use anti_nat.Common.{
  ℕ, ◌/◌, ◌%◌, Bool, true, false, ◌&&◌, ◌||◌, List, [], ◌∷◌, String, str_eq, ◌==◌, byte_at,
  bytes_eq, take, replicate, if◌then◌else◌, IsByte,
}

pub data Addr : Type 0 where
  invalid : Addr
  v4 : ℕ → ℕ → ℕ → ℕ → Addr
  v6 : List ℕ → String → Addr

abbrev pub is_valid : Addr → Bool
is_valid invalid = false
is_valid (v4 a b c d) = true
is_valid (v6 bs zone) = true

abbrev is_4 : Addr → Bool
is_4 (v4 a b c d) = true
is_4 invalid = false
is_4 (v6 bs zone) = false

abbrev mapped_prefix : List ℕ
mapped_prefix = 0 ∷ 0 ∷ 0 ∷ 0 ∷ 0 ∷ 0 ∷ 0 ∷ 0 ∷ 0 ∷ 0 ∷ 255 ∷ 255 ∷ []

abbrev loopback_bytes : List ℕ
loopback_bytes = 0 ∷ 0 ∷ 0 ∷ 0 ∷ 0 ∷ 0 ∷ 0 ∷ 0 ∷ 0 ∷ 0 ∷ 0 ∷ 0 ∷ 0 ∷ 0 ∷ 0 ∷ 1 ∷ []

unfoldable pub is_4in6 : Addr → Bool
is_4in6 (v6 bs zone) = bytes_eq (take 12 bs) mapped_prefix
is_4in6 invalid = false
is_4in6 (v4 a b c d) = false

unfoldable unmap : Addr → Addr
unfolding is_4in6
unmap (v6 bs zone) =
    if is_4in6 (v6 bs zone)
    then v4 (byte_at 12 bs) (byte_at 13 bs) (byte_at 14 bs) (byte_at 15 bs)
    else v6 bs zone
unmap invalid = invalid
unmap (v4 a b c d) = v4 a b c d

-- An address with a zone is not the unspecified one.
unfoldable pub is_unspecified : Addr → Bool
is_unspecified (v4 a b c d) = (a == 0) && (b == 0) && (c == 0) && (d == 0)
is_unspecified (v6 bs zone) = bytes_eq bs (replicate 16 0) && str_eq zone ""
is_unspecified invalid = false

loopback_of : Addr → Bool
loopback_of (v4 a b c d) = a == 127
loopback_of (v6 bs zone) = bytes_eq bs loopback_bytes
loopback_of invalid = false

unfoldable pub is_loopback : Addr → Bool
unfolding loopback_of unmap
is_loopback a = loopback_of (unmap a)

-- 169.254/16 and fe80::/10.
link_local_unicast_of : Addr → Bool
link_local_unicast_of (v4 a b c d) = (a == 169) && (b == 254)
link_local_unicast_of (v6 bs zone) = (byte_at 0 bs == 254) && (byte_at 1 bs / 64 == 2)
link_local_unicast_of invalid = false

unfoldable pub is_link_local_unicast : Addr → Bool
unfolding link_local_unicast_of unmap
is_link_local_unicast a = link_local_unicast_of (unmap a)

-- 224.0.0/24 and ffx2::/16.
link_local_multicast_of : Addr → Bool
link_local_multicast_of (v4 a b c d) = (a == 224) && (b == 0) && (c == 0)
link_local_multicast_of (v6 bs zone) = (byte_at 0 bs == 255) && (byte_at 1 bs % 16 == 2)
link_local_multicast_of invalid = false

unfoldable pub is_link_local_multicast : Addr → Bool
unfolding link_local_multicast_of unmap
is_link_local_multicast a = link_local_multicast_of (unmap a)

-- 224/4 and ff00::/8.
multicast_of : Addr → Bool
multicast_of (v4 a b c d) = a / 16 == 14
multicast_of (v6 bs zone) = byte_at 0 bs == 255
multicast_of invalid = false

unfoldable pub is_multicast : Addr → Bool
unfolding multicast_of unmap
is_multicast a = multicast_of (unmap a)

-- 10/8, 172.16/12, 192.168/16 and fc00::/7.
private_of : Addr → Bool
private_of (v4 a b c d) = (a == 10) || ((a == 172) && (b / 16 == 1)) || ((a == 192) && (b == 168))
private_of (v6 bs zone) = byte_at 0 bs / 2 == 126
private_of invalid = false

unfoldable pub is_private : Addr → Bool
unfolding private_of unmap
is_private a = private_of (unmap a)

-- The four bytes of an IPv4 address are bytes.
pub record IsV4 (a b c d : ℕ) : Type 0 where
  pub first : IsByte a
  pub second : IsByte b
  pub third : IsByte c
  pub fourth : IsByte d
