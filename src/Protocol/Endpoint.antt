-- ===== src/Protocol/Endpoint.antt =====
-- internal/protocol/endpoint.go: the address class of an IP literal.
pub mod Table
pub mod Literal
use anti_nat.Common.{ℕ, ◌/◌, Bool, true, false, ◌&&◌, List, byte_at, ◌==◌, leb, if◌then◌else◌}
use anti_nat.Net.Addr.{
  Addr, invalid, v4, v6, is_4in6, is_unspecified, is_loopback, is_link_local_unicast, is_multicast,
}

pub data EndpointClass : Type 0 where
  unspecified loopback rfc1918 cgnat link_local benchmark documentation multicast : EndpointClass
  reserved global_unicast ipv4_mapped_ipv6 : EndpointClass

unfoldable pub classify_ipv4 : ℕ → ℕ → ℕ → ℕ → EndpointClass
classify_ipv4 a b c d =
    if a == 10
    then rfc1918
    else if (a == 172) && leb 16 b && leb b 31
    then rfc1918
    else if (a == 192) && (b == 168)
    then rfc1918
    else if (a == 100) && leb 64 b && leb b 127
    then cgnat
    else if (a == 169) && (b == 254)
    then link_local
    else if (a == 198) && leb 18 b && leb b 19
    then benchmark
    else if (a == 192) && (b == 0) && (c == 2)
    then documentation
    else if (a == 198) && (b == 51) && (c == 100)
    then documentation
    else if (a == 203) && (b == 0) && (c == 113)
    then documentation
    else if (a == 192) && (b == 0) && (c == 0)
    then reserved
    else if (a == 192) && (b == 31) && (c == 196)
    then reserved
    else if (a == 192) && (b == 52) && (c == 193)
    then reserved
    else if (a == 192) && (b == 88) && (c == 99)
    then reserved
    else if (a == 192) && (b == 175) && (c == 48)
    then reserved
    else if leb 224 a && leb a 239
    then multicast
    else if a == 0
    then reserved
    else if leb 240 a
    then reserved
    else global_unicast

-- The tests of `ClassifyIP` that follow `ip.Is4()`; `v[0] & 0xfe == 0xfc` is `v[0] / 2 == 126`.
classify_ipv6 : List ℕ → Addr → EndpointClass
classify_ipv6 v ip =
    if is_link_local_unicast ip
    then link_local
    else if is_multicast ip
    then multicast
    else if byte_at 0 v / 2 == 126
    then rfc1918
    else if (byte_at 0 v == 32) && (byte_at 1 v == 1) && (byte_at 2 v == 13) && (byte_at 3 v == 184)
    then documentation
    else global_unicast

family_class : Addr → EndpointClass
unfolding classify_ipv6
family_class (v4 a b c d) = classify_ipv4 a b c d
family_class (v6 bs zone) = classify_ipv6 bs (v6 bs zone)
family_class invalid = unspecified

valid_class : Addr → EndpointClass
unfolding family_class
valid_class ip =
    if is_4in6 ip
    then ipv4_mapped_ipv6
    else if is_unspecified ip
    then unspecified
    else if is_loopback ip
    then loopback
    else family_class ip

unfoldable pub classify_ip : Addr → EndpointClass
unfolding valid_class
classify_ip invalid = unspecified
classify_ip (v4 a b c d) = valid_class (v4 a b c d)
classify_ip (v6 bs zone) = valid_class (v6 bs zone)

abbrev is_global_class : EndpointClass → Bool
is_global_class documentation = true
is_global_class global_unicast = true
is_global_class _ = false

unfoldable pub is_global_endpoint : Addr → Bool
unfolding classify_ip
is_global_endpoint (v4 a b c d) = is_global_class (classify_ip (v4 a b c d))
is_global_endpoint invalid = false
is_global_endpoint (v6 bs zone) = false
