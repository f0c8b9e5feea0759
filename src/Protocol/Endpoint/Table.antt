-- ===== src/Protocol/Endpoint/Table.antt =====
-- The IPv4 address classes as a table of networks, and the equivalence of the code with it.
use anti_nat.Common.{ℕ, ◌≡◌, List, [], ◌∷◌, arith, not}
use anti_nat.Net.Addr.{v4, IsV4, is_4in6, is_unspecified, is_loopback}
use anti_nat.Net.Prefix.{Prefix, prefix, to_u32, lookup_prefix, any_contains}
use anti_nat.Net.Prefix.Bytes.{
  net8, net16, net24, net_100, net_172, net_198, net_224, net_240, host_any,
}
use anti_nat.Protocol.Endpoint.{
  EndpointClass, unspecified, loopback, rfc1918, cgnat, link_local, benchmark, documentation,
  multicast, reserved, global_unicast, classify_ipv4, classify_ip, is_global_endpoint,
}

abbrev class_table : List (Prefix × EndpointClass)
class_table =
    (prefix 10 0 0 0 8, rfc1918)
    ∷ (prefix 172 16 0 0 12, rfc1918)
    ∷ (prefix 192 168 0 0 16, rfc1918)
    ∷ (prefix 100 64 0 0 10, cgnat)
    ∷ (prefix 169 254 0 0 16, link_local)
    ∷ (prefix 198 18 0 0 15, benchmark)
    ∷ (prefix 192 0 2 0 24, documentation)
    ∷ (prefix 198 51 100 0 24, documentation)
    ∷ (prefix 203 0 113 0 24, documentation)
    ∷ (prefix 192 0 0 0 24, reserved)
    ∷ (prefix 192 31 196 0 24, reserved)
    ∷ (prefix 192 52 193 0 24, reserved)
    ∷ (prefix 192 88 99 0 24, reserved)
    ∷ (prefix 192 175 48 0 24, reserved)
    ∷ (prefix 224 0 0 0 4, multicast)
    ∷ (prefix 0 0 0 0 8, reserved)
    ∷ (prefix 240 0 0 0 4, reserved)
    ∷ []

abbrev pub ip_table : List (Prefix × EndpointClass)
ip_table = (prefix 0 0 0 0 32, unspecified) ∷ (prefix 127 0 0 0 8, loopback) ∷ class_table

abbrev pub non_global : List Prefix
non_global =
    prefix 0 0 0 0 8
    ∷ prefix 10 0 0 0 8
    ∷ prefix 100 64 0 0 10
    ∷ prefix 127 0 0 0 8
    ∷ prefix 169 254 0 0 16
    ∷ prefix 172 16 0 0 12
    ∷ prefix 192 0 0 0 24
    ∷ prefix 192 31 196 0 24
    ∷ prefix 192 52 193 0 24
    ∷ prefix 192 88 99 0 24
    ∷ prefix 192 168 0 0 16
    ∷ prefix 192 175 48 0 24
    ∷ prefix 198 18 0 0 15
    ∷ prefix 224 0 0 0 4
    ∷ prefix 240 0 0 0 4
    ∷ []

module _ (a b c d : ℕ) (h : IsV4 a b c d) where
  classify_ipv4-eq-table :
      classify_ipv4 a b c d ≡ lookup_prefix class_table global_unicast (to_u32 a b c d)
  unfolding classify_ipv4
  classify_ipv4-eq-table = rw (
    net8 a b c d h 10,
    net_172 a b c d h,
    net16 a b c d h 192 168 (omega arith),
    net_100 a b c d h,
    net16 a b c d h 169 254 (omega arith),
    net_198 a b c d h,
    net24 a b c d h 192 0 2 (omega arith) (omega arith),
    net24 a b c d h 198 51 100 (omega arith) (omega arith),
    net24 a b c d h 203 0 113 (omega arith) (omega arith),
    net24 a b c d h 192 0 0 (omega arith) (omega arith),
    net24 a b c d h 192 31 196 (omega arith) (omega arith),
    net24 a b c d h 192 52 193 (omega arith) (omega arith),
    net24 a b c d h 192 88 99 (omega arith) (omega arith),
    net24 a b c d h 192 175 48 (omega arith) (omega arith),
    net_224 a b c d h,
    net8 a b c d h 0,
    net_240 a b c d h,
  )

  -- The class of an IPv4 address is that of the first network of `ip_table` which holds it, and
  -- global unicast where none does.
  pub classify_ip-eq-table :
      classify_ip (v4 a b c d) ≡ lookup_prefix ip_table global_unicast (to_u32 a b c d)
  unfolding classify_ip is_4in6 is_unspecified is_loopback
  classify_ip-eq-table = rw (host_any a b c d h, net8 a b c d h 127, ← classify_ipv4-eq-table)

  -- An IPv4 address is a global endpoint exactly when none of the networks of `non_global` holds
  -- it.
  pub is_global_endpoint-eq-table :
      is_global_endpoint (v4 a b c d) ≡ not (any_contains non_global (to_u32 a b c d))
  unfolding is_global_endpoint is_4in6 is_unspecified is_loopback classify_ipv4
  is_global_endpoint-eq-table =
      rw
        (
          net8 a b c d h 0,
          net8 a b c d h 10,
          net_100 a b c d h,
          net8 a b c d h 127,
          net16 a b c d h 169 254 (omega arith),
          net_172 a b c d h,
          net24 a b c d h 192 0 0 (omega arith) (omega arith),
          net24 a b c d h 192 31 196 (omega arith) (omega arith),
          net24 a b c d h 192 52 193 (omega arith) (omega arith),
          net24 a b c d h 192 88 99 (omega arith) (omega arith),
          net16 a b c d h 192 168 (omega arith),
          net24 a b c d h 192 175 48 (omega arith) (omega arith),
          net_198 a b c d h,
          net_224 a b c d h,
          net_240 a b c d h,
        )
        (ground arith)
