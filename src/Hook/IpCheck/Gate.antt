-- ===== src/Hook/IpCheck/Gate.antt =====
-- What passes the gate: the networks that it closes, and how it compares with the address classes.
use anti_nat.Common.{
  if◌then◌else◌, ℕ, ◌/◌, ◌≡◌, refl, Bool, true, false, ◌&&◌, ◌||◌, List, [], ◌∷◌, ◌==◌, leb, arith,
  All, ◌↔◌, ◌⊎◌, ◌≢◌,
}
use anti_nat.Net.Addr.{
  Addr, v4, IsV4, is_valid, is_4in6, is_unspecified, is_loopback, is_link_local_unicast,
  is_link_local_multicast, is_multicast, is_private,
}
use anti_nat.Net.Prefix.{Prefix, prefix, to_u32, any_contains}
use anti_nat.Net.Prefix.Bytes.{
  net8, net16, net24, net_100, net_172, net_198, net_224, net_240, host_any,
}
use anti_nat.Hook.IpCheck.{accepted, address_blocked, validate_addresses, each_address}
use anti_nat.Protocol.Endpoint.Table.{classify_ip-eq-table}
use anti_nat.Protocol.Endpoint.{
  classify_ip, EndpointClass, unspecified, loopback, rfc1918, cgnat, link_local, benchmark,
  documentation, multicast, reserved, global_unicast,
}

abbrev pub closed_networks : List Prefix
closed_networks =
    prefix 127 0 0 0 8
    ∷ prefix 10 0 0 0 8
    ∷ prefix 172 16 0 0 12
    ∷ prefix 192 168 0 0 16
    ∷ prefix 169 254 0 0 16
    ∷ prefix 224 0 0 0 4
    ∷ prefix 0 0 0 0 32
    ∷ prefix 100 64 0 0 10
    ∷ prefix 192 0 0 0 24
    ∷ prefix 192 0 2 0 24
    ∷ prefix 192 88 99 0 24
    ∷ prefix 198 18 0 0 15
    ∷ prefix 198 51 100 0 24
    ∷ prefix 203 0 113 0 24
    ∷ prefix 240 0 0 0 4
    ∷ []

-- Networks that the address classes reserve and the gate lets through.
abbrev pub open_reserved : List Prefix
open_reserved =
    prefix 0 0 0 0 8 ∷ prefix 192 31 196 0 24 ∷ prefix 192 52 193 0 24 ∷ prefix 192 175 48 0 24 ∷ []

-- The order of the code's tests against that of the networks.
regroup :
    (lo p1 p2 p3 ll lm mc un c1 r : Bool)
    → (lm && mc) ≡ lm
    → (if lo || (p1 || p2 || p3) || ll || lm || mc || un then true else (c1 || (ll || r)))
      ≡ (lo || (p1 || (p2 || (p3 || (ll || (mc || (un || (c1 || r))))))))
regroup lo p1 p2 p3 ll lm mc un c1 r e = ground arith

-- With every closed test refused, the ladder of classes ends at one of the open networks.
abbrev ladder : (un lo p1 p2 p3 cg ll bm d1 d2 d3 r1 o1 o2 r2 o3 mc o0 hi : Bool) → EndpointClass
ladder un lo p1 p2 p3 cg ll bm d1 d2 d3 r1 o1 o2 r2 o3 mc o0 hi =
    if un
    then unspecified
    else if lo
    then loopback
    else if p1
    then rfc1918
    else if p2
    then rfc1918
    else if p3
    then rfc1918
    else if cg
    then cgnat
    else if ll
    then link_local
    else if bm
    then benchmark
    else if d1
    then documentation
    else if d2
    then documentation
    else if d3
    then documentation
    else if r1
    then reserved
    else if o1
    then reserved
    else if o2
    then reserved
    else if r2
    then reserved
    else if o3
    then reserved
    else if mc
    then multicast
    else if o0
    then reserved
    else if hi
    then reserved
    else global_unicast

open_cases :
    (lo p1 p2 p3 ll mc un cg r1 d1 r2 bm d2 d3 hi o0 o1 o2 o3 : Bool)
    → (lo
        || (p1
            || (p2
                || (p3
                    || (ll
                        || (mc
                            || (un
                                || (cg
                                    || (r1
                                        || (d1
                                            || (r2
                                                || (bm || (d2 || (d3 || (hi || false)))))))))))))))
      ≡ false
    → (ladder un lo p1 p2 p3 cg ll bm d1 d2 d3 r1 o1 o2 r2 o3 mc o0 hi ≡ global_unicast)
      ⊎ ((ladder un lo p1 p2 p3 cg ll bm d1 d2 d3 r1 o1 o2 r2 o3 mc o0 hi ≡ reserved)
          × ((o0 || (o1 || (o2 || (o3 || false)))) ≡ true))
open_cases lo p1 p2 p3 ll mc un cg r1 d1 r2 bm d2 d3 hi o0 o1 o2 o3 e = ground arith

module _ (a b c d : ℕ) (h : IsV4 a b c d) where
  private_172 : ((a == 172) && (b / 16 == 1)) ≡ ((a == 172) && leb 16 b && leb b 31)
  private_172 = ground arith

  top_14 : (a / 16 == 14) ≡ (leb 224 a && leb a 239)
  top_14 = ground arith

  local_multicast :
      ((a == 224) && (b == 0) && (c == 0) && (leb 224 a && leb a 239))
      ≡ ((a == 224) && (b == 0) && (c == 0))
  local_multicast = ground arith

  -- The gate blocks an IPv4 address exactly when one of the networks of `closed_networks` holds it.
  pub address_blocked-eq-networks :
      address_blocked (v4 a b c d) ≡ any_contains closed_networks (to_u32 a b c d)
  unfolding address_blocked is_4in6 is_unspecified is_loopback is_link_local_unicast
      is_link_local_multicast is_multicast is_private
  address_blocked-eq-networks =
      rw
        (
          host_any a b c d h,
          net8 a b c d h 10,
          net_100 a b c d h,
          net8 a b c d h 127,
          net16 a b c d h 169 254 (omega arith),
          net_172 a b c d h,
          net24 a b c d h 192 0 0 (omega arith) (omega arith),
          net24 a b c d h 192 0 2 (omega arith) (omega arith),
          net24 a b c d h 192 88 99 (omega arith) (omega arith),
          net16 a b c d h 192 168 (omega arith),
          net_198 a b c d h,
          net24 a b c d h 198 51 100 (omega arith) (omega arith),
          net24 a b c d h 203 0 113 (omega arith) (omega arith),
          net_224 a b c d h,
          net_240 a b c d h,
          private_172,
          top_14,
        )
        (regroup (a == 127) (a == 10) ((a == 172) && leb 16 b && leb b 31)
          ((a == 192) && (b == 168)) ((a == 169) && (b == 254)) _ _
          ((a == 0) && (b == 0) && (c == 0) && (d == 0)) ((a == 100) && leb 64 b && leb b 127)
          (((a == 192) && (b == 0) && (c == 0))
            || (((a == 192) && (b == 0) && (c == 2))
                || (((a == 192) && (b == 88) && (c == 99))
                    || (((a == 198) && leb 18 b && leb b 19)
                        || (((a == 198) && (b == 51) && (c == 100))
                            || (((a == 203) && (b == 0) && (c == 113)) || (leb 240 a || false)))))))
          local_multicast)

  -- An IPv4 address that the gate lets through is of class global unicast, or it is of class
  -- reserved and lies in one of the networks 0.0.0.0/8, 192.31.196.0/24, 192.52.193.0/24 and
  -- 192.175.48.0/24.
  pub address_blocked_classes :
      address_blocked (v4 a b c d) ≡ false
      → (classify_ip (v4 a b c d) ≡ global_unicast)
        ⊎ ((classify_ip (v4 a b c d) ≡ reserved)
            × (any_contains open_reserved (to_u32 a b c d) ≡ true))
  address_blocked_classes =
      rw
        (
          address_blocked-eq-networks,
          classify_ip-eq-table a b c d h,
          host_any a b c d h,
          net8 a b c d h 10,
          net_100 a b c d h,
          net8 a b c d h 127,
          net8 a b c d h 0,
          net16 a b c d h 169 254 (omega arith),
          net_172 a b c d h,
          net24 a b c d h 192 0 0 (omega arith) (omega arith),
          net24 a b c d h 192 0 2 (omega arith) (omega arith),
          net24 a b c d h 192 88 99 (omega arith) (omega arith),
          net24 a b c d h 192 31 196 (omega arith) (omega arith),
          net24 a b c d h 192 52 193 (omega arith) (omega arith),
          net24 a b c d h 192 175 48 (omega arith) (omega arith),
          net16 a b c d h 192 168 (omega arith),
          net_198 a b c d h,
          net24 a b c d h 198 51 100 (omega arith) (omega arith),
          net24 a b c d h 203 0 113 (omega arith) (omega arith),
          net_224 a b c d h,
          net_240 a b c d h,
        )
        (open_cases (a == 127) (a == 10) ((a == 172) && leb 16 b && leb b 31)
          ((a == 192) && (b == 168)) ((a == 169) && (b == 254)) (leb 224 a && leb a 239)
          ((a == 0) && (b == 0) && (c == 0) && (d == 0)) ((a == 100) && leb 64 b && leb b 127)
          ((a == 192) && (b == 0) && (c == 0)) ((a == 192) && (b == 0) && (c == 2))
          ((a == 192) && (b == 88) && (c == 99)) ((a == 198) && leb 18 b && leb b 19)
          ((a == 198) && (b == 51) && (c == 100)) ((a == 203) && (b == 0) && (c == 113)) (leb 240 a)
          (a == 0) ((a == 192) && (b == 31) && (c == 196)) ((a == 192) && (b == 52) && (c == 193))
          ((a == 192) && (b == 175) && (c == 48)))

abbrev pub IsDialable : Addr → Type 0
IsDialable a = (is_valid a ≡ true) × (address_blocked a ≡ false)

each_address_sound : (addrs : List Addr) → each_address addrs ≡ accepted → All IsDialable addrs
unfolding validate_addresses
each_address_sound [] e = tt
each_address_sound (a ∷ rest) e = ground (arith, each_address_sound rest)

each_address_complete : (addrs : List Addr) → All IsDialable addrs → each_address addrs ≡ accepted
unfolding validate_addresses
each_address_complete [] h = refl
each_address_complete (a ∷ rest) h = ground (arith, each_address_complete rest h.1)

-- The gate accepts a resolution exactly when it is not empty and every address in it is valid and
-- not blocked.
pub validate_addresses-accepted_iff :
    (addrs : List Addr)
    → (validate_addresses addrs ≡ accepted) ↔ ((addrs ≢ []) × All IsDialable addrs)
unfolding validate_addresses
validate_addresses-accepted_iff [] = ((λ e. ground arith), (λ h. absurd (h.0 refl)))
validate_addresses-accepted_iff (a ∷ rest) = (
  (λ e. ((λ n. cc), each_address_sound (a ∷ rest) e)),
  (λ h. each_address_complete (a ∷ rest) h.1),
)
