-- ===== src/Protocol/Endpoint/Literal.antt =====
-- internal/protocol: the checks of a concrete IPv4 literal with a port. ValidatePort and
-- validateIPv4Target of domain.go, ValidateEndpoint of endpoint.go and ValidateProbeEndpoint of
-- probe.go. Errors are named for the check that fails.
use anti_nat.Common.{
  ℕ, Bool, true, false, ◌||◌, List, Option, none, some, ℤ, pos, if◌then◌else◌, ltb_ℤ, byte_at, ltb,
  length, pos_part, not, leb_ℤ,
}
use anti_nat.Net.Addr.{Addr, v4}
use anti_nat.Net.HostPort.{Text, is_empty, split_host_port, parse_ipv4, atoi}
use anti_nat.Protocol.Endpoint.{is_global_endpoint}

pub data EndpointError : Type 0 where
  empty_endpoint not_host_port not_ipv4 not_global port_not_integer port_range : EndpointError

pub data Checked {ℓ} (A : Type ℓ) : Type ℓ where
  ok : A → Checked A
  err : EndpointError → Checked A

infixl 5 ◌>>=◌
abbrev pub ◌>>=◌ {ℓ κ} : {A : Type ℓ} {B : Type κ} → Checked A → (A → Checked B) → Checked B
ok a >>= f = f a
err e >>= f = err e

infixl 5 ◌>>◌
abbrev pub ◌>>◌ {ℓ} : {B : Type ℓ} → Checked (Unit {0}) → Checked B → Checked B
m >> k = m >>= λ _. k

abbrev guard : Bool → EndpointError → Checked (Unit {0})
guard true e = ok tt
guard false e = err e

abbrev from_option {ℓ} : {A : Type ℓ} → Option A → EndpointError → Checked A
from_option none e = err e
from_option (some a) e = ok a

unfoldable validate_port : ℤ → Checked (Unit {0})
validate_port port = if ltb_ℤ port (pos 1) || ltb_ℤ (pos 65535) port then err port_range else ok tt

abbrev pub v4_of : List ℕ → Addr
v4_of bs = v4 (byte_at 0 bs) (byte_at 1 bs) (byte_at 2 bs) (byte_at 3 bs)

unfoldable pub validate_ipv4_target : Text → Checked (Unit {0})
unfolding validate_port
validate_ipv4_target target = do
  parts ← from_option (split_host_port target) not_host_port
  guard (not (is_empty parts.0)) not_host_port
  ip ← from_option (parse_ipv4 parts.0) not_ipv4
  port ← from_option (atoi parts.1) port_not_integer
  validate_port port

-- An address and a port, `netip.AddrPort`; `uint16(port)` is exact in the range.
pub record AddrPort : Type 0 where
  pub addr : Addr
  pub port : ℕ

unfoldable validate_endpoint : Text → Checked AddrPort
unfolding validate_port
validate_endpoint endpoint = do
  guard (not (is_empty endpoint)) empty_endpoint
  parts ← from_option (split_host_port endpoint) not_host_port
  guard (not (is_empty parts.0)) not_host_port
  ip ← from_option (parse_ipv4 parts.0) not_ipv4
  guard (is_global_endpoint (v4_of ip)) not_global
  port ← from_option (atoi parts.1) port_not_integer
  validate_port port
  ok (record { addr = v4_of ip; port = pos_part port })

-- Every failure is the one error ErrProbeEndpoint.
port_in_range : ℤ → Bool
port_in_range port = not (leb_ℤ port (pos 0) || ltb_ℤ (pos 65535) port)

probe_port : Option ℤ → Bool
unfolding port_in_range
probe_port none = false
probe_port (some port) = port_in_range port

probe_literal : Option (List ℕ) → Text → Bool
unfolding probe_port
probe_literal none port_text = false
probe_literal (some ip) port_text =
    if is_global_endpoint (v4_of ip) then probe_port (atoi port_text) else false

probe_parts : Option (Text × Text) → Bool
unfolding probe_literal
probe_parts none = false
probe_parts (some (host, port_text)) =
    if is_empty host then false else probe_literal (parse_ipv4 host) port_text

unfoldable pub validate_probe_endpoint : Text → Bool
unfolding probe_parts
validate_probe_endpoint endpoint =
    if is_empty endpoint || ltb 255 (length endpoint)
    then false
    else probe_parts (split_host_port endpoint)
