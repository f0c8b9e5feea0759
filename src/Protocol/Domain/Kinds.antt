-- ===== src/Protocol/Domain/Kinds.antt =====
-- internal/protocol/domain.go: the frozen enums and their parsers. A Go string type is a text; a
-- map[T]bool is the list of the keys that it maps to true.
pub mod Members
use anti_nat.Common.{
  String, Bool, true, false, ◌||◌, List, [], ◌∷◌, Option, none, some, str_eq, if◌then◌else◌,
}

unfoldable pub member : List String → String → Bool
member [] s = false
member (v ∷ vs) s = str_eq s v || member vs s

unfoldable pub protocol_valid : String → Bool
protocol_valid p = str_eq p "tcp" || str_eq p "udp"

abbrev pub valid_strategies : List String
valid_strategies = "direct-v4" ∷ "manual-static-v4" ∷ "explicit-gateway" ∷ "stun-only" ∷ "auto" ∷ []

unfoldable pub strategy_valid : String → Bool
strategy_valid s = member valid_strategies s

unfoldable pub parse_strategy : String → Option String
unfolding strategy_valid
parse_strategy s = if strategy_valid s then some s else none

unfoldable pub presence_valid : String → Bool
presence_valid p = str_eq p "PRESENT" || str_eq p "ABSENT"

abbrev operation_kinds : List String
operation_kinds =
    "forward_deletion" ∷ "node_deletion" ∷ "node_decommission" ∷ "force_cutover" ∷ "retry"
    ∷ "detection" ∷ []

unfoldable operation_valid : String → Bool
operation_valid k = member operation_kinds k

abbrev pub probe_outcomes : List String
probe_outcomes =
    "ARMED" ∷ "ACCEPTED" ∷ "REJECTED" ∷ "DROPPED" ∷ "OPEN_FROM_VANTAGE" ∷ "TIMEOUT"
    ∷ "NO_INDEPENDENT_VANTAGE" ∷ "PROBE_INFRA_UNAVAILABLE" ∷ "UNKNOWN" ∷ []

unfoldable pub parse_probe_outcome : String → Option String
parse_probe_outcome s = if member probe_outcomes s then some s else none

unfoldable pub may_drive_verified_publication : String → Bool
may_drive_verified_publication o = str_eq o "OPEN_FROM_VANTAGE"

abbrev pub capability_results : List String
capability_results = "PASS" ∷ "SUPPORTED_WITH_LIMITS" ∷ "NO_GO" ∷ "UNKNOWN" ∷ []

unfoldable pub parse_capability_result : String → Option String
parse_capability_result s = if member capability_results s then some s else none
