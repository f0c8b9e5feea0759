-- ===== src/Scenarios/Natpmp.antt =====
-- internal/traversal/natpmp/natpmp.go: cases of the theorems.
use anti_nat.Common.{◌≡◌, ◌↔◌, AreBytes, arith}
use anti_nat.Traversal.Natpmp.{ok, MapResponse, parse_map_response}
use anti_nat.Traversal.Natpmp.Responses.{map_wire, IsWord, EchoesPort, parse_map_response_iff}

-- A TCP mapping of port 8080 to port 40000 for two hours.
abbrev granted : MapResponse
granted = record {
  result_code = 0;
  epoch = 70000;
  internal_port = 8080;
  assigned_external_port = 40000;
  lifetime_seconds = 7200;
}

granted_bytes : AreBytes (map_wire 2 granted)
granted_bytes = omega arith

parse_map_response_iff_example :
    (parse_map_response (map_wire 2 granted) 2 8080 ≡ ok granted)
    ↔ ((map_wire 2 granted ≡ map_wire 2 granted) × IsWord granted × EchoesPort 8080 granted)
parse_map_response_iff_example =
    parse_map_response_iff (map_wire 2 granted) 2 8080 granted granted_bytes
