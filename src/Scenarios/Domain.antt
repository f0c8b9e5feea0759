-- ===== src/Scenarios/Domain.antt =====
-- internal/protocol and internal/hook: cases of the theorems on addresses, states and snapshots.
use anti_nat.Common.{
  ◌≡◌, ◌≢◌, ◌↔◌, ◌⊎◌, refl, String, true, false, List, [], ◌∷◌, none, Memᴰ, length, ◌≤◌, arith,
  str_eq,
}
use anti_nat.Net.Addr.{
  Addr, v4, is_4in6, is_loopback, is_private, is_link_local_unicast, is_link_local_multicast,
  is_multicast, is_unspecified,
}
use anti_nat.Net.Prefix.{lookup_prefix, any_contains, to_u32}
use anti_nat.Protocol.Endpoint.{classify_ip, global_unicast, reserved}
use anti_nat.Protocol.Endpoint.Table.{ip_table, classify_ip-eq-table}
use anti_nat.Hook.IpCheck.{address_blocked}
use anti_nat.Hook.IpCheck.Gate.{
  closed_networks, open_reserved, address_blocked-eq-networks, address_blocked_classes,
}
use anti_nat.Protocol.Domain.Axes.{ActivationStates, validate_states}
use anti_nat.Protocol.Domain.Axes.Truth.{IsTruthful}
use anti_nat.Protocol.Domain.Axes.Legal.{IsLegal, validate_states_iff}
use anti_nat.Protocol.Domain.Fsm.{
  validate_fsm_transition, valid_fsm_state, find_table, states_of, allows,
}
use anti_nat.Protocol.Domain.Fsm.Runs.{IsRun, last_of, runs_are_acyclic, collected_after_receipt}
use anti_nat.Protocol.Domain.Kinds.{member}
use anti_nat.Protocol.Domain.Spec.{DesiredState, ForwardSpec, validate_desired}
use anti_nat.Protocol.Domain.Spec.Snapshots.{Distinct, validate_desired_iff}

-- 100.64.0.1, of the carrier-grade NAT.
classify_ip-eq-table_example :
    classify_ip (v4 100 64 0 1) ≡ lookup_prefix ip_table global_unicast (to_u32 100 64 0 1)
classify_ip-eq-table_example = classify_ip-eq-table 100 64 0 1 (omega arith)

address_blocked-eq-networks_example :
    address_blocked (v4 169 254 169 254) ≡ any_contains closed_networks (to_u32 169 254 169 254)
address_blocked-eq-networks_example = address_blocked-eq-networks 169 254 169 254 (omega arith)

open_reserved_passes : address_blocked (v4 192 52 193 9) ≡ false
unfolding address_blocked is_4in6 is_loopback is_private is_link_local_unicast
    is_link_local_multicast is_multicast is_unspecified
open_reserved_passes = refl

-- The gate lets through an address that the classification calls reserved.
address_blocked_classes_example :
    (classify_ip (v4 192 52 193 9) ≡ global_unicast)
    ⊎ ((classify_ip (v4 192 52 193 9) ≡ reserved)
        × (any_contains open_reserved (to_u32 192 52 193 9) ≡ true))
address_blocked_classes_example =
    address_blocked_classes 192 52 193 9 (omega arith) open_reserved_passes

abbrev resolved : List Addr
resolved = v4 203 0 113 7 ∷ v4 10 0 0 1 ∷ []

abbrev states : ActivationStates
states = record {
  control_state = "ONLINE";
  listener_state = "READY";
  mapping_state = "FIRST_HOP_MAPPED";
  keepalive_state = "HEALTHY";
  wan_reachability_state = "OPEN_FROM_VANTAGE";
  return_path_state = "VERIFIED";
  target_health_state = "PASS";
  publication_state = "PUBLISHED_VERIFIED";
  data_plane_state = "READY";
}

validate_states_iff_example : (validate_states states ≡ none) ↔ (
    IsLegal states
    × IsTruthful "FIRST_HOP_MAPPED" "OPEN_FROM_VANTAGE" "VERIFIED" "PUBLISHED_VERIFIED")
validate_states_iff_example = validate_states_iff states

abbrev forward : ForwardSpec
forward = record {
  forward_id = "web";
  name = "web";
  protocol = "tcp";
  target = 49 ∷ 46 ∷ 49 ∷ 46 ∷ 49 ∷ 46 ∷ 49 ∷ 58 ∷ 56 ∷ 48 ∷ [];
  strategy = "auto";
  source_interface = "";
  requested_local_port = 0;
  requested_public_port = 0;
  manual_expected_endpoint = "";
  rate_limit_bps = 0;
  detailed_stats = false;
  publish_scheme = "http";
  published_host = "";
  custom_uri_template = "";
  desired_revision = 1;
  presence = "PRESENT";
  deletion_operation_id = "";
}

abbrev desired : DesiredState
desired = record { node_id = "n1"; forwards = forward ∷ record forward { forward_id = "api" } ∷ [] }

validate_desired_iff_example :
    (validate_desired desired ≡ none) ↔ ((desired.node_id ≢ "") × Distinct [] desired.forwards)
validate_desired_iff_example = validate_desired_iff desired

abbrev to_gc : List String
to_gc = "SENT" ∷ "SEMANTIC_ACKED" ∷ "RECEIPTED" ∷ "GC" ∷ []

to_gc-IsRun : IsRun "outbox" "CLAIMED" to_gc
unfolding validate_fsm_transition find_table str_eq valid_fsm_state member states_of allows
to_gc-IsRun = (refl, (refl, (refl, (refl, tt))))

runs_are_acyclic_example : (length to_gc ≤ 6) × (last_of "CLAIMED" to_gc ≢ "CLAIMED")
runs_are_acyclic_example =
    runs_are_acyclic "outbox" "CLAIMED" "SENT" ("SEMANTIC_ACKED" ∷ "RECEIPTED" ∷ "GC" ∷ [])
      to_gc-IsRun

gc_in_run : Memᴰ "GC" to_gc
gc_in_run = Memᴰ.tail (Memᴰ.tail (Memᴰ.tail (Memᴰ.head refl)))

collected_after_receipt_example : Memᴰ "RECEIPTED" ("CLAIMED" ∷ to_gc)
collected_after_receipt_example = collected_after_receipt "CLAIMED" to_gc to_gc-IsRun gc_in_run
