-- ===== src/Protocol/Domain/Axes.antt =====
-- internal/protocol/domain.go: the orthogonal activation-state axes and their truth relations.
pub mod Truth
pub mod Legal
use anti_nat.Common.{
  String, Bool, true, false, not, ◌&&◌, ◌||◌, List, [], ◌∷◌, Option, none, some, str_eq,
  if◌then◌else◌, length, ◌==◌, ℕ,
}
use anti_nat.Protocol.Domain.Kinds.{member}
use anti_nat.Protocol.Endpoint.{is_global_endpoint}
use anti_nat.Protocol.Endpoint.Literal.{v4_of}
use anti_nat.Net.HostPort.{Text, is_empty, split_host_port, parse_ipv4}

pub record StateAxis : Type 0 where
  pub name : String
  pub states : List String

abbrev axis : String → List String → StateAxis
axis name states = record { name = name; states = states }

abbrev pub control_values : List String
control_values = "ONLINE" ∷ "OFFLINE" ∷ []

abbrev pub listener_values : List String
listener_values = "STOPPED" ∷ "STARTING" ∷ "READY" ∷ "ERROR" ∷ []

abbrev pub mapping_values : List String
mapping_values =
    "NOT_REQUIRED" ∷ "ACQUIRING" ∷ "FIRST_HOP_MAPPED" ∷ "PUBLIC_CANDIDATE" ∷ "LOST" ∷ "ERROR" ∷ []

abbrev pub keepalive_values : List String
keepalive_values = "NOT_REQUIRED" ∷ "HEALTHY" ∷ "DEGRADED" ∷ "LOST" ∷ []

abbrev pub wan_values : List String
wan_values =
    "NOT_TESTED" ∷ "PROBING" ∷ "OPEN_FROM_VANTAGE" ∷ "REJECTED" ∷ "TIMEOUT"
    ∷ "NO_INDEPENDENT_VANTAGE" ∷ "PROBE_INFRA_UNAVAILABLE" ∷ "UNKNOWN" ∷ []

abbrev pub return_values : List String
return_values = "NOT_TESTED" ∷ "VERIFIED" ∷ "FAILED" ∷ "UNKNOWN" ∷ []

abbrev pub target_values : List String
target_values = "PASS" ∷ "FAIL" ∷ "SKIPPED" ∷ "UNSUPPORTED" ∷ "UNKNOWN" ∷ []

abbrev pub publication_values : List String
publication_values =
    "NONE" ∷ "PUBLISHED_VERIFIED" ∷ "PUBLISHED_UNVERIFIED" ∷ "STALE" ∷ "UNPUBLISHED" ∷ []

abbrev pub data_plane_values : List String
data_plane_values = "STOPPED" ∷ "READY" ∷ "DEGRADED" ∷ "ERROR" ∷ []

abbrev activation_axes : List StateAxis
activation_axes =
    axis "control_state" control_values
    ∷ axis "listener_state" listener_values
    ∷ axis "mapping_state" mapping_values
    ∷ axis "keepalive_state" keepalive_values
    ∷ axis "wan_reachability_state" wan_values
    ∷ axis "return_path_state" return_values
    ∷ axis "target_health_state" target_values
    ∷ axis "publication_state" publication_values
    ∷ axis "data_plane_state" data_plane_values
    ∷ []

axis_value_of : List StateAxis → String → String → Bool
axis_value_of [] name value = false
axis_value_of (a ∷ rest) name value =
    if str_eq a.name name then member a.states value else axis_value_of rest name value

unfoldable valid_axis_value : String → String → Bool
unfolding axis_value_of
valid_axis_value name value = axis_value_of activation_axes name value

pub data AxisError : Type 0 where
  axis_count : AxisError
  missing_axis illegal_value : String → AxisError
  verified_needs_open verified_needs_return unverified_claims_open : AxisError
  first_hop_verified first_hop_published : AxisError

-- A map[string]string: the pairs of its keys, each at most once, with their values.
abbrev Snapshot : Type 0
Snapshot = List (String × String)

unfoldable pub lookup : Snapshot → String → Option String
lookup [] k = none
lookup ((j, v) ∷ m) k = if str_eq j k then some v else lookup m k

-- The rest of the loop of ValidActivationSnapshot over the axes.
check_axes : List StateAxis → Snapshot → Option AxisError
check_axes [] s = none
check_axes (a ∷ rest) s =
    let later = check_axes rest s in
    elim (lookup s a.name) [
      | none ↦ some (missing_axis a.name)
      | some v ↦ if not (member a.states v) then some (illegal_value a.name) else later
    ]

unfoldable pub valid_activation_snapshot : Snapshot → Option AxisError
unfolding check_axes
valid_activation_snapshot s =
    if not (length s == length activation_axes)
    then some axis_count
    else check_axes activation_axes s

unfoldable validate_publication : String → String → String → Option AxisError
validate_publication pub_state wan_reach return_path =
    if str_eq pub_state "PUBLISHED_VERIFIED"
    then (if not (str_eq wan_reach "OPEN_FROM_VANTAGE")
        then some verified_needs_open
        else if not (str_eq return_path "VERIFIED")
        then some verified_needs_return
        else none)
    else if str_eq pub_state "PUBLISHED_UNVERIFIED"
    then (if str_eq wan_reach "OPEN_FROM_VANTAGE" then some unverified_claims_open else none)
    else none

abbrev or_else : Option AxisError → Option AxisError → Option AxisError
or_else (some e) next = some e
or_else none next = next

unfoldable pub validate_axis_relations : String → String → String → String → Option AxisError
unfolding validate_publication
validate_axis_relations mapping_state wan_reach return_path pub_state =
    if str_eq mapping_state "FIRST_HOP_MAPPED" && str_eq return_path "VERIFIED"
    then some first_hop_verified
    else or_else (validate_publication pub_state wan_reach return_path) (
        if str_eq pub_state "PUBLISHED_VERIFIED" && str_eq mapping_state "FIRST_HOP_MAPPED"
        then some first_hop_published
        else none)

pub record ActivationStates : Type 0 where
  pub control_state : String
  pub listener_state : String
  pub mapping_state : String
  pub keepalive_state : String
  pub wan_reachability_state : String
  pub return_path_state : String
  pub target_health_state : String
  pub publication_state : String
  pub data_plane_state : String

abbrev pub snapshot_of : ActivationStates → Snapshot
snapshot_of s =
    ("control_state", s.control_state)
    ∷ ("listener_state", s.listener_state)
    ∷ ("mapping_state", s.mapping_state)
    ∷ ("keepalive_state", s.keepalive_state)
    ∷ ("wan_reachability_state", s.wan_reachability_state)
    ∷ ("return_path_state", s.return_path_state)
    ∷ ("target_health_state", s.target_health_state)
    ∷ ("publication_state", s.publication_state)
    ∷ ("data_plane_state", s.data_plane_state)
    ∷ []

unfoldable pub validate_states : ActivationStates → Option AxisError
validate_states s = or_else (valid_activation_snapshot (snapshot_of s)) (
    validate_axis_relations s.mapping_state s.wan_reachability_state s.return_path_state
      s.publication_state)

pub data CandidateError : Type 0 where
  no_endpoint bad_endpoint candidate_not_ipv4 candidate_not_global : CandidateError

candidate_ip : Option (List ℕ) → Option CandidateError
candidate_ip none = some candidate_not_ipv4
candidate_ip (some ip) = if is_global_endpoint (v4_of ip) then none else some candidate_not_global

candidate_parts : Option (Text × Text) → Option CandidateError
unfolding candidate_ip
candidate_parts none = some bad_endpoint
candidate_parts (some (host, port_text)) = candidate_ip (parse_ipv4 host)

unfoldable validate_publication_candidate : String → Text → Option CandidateError
unfolding candidate_parts
validate_publication_candidate pub_state candidate =
    if not (str_eq pub_state "PUBLISHED_VERIFIED") && not (str_eq pub_state "PUBLISHED_UNVERIFIED")
    then none
    else if is_empty candidate
    then some no_endpoint
    else candidate_parts (split_host_port candidate)
