-- ===== src/Protocol/Domain/Spec.antt =====
-- internal/protocol/domain.go: ForwardSpec, DesiredState, ForwardActivation, AppliedForwardState.
pub mod Snapshots
use anti_nat.Common.{
  ℕ, String, Bool, true, false, not, ◌&&◌, ◌||◌, List, [], ◌∷◌, Option, none, some, str_eq,
  if◌then◌else◌, ltb, ◌==◌, ℤ, pos, leb_ℤ,
}
use anti_nat.Net.HostPort.{Text}
use anti_nat.Protocol.Domain.Kinds.{
  protocol_valid, strategy_valid, presence_valid, member, valid_strategies,
}
use anti_nat.Protocol.Endpoint.Literal.{Checked, ok, err, EndpointError, validate_ipv4_target}

pub record ForwardSpec : Type 0 where
  pub forward_id : String
  pub name : String
  pub protocol : String
  pub target : Text
  pub strategy : String
  pub source_interface : String
  pub requested_local_port : ℕ  -- uint16
  pub requested_public_port : ℕ  -- uint16
  pub manual_expected_endpoint : String
  pub rate_limit_bps : ℕ  -- uint64
  pub detailed_stats : Bool
  pub publish_scheme : String
  pub published_host : String
  pub custom_uri_template : String
  pub desired_revision : ℕ  -- uint64
  pub presence : String
  pub deletion_operation_id : String

pub data SpecError : Type 0 where
  no_forward_id unknown_protocol unknown_strategy unknown_scheme unknown_presence : SpecError
  absent_without_deletion present_with_deletion : SpecError
  bad_target : EndpointError → SpecError

abbrev scheme_valid : String → Bool
scheme_valid s = str_eq s "" || str_eq s "http" || str_eq s "https"

presence_error : ForwardSpec → Option SpecError
presence_error s =
    if str_eq s.presence "ABSENT"
    then (if str_eq s.deletion_operation_id "" then some absent_without_deletion else none)
    else if str_eq s.presence "PRESENT"
    then (if not (str_eq s.deletion_operation_id "") then some present_with_deletion else none)
    else none

after_target : Checked (Unit {0}) → ForwardSpec → Option SpecError
unfolding presence_error
after_target (err e) s = some (bad_target e)
after_target (ok u) s =
    if not (strategy_valid s.strategy)
    then some unknown_strategy
    else if not (scheme_valid s.publish_scheme)
    then some unknown_scheme
    else if not (presence_valid s.presence)
    then some unknown_presence
    else presence_error s

unfoldable pub validate_spec : ForwardSpec → Option SpecError
unfolding after_target
validate_spec s =
    if str_eq s.forward_id ""
    then some no_forward_id
    else if not (protocol_valid s.protocol)
    then some unknown_protocol
    else after_target (validate_ipv4_target s.target) s

pub record DesiredState : Type 0 where
  pub node_id : String
  pub forwards : List ForwardSpec

pub data DesiredError : Type 0 where
  no_node_id : DesiredError
  bad_forward : SpecError → DesiredError
  duplicate_forward : String → DesiredError

abbrev or_duplicate : Option SpecError → Bool → String → Option DesiredError → Option DesiredError
or_duplicate (some e) dup id later = some (bad_forward e)
or_duplicate none true id later = some (duplicate_forward id)
or_duplicate none false id later = later

-- The rest of the loop over the forwards; `seen` lists the keys of the map.
unfoldable pub check_forwards : List String → List ForwardSpec → Option DesiredError
check_forwards seen [] = none
check_forwards seen (f ∷ rest) =
    or_duplicate (validate_spec f) (member seen f.forward_id) f.forward_id
      (check_forwards (f.forward_id ∷ seen) rest)

unfoldable pub validate_desired : DesiredState → Option DesiredError
validate_desired d = if str_eq d.node_id "" then some no_node_id else check_forwards [] d.forwards

pub record ForwardActivation : Type 0 where
  pub activation_id : String
  pub generation : ℕ  -- uint64
  pub spec_revision : ℕ  -- uint64
  pub forward_id : String

pub data ActivationError : Type 0 where
  no_activation_id no_activated_forward : ActivationError

unfoldable validate_activation : ForwardActivation → Option ActivationError
validate_activation a =
    if str_eq a.activation_id ""
    then some no_activation_id
    else if str_eq a.forward_id ""
    then some no_activated_forward
    else none

pub record AppliedForwardState : Type 0 where
  pub forward_id : String
  pub spec_revision : ℕ  -- uint64
  pub desired_revision : ℕ  -- uint64
  pub actual_bind_host : String
  pub actual_bind_port : ℕ  -- uint16
  pub assigned_gateway_port : ℕ  -- uint16
  pub public_port : ℕ  -- uint16
  pub strategy : String
  pub layer_version : ℕ  -- uint64
  pub activation_recovery : String
  pub mapping_journal_ref : String
  pub hook_definition_version : ℕ  -- uint64
  pub hook_secret_version : ℕ  -- uint64
  pub applied_at_unix : ℤ  -- int64

pub data AppliedError : Type 0 where
  no_applied_id revision_behind bind_not_concrete applied_strategy applied_at_unset : AppliedError

unfoldable validate_applied : AppliedForwardState → Option AppliedError
validate_applied a =
    if str_eq a.forward_id ""
    then some no_applied_id
    else if ltb a.desired_revision a.spec_revision
    then some revision_behind
    else if str_eq a.actual_bind_host "" || (a.actual_bind_port == 0)
    then some bind_not_concrete
    else if not (member valid_strategies a.strategy)
    then some applied_strategy
    else if leb_ℤ a.applied_at_unix (pos 0)
    then some applied_at_unset
    else none
