-- ===== src/Protocol/Domain/Axes/Legal.antt =====
-- The whole check of a snapshot of the axes against the state model.
use anti_nat.Common.{◌≡◌, ◌↔◌, refl, true, Memᴰ, some, none, arith, str_eq}
use anti_nat.Protocol.Domain.Kinds.{member}
use anti_nat.Protocol.Domain.Kinds.Members.{member_iff}
use anti_nat.Protocol.Domain.Axes.{
  ActivationStates, snapshot_of, lookup, valid_activation_snapshot, validate_states, control_values,
  listener_values, mapping_values, keepalive_values, wan_values, return_values, target_values,
  publication_values, data_plane_values,
}
use anti_nat.Protocol.Domain.Axes.Truth.{IsTruthful, validate_axis_relations_iff}

-- Each axis holds one of its values.
pub record IsLegal (s : ActivationStates) : Type 0 where
  pub control : Memᴰ s.control_state control_values
  pub listener : Memᴰ s.listener_state listener_values
  pub mapping : Memᴰ s.mapping_state mapping_values
  pub keepalive : Memᴰ s.keepalive_state keepalive_values
  pub wan : Memᴰ s.wan_reachability_state wan_values
  pub returned : Memᴰ s.return_path_state return_values
  pub target : Memᴰ s.target_health_state target_values
  pub publication : Memᴰ s.publication_state publication_values
  pub data_plane : Memᴰ s.data_plane_state data_plane_values

abbrev PassesAll : ActivationStates → Type 0
PassesAll s =
    (member control_values s.control_state ≡ true)
    × (member listener_values s.listener_state ≡ true)
    × (member mapping_values s.mapping_state ≡ true)
    × (member keepalive_values s.keepalive_state ≡ true)
    × (member wan_values s.wan_reachability_state ≡ true)
    × (member return_values s.return_path_state ≡ true)
    × (member target_values s.target_health_state ≡ true)
    × (member publication_values s.publication_state ≡ true)
    × (member data_plane_values s.data_plane_state ≡ true)

module _ (s : ActivationStates) where
  at_control : lookup (snapshot_of s) "control_state" ≡ some s.control_state
  unfolding lookup str_eq
  at_control = refl

  at_listener : lookup (snapshot_of s) "listener_state" ≡ some s.listener_state
  unfolding lookup str_eq
  at_listener = refl

  at_mapping : lookup (snapshot_of s) "mapping_state" ≡ some s.mapping_state
  unfolding lookup str_eq
  at_mapping = refl

  at_keepalive : lookup (snapshot_of s) "keepalive_state" ≡ some s.keepalive_state
  unfolding lookup str_eq
  at_keepalive = refl

  at_wan : lookup (snapshot_of s) "wan_reachability_state" ≡ some s.wan_reachability_state
  unfolding lookup str_eq
  at_wan = refl

  at_return : lookup (snapshot_of s) "return_path_state" ≡ some s.return_path_state
  unfolding lookup str_eq
  at_return = refl

  at_target : lookup (snapshot_of s) "target_health_state" ≡ some s.target_health_state
  unfolding lookup str_eq
  at_target = refl

  at_publication : lookup (snapshot_of s) "publication_state" ≡ some s.publication_state
  unfolding lookup str_eq
  at_publication = refl

  at_data_plane : lookup (snapshot_of s) "data_plane_state" ≡ some s.data_plane_state
  unfolding lookup str_eq
  at_data_plane = refl

  snapshot_passes : (valid_activation_snapshot (snapshot_of s) ≡ none) ↔ PassesAll s
  unfolding valid_activation_snapshot
  snapshot_passes = (
    (λ e. ground (
      arith, at_control, at_listener, at_mapping, at_keepalive, at_wan, at_return, at_target,
      at_publication, at_data_plane,
    )),
    (λ h. ground (
      arith, at_control, at_listener, at_mapping, at_keepalive, at_wan, at_return, at_target,
      at_publication, at_data_plane,
    )),
  )

  members-IsLegal : PassesAll s → IsLegal s
  members-IsLegal h = record {
    control = (member_iff _ _).0 h.0;
    listener = (member_iff _ _).0 h.1;
    mapping = (member_iff _ _).0 h.2;
    keepalive = (member_iff _ _).0 h.3;
    wan = (member_iff _ _).0 h.4;
    returned = (member_iff _ _).0 h.5;
    target = (member_iff _ _).0 h.6;
    publication = (member_iff _ _).0 h.7;
    data_plane = (member_iff _ _).0 h.8;
  }

  IsLegal-members : IsLegal s → PassesAll s
  IsLegal-members l = (
    (member_iff _ _).1 l.control,
    (member_iff _ _).1 l.listener,
    (member_iff _ _).1 l.mapping,
    (member_iff _ _).1 l.keepalive,
    (member_iff _ _).1 l.wan,
    (member_iff _ _).1 l.returned,
    (member_iff _ _).1 l.target,
    (member_iff _ _).1 l.publication,
    (member_iff _ _).1 l.data_plane,
  )

  -- The activation states validate exactly when each axis holds one of its values and the mapping,
  -- WAN, return-path and publication axes are truthful.
  pub validate_states_iff : (validate_states s ≡ none) ↔ (
      IsLegal s
      × IsTruthful s.mapping_state s.wan_reachability_state s.return_path_state s.publication_state)
  unfolding validate_states
  validate_states_iff = (
    (λ e. (
      members-IsLegal (snapshot_passes.0 (ground arith)),
      (validate_axis_relations_iff _ _ _ _).0 (ground arith),
    )),
    (λ h. ground (
      arith,
      snapshot_passes.1 (IsLegal-members h.0),
      (validate_axis_relations_iff s.mapping_state s.wan_reachability_state s.return_path_state
            s.publication_state).1
          h.1,
    )),
  )
