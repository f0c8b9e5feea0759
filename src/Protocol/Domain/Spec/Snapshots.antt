-- ===== src/Protocol/Domain/Spec/Snapshots.antt =====
-- What a validated desired snapshot guarantees.
use anti_nat.Common.{
  ◌≡◌, ◌≢◌, ◌↔◌, inl, inr, String, false, List, [], ◌∷◌, Memᴰ, none, arith, str_eq_iff, Bool-cases,
  refl,
}
use anti_nat.Protocol.Domain.Kinds.{member}
use anti_nat.Protocol.Domain.Kinds.Members.{member_sound, member_complete}
use anti_nat.Protocol.Domain.Spec.{
  ForwardSpec, DesiredState, validate_spec, validate_desired, check_forwards,
}

-- Every forward is valid, and its identifier is none of `seen` and of no earlier forward.
abbrev pub Distinct : List String → List ForwardSpec → Type 0
Distinct seen [] = Unit
Distinct seen (f ∷ rest) =
    (validate_spec f ≡ none) × (¬ Memᴰ f.forward_id seen) × Distinct (f.forward_id ∷ seen) rest

check_forwards_sound :
    (seen : List String) (fs : List ForwardSpec) → check_forwards seen fs ≡ none → Distinct seen fs
unfolding check_forwards
check_forwards_sound seen [] h = tt
check_forwards_sound seen (f ∷ rest) h = (
  ground arith,
  (λ m. ground (arith, member_complete seen f.forward_id m)),
  check_forwards_sound (f.forward_id ∷ seen) rest (ground arith),
)

member-false : (vs : List String) (s : String) → ¬ Memᴰ s vs → member vs s ≡ false
member-false vs s n = elim (Bool-cases (member vs s)) [
  | inl e ↦ absurd (n (member_sound vs s e))
  | inr e ↦ e
]

check_forwards_complete :
    (seen : List String) (fs : List ForwardSpec) → Distinct seen fs → check_forwards seen fs ≡ none
unfolding check_forwards
check_forwards_complete seen [] h = refl
check_forwards_complete seen (f ∷ rest) h = ground (
  arith,
  member-false seen f.forward_id h.1,
  check_forwards_complete (f.forward_id ∷ seen) rest h.2,
)

-- A desired snapshot validates exactly when its node is named, every forward is valid and no two
-- forwards share an identifier.
pub validate_desired_iff :
    (d : DesiredState) → (validate_desired d ≡ none) ↔ ((d.node_id ≢ "") × Distinct [] d.forwards)
unfolding validate_desired
validate_desired_iff d = (
  (λ h. (
    (λ e. ground (arith, str_eq_iff d.node_id "")),
    check_forwards_sound [] d.forwards (ground arith),
  )),
  (λ h. ground (arith, str_eq_iff d.node_id "", h.0, check_forwards_complete [] d.forwards h.1)),
)
