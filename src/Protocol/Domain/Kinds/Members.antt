-- ===== src/Protocol/Domain/Kinds/Members.antt =====
-- Membership in a frozen enum, and what the parsers accept.
use anti_nat.Common.{
  String, ◌≡◌, ◌↔◌, inl, inr, true, List, [], ◌∷◌, Memᴰ, some, arith, str_eq, str_eq_iff,
  Bool-cases,
}
use anti_nat.Protocol.Domain.Kinds.{
  member, valid_strategies, parse_strategy, probe_outcomes, parse_probe_outcome,
  may_drive_verified_publication, capability_results, parse_capability_result,
}

pub member_sound : (vs : List String) (s : String) → member vs s ≡ true → Memᴰ s vs
unfolding member
member_sound [] s h = absurd (ground arith)
member_sound (v ∷ vs) s h = elim (Bool-cases (str_eq s v)) [
  | inl e ↦ Memᴰ.head ((str_eq_iff s v).0 e)
  | inr e ↦ Memᴰ.tail (member_sound vs s (ground arith))
]

pub member_complete : (vs : List String) (s : String) → Memᴰ s vs → member vs s ≡ true
unfolding member
member_complete [] s m = elim m [ ]
member_complete (v ∷ vs) s (Memᴰ.head e) = ground (arith, str_eq_iff s v)
member_complete (v ∷ vs) s (Memᴰ.tail m) = ground (arith, member_complete vs s m)

pub member_iff : (vs : List String) (s : String) → (member vs s ≡ true) ↔ Memᴰ s vs
member_iff vs s = (member_sound vs s, member_complete vs s)

-- A strategy, an outcome or a verdict is parsed to itself exactly when it stands in its registry;
-- of the outcomes only OPEN_FROM_VANTAGE may drive a verified publication.
pub parsers_accept :
    (s : String)
    → ((parse_strategy s ≡ some s) ↔ Memᴰ s valid_strategies)
      × ((parse_probe_outcome s ≡ some s) ↔ Memᴰ s probe_outcomes)
      × ((parse_capability_result s ≡ some s) ↔ Memᴰ s capability_results)
      × ((may_drive_verified_publication s ≡ true) ↔ (s ≡ "OPEN_FROM_VANTAGE"))
unfolding parse_strategy parse_probe_outcome parse_capability_result may_drive_verified_publication
parsers_accept s = (
  (
    (λ e. member_sound valid_strategies s (ground arith)),
    (λ m. rw (member_complete valid_strategies s m)),
  ),
  (
    (λ e. member_sound probe_outcomes s (ground arith)),
    (λ m. rw (member_complete probe_outcomes s m)),
  ),
  (
    (λ e. member_sound capability_results s (ground arith)),
    (λ m. rw (member_complete capability_results s m)),
  ),
  str_eq_iff s "OPEN_FROM_VANTAGE",
)
