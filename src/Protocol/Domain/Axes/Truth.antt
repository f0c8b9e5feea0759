-- ===== src/Protocol/Domain/Axes/Truth.antt =====
-- The truth relations between the axes, as propositions.
use anti_nat.Common.{String, ◌≡◌, ◌≢◌, ◌↔◌, refl, false, none, arith, str_eq, str_eq_iff}
use anti_nat.Protocol.Domain.Axes.{validate_axis_relations}

pub record IsTruthful (mapping wan ret pub_state : String) : Type 0 where
  pub open_when_verified : pub_state ≡ "PUBLISHED_VERIFIED" → wan ≡ "OPEN_FROM_VANTAGE"
  pub returned_when_verified : pub_state ≡ "PUBLISHED_VERIFIED" → ret ≡ "VERIFIED"
  pub unverified_not_open : pub_state ≡ "PUBLISHED_UNVERIFIED" → wan ≢ "OPEN_FROM_VANTAGE"
  pub first_hop_not_verified : mapping ≡ "FIRST_HOP_MAPPED" → ret ≢ "VERIFIED"

kinds_differ : str_eq "PUBLISHED_VERIFIED" "PUBLISHED_UNVERIFIED" ≡ false
unfolding str_eq
kinds_differ = refl

-- The relations are accepted exactly when they are truthful.
pub validate_axis_relations_iff :
    (mapping wan ret pub_state : String)
    → (validate_axis_relations mapping wan ret pub_state ≡ none)
      ↔ IsTruthful mapping wan ret pub_state
unfolding validate_axis_relations
validate_axis_relations_iff mapping wan ret pub_state = (
  (λ e. record {
    open_when_verified = λ p. ground (
      arith,
      str_eq_iff mapping "FIRST_HOP_MAPPED",
      str_eq_iff wan "OPEN_FROM_VANTAGE",
      str_eq_iff ret "VERIFIED",
      str_eq_iff pub_state "PUBLISHED_VERIFIED",
      str_eq_iff pub_state "PUBLISHED_UNVERIFIED",
      str_eq_iff "PUBLISHED_VERIFIED" "PUBLISHED_UNVERIFIED",
      kinds_differ,
    );
    returned_when_verified = λ p. ground (
      arith,
      str_eq_iff mapping "FIRST_HOP_MAPPED",
      str_eq_iff wan "OPEN_FROM_VANTAGE",
      str_eq_iff ret "VERIFIED",
      str_eq_iff pub_state "PUBLISHED_VERIFIED",
      str_eq_iff pub_state "PUBLISHED_UNVERIFIED",
      str_eq_iff "PUBLISHED_VERIFIED" "PUBLISHED_UNVERIFIED",
      kinds_differ,
    );
    unverified_not_open = λ p q. ground (
      arith,
      str_eq_iff mapping "FIRST_HOP_MAPPED",
      str_eq_iff wan "OPEN_FROM_VANTAGE",
      str_eq_iff ret "VERIFIED",
      str_eq_iff pub_state "PUBLISHED_VERIFIED",
      str_eq_iff pub_state "PUBLISHED_UNVERIFIED",
      str_eq_iff "PUBLISHED_VERIFIED" "PUBLISHED_UNVERIFIED",
      kinds_differ,
    );
    first_hop_not_verified = λ p q. ground (
      arith,
      str_eq_iff mapping "FIRST_HOP_MAPPED",
      str_eq_iff wan "OPEN_FROM_VANTAGE",
      str_eq_iff ret "VERIFIED",
      str_eq_iff pub_state "PUBLISHED_VERIFIED",
      str_eq_iff pub_state "PUBLISHED_UNVERIFIED",
      str_eq_iff "PUBLISHED_VERIFIED" "PUBLISHED_UNVERIFIED",
      kinds_differ,
    );
  }),
  (λ h. ground (
    arith,
    str_eq_iff mapping "FIRST_HOP_MAPPED",
    str_eq_iff wan "OPEN_FROM_VANTAGE",
    str_eq_iff ret "VERIFIED",
    str_eq_iff pub_state "PUBLISHED_VERIFIED",
    str_eq_iff pub_state "PUBLISHED_UNVERIFIED",
    str_eq_iff "PUBLISHED_VERIFIED" "PUBLISHED_UNVERIFIED",
    kinds_differ,
  )),
)
