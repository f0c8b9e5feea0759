-- ===== src/Security/Challenge.antt =====
-- internal/security/challenge.go, ChallengeManager: enrollment challenges and their replay cache. An
-- instant is whole nanoseconds since the Unix epoch; each reading of the clock is an argument, and so
-- are the 32 random bytes, or the failure to read them. The mutex makes each call one step.
pub mod Calls
pub mod Consumed
pub mod Bounds
pub mod Accepted
use anti_nat.Common.{
  ℕ, ◌+◌, ◌-◌, ◌/◌, ◌++◌, Bool, true, false, not, List, [], Option, none, some, if◌then◌else◌, ltb,
  leb, length, replicate, ℤ, pos, negsuc, u64,
}
use anti_nat.Common.ByteMap.{ByteMap, lookup, delete, insert, evict}
use anti_nat.Security.Framecrypto.{Bytes}
use anti_nat.Protocol.Enrollment.{
  EnrollChallenge, Outcome, ok, err, panic, challenge_canonical, challenge_signing_bytes,
  enroll_version,
}

pub data ChallengeError : Type 0 where
  challenge_unknown challenge_expired challenge_replayed challenge_cache_full : ChallengeError
  node_id_too_long random_failed sign_failed encode_panicked : ChallengeError

pub record ChallengeEntry : Type 0 where
  pub node_id : Bytes
  pub instance_id : Bytes
  pub expiry : ℕ
  pub used : Bool

pub record ChallengeManager : Type 0 where
  pub ttl : ℕ
  pub max : ℤ
  pub cache : ByteMap ChallengeEntry

abbrev pub new_challenge_manager : ℕ → ℤ → ChallengeManager
new_challenge_manager ttl max = record { ttl = ttl; max = max; cache = [] }

abbrev pub node_id_bytes : Bytes → Option Bytes
node_id_bytes node_id =
    if ltb 16 (length node_id) then none else some (node_id ++ replicate (16 - length node_id) 0)

-- `!e.expiry.After(now)`.
abbrev pub entry_dead : ℕ → ChallengeEntry → Bool
entry_dead now e = leb e.expiry now

pub data Issued : Type 0 where
  issued : EnrollChallenge → Bytes → Issued
  not_issued : ChallengeError → Issued

abbrev positive : ℤ → Bool
positive (pos n) = ltb 0 n
positive (negsuc n) = false

-- `len(m.cache) >= m.max` for a positive bound.
abbrev reached : ℕ → ℤ → Bool
reached n (pos bound) = leb bound n
reached n (negsuc bound) = true

-- The clock's readings of one call to issue, in order.
pub record Clock : Type 0 where
  pub evict_at : ℕ
  pub wire_at : ℕ
  pub cache_at : ℕ

abbrev pub challenge_for : Bytes → Bytes → Bytes → Bytes → ℕ → EnrollChallenge
challenge_for instance_id key_id node nonce expire = record {
  controller_instance_id = instance_id;
  controller_key_id = key_id;
  node_id = node;
  server_nonce = nonce;
  protocol_versions = enroll_version;
  expiry_unix = u64 (expire / 1000000000);
}

module _ (sha256 : Bytes → Bytes) (signer : Bytes → Option Bytes) where
  -- After the challenge is cached: with its signature, or with the signer's failure.
  abbrev pub issue_signed :
      ChallengeManager → Bytes → EnrollChallenge → Bytes → Option Bytes → ChallengeManager × Issued
  issue_signed m hash ch canonical none =
      (record m { cache = delete hash m.cache }, not_issued sign_failed)
  issue_signed m hash ch canonical (some sig) = (m, issued ch (canonical ++ sig))

  abbrev pub issue_encoded :
      ChallengeManager
      → ChallengeEntry
      → EnrollChallenge
      → Outcome Bytes
      → Outcome Bytes
      → ChallengeManager × Issued
  issue_encoded m entry ch (ok canonical) (ok signing) =
      let hash = sha256 canonical in
      issue_signed (record m { cache = insert hash entry m.cache }) hash ch canonical
        (signer signing)
  issue_encoded m entry ch canonical signing = (m, not_issued encode_panicked)

  -- After the bound is checked.
  unfoldable pub issue_fresh :
      ChallengeManager
      → Bytes
      → Bytes
      → Bytes
      → Bytes
      → Option Bytes
      → Clock
      → ChallengeManager × Issued
  issue_fresh m instance_id key_id node_id node none clock = (m, not_issued random_failed)
  issue_fresh m instance_id key_id node_id node (some nonce) clock =
      let ch = challenge_for instance_id key_id node nonce (clock.wire_at + m.ttl) in
      issue_encoded m
        (record {
          node_id = node_id;
          instance_id = instance_id;
          expiry = clock.cache_at + m.ttl;
          used = false;
        })
        ch (challenge_canonical ch) (challenge_signing_bytes ch)

  unfoldable pub issue_for :
      ChallengeManager
      → Bytes
      → Bytes
      → Bytes
      → Option Bytes
      → Option Bytes
      → Clock
      → ChallengeManager × Issued
  issue_for m instance_id key_id node_id none drawn clock = (m, not_issued node_id_too_long)
  issue_for m instance_id key_id node_id (some node) drawn clock =
      let evicted = record m { cache = evict (entry_dead clock.evict_at) m.cache } in
      if positive m.max
      then if reached (length evicted.cache) m.max
        then (evicted, not_issued challenge_cache_full)
        else issue_fresh evicted instance_id key_id node_id node drawn clock
      else issue_fresh m instance_id key_id node_id node drawn clock

  unfoldable pub issue :
      ChallengeManager → Bytes → Bytes → Bytes → Option Bytes → Clock → ChallengeManager × Issued
  issue m instance_id key_id node_id drawn clock =
      issue_for m instance_id key_id node_id (node_id_bytes node_id) drawn clock

pub data Consumption : Type 0 where
  consumed : Bytes → Consumption
  refused : ChallengeError → Consumption

abbrev pub spend : ChallengeEntry → ChallengeEntry
spend e = record e { used = true }

abbrev pub consume_entry :
    ChallengeManager → Bytes → ℕ → Option ChallengeEntry → ChallengeManager × Consumption
consume_entry m hash now none = (m, refused challenge_unknown)
consume_entry m hash now (some e) =
    if entry_dead now e
    then (record m { cache = delete hash m.cache }, refused challenge_expired)
    else if e.used
    then (m, refused challenge_replayed)
    else (record m { cache = insert hash (spend e) m.cache }, consumed e.node_id)

unfoldable pub validate_and_consume : ChallengeManager → Bytes → ℕ → ChallengeManager × Consumption
validate_and_consume m hash now = consume_entry m hash now (lookup hash m.cache)

abbrev pub size : ChallengeManager → ℕ
size m = length m.cache
