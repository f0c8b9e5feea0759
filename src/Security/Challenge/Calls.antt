-- ===== src/Security/Challenge/Calls.antt =====
-- internal/security/challenge.go: sequences of calls on one manager.
use anti_nat.Common.{List, [], ◌∷◌, Option, ℕ}
use anti_nat.Security.Framecrypto.{Bytes}
use anti_nat.Security.Challenge.{ChallengeManager, Clock, issue, validate_and_consume}

pub data Call : Type 0 where
  issue_call : Bytes → Bytes → Bytes → Option Bytes → Clock → Call
  consume_call : Bytes → ℕ → Call

module _ (sha256 : Bytes → Bytes) (signer : Bytes → Option Bytes) where
  unfoldable pub step : ChallengeManager → Call → ChallengeManager
  step m (issue_call instance_id key_id node_id drawn clock) =
      (issue sha256 signer m instance_id key_id node_id drawn clock).0
  step m (consume_call hash now) = (validate_and_consume m hash now).0

  unfoldable pub run : ChallengeManager → List Call → ChallengeManager
  run m [] = m
  run m (c ∷ calls) = run (step m c) calls
