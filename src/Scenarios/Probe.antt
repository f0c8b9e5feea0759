-- ===== src/Scenarios/Probe.antt =====
-- internal/protocol/probe.go: cases of the theorems.
use anti_nat.Common.{
  ℕ, ◌+◌, ◌≡◌, ◌≢◌, ◌↔◌, ◌≤◌, refl, Bool, true, false, List, [], ◌∷◌, ◌++◌, none, arith, length,
  replicate, take, bytes_eq, bytes_eq_self, put_u64, AreBytes,
}
use anti_nat.Common.ByteMap.{lookup, evict}
use anti_nat.Net.Addr.{is_4in6, is_unspecified, is_loopback}
use anti_nat.Net.HostPort.{split_host_port, parse_ipv4, atoi}
use anti_nat.Protocol.Endpoint.{is_global_endpoint, classify_ipv4}
use anti_nat.Protocol.Endpoint.Literal.{validate_probe_endpoint}
use anti_nat.Security.Framecrypto.{Bytes}
use anti_nat.Protocol.Probe.{
  ProbeArm, ProbeArmed, ProviderFrame, ProbeAck, ProbeReceipt, ProbeError, Result, ok, err,
  validate_arm, digest_of, arm_canonical, armed_signing_bytes, frame_canonical, frame_signing_bytes,
  ack_signing_bytes, receipt_signing_bytes, parse_provider_frame,
}
use anti_nat.Protocol.Probe.Canonical.{
  IsSized, parse_provider_frame-canonical, parse_provider_frame_round_trip,
  signing_bytes_are_separate,
}
use anti_nat.Protocol.Probe.Agent.{
  ProbeAgent, new_probe_agent, sweep, arm_probe, handle_probe_ingress, verify_probe_join,
}
use anti_nat.Protocol.Probe.Agent.Consumed.{
  Call, arms, ingresses, calls, accepted_probe_is_consumed,
}
use anti_nat.Protocol.Probe.Agent.Bounds.{Bounded, AllLive, arm-AllLive, calls-Bounded}
use anti_nat.Protocol.Probe.Agent.Join.{Joined, verify_probe_join_iff}
use anti_nat.Protocol.Probe.Agent.Honest.{
  KeyPair, honest_frame, honest_ack, honest_receipt, honest_probe_completes,
}

-- Stand-ins that depend on their inputs: a padded prefix, and a checksum in place of a signature.
abbrev toy_sha256 : Bytes → Bytes
toy_sha256 b = take 32 (b ++ replicate 32 0)

abbrev toy_sum : Bytes → ℕ
toy_sum [] = 0
toy_sum (b ∷ bs) = b + toy_sum bs

abbrev toy_sign : Bytes → Bytes → Bytes
toy_sign key m = put_u64 (toy_sum m) ++ replicate 56 0

abbrev toy_verify : Bytes → Bytes → Bytes → Bool
toy_verify public m sig = bytes_eq sig (toy_sign public m)

abbrev key : Bytes
key = replicate 32 7

toy_keys : KeyPair toy_sign toy_verify key key
toy_keys = record {
  public_size = refl;
  signature_length = λ m. refl;
  verifies = λ m. bytes_eq_self (toy_sign key m);
}

-- 8.8.8.8:53.
abbrev endpoint : Bytes
endpoint = 56 ∷ 46 ∷ 56 ∷ 46 ∷ 56 ∷ 46 ∷ 56 ∷ 58 ∷ 53 ∷ 51 ∷ []

abbrev arm : ProbeArm
arm = record {
  probe_id = replicate 16 1;
  provider_id = replicate 16 2;
  provider_public_key = key;
  expected_source_ip = 1 ∷ 1 ∷ 1 ∷ 1 ∷ [];
  activation = replicate 16 3;
  endpoint = endpoint;
  ttl_ms = 60000;
  expiry_opaque = replicate 16 4;
}

endpoint_is_valid : validate_probe_endpoint endpoint ≡ true
unfolding validate_probe_endpoint split_host_port parse_ipv4 is_global_endpoint is_4in6
    is_unspecified is_loopback classify_ipv4 atoi
endpoint_is_valid = refl

arm_is_valid : validate_arm arm ≡ ok tt
unfolding validate_arm
arm_is_valid = rw endpoint_is_valid refl

abbrev challenge : Bytes
challenge = replicate 32 9

abbrev frame : ProviderFrame
frame = honest_frame toy_sha256 toy_sign toy_verify key arm challenge

abbrev armed : ProbeAgent × Result ProbeArmed
armed = arm_probe toy_sha256 toy_sign key new_probe_agent arm 1000

no_ops : lookup arm.probe_id (sweep new_probe_agent 1000).ops ≡ none
unfolding sweep lookup evict
no_ops = refl

no_replays : lookup arm.probe_id (sweep new_probe_agent 1000).replays ≡ none
unfolding sweep lookup evict
no_replays = refl

has_room : length (sweep new_probe_agent 1000).ops ≤ 1023
unfolding sweep evict
has_room = omega arith

honest_probe_completes_example :
    ((a : ProbeArmed) × (armed.1 ≡ ok a))
    × ((handle_probe_ingress toy_verify armed.0 frame arm.expected_source_ip 2000).1 ≡ true)
    × (verify_probe_join toy_verify toy_sha256 arm frame
          (honest_ack toy_sha256 toy_sign toy_verify key frame)
          (honest_receipt toy_sha256 toy_sign toy_verify key frame)
          key
        ≡ true)
honest_probe_completes_example =
    honest_probe_completes toy_sha256 toy_sign toy_verify key key key new_probe_agent arm challenge
      1000 2000 arm_is_valid toy_keys toy_keys no_ops no_replays (omega (arith, has_room))
      (omega arith)

accepted : (handle_probe_ingress toy_verify armed.0 frame arm.expected_source_ip 2000).1 ≡ true
accepted =
    (honest_probe_completes toy_sha256 toy_sign toy_verify key key key new_probe_agent arm challenge
      1000 2000 arm_is_valid toy_keys toy_keys no_ops no_replays (omega (arith, has_room))
      (omega arith)).1

-- The replay of the frame, and an arm of the same probe that lives longer.
abbrev later_calls : List Call
later_calls =
    ingresses frame arm.expected_source_ip 3000
    ∷ arms (record arm { ttl_ms = 3600000 }) 200000000000
    ∷ []

abbrev consumed : ProbeAgent
consumed =
    calls toy_sha256 toy_sign toy_verify key
      (handle_probe_ingress toy_verify armed.0 frame arm.expected_source_ip 2000).0 later_calls

accepted_probe_is_consumed_example :
    (handle_probe_ingress toy_verify consumed frame arm.expected_source_ip 250000000000
      ≡ (consumed, false))
    × ((x : ProbeError) × ((arm_probe toy_sha256 toy_sign key consumed arm 250000000000).1 ≡ err x))
accepted_probe_is_consumed_example =
    accepted_probe_is_consumed toy_sha256 toy_sign toy_verify key armed.0 frame frame
      arm.expected_source_ip arm.expected_source_ip 2000 250000000000 later_calls arm accepted
      (omega arith) refl refl (omega arith)

abbrev ack : ProbeAck
ack = honest_ack toy_sha256 toy_sign toy_verify key frame

abbrev receipt : ProbeReceipt
receipt = honest_receipt toy_sha256 toy_sign toy_verify key frame

verify_probe_join_iff_example :
    (verify_probe_join toy_verify toy_sha256 arm frame ack receipt key ≡ true)
    ↔ Joined toy_verify toy_sha256 arm frame ack receipt key
verify_probe_join_iff_example =
    verify_probe_join_iff toy_verify toy_sha256 arm frame ack receipt key

new-Bounded : Bounded new_probe_agent
new-Bounded = omega arith

calls-Bounded_example :
    Bounded (calls toy_sha256 toy_sign toy_verify key new_probe_agent later_calls)
calls-Bounded_example =
    calls-Bounded toy_sha256 toy_sign toy_verify key new_probe_agent later_calls new-Bounded

arm-AllLive_example : AllLive 1000 (arm_probe toy_sha256 toy_sign key new_probe_agent arm 1000).0
arm-AllLive_example =
    arm-AllLive toy_sha256 toy_sign key new_probe_agent arm 1000 new-Bounded arm_is_valid

-- A frame with a signature of 64 bytes that no key made.
abbrev loose_frame : ProviderFrame
loose_frame = record {
  arm_digest = replicate 32 5;
  probe_id = replicate 16 1;
  provider_id = replicate 16 2;
  activation = replicate 16 3;
  endpoint = endpoint;
  expiry_opaque = replicate 16 4;
  challenge = challenge;
  signature = replicate 64 6;
}

loose_frame-IsSized : IsSized loose_frame
loose_frame-IsSized = record {
  digest_size = refl;
  probe_size = refl;
  provider_size = refl;
  activation_size = refl;
  endpoint_size = omega arith;
  expiry_size = refl;
  challenge_size = refl;
  signature_size = refl;
}

parse_provider_frame_round_trip_example :
    parse_provider_frame (frame_canonical loose_frame ++ loose_frame.signature) ≡ ok loose_frame
parse_provider_frame_round_trip_example =
    parse_provider_frame_round_trip loose_frame loose_frame-IsSized endpoint_is_valid

abbrev loose_wire : Bytes
loose_wire = frame_canonical loose_frame ++ loose_frame.signature

loose_wire_bytes : AreBytes loose_wire
unfolding frame_canonical
loose_wire_bytes = omega arith

parse_provider_frame-canonical_example :
    frame_canonical loose_frame ++ loose_frame.signature ≡ loose_wire
parse_provider_frame-canonical_example =
    parse_provider_frame-canonical loose_wire loose_frame loose_wire_bytes
      (parse_provider_frame_round_trip loose_frame loose_frame-IsSized endpoint_is_valid)

abbrev an_armed : ProbeArmed
an_armed = record { arm_digest = digest_of toy_sha256 arm; signature = [] }

signing_bytes_are_separate_example :
    (arm_canonical arm ≢ armed_signing_bytes an_armed)
    × (arm_canonical arm ≢ frame_signing_bytes frame)
    × (arm_canonical arm ≢ ack_signing_bytes ack)
    × (arm_canonical arm ≢ receipt_signing_bytes receipt)
    × (armed_signing_bytes an_armed ≢ frame_signing_bytes frame)
    × (armed_signing_bytes an_armed ≢ ack_signing_bytes ack)
    × (armed_signing_bytes an_armed ≢ receipt_signing_bytes receipt)
    × (frame_signing_bytes frame ≢ ack_signing_bytes ack)
    × (frame_signing_bytes frame ≢ receipt_signing_bytes receipt)
    × (ack_signing_bytes ack ≢ receipt_signing_bytes receipt)
signing_bytes_are_separate_example = signing_bytes_are_separate arm an_armed frame ack receipt
