-- ===== src/Scenarios/Transcripts.antt =====
-- Concrete cases of the enrollment transcript, the challenges and the control envelope.
use anti_nat.Common.{
  ◌≤◌, ◌≡◌, ◌≢◌, ◌↔◌, inl, refl, subst, Bool, true, false, List, [], ◌∷◌, ◌++◌, Option, some,
  length, take, replicate, AreBytes, pos, arith,
}
use anti_nat.Common.ByteMap.{lookup, delete, evict}
use anti_nat.Security.Framecrypto.{Bytes, verify, sign, sign_envelope}
use anti_nat.Protocol.Fields.{frame}
use anti_nat.Protocol.Enrollment.{
  EnrollChallenge, EnrollRequest, challenge_fields, ok, panic, enroll_read_fields, enroll_encode,
  challenge_canonical, request_canonical, request_fields, parse_enroll_challenge,
  parse_enroll_request, parse_enroll_result, enroll_request_max,
}
use anti_nat.Protocol.Enrollment.Codec.{enroll_read_fields_iff}
use anti_nat.Protocol.Enrollment.Opening.{IsAuthentic}
use anti_nat.Protocol.Enrollment.Request.{IsRequest, parse_enroll_request_iff}
use anti_nat.Protocol.Enrollment.Total.{parsers_never_panic}
use anti_nat.Protocol.Envelope.{
  Envelope, ProtectedHeader, accepted, header_fields, encode_protected_header, put_fields, assemble,
  filled, build_envelope, parse_envelope, protocol_domain,
}
use anti_nat.Protocol.Envelope.Header.{IsHeader}
use anti_nat.Protocol.Envelope.Frame.{IsAccepted, parse_envelope_iff}
use anti_nat.Protocol.Envelope.RoundTrip.{built_envelope_accepted}
use anti_nat.Security.Challenge.{
  ChallengeManager, Clock, issued, consumed, issue, issue_for, issue_fresh, validate_and_consume,
  new_challenge_manager, size, challenge_for,
}
use anti_nat.Security.Challenge.Calls.{Call, issue_call, consume_call, run}
use anti_nat.Security.Challenge.Consumed.{challenge_consumed_once}
use anti_nat.Security.Challenge.Bounds.{challenge_cache_bounded}
use anti_nat.Security.Challenge.Accepted.{issued_challenge_accepted}
use anti_nat.Security.Session.{
  SessionHello, hello_canonical, parse_session_hello, session_encode, read_fields, split_fields,
}
use anti_nat.Security.Session.Authentic.{
  hello_message, IsNamed, IsParsed, IsSigned, accepted_session_authentic,
}

abbrev trusting_verify : Bytes → Bytes → Bytes → Bool
trusting_verify public message sig = true

abbrev stub_sign : Bytes → Bytes → Bytes
stub_sign priv message = replicate 64 7

abbrev stub_signer : Bytes → Option Bytes
stub_signer message = some (replicate 64 7)

abbrev toy_digest : Bytes → Bytes
toy_digest b = take 32 (b ++ replicate 32 0)

abbrev two_fields : Bytes
two_fields = 0 ∷ 0 ∷ 0 ∷ 2 ∷ 8 ∷ 9 ∷ 0 ∷ 0 ∷ 0 ∷ 1 ∷ 5 ∷ []

abbrev two_parts : List Bytes
two_parts = (8 ∷ 9 ∷ []) ∷ (5 ∷ []) ∷ []

enroll_read_fields_iff_example :
    (enroll_read_fields 2 two_fields ≡ ok two_parts)
    ↔ ((length two_parts ≡ 2) × (enroll_encode two_parts ≡ ok two_fields))
enroll_read_fields_iff_example = enroll_read_fields_iff 2 two_fields two_parts (omega arith)

abbrev a_request : EnrollRequest
a_request = record {
  challenge_hash = replicate 32 1;
  agent_nonce = replicate 32 2;
  agent_public_key = replicate 32 3;
  agent_credential_version = 1;
  token = 84 ∷ 75 ∷ [];
  capability_hash = replicate 32 4;
}

abbrev request_wire : Bytes
request_wire = frame (request_fields a_request) ++ replicate 64 7

request_wire_bytes : AreBytes request_wire
unfolding frame
request_wire_bytes = omega arith

parse_enroll_request_iff_example :
    (parse_enroll_request trusting_verify request_wire (replicate 32 1) ≡ ok a_request) ↔ (
      IsRequest a_request
      × (a_request.challenge_hash ≡ replicate 32 1)
      × IsAuthentic trusting_verify enroll_request_max
          (request_canonical a_request)
          a_request.agent_public_key
          request_wire)
parse_enroll_request_iff_example =
    parse_enroll_request_iff trusting_verify request_wire (replicate 32 1) a_request
      request_wire_bytes

parsers_never_panic_example :
    (parse_enroll_challenge trusting_verify request_wire (replicate 32 3) ≢ panic)
    × (parse_enroll_request trusting_verify request_wire (replicate 32 1) ≢ panic)
    × (parse_enroll_result trusting_verify request_wire (replicate 32 3) ≢ panic)
parsers_never_panic_example =
    parsers_never_panic trusting_verify request_wire (replicate 32 3) (replicate 32 1)
      request_wire_bytes

abbrev a_header : ProtectedHeader
a_header = record {
  domain = protocol_domain;
  controller_instance_id = replicate 16 1;
  node_id = replicate 16 2;
  controller_key_id = 75 ∷ [];
  agent_credential_ver = 1;
  connection_epoch = 3;
  session_id = 83 ∷ [];
  direction = 1;
  sequence = 9;
  message_id = replicate 16 4;
  message_type = 77 ∷ [];
  schema_version = 1;
  payload_length = 0;
  payload_sha256 = [];
}

abbrev a_payload : Bytes
a_payload = 123 ∷ 125 ∷ []

a_header_wf : IsHeader (filled toy_digest a_header a_payload)
a_header_wf = record {
  strings = refl;
  instance_size = refl;
  node_size = refl;
  credential_bound = omega arith;
  epoch_bound = omega arith;
  sequence_bound = omega arith;
  message_size = refl;
  schema_bound = omega arith;
  payload_bound = omega arith;
  digest_size = refl;
}

abbrev header_wire : Bytes
header_wire = frame (header_fields (filled toy_digest a_header a_payload))

abbrev envelope_wire : Bytes
envelope_wire = assemble header_wire a_payload (replicate 64 7)

abbrev an_envelope : Envelope
an_envelope = record {
  header_len = length header_wire;
  payload_len = 2;
  header = filled toy_digest a_header a_payload;
  header_bytes = header_wire;
  payload = a_payload;
  signature = replicate 64 7;
}

envelope_wire_bytes : AreBytes envelope_wire
unfolding frame
envelope_wire_bytes = omega arith

parse_envelope_iff_example :
    (parse_envelope toy_digest trusting_verify envelope_wire (replicate 32 3)
      ≡ accepted an_envelope)
    ↔ (IsAccepted toy_digest trusting_verify (replicate 32 3) an_envelope
        × (envelope_wire
            ≡ assemble an_envelope.header_bytes an_envelope.payload an_envelope.signature))
parse_envelope_iff_example =
    parse_envelope_iff toy_digest trusting_verify envelope_wire (replicate 32 3) an_envelope
      envelope_wire_bytes

built_wire :
    build_envelope toy_digest stub_sign (replicate 64 5) a_header a_payload ≡ some envelope_wire
unfolding build_envelope encode_protected_header put_fields frame sign_envelope sign
built_wire = refl

trusted :
    (message : Bytes) → verify trusting_verify (replicate 32 3) message (replicate 64 7) ≡ true
unfolding verify
trusted message = refl

built_envelope_accepted_example :
    (env : Envelope) × (parse_envelope toy_digest trusting_verify envelope_wire (replicate 32 3)
      ≡ accepted env)
    × (env.header ≡ filled toy_digest a_header a_payload)
    × (env.payload ≡ a_payload)
built_envelope_accepted_example =
    built_envelope_accepted toy_digest stub_sign trusting_verify (replicate 64 5) (replicate 32 3)
      a_header a_payload envelope_wire a_header_wf refl (inl refl) (omega arith) trusted built_wire

abbrev a_clock : Clock
a_clock = record { evict_at = 1000; wire_at = 1001; cache_at = 1002 }

abbrev instance_bytes : Bytes
instance_bytes = replicate 16 1

abbrev node_name : Bytes
node_name = 110 ∷ 49 ∷ []

abbrev a_nonce : Bytes
a_nonce = replicate 32 6

abbrev empty_manager : ChallengeManager
empty_manager = new_challenge_manager 60000000000 (pos 2)

-- The challenge that the manager makes, its bytes, and the manager after the call.
abbrev a_challenge : EnrollChallenge
a_challenge =
    challenge_for instance_bytes (75 ∷ []) (node_name ++ replicate 14 0) a_nonce 60000001001

abbrev challenge_wire : Bytes
challenge_wire = frame (challenge_fields a_challenge)

abbrev issued_manager : ChallengeManager
issued_manager = record {
  ttl = 60000000000;
  max = pos 2;
  cache =
      (
        toy_digest challenge_wire,
        record {
          node_id = node_name;
          instance_id = instance_bytes;
          expiry = 60000001002;
          used = false;
        },
      )
      ∷ [];
}

issued_now :
    issue toy_digest stub_signer empty_manager instance_bytes
      (75 ∷ [])
      node_name
      (some a_nonce)
      a_clock
    ≡ (issued_manager, issued a_challenge (challenge_wire ++ replicate 64 7))
unfolding issue issue_for issue_fresh enroll_encode frame delete evict
issued_now = refl

signer_trusted :
    (message sig : Bytes)
    → stub_signer message ≡ some sig
    → verify trusting_verify (replicate 32 3) message sig ≡ true
unfolding verify
signer_trusted message sig h =
    subst (λ (s : Bytes). verify trusting_verify (replicate 32 3) message s ≡ true) (inj h) refl
  where
    inj : some (replicate 64 7) ≡ some sig → replicate 64 7 ≡ sig
    inj q = ground arith

issued_challenge_accepted_example :
    (parse_enroll_challenge trusting_verify (challenge_wire ++ replicate 64 7) (replicate 32 3)
      ≡ ok a_challenge)
    × ((body : Bytes) × (challenge_canonical a_challenge ≡ ok body)
        × ((validate_and_consume issued_manager (toy_digest body) 2000).1 ≡ consumed node_name))
issued_challenge_accepted_example =
    issued_challenge_accepted toy_digest stub_signer trusting_verify empty_manager issued_manager
      instance_bytes (75 ∷ []) node_name a_nonce a_clock a_challenge
      (challenge_wire ++ replicate 64 7) (replicate 32 3) 2000 refl (omega arith) refl
      signer_trusted issued_now (omega arith)

abbrev spent_manager : ChallengeManager
spent_manager = record issued_manager {
  cache =
      (
        toy_digest challenge_wire,
        record {
          node_id = node_name;
          instance_id = instance_bytes;
          expiry = 60000001002;
          used = true;
        },
      )
      ∷ [];
}

consumed_now :
    validate_and_consume issued_manager (toy_digest challenge_wire) 2000
    ≡ (spent_manager, consumed node_name)
unfolding validate_and_consume lookup delete frame
consumed_now = refl

-- Nothing is issued afterwards, and the challenge is presented again.
abbrev replays : List Call
replays = consume_call (toy_digest challenge_wire) 3000 ∷ []

challenge_consumed_once_example :
    (validate_and_consume
      (run toy_digest stub_signer spent_manager replays)
      (toy_digest challenge_wire)
      4000).1
    ≢ consumed node_name
challenge_consumed_once_example =
    challenge_consumed_once toy_digest stub_signer issued_manager spent_manager
      (toy_digest challenge_wire) 2000 4000 node_name node_name replays consumed_now (tt, tt)

abbrev three_issues : List Call
three_issues =
    issue_call instance_bytes (75 ∷ []) node_name (some a_nonce) a_clock
    ∷ issue_call instance_bytes (76 ∷ []) node_name (some a_nonce) a_clock
    ∷ issue_call instance_bytes (77 ∷ []) node_name (some a_nonce) a_clock
    ∷ []

challenge_cache_bounded_example :
    size (run toy_digest stub_signer (new_challenge_manager 60000000000 (pos 2)) three_issues) ≤ 2
challenge_cache_bounded_example =
    challenge_cache_bounded toy_digest stub_signer 60000000000 2 three_issues (omega arith)

abbrev a_hello : SessionHello
a_hello = record {
  controller_instance_id = replicate 16 1;
  node_id = replicate 16 2;
  agent_credential_ver = 1;
  agent_public_key = replicate 32 3;
  agent_nonce = replicate 32 4;
  agent_max_epoch = 258;
  protocol_versions = 49 ∷ [];
}

abbrev hello_wire : Bytes
hello_wire = hello_canonical a_hello ++ replicate 64 7

hello_wire_bytes : AreBytes hello_wire
unfolding session_encode
hello_wire_bytes = omega arith

hello_wire-IsParsed : IsParsed trusting_verify hello_wire (replicate 32 9) (hello_message a_hello)
unfolding parse_session_hello session_encode read_fields split_fields verify
hello_wire-IsParsed = refl

accepted_session_authentic_example :
    IsNamed (hello_message a_hello)
    × IsSigned trusting_verify hello_wire (replicate 32 9) (hello_message a_hello)
accepted_session_authentic_example =
    accepted_session_authentic trusting_verify hello_wire (replicate 32 9) (hello_message a_hello)
      hello_wire_bytes hello_wire-IsParsed
