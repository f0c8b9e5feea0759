-- ===== src/Protocol/Probe/Agent/Honest.antt =====
-- internal/protocol/probe.go: a probe among honest parties, from the arm to the join.
use anti_nat.Common.{
  ℕ, ◌+◌, ◌*◌, ◌≤◌, ◌<◌, ◌≡◌, refl, sym, ap, subst, Bool, true, false, [], none, some, ltb, leb,
  length, bytes_eq_self, arith,
}
use anti_nat.Common.ByteMap.{lookup, insert, delete, lookup_hit}
use anti_nat.Security.Framecrypto.{Bytes, verify}
use anti_nat.Protocol.Probe.{
  ProbeArm, ProbeArmed, ProviderFrame, ProbeAck, ProbeReceipt, Result, ok, validate_arm, digest_of,
  challenge_hash_of, frame_signing_bytes, frame_canonical, ack_signing_bytes, receipt_signing_bytes,
}
use anti_nat.Protocol.Probe.Agent.{
  ProbeAgent, ArmedProbeState, sweep, probe_op_max, arm_with, arm_swept, arm_checked, arm_probe,
  sign_armed, frame_matches, ingress_at, handle_probe_ingress, verify_probe_join,
}
use anti_nat.Protocol.Probe.Agent.Join.{Joined, verify_probe_join_iff}

-- The frames that an honest provider and an honest node make of an arm and a challenge.
abbrev unsigned_frame : Bytes → ProbeArm → Bytes → ProviderFrame
unsigned_frame digest arm challenge = record {
  arm_digest = digest;
  probe_id = arm.probe_id;
  provider_id = arm.provider_id;
  activation = arm.activation;
  endpoint = arm.endpoint;
  expiry_opaque = arm.expiry_opaque;
  challenge = challenge;
  signature = [];
}

-- A key pair of the right sizes whose signatures verify.
pub record KeyPair (ed_sign : Bytes → Bytes → Bytes) (ed_verify : Bytes → Bytes → Bytes → Bool)
    (private public : Bytes) : Type 0 where
  pub public_size : length public ≡ 32
  pub signature_length : (m : Bytes) → length (ed_sign private m) ≡ 64
  pub verifies : (m : Bytes) → ed_verify public m (ed_sign private m) ≡ true

module _ (sha256 : Bytes → Bytes) (ed_sign : Bytes → Bytes → Bytes)
    (ed_verify : Bytes → Bytes → Bytes → Bool) where
  verify-sign :
      (private public m : Bytes)
      → KeyPair ed_sign ed_verify private public
      → verify ed_verify public m (ed_sign private m) ≡ true
  unfolding verify
  verify-sign private public m k = rw (k.public_size, k.signature_length m, k.verifies m) refl

  abbrev pub honest_frame : Bytes → ProbeArm → Bytes → ProviderFrame
  honest_frame private arm challenge =
      let f = unsigned_frame (digest_of sha256 arm) arm challenge in
      record f { signature = ed_sign private (frame_signing_bytes f) }

  abbrev pub honest_ack : Bytes → ProviderFrame → ProbeAck
  honest_ack private frame =
      let a : ProbeAck = record {
        arm_digest = frame.arm_digest;
        challenge_hash = challenge_hash_of sha256 frame;
        signature = [];
      } in
      record a { signature = ed_sign private (ack_signing_bytes a) }

  abbrev pub honest_receipt : Bytes → ProviderFrame → ProbeReceipt
  honest_receipt private frame =
      let r : ProbeReceipt = record {
        arm_digest = frame.arm_digest;
        challenge_hash = challenge_hash_of sha256 frame;
        provider_id = frame.provider_id;
        signature = [];
      } in
      record r { signature = ed_sign private (receipt_signing_bytes r) }

  honest_joins :
      (provider_key node_key node_pub : Bytes) (arm : ProbeArm) (challenge : Bytes)
      → validate_arm arm ≡ ok tt
      → KeyPair ed_sign ed_verify provider_key arm.provider_public_key
      → KeyPair ed_sign ed_verify node_key node_pub
      → (let frame = honest_frame provider_key arm challenge in
          Joined ed_verify sha256 arm frame
            (honest_ack node_key frame)
            (honest_receipt node_key frame)
            node_pub)
  unfolding frame_canonical ack_signing_bytes receipt_signing_bytes challenge_hash_of
  honest_joins provider_key node_key node_pub arm challenge valid provider node = record {
    valid = valid;
    frame_digest = refl;
    ack_digest = refl;
    receipt_digest = refl;
    probe = refl;
    provider = refl;
    activation = refl;
    endpoint = refl;
    expiry = refl;
    receipt_provider = refl;
    ack_challenge = refl;
    receipt_challenge = refl;
    frame_signed = verify-sign provider_key arm.provider_public_key _ provider;
    ack_signed = verify-sign node_key node_pub _ node;
    receipt_signed = verify-sign node_key node_pub _ node;
  }

  abbrev armed_op : ProbeArm → ℕ → ArmedProbeState
  armed_op arm now = record {
    arm = arm;
    digest = digest_of sha256 arm;
    deadline = now + arm.ttl_ms * 1000000;
    used = false;
  }

  arm_fresh :
      (node_key : Bytes) (s : ProbeAgent) (arm : ProbeArm) (now : ℕ)
      → validate_arm arm ≡ ok tt
      → lookup arm.probe_id (sweep s now).ops ≡ none
      → lookup arm.probe_id (sweep s now).replays ≡ none
      → length (sweep s now).ops < probe_op_max
      → arm_probe sha256 ed_sign node_key s arm now ≡ (
        record (sweep s now) { ops = insert arm.probe_id (armed_op arm now) (sweep s now).ops },
        ok (sign_armed sha256 ed_sign node_key (digest_of sha256 arm)),
      )
  unfolding arm_probe arm_checked arm_swept arm_with
  arm_fresh node_key s arm now valid fresh unseen room = rw (valid, unseen, fresh, below) refl
    where
      below : leb probe_op_max (length (sweep s now).ops) ≡ false
      below = ground arith

  frame_matches-honest :
      (provider_key : Bytes) (arm : ProbeArm) (challenge : Bytes) (now : ℕ)
      → KeyPair ed_sign ed_verify provider_key arm.provider_public_key
      → frame_matches ed_verify
          (armed_op arm now)
          (honest_frame provider_key arm challenge)
          arm.expected_source_ip
        ≡ true
  unfolding frame_matches frame_canonical
  frame_matches-honest provider_key arm challenge now provider =
      rw
        (
          bytes_eq_self arm.expected_source_ip,
          bytes_eq_self (digest_of sha256 arm),
          bytes_eq_self arm.provider_id,
          bytes_eq_self arm.activation,
          bytes_eq_self arm.endpoint,
          bytes_eq_self arm.expiry_opaque,
        )
        (verify-sign provider_key arm.provider_public_key _ provider)

  ingress_honest :
      (provider_key : Bytes) (s : ProbeAgent) (arm : ProbeArm) (challenge : Bytes) (now later : ℕ)
      → KeyPair ed_sign ed_verify provider_key arm.provider_public_key
      → lookup arm.probe_id s.ops ≡ some (armed_op arm now)
      → later ≤ now + arm.ttl_ms * 1000000
      → (handle_probe_ingress ed_verify s
          (honest_frame provider_key arm challenge)
          arm.expected_source_ip
          later).1
        ≡ true
  unfolding handle_probe_ingress ingress_at
  ingress_honest provider_key s arm challenge now later provider found in_time =
      rw (found, early, frame_matches-honest provider_key arm challenge now provider) refl
    where
      early : ltb (now + arm.ttl_ms * 1000000) later ≡ false
      early = ground arith

  -- A valid arm whose identifier the swept agent does not know, while it has room, is armed; the
  -- provider's frame that arrives from the expected source by the deadline is accepted; and the
  -- node's ACK and receipt of that frame pass the controller's join. The keys are pairs of the
  -- right sizes whose signatures verify.
  pub honest_probe_completes :
      (provider_key node_key node_pub : Bytes) (s : ProbeAgent) (arm : ProbeArm) (challenge : Bytes)
      (now later : ℕ)
      → validate_arm arm ≡ ok tt
      → KeyPair ed_sign ed_verify provider_key arm.provider_public_key
      → KeyPair ed_sign ed_verify node_key node_pub
      → lookup arm.probe_id (sweep s now).ops ≡ none
      → lookup arm.probe_id (sweep s now).replays ≡ none
      → length (sweep s now).ops < probe_op_max
      → later ≤ now + arm.ttl_ms * 1000000
      → (let armed = arm_probe sha256 ed_sign node_key s arm now in
          let frame = honest_frame provider_key arm challenge in
          ((a : ProbeArmed) × (armed.1 ≡ ok a))
          × ((handle_probe_ingress ed_verify armed.0 frame arm.expected_source_ip later).1 ≡ true)
          × (verify_probe_join ed_verify sha256 arm frame
                (honest_ack node_key frame)
                (honest_receipt node_key frame)
                node_pub
              ≡ true))
  honest_probe_completes provider_key node_key node_pub s arm challenge now later valid provider
        node fresh unseen room in_time =
      (
        (_, ap (λ (r : ProbeAgent × Result ProbeArmed). r.1) armed),
        subst
            (λ (r : ProbeAgent × Result ProbeArmed).
              (handle_probe_ingress ed_verify r.0 (honest_frame provider_key arm challenge)
                arm.expected_source_ip later).1
              ≡ true)
            (sym armed)
            (ingress_honest provider_key _ arm challenge now later provider
              (lookup_hit arm.probe_id (armed_op arm now) (delete arm.probe_id (sweep s now).ops))
              in_time),
        (verify_probe_join_iff ed_verify sha256 arm (honest_frame provider_key arm challenge) _ _
              node_pub).1
            (honest_joins provider_key node_key node_pub arm challenge valid provider node),
      )
    where
      armed : arm_probe sha256 ed_sign node_key s arm now ≡ (
        record (sweep s now) { ops = insert arm.probe_id (armed_op arm now) (sweep s now).ops },
        ok (sign_armed sha256 ed_sign node_key (digest_of sha256 arm)),
      )
      armed = arm_fresh node_key s arm now valid fresh unseen room
