-- ===== src/Protocol/Probe/Agent/Join.antt =====
-- internal/protocol/probe.go: what VerifyProbeJoin means, and a probe that runs to its end.
use anti_nat.Common.{
  ◌≡◌, ◌↔◌, inl, inr, refl, sym, ap, ◌∙◌, Bool, true, bytes_eq, bytes_eq_self, bytes_eq→eq, arith,
}
use anti_nat.Security.Framecrypto.{Bytes, verify}
use anti_nat.Protocol.Probe.{
  ProbeArm, ProbeError, ProviderFrame, ProbeAck, ProbeReceipt, Result, ok, err, validate_arm,
  digest_of, challenge_hash_of, frame_signing_bytes, ack_signing_bytes, receipt_signing_bytes,
}
use anti_nat.Protocol.Probe.Agent.{join_checked, verify_probe_join}
use anti_nat.Protocol.Probe.Agent.Consumed.{Result-cases}

eq→bytes_eq : {xs ys : Bytes} → xs ≡ ys → bytes_eq xs ys ≡ true
eq→bytes_eq {xs} {ys} e = ap (bytes_eq xs) (sym e) ∙ bytes_eq_self xs

module _ (ed_verify : Bytes → Bytes → Bytes → Bool) (sha256 : Bytes → Bytes) where
  -- One valid arm, one digest, one challenge, one provider and three good signatures.
  pub record Joined (arm : ProbeArm) (frame : ProviderFrame) (ack : ProbeAck)
      (receipt : ProbeReceipt) (node_pub : Bytes) : Type 0 where
    pub valid : validate_arm arm ≡ ok tt
    pub frame_digest : frame.arm_digest ≡ digest_of sha256 arm
    pub ack_digest : ack.arm_digest ≡ digest_of sha256 arm
    pub receipt_digest : receipt.arm_digest ≡ digest_of sha256 arm
    pub probe : frame.probe_id ≡ arm.probe_id
    pub provider : frame.provider_id ≡ arm.provider_id
    pub activation : frame.activation ≡ arm.activation
    pub endpoint : frame.endpoint ≡ arm.endpoint
    pub expiry : frame.expiry_opaque ≡ arm.expiry_opaque
    pub receipt_provider : receipt.provider_id ≡ arm.provider_id
    pub ack_challenge : ack.challenge_hash ≡ challenge_hash_of sha256 frame
    pub receipt_challenge : receipt.challenge_hash ≡ challenge_hash_of sha256 frame
    pub frame_signed :
        verify ed_verify arm.provider_public_key (frame_signing_bytes frame) frame.signature ≡ true
    pub ack_signed : verify ed_verify node_pub (ack_signing_bytes ack) ack.signature ≡ true
    pub receipt_signed :
        verify ed_verify node_pub (receipt_signing_bytes receipt) receipt.signature ≡ true

  join→Joined :
      (arm : ProbeArm) (frame : ProviderFrame) (ack : ProbeAck) (receipt : ProbeReceipt)
      (node_pub : Bytes)
      → validate_arm arm ≡ ok tt
      → join_checked ed_verify sha256 arm frame ack receipt node_pub (ok tt) ≡ true
      → Joined arm frame ack receipt node_pub
  unfolding join_checked
  join→Joined arm frame ack receipt node_pub valid h = record {
    valid = valid;
    frame_digest = bytes_eq→eq _ _ (ground arith);
    ack_digest = bytes_eq→eq _ _ (ground arith);
    receipt_digest = bytes_eq→eq _ _ (ground arith);
    probe = bytes_eq→eq _ _ (ground arith);
    provider = bytes_eq→eq _ _ (ground arith);
    activation = bytes_eq→eq _ _ (ground arith);
    endpoint = bytes_eq→eq _ _ (ground arith);
    expiry = bytes_eq→eq _ _ (ground arith);
    receipt_provider = bytes_eq→eq _ _ (ground arith);
    ack_challenge = bytes_eq→eq _ _ (ground arith);
    receipt_challenge = bytes_eq→eq _ _ (ground arith);
    frame_signed = ground arith;
    ack_signed = ground arith;
    receipt_signed = ground arith;
  }

  Joined→join :
      (arm : ProbeArm) (frame : ProviderFrame) (ack : ProbeAck) (receipt : ProbeReceipt)
      (node_pub : Bytes)
      → Joined arm frame ack receipt node_pub
      → join_checked ed_verify sha256 arm frame ack receipt node_pub (ok tt) ≡ true
  unfolding join_checked
  Joined→join arm frame ack receipt node_pub j =
      rw
        (
          eq→bytes_eq j.frame_digest,
          eq→bytes_eq j.ack_digest,
          eq→bytes_eq j.receipt_digest,
          eq→bytes_eq j.probe,
          eq→bytes_eq j.provider,
          eq→bytes_eq j.activation,
          eq→bytes_eq j.endpoint,
          eq→bytes_eq j.expiry,
          eq→bytes_eq j.receipt_provider,
          eq→bytes_eq j.ack_challenge,
          eq→bytes_eq j.receipt_challenge,
          j.frame_signed,
          j.ack_signed,
          j.receipt_signed,
        )
        refl

  -- The controller's join accepts exactly the quadruples of a valid arm and three frames with that
  -- arm's digest, the frame's identifiers, endpoint and expiry those of the arm, the receipt's
  -- provider that of the arm, the hash of the frame's challenge in the ACK and the receipt, and
  -- three good signatures, the frame's under the provider's key and the two others under the
  -- node's.
  pub verify_probe_join_iff :
      (arm : ProbeArm) (frame : ProviderFrame) (ack : ProbeAck) (receipt : ProbeReceipt)
      (node_pub : Bytes)
      → (verify_probe_join ed_verify sha256 arm frame ack receipt node_pub ≡ true)
        ↔ Joined arm frame ack receipt node_pub
  unfolding verify_probe_join join_checked
  verify_probe_join_iff arm frame ack receipt node_pub = elim (Result-cases (validate_arm arm)) [
    | inl (u, q) ↦ (
      (λ h. join→Joined arm frame ack receipt node_pub q (rw q at h)),
      λ j. rw q (Joined→join arm frame ack receipt node_pub j),
    )
    | inr (e, q) ↦ ((λ h. absurd (refused e (rw q at h))), λ j. absurd (clash e (sym q ∙ j.valid)))
  ]
    where
      refused :
          (e : ProbeError)
          → join_checked ed_verify sha256 arm frame ack receipt node_pub (err e) ≡ true
          → ⊥
      refused e h = ground arith

      clash : (e : ProbeError) → ◌≡◌ {0} {A = Result (Unit {0})} (err e) (ok tt) → ⊥
      clash e h = ground arith
