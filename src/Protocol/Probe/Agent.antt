-- ===== src/Protocol/Probe/Agent.antt =====
-- internal/protocol/probe.go: ProbeAgent, the in-memory state machine of armed probes, and the
-- controller's join. An instant and a duration are whole nanoseconds. A pointer that the table of
-- operations holds is the operation itself, updated in place.
pub mod Consumed
pub mod Bounds
pub mod Join
pub mod Honest
use anti_nat.Common.{
  ℕ, ◌+◌, ◌*◌, Bool, true, false, not, ◌||◌, ◌&&◌, List, [], ◌∷◌, Option, none, some, if◌then◌else◌,
  ltb, leb, length, bytes_eq,
}
use anti_nat.Common.ByteMap.{ByteMap, lookup, delete, insert, update, evict}
use anti_nat.Security.Framecrypto.{Bytes, sign, verify}
use anti_nat.Protocol.Probe.{
  ProbeArm, ProbeArmed, ProviderFrame, ProbeAck, ProbeReceipt, ProbeError, replay, id_conflict,
  state_full, Result, ok, err, validate_arm, digest_of, challenge_hash_of, armed_signing_bytes,
  frame_signing_bytes, ack_signing_bytes, receipt_signing_bytes,
}

-- Five minutes.
abbrev pub probe_replay_window : ℕ
probe_replay_window = 300000000000

abbrev pub probe_op_max : ℕ
probe_op_max = 1024

pub record ArmedProbeState : Type 0 where
  pub arm : ProbeArm
  pub digest : Bytes
  pub deadline : ℕ
  pub used : Bool

pub record ProbeAgent : Type 0 where
  pub ops : ByteMap ArmedProbeState
  pub replays : ByteMap ℕ

abbrev pub new_probe_agent : ProbeAgent
new_probe_agent = record { ops = []; replays = [] }

abbrev pub op_dead : ℕ → ArmedProbeState → Bool
op_dead now op = ltb op.deadline now

abbrev pub replay_dead : ℕ → ℕ → Bool
replay_dead now expire = leb expire now

unfoldable pub sweep : ProbeAgent → ℕ → ProbeAgent
sweep s now = record {
  ops = evict (λ op. op_dead now op) s.ops;
  replays = evict (λ e. replay_dead now e) s.replays;
}

abbrev signed_or_empty : Bytes → Option Bytes → ProbeArmed
signed_or_empty digest none = record { arm_digest = digest; signature = [] }
signed_or_empty digest (some sig) = record { arm_digest = digest; signature = sig }

module _ (sha256 : Bytes → Bytes) (ed_sign : Bytes → Bytes → Bytes) (node_key : Bytes) where
  unfoldable pub sign_armed : Bytes → ProbeArmed
  sign_armed digest =
      signed_or_empty digest (
        sign ed_sign node_key
          (armed_signing_bytes (record { arm_digest = digest; signature = [] })))

  -- After the replay cache: a live operation with the identifier, or a new one.
  arm_with :
      ProbeAgent → ProbeArm → Bytes → ℕ → Option ArmedProbeState → ProbeAgent × Result ProbeArmed
  arm_with s arm digest now (some old) =
      if not (bytes_eq old.digest digest) then (s, err id_conflict) else (s, ok (sign_armed digest))
  arm_with s arm digest now none =
      if leb probe_op_max (length s.ops) then (s, err state_full) else (
        record s {
          ops =
              insert arm.probe_id
                (record {
                  arm = arm;
                  digest = digest;
                  deadline = now + arm.ttl_ms * 1000000;
                  used = false;
                })
                s.ops;
        },
        ok (sign_armed digest),
      )

  replayed : Bytes → Option ArmedProbeState → ProbeError
  replayed digest none = id_conflict
  replayed digest (some old) = if bytes_eq old.digest digest then replay else id_conflict

  -- After the sweep.
  arm_swept : ProbeAgent → ProbeArm → Bytes → ℕ → Option ℕ → ProbeAgent × Result ProbeArmed
  unfolding arm_with replayed
  arm_swept s arm digest now none = arm_with s arm digest now (lookup arm.probe_id s.ops)
  arm_swept s arm digest now (some expire) =
      if ltb now expire
      then (s, err (replayed digest (lookup arm.probe_id s.ops)))
      else arm_with (record s { replays = delete arm.probe_id s.replays }) arm digest now
          (lookup arm.probe_id s.ops)

  arm_checked : ProbeAgent → ProbeArm → ℕ → Result (Unit {0}) → ProbeAgent × Result ProbeArmed
  unfolding arm_swept
  arm_checked s arm now (err e) = (s, err e)
  arm_checked s arm now (ok u) =
      let swept = sweep s now in
      arm_swept swept arm (digest_of sha256 arm) now (lookup arm.probe_id swept.replays)

  unfoldable pub arm_probe : ProbeAgent → ProbeArm → ℕ → ProbeAgent × Result ProbeArmed
  unfolding arm_checked
  arm_probe s arm now = arm_checked s arm now (validate_arm arm)

abbrev pub mark_used : ArmedProbeState → ArmedProbeState
mark_used op = record op { used = true }

module _ (ed_verify : Bytes → Bytes → Bytes → Bool) where
  unfoldable pub frame_matches : ArmedProbeState → ProviderFrame → Bytes → Bool
  frame_matches op frame source_ip =
      bytes_eq source_ip op.arm.expected_source_ip
      && bytes_eq frame.arm_digest op.digest
      && bytes_eq frame.provider_id op.arm.provider_id
      && bytes_eq frame.activation op.arm.activation
      && bytes_eq frame.endpoint op.arm.endpoint
      && bytes_eq frame.expiry_opaque op.arm.expiry_opaque
      && verify ed_verify op.arm.provider_public_key (frame_signing_bytes frame) frame.signature

  ingress_at : ProbeAgent → ProviderFrame → Bytes → ℕ → Option ArmedProbeState → ProbeAgent × Bool
  ingress_at s frame source_ip now none = (s, false)
  ingress_at s frame source_ip now (some op) =
      if op.used || ltb op.deadline now
      then (s, false)
      else if not (frame_matches op frame source_ip)
      then (s, false)
      else (
        record {
          ops = update frame.probe_id mark_used s.ops;
          replays = insert frame.probe_id (now + probe_replay_window) s.replays;
        },
        true,
      )

  unfoldable pub handle_probe_ingress : ProbeAgent → ProviderFrame → Bytes → ℕ → ProbeAgent × Bool
  unfolding ingress_at
  handle_probe_ingress s frame source_ip now =
      ingress_at s frame source_ip now (lookup frame.probe_id s.ops)

  module _ (sha256 : Bytes → Bytes) where
    join_checked :
        ProbeArm → ProviderFrame → ProbeAck → ProbeReceipt → Bytes → Result (Unit {0}) → Bool
    join_checked arm frame ack receipt node_pub (err e) = false
    join_checked arm frame ack receipt node_pub (ok u) =
        let digest = digest_of sha256 arm in
        let ch = challenge_hash_of sha256 frame in
        if not (bytes_eq frame.arm_digest digest)
          || not (bytes_eq ack.arm_digest digest)
          || not (bytes_eq receipt.arm_digest digest)
        then false
        else if not (bytes_eq frame.probe_id arm.probe_id)
            || not (bytes_eq frame.provider_id arm.provider_id)
            || not (bytes_eq frame.activation arm.activation)
            || not (bytes_eq frame.endpoint arm.endpoint)
            || not (bytes_eq frame.expiry_opaque arm.expiry_opaque)
        then false
        else if not (bytes_eq receipt.provider_id arm.provider_id)
        then false
        else if not
            (verify ed_verify arm.provider_public_key (frame_signing_bytes frame) frame.signature)
        then false
        else if not (bytes_eq ack.challenge_hash ch) || not (bytes_eq receipt.challenge_hash ch)
        then false
        else if not (verify ed_verify node_pub (ack_signing_bytes ack) ack.signature)
            || not (verify ed_verify node_pub (receipt_signing_bytes receipt) receipt.signature)
        then false
        else true

    unfoldable pub verify_probe_join :
        ProbeArm → ProviderFrame → ProbeAck → ProbeReceipt → Bytes → Bool
    unfolding join_checked
    verify_probe_join arm frame ack receipt node_pub =
        join_checked arm frame ack receipt node_pub (validate_arm arm)
