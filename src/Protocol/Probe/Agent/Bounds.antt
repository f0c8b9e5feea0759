-- ===== src/Protocol/Probe/Agent/Bounds.antt =====
-- internal/protocol/probe.go: the tables of the ProbeAgent stay bounded, and an arm leaves nothing
-- expired in them.
use anti_nat.Common.{
  ℕ, ◌≤◌, ◌<◌, ◌≡◌, inl, inr, Bool, false, List, [], ◌∷◌, Option, none, some, ltb, leb, length,
  bytes_eq, Bool-cases, All, arith,
}
use anti_nat.Common.ByteMap.{
  ByteMap, lookup, delete, length-delete, length-update, length-evict, All-delete, evict_live,
}
use anti_nat.Security.Framecrypto.{Bytes}
use anti_nat.Protocol.Probe.{ProbeArm, ProviderFrame, ok, validate_arm, digest_of}
use anti_nat.Protocol.Probe.Agent.{
  ProbeAgent, ArmedProbeState, sweep, probe_op_max, arm_with, arm_swept, arm_checked, arm_probe,
  mark_used, handle_probe_ingress, op_dead, replay_dead,
}
use anti_nat.Protocol.Probe.Agent.Consumed.{
  Call, arms, ingresses, calls, ingress_cases, Result-cases,
}

-- At most 1024 operations.
abbrev pub Bounded : ProbeAgent → Type 0
Bounded s = length s.ops ≤ probe_op_max

-- No operation whose deadline has passed, no replay entry whose window has ended.
pub record AllLive (now : ℕ) (s : ProbeAgent) : Type 0 where
  pub ops_live : All (λ (p : Bytes × ArmedProbeState). now ≤ p.1.deadline) s.ops
  pub replays_live : All (λ (p : Bytes × ℕ). now < p.1) s.replays

ops_live_of :
    (now : ℕ) (m : ByteMap ArmedProbeState)
    → All (λ (p : Bytes × ArmedProbeState). op_dead now p.1 ≡ false) m
    → All (λ (p : Bytes × ArmedProbeState). now ≤ p.1.deadline) m
ops_live_of now [] h = tt
ops_live_of now (x ∷ m) h = (ground arith, ops_live_of now m h.1)

replays_live_of :
    (now : ℕ) (m : ByteMap ℕ)
    → All (λ (p : Bytes × ℕ). replay_dead now p.1 ≡ false) m
    → All (λ (p : Bytes × ℕ). now < p.1) m
replays_live_of now [] h = tt
replays_live_of now (x ∷ m) h = (ground arith, replays_live_of now m h.1)

sweep-AllLive : (now : ℕ) (s : ProbeAgent) → AllLive now (sweep s now)
unfolding sweep
sweep-AllLive now s = record {
  ops_live = ops_live_of now _ (evict_live (λ op. op_dead now op) s.ops);
  replays_live = replays_live_of now _ (evict_live (λ e. replay_dead now e) s.replays);
}

sweep-Bounded : (now : ℕ) (s : ProbeAgent) → Bounded s → Bounded (sweep s now)
unfolding sweep
sweep-Bounded now s h = omega (arith, length-evict (λ op. op_dead now op) s.ops)

abbrev Tidy : ℕ → ProbeAgent → Type 0
Tidy now s = Bounded s × AllLive now s

module _ (sha256 : Bytes → Bytes) (ed_sign : Bytes → Bytes → Bytes) (node_key : Bytes) where
  arm_with-Tidy :
      (s : ProbeAgent) (arm : ProbeArm) (digest : Bytes) (now : ℕ) (found : Option ArmedProbeState)
      → Tidy now s
      → Tidy now (arm_with sha256 ed_sign node_key s arm digest now found).0
  unfolding arm_with
  arm_with-Tidy s arm digest now (some old) v = elim (Bool-cases (bytes_eq old.digest digest)) [
    | inl t ↦ rw t v
    | inr f ↦ rw f v
  ]
  arm_with-Tidy s arm digest now none v = elim (Bool-cases (leb probe_op_max (length s.ops))) [
    | inl t ↦ rw t v
    | inr f ↦ rw f (
      (ground (arith, length-delete arm.probe_id s.ops)),
      (record {
        ops_live = (omega arith, All-delete _ arm.probe_id s.ops v.1.ops_live);
        replays_live = v.1.replays_live;
      }),
    )
  ]

  arm_swept-Tidy :
      (s : ProbeAgent) (arm : ProbeArm) (digest : Bytes) (now : ℕ) (expire : Option ℕ)
      → Tidy now s
      → Tidy now (arm_swept sha256 ed_sign node_key s arm digest now expire).0
  unfolding arm_swept
  arm_swept-Tidy s arm digest now none v =
      arm_with-Tidy s arm digest now (lookup arm.probe_id s.ops) v
  arm_swept-Tidy s arm digest now (some x) v = elim (Bool-cases (ltb now x)) [
    | inl t ↦ rw t v
    | inr f ↦ rw f (
        arm_with-Tidy (record s { replays = delete arm.probe_id s.replays }) arm digest now
          (lookup arm.probe_id s.ops)
          (
            v.0,
            record {
              ops_live = v.1.ops_live;
              replays_live = All-delete _ arm.probe_id s.replays v.1.replays_live;
            },
          ))
  ]

  -- On an agent of at most 1024 operations, an arm that passes validation leaves no operation past
  -- its deadline and no replay entry past its window, whether it is accepted or refused.
  pub arm-AllLive :
      (s : ProbeAgent) (arm : ProbeArm) (now : ℕ)
      → Bounded s
      → validate_arm arm ≡ ok tt
      → AllLive now (arm_probe sha256 ed_sign node_key s arm now).0
  unfolding arm_probe arm_checked
  arm-AllLive s arm now h valid =
      rw valid
        (arm_swept-Tidy (sweep s now) arm (digest_of sha256 arm) now
          (lookup arm.probe_id (sweep s now).replays)
          (sweep-Bounded now s h, sweep-AllLive now s)).1

  arm-Bounded :
      (s : ProbeAgent) (arm : ProbeArm) (now : ℕ)
      → Bounded s
      → Bounded (arm_probe sha256 ed_sign node_key s arm now).0
  unfolding arm_probe arm_checked
  arm-Bounded s arm now h = elim (Result-cases (validate_arm arm)) [
    | inr (x, q) ↦ rw q h
    | inl (u, q) ↦
        rw q
          (arm_swept-Tidy (sweep s now) arm (digest_of sha256 arm) now
            (lookup arm.probe_id (sweep s now).replays)
            (sweep-Bounded now s h, sweep-AllLive now s)).0
  ]

ingress-Bounded :
    (ed_verify : Bytes → Bytes → Bytes → Bool) (s : ProbeAgent) (frame : ProviderFrame)
    (source_ip : Bytes) (now : ℕ)
    → Bounded s
    → Bounded (handle_probe_ingress ed_verify s frame source_ip now).0
ingress-Bounded ed_verify s frame source_ip now h =
    elim (ingress_cases ed_verify s frame source_ip now) [
      | inl q ↦ rw q h
      | inr (op, found, unused, alive, matches, q) ↦
          rw q (omega (arith, length-update frame.probe_id mark_used s.ops))
    ]

module _ (sha256 : Bytes → Bytes) (ed_sign : Bytes → Bytes → Bytes)
    (ed_verify : Bytes → Bytes → Bytes → Bool) (node_key : Bytes) where
  -- No sequence of calls takes a table of at most 1024 operations beyond 1024.
  pub calls-Bounded :
      (s : ProbeAgent) (cs : List Call)
      → Bounded s
      → Bounded (calls sha256 ed_sign ed_verify node_key s cs)
  calls-Bounded s [] h = h
  calls-Bounded s (arms arm now ∷ cs) h =
      calls-Bounded (arm_probe sha256 ed_sign node_key s arm now).0 cs
        (arm-Bounded sha256 ed_sign node_key s arm now h)
  calls-Bounded s (ingresses frame source_ip now ∷ cs) h =
      calls-Bounded (handle_probe_ingress ed_verify s frame source_ip now).0 cs
        (ingress-Bounded ed_verify s frame source_ip now h)
