-- ===== src/Protocol/Probe/Agent/Consumed.antt =====
-- internal/protocol/probe.go: an accepted probe is consumed, over any sequence of calls; the tables
-- stay bounded and hold nothing expired; a refused ingress changes nothing.
use anti_nat.Common.{
  ℕ, ◌+◌, ◌≤◌, ◌<◌, ◌≡◌, ◌⊎◌, inl, inr, refl, sym, ap, ◌∙◌, Bool, true, false, ◌||◌, List, [], ◌∷◌,
  Option, none, some, ltb, leb, length, bytes_eq, bytes_eq_self, bytes_eq→eq, Bool-cases,
  Option-cases, All, arith,
}
use anti_nat.Common.ByteMap.{
  ByteMap, lookup, delete, insert, update, lookup_hit, lookup-insert_other, lookup-delete_other,
  All-delete, All-evict, All-update, All_lookup, lookup-evict,
}
use anti_nat.Security.Framecrypto.{Bytes}
use anti_nat.Protocol.Probe.{
  ProbeArm, ProviderFrame, ProbeError, Result, ok, err, validate_arm, digest_of,
}
use anti_nat.Protocol.Probe.Agent.{
  ProbeAgent, ArmedProbeState, sweep, probe_op_max, probe_replay_window, arm_with, arm_swept,
  arm_checked, arm_probe, frame_matches, mark_used, ingress_at, handle_probe_ingress, op_dead,
  replay_dead,
}

pub Result-cases {ℓ} :
    {A : Type ℓ} (r : Result A) → ((a : A) × (r ≡ ok a)) ⊎ ((e : ProbeError) × (r ≡ err e))
Result-cases (ok a) = inl (a, refl)
Result-cases (err e) = inr (e, refl)

-- Every operation with the identifier is used, and the replay cache refuses it until `e`.
pub record Spent (id : Bytes) (e : ℕ) (s : ProbeAgent) : Type 0 where
  pub all_used :
      All (λ (p : Bytes × ArmedProbeState). bytes_eq id p.0 ≡ true → p.1.used ≡ true) s.ops
  pub cached : lookup id s.replays ≡ some e

module _ (ed_verify : Bytes → Bytes → Bytes → Bool) where
  pub ingress_cases :
      (s : ProbeAgent) (frame : ProviderFrame) (source_ip : Bytes) (now : ℕ)
      → (handle_probe_ingress ed_verify s frame source_ip now ≡ (s, false))
        ⊎ ((op : ArmedProbeState) × (lookup frame.probe_id s.ops ≡ some op)
            × (op.used ≡ false)
            × (now ≤ op.deadline)
            × (frame_matches ed_verify op frame source_ip ≡ true)
            × (handle_probe_ingress ed_verify s frame source_ip now ≡ (
              record {
                ops = update frame.probe_id mark_used s.ops;
                replays = insert frame.probe_id (now + probe_replay_window) s.replays;
              },
              true,
            )))
  unfolding handle_probe_ingress ingress_at
  ingress_cases s frame source_ip now = elim (Option-cases (lookup frame.probe_id s.ops)) [
    | inl e ↦ inl (rw (e, handle_probe_ingress))
    | inr (op, e) ↦ elim (Bool-cases (op.used || ltb op.deadline now)) [
      | inl d ↦ inl (rw (e, d, handle_probe_ingress) refl)
      | inr d ↦ elim (Bool-cases (frame_matches ed_verify op frame source_ip)) [
        | inl m ↦
            inr (op, e, ground arith, ground arith, m, rw (e, d, m, handle_probe_ingress) refl)
        | inr m ↦ inl (rw (e, d, m, handle_probe_ingress) refl)
      ]
    ]
  ]

sweep-Spent :
    (id : Bytes) (e now : ℕ) (s : ProbeAgent) → now < e → Spent id e s → Spent id e (sweep s now)
unfolding sweep
sweep-Spent id e now s h v = record {
  all_used = All-evict _ (λ op. op_dead now op) s.ops v.all_used;
  cached = lookup-evict (λ x. replay_dead now x) id s.replays e v.cached (ground arith);
}

module _ (sha256 : Bytes → Bytes) (ed_sign : Bytes → Bytes → Bytes) (node_key : Bytes) where
  arm_with-Spent :
      (id : Bytes) (e now : ℕ) (s : ProbeAgent) (arm : ProbeArm) (digest : Bytes)
      (found : Option ArmedProbeState)
      → bytes_eq id arm.probe_id ≡ false
      → Spent id e s
      → Spent id e (arm_with sha256 ed_sign node_key s arm digest now found).0
  unfolding arm_with
  arm_with-Spent id e now s arm digest (some old) other v =
      elim (Bool-cases (bytes_eq old.digest digest)) [ inl t ↦ rw t v | inr f ↦ rw f v ]
  arm_with-Spent id e now s arm digest none other v =
      elim (Bool-cases (leb probe_op_max (length s.ops))) [
        | inl t ↦ rw t v
        | inr f ↦ rw f (record {
          all_used = ((λ same. absurd (ground arith)), All-delete _ arm.probe_id s.ops v.all_used);
          cached = v.cached;
        })
      ]

  arm_swept-Spent :
      (id : Bytes) (e now : ℕ) (s : ProbeAgent) (arm : ProbeArm) (digest : Bytes)
      (expire : Option ℕ)
      → bytes_eq id arm.probe_id ≡ false
      → Spent id e s
      → Spent id e (arm_swept sha256 ed_sign node_key s arm digest now expire).0
  unfolding arm_swept
  arm_swept-Spent id e now s arm digest none other v =
      arm_with-Spent id e now s arm digest (lookup arm.probe_id s.ops) other v
  arm_swept-Spent id e now s arm digest (some x) other v = elim (Bool-cases (ltb now x)) [
    | inl t ↦ rw t v
    | inr f ↦ rw f (
        arm_with-Spent id e now (record s { replays = delete arm.probe_id s.replays }) arm digest
          (lookup arm.probe_id s.ops) other
          (record {
            all_used = v.all_used;
            cached = lookup-delete_other id arm.probe_id s.replays other ∙ v.cached;
          }))
  ]

  -- An arm that reuses a spent identifier is refused, and it stays spent.
  rearm_refused :
      (id : Bytes) (e now : ℕ) (s : ProbeAgent) (arm : ProbeArm)
      → now < e
      → Spent id e s
      → arm.probe_id ≡ id
      → ((x : ProbeError) × ((arm_probe sha256 ed_sign node_key s arm now).1 ≡ err x))
        × Spent id e (arm_probe sha256 ed_sign node_key s arm now).0
  unfolding arm_probe arm_checked arm_swept
  rearm_refused id e now s arm h v same = elim (Result-cases (validate_arm arm)) [
    | inr (x, q) ↦ rw q ((x, refl), v)
    | inl (u, q) ↦
        let w = sweep-Spent id e now s h v in rw (q, same, w.cached, in_time) ((_, refl), w)
  ]
    where
      in_time : ltb now e ≡ true
      in_time = ground arith

  arm-Spent :
      (id : Bytes) (e now : ℕ) (s : ProbeAgent) (arm : ProbeArm)
      → now < e
      → Spent id e s
      → Spent id e (arm_probe sha256 ed_sign node_key s arm now).0
  unfolding arm_probe arm_checked
  arm-Spent id e now s arm h v = elim (Bool-cases (bytes_eq id arm.probe_id)) [
    | inl t ↦ (rearm_refused id e now s arm h v (sym (bytes_eq→eq id arm.probe_id t))).1
    | inr f ↦ elim (Result-cases (validate_arm arm)) [
      | inr (x, q) ↦ rw q v
      | inl (u, q) ↦ rw q (
          arm_swept-Spent id e now (sweep s now) arm (digest_of sha256 arm)
            (lookup arm.probe_id (sweep s now).replays) f (sweep-Spent id e now s h v))
    ]
  ]

module _ (ed_verify : Bytes → Bytes → Bytes → Bool) where
  -- An ingress on a spent identifier is refused.
  Spent-refuses :
      (id : Bytes) (e : ℕ) (s : ProbeAgent) (frame : ProviderFrame) (source_ip : Bytes) (now : ℕ)
      → Spent id e s
      → frame.probe_id ≡ id
      → handle_probe_ingress ed_verify s frame source_ip now ≡ (s, false)
  Spent-refuses id e s frame source_ip now v same =
      elim (ingress_cases ed_verify s frame source_ip now) [
        | inl q ↦ q
        | inr (op, found, unused, alive, matches, q) ↦ absurd (
            clash op unused (
              All_lookup _ frame.probe_id s.ops op v.all_used found
                (ap (bytes_eq id) same ∙ bytes_eq_self id)))
      ]
    where
      clash : (op : ArmedProbeState) → op.used ≡ false → op.used ≡ true → ⊥
      clash op p q = ground arith

  ingress-Spent :
      (id : Bytes) (e : ℕ) (s : ProbeAgent) (frame : ProviderFrame) (source_ip : Bytes) (now : ℕ)
      → Spent id e s
      → Spent id e (handle_probe_ingress ed_verify s frame source_ip now).0
  ingress-Spent id e s frame source_ip now v = elim (Bool-cases (bytes_eq id frame.probe_id)) [
    | inl t ↦
        rw (Spent-refuses id e s frame source_ip now v (sym (bytes_eq→eq id frame.probe_id t))) v
    | inr f ↦ elim (ingress_cases ed_verify s frame source_ip now) [
      | inl q ↦ rw q v
      | inr (op, found, unused, alive, matches, q) ↦ rw q (record {
        all_used = All-update _ frame.probe_id mark_used s.ops (λ j a h same. refl) v.all_used;
        cached = lookup-insert_other id frame.probe_id _ s.replays f ∙ v.cached;
      })
    ]
  ]

  update_marks :
      (id : Bytes) (m : ByteMap ArmedProbeState)
      → All
          (λ (p : Bytes × ArmedProbeState). bytes_eq id p.0 ≡ true → p.1.used ≡ true)
          (update id mark_used m)
  unfolding update
  update_marks id [] = tt
  update_marks id ((j, op) ∷ m) = elim (Bool-cases (bytes_eq id j)) [
    | inl t ↦ rw t ((λ same. refl), update_marks id m)
    | inr f ↦ rw f ((λ same. absurd (ground arith)), update_marks id m)
  ]

  accepted-Spent :
      (s : ProbeAgent) (frame : ProviderFrame) (source_ip : Bytes) (now : ℕ)
      → (handle_probe_ingress ed_verify s frame source_ip now).1 ≡ true
      → Spent frame.probe_id
          (now + probe_replay_window)
          (handle_probe_ingress ed_verify s frame source_ip now).0
  accepted-Spent s frame source_ip now accepted =
      elim (ingress_cases ed_verify s frame source_ip now) [
        | inl q ↦ absurd (no (rw q at accepted))
        | inr (op, found, unused, alive, matches, q) ↦ rw q (record {
          all_used = update_marks frame.probe_id s.ops;
          cached = lookup_hit frame.probe_id _ (delete frame.probe_id s.replays);
        })
      ]
    where
      no : false ≡ true → ⊥
      no h = ground arith

pub data Call : Type 0 where
  arms : ProbeArm → ℕ → Call
  ingresses : ProviderFrame → Bytes → ℕ → Call

abbrev time_of : Call → ℕ
time_of (arms arm now) = now
time_of (ingresses frame source_ip now) = now

module _ (sha256 : Bytes → Bytes) (ed_sign : Bytes → Bytes → Bytes)
    (ed_verify : Bytes → Bytes → Bytes → Bool) (node_key : Bytes) where
  abbrev call : ProbeAgent → Call → ProbeAgent
  call s (arms arm now) = (arm_probe sha256 ed_sign node_key s arm now).0
  call s (ingresses frame source_ip now) = (handle_probe_ingress ed_verify s frame source_ip now).0

  abbrev pub calls : ProbeAgent → List Call → ProbeAgent
  calls s [] = s
  calls s (c ∷ rest) = calls (call s c) rest

  calls-Spent :
      (id : Bytes) (e : ℕ) (s : ProbeAgent) (cs : List Call)
      → All (λ (c : Call). time_of c < e) cs
      → Spent id e s
      → Spent id e (calls s cs)
  calls-Spent id e s [] h v = v
  calls-Spent id e s (arms arm now ∷ cs) h v =
      calls-Spent id e (call s (arms arm now)) cs h.1
        (arm-Spent sha256 ed_sign node_key id e now s arm h.0 v)
  calls-Spent id e s (ingresses frame source_ip now ∷ cs) h v =
      calls-Spent id e (call s (ingresses frame source_ip now)) cs h.1
        (ingress-Spent ed_verify id e s frame source_ip now v)

  -- After an accepted ingress and any calls at times within five minutes of it, in whatever order,
  -- an ingress with the same probe identifier is refused and changes nothing, and an arm with it at
  -- a time within the five minutes is an error.
  pub accepted_probe_is_consumed :
      (s : ProbeAgent) (frame later : ProviderFrame) (ip later_ip : Bytes) (now after : ℕ)
      (cs : List Call) (arm : ProbeArm)
      → (handle_probe_ingress ed_verify s frame ip now).1 ≡ true
      → All (λ (c : Call). time_of c < now + probe_replay_window) cs
      → later.probe_id ≡ frame.probe_id
      → arm.probe_id ≡ frame.probe_id
      → after < now + probe_replay_window
      → (let t = calls (handle_probe_ingress ed_verify s frame ip now).0 cs in
          (handle_probe_ingress ed_verify t later later_ip after ≡ (t, false))
          × ((x : ProbeError) × ((arm_probe sha256 ed_sign node_key t arm after).1 ≡ err x)))
  accepted_probe_is_consumed s frame later ip later_ip now after cs arm accepted h same armed soon =
      let v =
        calls-Spent frame.probe_id (now + probe_replay_window)
          (handle_probe_ingress ed_verify s frame ip now).0 cs h
          (accepted-Spent ed_verify s frame ip now accepted) in
      (
        Spent-refuses ed_verify frame.probe_id (now + probe_replay_window) _ later later_ip after v
            same,
        (rearm_refused sha256 ed_sign node_key frame.probe_id (now + probe_replay_window) after _
            arm soon v armed).0,
      )
