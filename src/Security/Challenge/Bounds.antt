-- ===== src/Security/Challenge/Bounds.antt =====
-- internal/security/challenge.go: the cache keeps its bound.
use anti_nat.Common.{
  ℕ, ◌≤◌, ◌<◌, ◌≡◌, inl, inr, refl, sym, ap, ◌∙◌, true, false, List, [], ◌∷◌, Option, none, some,
  length, Bool-cases, pos, arith,
}
use anti_nat.Common.ByteMap.{lookup, insert, evict, length-delete, length-evict, length-delete_hit}
use anti_nat.Security.Framecrypto.{Bytes}
use anti_nat.Protocol.Enrollment.{EnrollChallenge, Outcome, ok, err, panic}
use anti_nat.Security.Challenge.{
  ChallengeManager, ChallengeEntry, Clock, new_challenge_manager, entry_dead, node_id_bytes,
  issue_signed, issue_encoded, issue_fresh, issue_for, issue, consume_entry, validate_and_consume,
  positive, reached, size,
}
use anti_nat.Security.Challenge.Calls.{Call, issue_call, consume_call, step, run}

record Bounded (bound : ℕ) (m : ChallengeManager) : Type 0 where
  within : length m.cache ≤ bound
  same_max : m.max ≡ pos bound

positive_pos : (n : ℕ) → 0 < n → positive (pos n) ≡ true
positive_pos n h = ground arith

not_reached : (n bound : ℕ) → reached n (pos bound) ≡ false → n < bound
not_reached n bound h = ground arith

consume_entry-Bounded :
    (bound : ℕ) (m : ChallengeManager) (hash : Bytes) (now : ℕ) (found : Option ChallengeEntry)
    → lookup hash m.cache ≡ found
    → Bounded bound m
    → Bounded bound (consume_entry m hash now found).0
consume_entry-Bounded bound m hash now none f v = v
consume_entry-Bounded bound m hash now (some e) f v = elim (Bool-cases (entry_dead now e)) [
  | inl d ↦ rw d (record {
    within = omega (arith, length-delete hash m.cache, v.within);
    same_max = v.same_max;
  })
  | inr d ↦ elim (Bool-cases e.used) [
    | inl u ↦ rw (d, u) v
    | inr u ↦
        rw (d, u)
          (record {
            within = omega (arith, length-delete_hit hash m.cache e f, v.within);
            same_max = v.same_max;
          })
  ]
]

module _ (sha256 : Bytes → Bytes) (signer : Bytes → Option Bytes) where
  issue_signed-Bounded :
      (bound : ℕ) (m : ChallengeManager) (hash : Bytes) (ch : EnrollChallenge) (canonical : Bytes)
      (sig : Option Bytes)
      → Bounded bound m
      → Bounded bound (issue_signed sha256 signer m hash ch canonical sig).0
  issue_signed-Bounded bound m hash ch canonical none v = record {
    within = omega (arith, length-delete hash m.cache, v.within);
    same_max = v.same_max;
  }
  issue_signed-Bounded bound m hash ch canonical (some sig) v = v

  issue_encoded-Bounded :
      (bound : ℕ) (m : ChallengeManager) (e : ChallengeEntry) (ch : EnrollChallenge)
      (canonical signing : Outcome Bytes)
      → length m.cache < bound
      → Bounded bound m
      → Bounded bound (issue_encoded sha256 signer m e ch canonical signing).0
  issue_encoded-Bounded bound m e ch (ok body) (ok signing) room v =
      issue_signed-Bounded bound (record m { cache = insert (sha256 body) e m.cache }) (sha256 body)
        ch body (signer signing)
        (record {
          within = omega (arith, length-delete (sha256 body) m.cache, room);
          same_max = v.same_max;
        })
  issue_encoded-Bounded bound m e ch (ok body) (err x) room v = v
  issue_encoded-Bounded bound m e ch (ok body) panic room v = v
  issue_encoded-Bounded bound m e ch (err x) signing room v = v
  issue_encoded-Bounded bound m e ch panic signing room v = v

  issue_fresh-Bounded :
      (bound : ℕ) (m : ChallengeManager) (instance_id key_id node_id node : Bytes)
      (drawn : Option Bytes) (clock : Clock)
      → length m.cache < bound
      → Bounded bound m
      → Bounded bound (issue_fresh sha256 signer m instance_id key_id node_id node drawn clock).0
  unfolding issue_fresh
  issue_fresh-Bounded bound m instance_id key_id node_id node none clock room v = v
  issue_fresh-Bounded bound m instance_id key_id node_id node (some n) clock room v =
      issue_encoded-Bounded bound m _ _ _ _ room v

  issue_for-Bounded :
      (bound : ℕ) (m : ChallengeManager) (instance_id key_id node_id : Bytes)
      (padded drawn : Option Bytes) (clock : Clock)
      → 0 < bound
      → Bounded bound m
      → Bounded bound (issue_for sha256 signer m instance_id key_id node_id padded drawn clock).0
  unfolding issue_for
  issue_for-Bounded bound m instance_id key_id node_id none drawn clock some_room v = v
  issue_for-Bounded bound m instance_id key_id node_id (some node) drawn clock some_room v =
      elim (Bool-cases (reached (length kept.cache) m.max)) [
        | inl r ↦ rw (limited, r) swept
        | inr r ↦
            rw (limited, r)
              (issue_fresh-Bounded bound kept instance_id key_id node_id node drawn clock (room r)
                swept)
      ]
    where
      kept : ChallengeManager
      kept = record m { cache = evict (entry_dead clock.evict_at) m.cache }

      limited : positive m.max ≡ true
      limited = rw v.same_max (positive_pos bound some_room)

      room : reached (length kept.cache) m.max ≡ false → length kept.cache < bound
      room r =
          not_reached (length kept.cache) bound
            (ap (reached (length kept.cache)) (sym v.same_max) ∙ r)

      swept : Bounded bound kept
      swept = record {
        within = omega (arith, length-evict (entry_dead clock.evict_at) m.cache, v.within);
        same_max = v.same_max;
      }

  step-Bounded :
      (bound : ℕ) (m : ChallengeManager) (c : Call)
      → 0 < bound
      → Bounded bound m
      → Bounded bound (step sha256 signer m c)
  unfolding step issue validate_and_consume
  step-Bounded bound m (issue_call instance_id key_id node_id drawn clock) room v =
      issue_for-Bounded bound m instance_id key_id node_id (node_id_bytes node_id) drawn clock room
        v
  step-Bounded bound m (consume_call hash now) room v =
      consume_entry-Bounded bound m hash now (lookup hash m.cache) refl v

  run-Bounded :
      (bound : ℕ) (m : ChallengeManager) (calls : List Call)
      → 0 < bound
      → Bounded bound m
      → Bounded bound (run sha256 signer m calls)
  unfolding run
  run-Bounded bound m [] room v = v
  run-Bounded bound m (c ∷ calls) room v =
      run-Bounded bound (step sha256 signer m c) calls room (step-Bounded bound m c room v)

  -- A new manager whose bound is positive never holds more challenges than the bound, whatever
  -- calls are made.
  pub challenge_cache_bounded :
      (ttl bound : ℕ) (calls : List Call)
      → 0 < bound
      → size (run sha256 signer (new_challenge_manager ttl (pos bound)) calls) ≤ bound
  challenge_cache_bounded ttl bound calls room =
      let v =
        run-Bounded bound (new_challenge_manager ttl (pos bound)) calls room
          (record { within = omega arith; same_max = refl }) in
      v.within
