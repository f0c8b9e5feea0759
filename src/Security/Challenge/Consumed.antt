-- ===== src/Security/Challenge/Consumed.antt =====
-- internal/security/challenge.go: a challenge is consumed at most once, over any sequence of calls.
use anti_nat.Common.{
  ℕ, ◌+◌, ◌<◌, ◌≡◌, ◌≢◌, inl, inr, refl, subst, Bool, true, false, List, [], ◌∷◌, Option, none,
  some, length, bytes_eq, bytes_eq_self, Bool-cases, All, arith,
}
use anti_nat.Common.ByteMap.{
  ByteMap, lookup, delete, insert, evict, All-delete, All-evict, All_lookup,
}
use anti_nat.Security.Framecrypto.{Bytes}
use anti_nat.Protocol.Enrollment.{EnrollChallenge, Outcome, ok, err, panic, challenge_canonical}
use anti_nat.Security.Challenge.{
  ChallengeManager, ChallengeEntry, Clock, consumed, entry_dead, node_id_bytes, challenge_for,
  issue_signed, issue_encoded, issue_fresh, issue_for, issue, consume_entry, validate_and_consume,
  spend, positive, reached,
}
use anti_nat.Security.Challenge.Calls.{Call, issue_call, consume_call, step, run}

-- Whatever the cache holds under the hash is used.
abbrev AllSpent : Bytes → ByteMap ChallengeEntry → Type 0
AllSpent h = All (λ p. bytes_eq h p.0 ≡ true → p.1.used ≡ true)

record Spent (h : Bytes) (ttl : ℕ) (m : ChallengeManager) : Type 0 where
  cache_spent : AllSpent h m.cache
  same_ttl : m.ttl ≡ ttl

insert-AllSpent :
    (h k : Bytes) (e : ChallengeEntry) (c : ByteMap ChallengeEntry)
    → (bytes_eq h k ≡ true → e.used ≡ true)
    → AllSpent h c
    → AllSpent h (insert k e c)
insert-AllSpent h k e c fresh v = (fresh, All-delete _ k c v)

consume_entry-Spent :
    (h : Bytes) (ttl : ℕ) (m : ChallengeManager) (hash : Bytes) (now : ℕ)
    (found : Option ChallengeEntry)
    → Spent h ttl m
    → Spent h ttl (consume_entry m hash now found).0
consume_entry-Spent h ttl m hash now none v = v
consume_entry-Spent h ttl m hash now (some e) v = elim (Bool-cases (entry_dead now e)) [
  | inl d ↦
      rw d (record { cache_spent = All-delete _ hash m.cache v.cache_spent; same_ttl = v.same_ttl })
  | inr d ↦ elim (Bool-cases e.used) [
    | inl u ↦ rw (d, u) v
    | inr u ↦
        rw (d, u)
          (record {
            cache_spent = insert-AllSpent h hash (spend e) m.cache (λ _. refl) v.cache_spent;
            same_ttl = v.same_ttl;
          })
  ]
]

pub consume_entry_inv :
    (m m' : ChallengeManager) (h : Bytes) (now : ℕ) (node : Bytes) (found : Option ChallengeEntry)
    → consume_entry m h now found ≡ (m', consumed node)
    → (e : ChallengeEntry) × (found ≡ some e)
      × (now < e.expiry)
      × (e.used ≡ false)
      × (node ≡ e.node_id)
      × (record m { cache = insert h (spend e) m.cache } ≡ m')
consume_entry_inv m m' h now node none q = absurd (ground arith)
consume_entry_inv m m' h now node (some e) q =
    (e, refl, ground arith, ground arith, ground arith, ground arith)

AllSpent-delete : (h : Bytes) (c : ByteMap ChallengeEntry) → AllSpent h (delete h c)
unfolding delete
AllSpent-delete h [] = tt
AllSpent-delete h ((k, e) ∷ c) = elim (Bool-cases (bytes_eq h k)) [
  | inl same ↦ rw same (AllSpent-delete h c)
  | inr other ↦ rw other ((λ same. cc), AllSpent-delete h c)
]

-- A successful consumption leaves the challenge spent.
consume-Spent :
    (m m' : ChallengeManager) (h : Bytes) (now : ℕ) (node : Bytes)
    → validate_and_consume m h now ≡ (m', consumed node)
    → Spent h m.ttl m'
unfolding validate_and_consume
consume-Spent m m' h now node q =
    let (e, _, _, _, _, same) = consume_entry_inv m m' h now node (lookup h m.cache) q in
    subst (Spent h m.ttl) same
      (record { cache_spent = ((λ _. refl), AllSpent-delete h m.cache); same_ttl = refl })

Spent-refuses :
    (m : ChallengeManager) (h : Bytes) (ttl now : ℕ) (node : Bytes)
    → Spent h ttl m
    → (validate_and_consume m h now).1 ≢ consumed node
unfolding validate_and_consume
Spent-refuses m h ttl now node v q =
    let out = validate_and_consume m h now in
    let (e, found, _, unused, _, _) =
      consume_entry_inv m out.0 h now node (lookup h m.cache) (λ i. (out.0, q i)) in
    clash e (All_lookup _ h m.cache e v.cache_spent found (bytes_eq_self h)) unused
  where
    clash : (e : ChallengeEntry) → e.used ≡ true → e.used ≡ false → ⊥
    clash e p u = ground arith

module _ (sha256 : Bytes → Bytes) (signer : Bytes → Option Bytes) where
  issue_signed-Spent :
      (h : Bytes) (ttl : ℕ) (m : ChallengeManager) (hash : Bytes) (ch : EnrollChallenge)
      (canonical : Bytes) (sig : Option Bytes)
      → Spent h ttl m
      → Spent h ttl (issue_signed sha256 signer m hash ch canonical sig).0
  issue_signed-Spent h ttl m hash ch canonical none v = record {
    cache_spent = All-delete _ hash m.cache v.cache_spent;
    same_ttl = v.same_ttl;
  }
  issue_signed-Spent h ttl m hash ch canonical (some sig) v = v

  issue_encoded-Spent :
      (h : Bytes) (ttl : ℕ) (m : ChallengeManager) (e : ChallengeEntry) (ch : EnrollChallenge)
      (canonical signing : Outcome Bytes)
      → ((body : Bytes) → canonical ≡ ok body → bytes_eq h (sha256 body) ≡ false)
      → Spent h ttl m
      → Spent h ttl (issue_encoded sha256 signer m e ch canonical signing).0
  issue_encoded-Spent h ttl m e ch (ok body) (ok signing) fresh v =
      issue_signed-Spent h ttl (record m { cache = insert (sha256 body) e m.cache }) (sha256 body)
        ch body (signer signing)
        (record {
          cache_spent =
              insert-AllSpent h (sha256 body) e m.cache
                (λ same. absurd (clash (bytes_eq h (sha256 body)) same (fresh body refl)))
                v.cache_spent;
          same_ttl = v.same_ttl;
        })
    where
      clash : (b : Bool) → b ≡ true → b ≡ false → ⊥
      clash b p q = ground arith
  issue_encoded-Spent h ttl m e ch (ok body) (err x) fresh v = v
  issue_encoded-Spent h ttl m e ch (ok body) panic fresh v = v
  issue_encoded-Spent h ttl m e ch (err x) signing fresh v = v
  issue_encoded-Spent h ttl m e ch panic signing fresh v = v

  -- The call does not issue a challenge with the hash anew.
  abbrev pub IsFresh : Bytes → ℕ → Call → Type 0
  IsFresh h ttl (issue_call instance_id key_id node_id drawn clock) =
      (node nonce body : Bytes)
      → node_id_bytes node_id ≡ some node
      → drawn ≡ some nonce
      → challenge_canonical (challenge_for instance_id key_id node nonce (clock.wire_at + ttl))
        ≡ ok body
      → bytes_eq h (sha256 body) ≡ false
  IsFresh h ttl (consume_call hash now) = Unit

  issue_fresh-Spent :
      (h : Bytes) (ttl : ℕ) (m : ChallengeManager) (instance_id key_id node_id node : Bytes)
      (drawn : Option Bytes) (clock : Clock)
      → node_id_bytes node_id ≡ some node
      → IsFresh h ttl (issue_call instance_id key_id node_id drawn clock)
      → Spent h ttl m
      → Spent h ttl (issue_fresh sha256 signer m instance_id key_id node_id node drawn clock).0
  unfolding issue_fresh
  issue_fresh-Spent h ttl m instance_id key_id node_id node none clock padded fresh v = v
  issue_fresh-Spent h ttl m instance_id key_id node_id node (some n) clock padded fresh v =
      issue_encoded-Spent h ttl m _ _ _ _
        (λ body e. fresh node n body padded refl (rw (← v.same_ttl) e)) v

  issue_for-Spent :
      (h : Bytes) (ttl : ℕ) (m : ChallengeManager) (instance_id key_id node_id : Bytes)
      (padded drawn : Option Bytes) (clock : Clock)
      → node_id_bytes node_id ≡ padded
      → IsFresh h ttl (issue_call instance_id key_id node_id drawn clock)
      → Spent h ttl m
      → Spent h ttl (issue_for sha256 signer m instance_id key_id node_id padded drawn clock).0
  unfolding issue_for
  issue_for-Spent h ttl m instance_id key_id node_id none drawn clock e fresh v = v
  issue_for-Spent h ttl m instance_id key_id node_id (some node) drawn clock e fresh v =
      elim (Bool-cases (positive m.max)) [
        | inl p ↦ elim (Bool-cases (reached (length kept.cache) m.max)) [
          | inl r ↦ rw (p, r) swept
          | inr r ↦
              rw (p, r)
                (issue_fresh-Spent h ttl kept instance_id key_id node_id node drawn clock e fresh
                  swept)
        ]
        | inr p ↦
            rw p (issue_fresh-Spent h ttl m instance_id key_id node_id node drawn clock e fresh v)
      ]
    where
      kept : ChallengeManager
      kept = record m { cache = evict (entry_dead clock.evict_at) m.cache }

      swept : Spent h ttl kept
      swept = record {
        cache_spent = All-evict _ (entry_dead clock.evict_at) m.cache v.cache_spent;
        same_ttl = v.same_ttl;
      }

  step-Spent :
      (h : Bytes) (ttl : ℕ) (m : ChallengeManager) (c : Call)
      → IsFresh h ttl c
      → Spent h ttl m
      → Spent h ttl (step sha256 signer m c)
  unfolding step issue validate_and_consume
  step-Spent h ttl m (issue_call instance_id key_id node_id drawn clock) fresh v =
      issue_for-Spent h ttl m instance_id key_id node_id (node_id_bytes node_id) drawn clock refl
        fresh v
  step-Spent h ttl m (consume_call hash now) fresh v =
      consume_entry-Spent h ttl m hash now (lookup hash m.cache) v

  run-Spent :
      (h : Bytes) (ttl : ℕ) (m : ChallengeManager) (calls : List Call)
      → All (IsFresh h ttl) calls
      → Spent h ttl m
      → Spent h ttl (run sha256 signer m calls)
  unfolding run
  run-Spent h ttl m [] fresh v = v
  run-Spent h ttl m (c ∷ calls) fresh v =
      run-Spent h ttl (step sha256 signer m c) calls fresh.1 (step-Spent h ttl m c fresh.0 v)

  -- Once a challenge has been consumed, then after any calls that do not issue a challenge of the
  -- same hash anew, no later attempt with that hash consumes a challenge, at whatever times.
  pub challenge_consumed_once :
      (m m' : ChallengeManager) (h : Bytes) (now later : ℕ) (node other : Bytes) (calls : List Call)
      → validate_and_consume m h now ≡ (m', consumed node)
      → All (IsFresh h m.ttl) calls
      → (validate_and_consume (run sha256 signer m' calls) h later).1 ≢ consumed other
  challenge_consumed_once m m' h now later node other calls q fresh =
      Spent-refuses (run sha256 signer m' calls) h m.ttl later other
        (run-Spent h m.ttl m' calls fresh (consume-Spent m m' h now node q))
