-- ===== src/Traversal/PortRegistry/Ownership.antt =====
-- Who owns a tuple, over any interleaving of acquisitions and the two halves of releases.
use anti_nat.Common.{
  ℕ, ◌+◌, ◌≤◌, ◌<◌, ◌≡◌, ◌≢◌, ◌⊎◌, inl, inr, refl, String, true, false, List, [], ◌∷◌, Option, none,
  some, arith, str_eq_iff, Bool-cases, Option-cases, All, u64,
}
use anti_nat.Traversal.PortRegistry.{
  TupleKey, LeaseEntry, Lease, Entries, PortRegistry, leased, refused, RegistryError, tuple_overlap,
  listen_failed, CloseResult, closed, already_closed, failed, normalize, lookup_entry, delete_entry,
  insert_entry, overlaps_locked, validate_acquire, acquire, owns, release_finish,
}
use anti_nat.Traversal.PortRegistry.Keys.{delete_free, Disjoint, delete-Disjoint}

pub record Inv (r : PortRegistry) : Type 0 where
  pub disjoint : Disjoint r.entries
  pub issued : All (λ (p : TupleKey × LeaseEntry). p.1.lease < r.next_lease) r.entries

issued-later :
    (n k : ℕ) (m : Entries)
    → n ≤ k
    → All (λ (p : TupleKey × LeaseEntry). p.1.lease < n) m
    → All (λ (p : TupleKey × LeaseEntry). p.1.lease < k) m
issued-later n k [] h a = tt
issued-later n k (x ∷ m) h a = (omega arith, issued-later n k m h a.1)

issued-delete :
    (n : ℕ) (k : TupleKey) (m : Entries)
    → All (λ (p : TupleKey × LeaseEntry). p.1.lease < n) m
    → All (λ (p : TupleKey × LeaseEntry). p.1.lease < n) (delete_entry k m)
unfolding delete_entry
issued-delete n k [] a = tt
issued-delete n k ((j, e) ∷ m) a = ground (arith, issued-delete n k m a.1)

validate_acquire-none :
    (r : PortRegistry) (owner : String) (key : TupleKey) (protocol : String)
    → validate_acquire r owner key protocol ≡ none
    → (owner ≢ "") × (key.family ≡ "ipv4") × (key.protocol ≡ protocol)
unfolding validate_acquire
validate_acquire-none r owner key protocol h = (
  (λ e. ground (arith, str_eq_iff owner "")),
  ground (arith, str_eq_iff key.family "ipv4"),
  ground (arith, str_eq_iff key.protocol protocol),
)

-- An acquisition either changes nothing, or it publishes one entry for a tuple that overlaps no
-- entry, under the next generation and a fresh lease.
pub acquire_cases :
    (r : PortRegistry) (protocol owner : String) (key : TupleKey) (bound : Option ℕ)
    → ((e : RegistryError) × (acquire r protocol owner key bound ≡ (r, refused e)))
      ⊎ ((port : ℕ) × (bound ≡ some port)
          × (owner ≢ "")
          × (key.family ≡ "ipv4")
          × (key.protocol ≡ protocol)
          × (let actual = record (normalize key) { port = port } in
              (overlaps_locked r.entries actual ≡ false)
              × (acquire r protocol owner key bound ≡ (
                record {
                  entries =
                      insert_entry actual
                        (record {
                          owner = owner;
                          generation = u64 (r.generation + 1);
                          lease = r.next_lease;
                        })
                        r.entries;
                  generation = u64 (r.generation + 1);
                  next_lease = r.next_lease + 1;
                },
                leased (record {
                  actual = actual;
                  owner = owner;
                  generation = u64 (r.generation + 1);
                  self = r.next_lease;
                }),
              ))))
unfolding acquire
acquire_cases r protocol owner key none =
    elim (Option-cases (validate_acquire r owner key protocol)) [
      | inl e ↦ inl (listen_failed, rw (e, acquire))
      | inr (x, e) ↦ inl (x, rw (e, acquire))
    ]
acquire_cases r protocol owner key (some port) =
    elim (Option-cases (validate_acquire r owner key protocol)) [
      | inr (x, e) ↦ inl (x, rw (e, acquire))
      | inl e ↦
          elim (Bool-cases (overlaps_locked r.entries (record (normalize key) { port = port }))) [
            | inl t ↦ inl (tuple_overlap, ground arith)
            | inr f ↦
                let (o, a, p) = validate_acquire-none r owner key protocol e in
                inr (port, refl, o, a, p, (f, ground arith))
          ]
    ]

-- Every acquisition, whatever port the system binds, keeps the entries free of overlaps.
acquire-Inv :
    (r : PortRegistry) (protocol owner : String) (key : TupleKey) (bound : Option ℕ)
    → Inv r
    → Inv (acquire r protocol owner key bound).0
unfolding insert_entry
acquire-Inv r protocol owner key bound v = elim (acquire_cases r protocol owner key bound) [
  | inl (e, q) ↦ rw q v
  | inr (port, b, o, f, p, (free, q)) ↦ rw q (record {
    disjoint =
        (rw (delete_free _ r.entries free) free, rw (delete_free _ r.entries free) v.disjoint);
    issued = (
      omega arith,
      rw (delete_free _ r.entries free)
          (issued-later r.next_lease (r.next_lease + 1) r.entries (omega arith) v.issued),
    );
  })
]

release_owned :
    (r : PortRegistry) (l : Lease) (c : CloseResult)
    → Inv r
    → owns (lookup_entry l.actual r.entries) l ≡ true
    → Inv (release_finish r l c).0
unfolding release_finish
release_owned r l closed v e = rw e (record {
  disjoint = delete-Disjoint l.actual r.entries v.disjoint;
  issued = issued-delete r.next_lease l.actual r.entries v.issued;
})
release_owned r l already_closed v e = rw e (record {
  disjoint = delete-Disjoint l.actual r.entries v.disjoint;
  issued = issued-delete r.next_lease l.actual r.entries v.issued;
})
release_owned r l failed v e = v

release_stale :
    (r : PortRegistry) (l : Lease) (c : CloseResult)
    → Inv r
    → owns (lookup_entry l.actual r.entries) l ≡ false
    → Inv (release_finish r l c).0
unfolding release_finish
release_stale r l closed v e = rw e v
release_stale r l already_closed v e = rw e v
release_stale r l failed v e = v

-- The second half of a release keeps the entries free of overlaps, however the close ended and
-- whatever happened since the check.
release_finish-Inv :
    (r : PortRegistry) (l : Lease) (c : CloseResult) → Inv r → Inv (release_finish r l c).0
unfolding release_finish
release_finish-Inv r l c v = elim (Bool-cases (owns (lookup_entry l.actual r.entries) l)) [
  | inl e ↦ release_owned r l c v e
  | inr e ↦ release_stale r l c v e
]

pub data Action : Type 0 where
  acquires : String → String → TupleKey → Option ℕ → Action
  finishes : Lease → CloseResult → Action

-- The checks of releases leave the table alone, so they are no actions of their own.
abbrev pub act : PortRegistry → Action → PortRegistry
act r (acquires protocol owner key bound) = (acquire r protocol owner key bound).0
act r (finishes l c) = (release_finish r l c).0

abbrev pub run : PortRegistry → List Action → PortRegistry
run r [] = r
run r (a ∷ rest) = run (act r a) rest

act-Inv : (r : PortRegistry) (a : Action) → Inv r → Inv (act r a)
act-Inv r (acquires protocol owner key bound) v = acquire-Inv r protocol owner key bound v
act-Inv r (finishes l c) v = release_finish-Inv r l c v

pub run-Inv : (r : PortRegistry) (actions : List Action) → Inv r → Inv (run r actions)
run-Inv r [] v = v
run-Inv r (a ∷ rest) v = run-Inv (act r a) rest (act-Inv r a v)
