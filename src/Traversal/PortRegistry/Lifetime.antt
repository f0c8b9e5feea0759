-- ===== src/Traversal/PortRegistry/Lifetime.antt =====
-- The life of a lease: what ends it, what does not, and what may follow.
use anti_nat.Common.{
  ◌+◌, ◌≡◌, ◌≢◌, ◌⊎◌, inl, inr, refl, sym, subst, ◌∙◌, String, true, false, List, [], ◌∷◌, none,
  some, arith, str_eq_iff, str_eq_self, Bool-cases, All, u64,
}
use anti_nat.Traversal.PortRegistry.{
  TupleKey, LeaseEntry, Lease, Entries, PortRegistry, leased, CloseResult, closed, failed, key_eq,
  normalize, lookup_entry, delete_entry, insert_entry, overlaps_locked, validate_acquire, acquire,
  owns, release_finish, new_port_registry,
}
use anti_nat.Traversal.PortRegistry.Keys.{
  key_eq_iff, lookup-delete, lookup_free, delete_free, Disjoint, delete-clears,
}
use anti_nat.Traversal.PortRegistry.Ownership.{
  Inv, acquire_cases, Action, acquires, finishes, act, run, run-Inv,
}

-- After any sequence of acquisitions and release ends, whatever ports the system binds and however
-- the closes end, no two entries of a registry that started empty overlap.
pub run-Disjoint : (actions : List Action) → Disjoint (run new_port_registry actions).entries
run-Disjoint actions =
    (run-Inv new_port_registry actions (record { disjoint = tt; issued = tt })).disjoint

-- A release that ends either leaves the whole registry alone, or it owned its entry and deletes it.
release_cases :
    (r : PortRegistry) (l : Lease) (c : CloseResult)
    → ((release_finish r l c).0 ≡ r)
      ⊎ ((owns (lookup_entry l.actual r.entries) l ≡ true)
          × (release_finish r l c ≡ (record r { entries = delete_entry l.actual r.entries }, none)))
unfolding release_finish
release_cases r l failed = inl refl
release_cases r l c = elim (Bool-cases (owns (lookup_entry l.actual r.entries) l)) [
  | inl e ↦ inr (e, rw e)
  | inr e ↦ inl (rw e)
]

pub release_touches_own :
    (r : PortRegistry) (l : Lease) (c : CloseResult) (k : TupleKey)
    → (lookup_entry k (release_finish r l c).0.entries ≡ lookup_entry k r.entries)
      ⊎ ((k ≡ l.actual)
          × (owns (lookup_entry k r.entries) l ≡ true)
          × ((release_finish r l c).1 ≡ none)
          × (lookup_entry k (release_finish r l c).0.entries ≡ none))
release_touches_own r l c k = elim (release_cases r l c) [
  | inl q ↦ inl (rw q)
  | inr (o, q) ↦ elim (Bool-cases (key_eq l.actual k)) [
    | inl same ↦
        let e = (key_eq_iff l.actual k).0 same in
        inr (
          sym e,
          subst (λ j. owns (lookup_entry j r.entries) l ≡ true) e o,
          rw q,
          rw q (rw (lookup-delete l.actual k r.entries, same)),
        )
    | inr other ↦ inl (rw q (rw (lookup-delete l.actual k r.entries, other)))
  ]
]

abbrev pub entry_of : Lease → LeaseEntry
entry_of l = record { owner = l.owner; generation = l.generation; lease = l.self }

-- The action is not the end of a release of the lease.
abbrev Spares : Lease → Action → Type 0
Spares l (acquires protocol owner key bound) = Unit
Spares l (finishes other c) = other.self ≢ l.self

insert_keeps :
    (k j : TupleKey) (e : LeaseEntry) (m : Entries) (f : LeaseEntry)
    → overlaps_locked m k ≡ false
    → lookup_entry j m ≡ some f
    → lookup_entry j (insert_entry k e m) ≡ some f
unfolding insert_entry lookup_entry
insert_keeps k j e m f free h =
    ground (arith, delete_free k m free, lookup_free k m free, key_eq_iff k j)

owner_of : (other l : Lease) → owns (some (entry_of l)) other ≡ true → other.self ≡ l.self
owner_of other l h = ground arith

act_keeps :
    (r : PortRegistry) (l : Lease) (a : Action)
    → Spares l a
    → lookup_entry l.actual r.entries ≡ some (entry_of l)
    → lookup_entry l.actual (act r a).entries ≡ some (entry_of l)
act_keeps r l (acquires protocol owner key bound) s h =
    elim (acquire_cases r protocol owner key bound) [
      | inl (e, q) ↦ rw (q, act) h
      | inr (port, b, o, f, p, (free, q)) ↦
          rw (q, act) (insert_keeps _ l.actual _ r.entries (entry_of l) free h)
    ]
act_keeps r l (finishes other c) s h = elim (release_touches_own r other c l.actual) [
  | inl q ↦ q ∙ h
  | inr (e, o, done, gone) ↦ absurd (s (owner_of other l (subst (λ x. owns x other ≡ true) h o)))
]

-- An entry of a lease stays in the registry through any actions that do not include the end of that
-- lease's own release.
pub lease_persists :
    (r : PortRegistry) (l : Lease) (actions : List Action)
    → All (Spares l) actions
    → lookup_entry l.actual r.entries ≡ some (entry_of l)
    → lookup_entry l.actual (run r actions).entries ≡ some (entry_of l)
lease_persists r l [] s h = h
lease_persists r l (a ∷ rest) s h = lease_persists (act r a) l rest s.1 (act_keeps r l a s.0 h)

owns_self : (l : Lease) → owns (some (entry_of l)) l ≡ true
owns_self l = ground (arith, str_eq_self l.owner)

released_clear :
    (r : PortRegistry) (l : Lease)
    → Inv r
    → lookup_entry l.actual r.entries ≡ some (entry_of l)
    → overlaps_locked (release_finish r l closed).0.entries l.actual ≡ false
unfolding release_finish
released_clear r l v h =
    rw (subst (λ x. owns x l ≡ true) (sym h) (owns_self l))
      (delete-clears l.actual r.entries (entry_of l) v.disjoint h)

acquire_free :
    (r : PortRegistry) (key : TupleKey) (owner : String)
    → overlaps_locked r.entries key ≡ false
    → owner ≢ ""
    → key.family ≡ "ipv4"
    → normalize key ≡ key
    → (acquire r key.protocol owner key (some key.port)).1
      ≡ leased (record {
        actual = key;
        owner = owner;
        generation = u64 (r.generation + 1);
        self = r.next_lease;
      })
unfolding acquire validate_acquire
acquire_free r key owner free o f n = rw n (
    ground
      (arith, free, n, str_eq_iff owner "", str_eq_iff key.family "ipv4", str_eq_self key.protocol))

-- In a registry without overlaps, once a lease with a normalized IPv4 tuple has been released and
-- its socket closed, nothing in the table overlaps the tuple, and every named owner acquires it if
-- the system binds its port.
pub reacquire_after_release :
    (r : PortRegistry) (l : Lease) (owner : String)
    → Inv r
    → lookup_entry l.actual r.entries ≡ some (entry_of l)
    → owner ≢ ""
    → l.actual.family ≡ "ipv4"
    → normalize l.actual ≡ l.actual
    → let freed = (release_finish r l closed).0 in
      (overlaps_locked freed.entries l.actual ≡ false)
      × ((lease : Lease) × ((acquire freed l.actual.protocol owner l.actual (some l.actual.port)).1
            ≡ leased lease)
          × (lease.actual ≡ l.actual)
          × (lease.owner ≡ owner))
reacquire_after_release r l owner v h o f n = (
  released_clear r l v h,
  (_, acquire_free _ l.actual owner (released_clear r l v h) o f n, refl, refl),
)
