-- ===== src/Traversal/PortRegistry/Keys.antt =====
-- The laws of the table of leases.
use anti_nat.Common.{
  ◌≡◌, ◌↔◌, inl, inr, refl, subst, true, false, [], ◌∷◌, none, some, arith, str_eq_iff, str_eq_self,
  Bool-cases, if◌then◌else◌,
}
use anti_nat.Traversal.PortRegistry.{
  TupleKey, LeaseEntry, Entries, key_eq, overlaps, lookup_entry, delete_entry, overlaps_locked,
}

pub key_eq_iff : (k j : TupleKey) → (key_eq k j ≡ true) ↔ (k ≡ j)
unfolding key_eq
key_eq_iff k j = (
  (λ h. ground (
    arith,
    str_eq_iff k.family j.family,
    str_eq_iff k.protocol j.protocol,
    str_eq_iff k.address j.address,
  )),
  (λ h. ground (
    arith,
    str_eq_iff k.family j.family,
    str_eq_iff k.protocol j.protocol,
    str_eq_iff k.address j.address,
  )),
)

overlaps_self : (k : TupleKey) → overlaps k k ≡ true
unfolding overlaps
overlaps_self k =
    ground (arith, str_eq_self k.family, str_eq_self k.protocol, str_eq_self k.address)

overlaps_comm : (k j : TupleKey) → overlaps k j ≡ overlaps j k
unfolding overlaps
overlaps_comm k j = ground (
  arith,
  str_eq_iff k.family j.family,
  str_eq_iff k.protocol j.protocol,
  str_eq_iff k.address j.address,
  str_eq_iff j.family k.family,
  str_eq_iff j.protocol k.protocol,
  str_eq_iff j.address k.address,
)

pub lookup-delete :
    (k j : TupleKey) (m : Entries)
    → lookup_entry j (delete_entry k m) ≡ (if key_eq k j then none else lookup_entry j m)
unfolding lookup_entry delete_entry
lookup-delete k j [] = ground arith
lookup-delete k j ((i, e) ∷ m) =
    ground (arith, key_eq_iff i k, key_eq_iff i j, key_eq_iff k j, lookup-delete k j m)

-- A tuple that overlaps nothing has no entry, and deleting it changes nothing.
pub lookup_free :
    (k : TupleKey) (m : Entries) → overlaps_locked m k ≡ false → lookup_entry k m ≡ none
unfolding lookup_entry overlaps_locked
lookup_free k [] h = refl
lookup_free k ((i, e) ∷ m) h = ground (arith, key_eq_iff i k, overlaps_self k, lookup_free k m)

pub delete_free : (k : TupleKey) (m : Entries) → overlaps_locked m k ≡ false → delete_entry k m ≡ m
unfolding delete_entry overlaps_locked
delete_free k [] h = refl
delete_free k ((i, e) ∷ m) h = ground (arith, key_eq_iff i k, overlaps_self k, delete_free k m)

-- No two entries overlap.
abbrev pub Disjoint : Entries → Type 0
Disjoint [] = Unit
Disjoint ((k, e) ∷ m) = (overlaps_locked m k ≡ false) × Disjoint m

overlaps_locked-delete :
    (k j : TupleKey) (m : Entries)
    → overlaps_locked m j ≡ false
    → overlaps_locked (delete_entry k m) j ≡ false
unfolding delete_entry overlaps_locked
overlaps_locked-delete k j [] h = refl
overlaps_locked-delete k j ((i, e) ∷ m) h = ground (arith, overlaps_locked-delete k j m)

pub delete-Disjoint : (k : TupleKey) (m : Entries) → Disjoint m → Disjoint (delete_entry k m)
unfolding delete_entry
delete-Disjoint k [] d = tt
delete-Disjoint k ((i, e) ∷ m) d =
    ground (arith, delete-Disjoint k m d.1, overlaps_locked-delete k i m d.0)

lookup_overlap :
    (k j : TupleKey) (m : Entries) (e : LeaseEntry)
    → lookup_entry k m ≡ some e
    → overlaps_locked m j ≡ false
    → overlaps k j ≡ false
unfolding lookup_entry overlaps_locked
lookup_overlap k j [] e h n = ground arith
lookup_overlap k j ((i, f) ∷ m) e h n = ground (arith, key_eq_iff i k, lookup_overlap k j m e)

-- In a disjoint table nothing but the entry of a tuple itself overlaps it.
pub delete-clears :
    (k : TupleKey) (m : Entries) (e : LeaseEntry)
    → Disjoint m
    → lookup_entry k m ≡ some e
    → overlaps_locked (delete_entry k m) k ≡ false
unfolding delete_entry lookup_entry overlaps_locked
delete-clears k [] e d h = ground arith
delete-clears k ((i, f) ∷ m) e d h = elim (Bool-cases (key_eq i k)) [
  | inl same ↦ rw same (
      overlaps_locked-delete k k m
        (subst (λ j. overlaps_locked m j ≡ false) ((key_eq_iff i k).0 same) d.0))
  | inr other ↦ ground (
    arith,
    overlaps_comm i k,
    lookup_overlap k i m e (ground arith) d.0,
    delete-clears k m e d.1 (ground arith),
  )
]
