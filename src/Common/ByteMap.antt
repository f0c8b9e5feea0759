-- ===== src/Common/ByteMap.antt =====
-- Go maps with byte-array keys as association lists: `m[k]`, `delete(m, k)`, `m[k] = v` and a write
-- through the pointer that `m[k]` holds.
use anti_nat.Common.{
  ℕ, ◌≤◌, ◌<◌, ◌≡◌, ◌∙◌, inl, inr, refl, sym, subst, Bool, false, List, [], ◌∷◌, Option, none, some,
  if◌then◌else◌, length, bytes_eq, bytes_eq_self, bytes_eq→eq, Bool-cases, arith, All,
}

abbrev pub ByteMap {ℓ} : Type ℓ → Type ℓ
ByteMap A = List (List ℕ × A)

module _ {ℓ} {A : Type ℓ} where
  unfoldable pub lookup : List ℕ → ByteMap A → Option A
  lookup k [] = none
  lookup k ((j, a) ∷ m) = if bytes_eq k j then some a else lookup k m

  unfoldable pub delete : List ℕ → ByteMap A → ByteMap A
  delete k [] = []
  delete k ((j, a) ∷ m) = let rest = delete k m in if bytes_eq k j then rest else (j, a) ∷ rest

  abbrev pub insert : List ℕ → A → ByteMap A → ByteMap A
  insert k a m = (k, a) ∷ delete k m

  unfoldable pub update : List ℕ → (A → A) → ByteMap A → ByteMap A
  update k f [] = []
  update k f ((j, a) ∷ m) =
      let rest = update k f m in if bytes_eq k j then (j, f a) ∷ rest else (j, a) ∷ rest

  -- `for k, a := range m { if dead(a) { delete(m, k) } }`.
  unfoldable pub evict : (A → Bool) → ByteMap A → ByteMap A
  evict dead [] = []
  evict dead ((j, a) ∷ m) = let rest = evict dead m in if dead a then rest else (j, a) ∷ rest

  pub length-delete : (k : List ℕ) (m : ByteMap A) → length (delete k m) ≤ length m
  unfolding delete
  length-delete k [] = omega arith
  length-delete k ((j, a) ∷ m) = ground (arith, length-delete k m)

  pub length-delete_hit :
      (k : List ℕ) (m : ByteMap A) (a : A) → lookup k m ≡ some a → length (delete k m) < length m
  unfolding lookup delete
  length-delete_hit k [] a h = absurd (grind arith)
  length-delete_hit k ((j, b) ∷ m) a h = elim (Bool-cases (bytes_eq k j)) [
    | inl e ↦ rw e (omega (arith, length-delete k m))
    | inr e ↦ rw e (omega (arith, length-delete_hit k m a (rw e at h)))
  ]

  pub length-update : (k : List ℕ) (f : A → A) (m : ByteMap A) → length (update k f m) ≡ length m
  unfolding update
  length-update k f [] = refl
  length-update k f ((j, a) ∷ m) = ground (arith, length-update k f m)

  pub length-evict : (dead : A → Bool) (m : ByteMap A) → length (evict dead m) ≤ length m
  unfolding evict
  length-evict dead [] = omega arith
  length-evict dead ((j, a) ∷ m) = ground (arith, length-evict dead m)

  pub lookup_hit : (k : List ℕ) (a : A) (m : ByteMap A) → lookup k ((k, a) ∷ m) ≡ some a
  unfolding lookup
  lookup_hit k a m = rw (bytes_eq_self k) refl

  lookup_miss :
      (k j : List ℕ) (a : A) (m : ByteMap A)
      → bytes_eq k j ≡ false
      → lookup k ((j, a) ∷ m) ≡ lookup k m
  unfolding lookup
  lookup_miss k j a m h = rw h refl

  pub lookup-delete_other :
      (k j : List ℕ) (m : ByteMap A) → bytes_eq k j ≡ false → lookup k (delete j m) ≡ lookup k m
  unfolding lookup delete
  lookup-delete_other k j [] h = refl
  lookup-delete_other k j ((i, a) ∷ m) h = elim (Bool-cases (bytes_eq j i)) [
    | inl e ↦ rw (← bytes_eq→eq j i e, bytes_eq_self j, h) (lookup-delete_other k j m h)
    | inr e ↦ rw e (ap_if (lookup-delete_other k j m h))
  ]
    where
      ap_if :
          lookup k (delete j m) ≡ lookup k m
          → lookup k ((i, a) ∷ delete j m) ≡ lookup k ((i, a) ∷ m)
      ap_if q = rw q refl

  pub lookup-insert_other :
      (k j : List ℕ) (a : A) (m : ByteMap A)
      → bytes_eq k j ≡ false
      → lookup k (insert j a m) ≡ lookup k m
  lookup-insert_other k j a m h = lookup_miss k j a (delete j m) h ∙ lookup-delete_other k j m h

  pub All-delete {κ} :
      (P : List ℕ × A → Type κ) (k : List ℕ) (m : ByteMap A) → All P m → All P (delete k m)
  unfolding delete
  All-delete P k [] h = tt
  All-delete P k ((j, a) ∷ m) h = elim (Bool-cases (bytes_eq k j)) [
    | inl e ↦ rw e (All-delete P k m h.1)
    | inr e ↦ rw e (h.0, All-delete P k m h.1)
  ]

  pub All-evict {κ} :
      (P : List ℕ × A → Type κ) (dead : A → Bool) (m : ByteMap A) → All P m → All P (evict dead m)
  unfolding evict
  All-evict P dead [] h = tt
  All-evict P dead ((j, a) ∷ m) h = elim (Bool-cases (dead a)) [
    | inl e ↦ rw e (All-evict P dead m h.1)
    | inr e ↦ rw e (h.0, All-evict P dead m h.1)
  ]

  pub All-update {κ} :
      (P : List ℕ × A → Type κ) (k : List ℕ) (f : A → A) (m : ByteMap A)
      → ((j : List ℕ) (a : A) → P (j, a) → P (j, f a))
      → All P m
      → All P (update k f m)
  unfolding update
  All-update P k f [] keep h = tt
  All-update P k f ((j, a) ∷ m) keep h = elim (Bool-cases (bytes_eq k j)) [
    | inl e ↦ rw e (keep j a h.0, All-update P k f m keep h.1)
    | inr e ↦ rw e (h.0, All-update P k f m keep h.1)
  ]

  pub All_lookup {κ} :
      (P : List ℕ × A → Type κ) (k : List ℕ) (m : ByteMap A) (a : A)
      → All P m
      → lookup k m ≡ some a
      → P (k, a)
  unfolding lookup
  All_lookup P k [] a h q = absurd (grind arith)
  All_lookup P k ((j, b) ∷ m) a h q = elim (Bool-cases (bytes_eq k j)) [
    | inl e ↦
        subst (λ (i : List ℕ). P (i, a)) (sym (bytes_eq→eq k j e))
          (subst (λ (c : A). P (j, c)) (some_inj (rw e at q)) h.0)
    | inr e ↦ All_lookup P k m a h.1 (rw e at q)
  ]
    where
      some_inj : some b ≡ some a → b ≡ a
      some_inj v = ground arith

  pub lookup-evict :
      (dead : A → Bool) (k : List ℕ) (m : ByteMap A) (a : A)
      → lookup k m ≡ some a
      → dead a ≡ false
      → lookup k (evict dead m) ≡ some a
  unfolding lookup evict
  lookup-evict dead k [] a h live = h
  lookup-evict dead k ((j, b) ∷ m) a h live = elim (Bool-cases (bytes_eq k j)) [
    | inl e ↦ rw (still (rw e at h), e) (rw e at h)
    | inr e ↦ elim (Bool-cases (dead b)) [
      | inl d ↦ rw d (lookup-evict dead k m a (rw e at h) live)
      | inr d ↦ rw (d, e) (lookup-evict dead k m a (rw e at h) live)
    ]
  ]
    where
      still : some b ≡ some a → dead b ≡ false
      still v = ground arith

  -- What survives an eviction was there and is not dead.
  pub evict_live :
      (dead : A → Bool) (m : ByteMap A) → All (λ (p : List ℕ × A). dead p.1 ≡ false) (evict dead m)
  unfolding evict
  evict_live dead [] = tt
  evict_live dead ((j, a) ∷ m) = elim (Bool-cases (dead a)) [
    | inl e ↦ rw e (evict_live dead m)
    | inr e ↦ rw e (e, evict_live dead m)
  ]
