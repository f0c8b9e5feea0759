-- ===== src/Traversal/Stun/Attributes.antt =====
-- The attribute list of a message: what Add, Get and Count say of one another, and the list that a
-- 420 response echoes.
use anti_nat.Common.{
  ℕ, ◌+◌, ◌<◌, ◌≡◌, ◌↔◌, refl, ◌∙◌, true, false, List, [], ◌∷◌, ◌++◌, some, arith,
}
use anti_nat.Traversal.Stun.{
  Bytes, Attribute, Message, add, get, count, first_value, count_type, member, known,
  comprehension_required, unknown_from, unknown_comprehension_required,
}

first_value-append :
    (attrs : List Attribute) (t : ℕ) (v : Bytes)
    → count_type attrs t ≡ 0
    → first_value (attrs ++ record { type = t; value = v } ∷ []) t ≡ some v
unfolding first_value count_type
first_value-append [] t v h = ground arith
first_value-append (a ∷ rest) t v h = ground (arith, first_value-append rest t v)

count_type-append :
    (attrs : List Attribute) (t : ℕ) (v : Bytes)
    → count_type (attrs ++ record { type = t; value = v } ∷ []) t ≡ count_type attrs t + 1
unfolding count_type
count_type-append [] t v = ground arith
count_type-append (a ∷ rest) t v = ground (arith, count_type-append rest t v)

-- An attribute of a type that the message lacks is the one that Get then finds, and the only one.
pub get-add :
    (m : Message) (t : ℕ) (v : Bytes)
    → count m t ≡ 0
    → (get (add m t v) t ≡ some v) × (count (add m t v) t ≡ 1)
unfolding get add count
get-add m t v h =
    (first_value-append m.attributes t v h, count_type-append m.attributes t v ∙ rw h refl)

-- A message lists an attribute type as not understood exactly when an attribute has it, the type
-- must be comprehended and the codec does not know it.
abbrev Unknown : List Attribute → ℕ → Type 0
Unknown attrs t = (0 < count_type attrs t) × (comprehension_required t ≡ true) × (known t ≡ false)

unknown_from_iff :
    (seen : List ℕ) (attrs : List Attribute) (t : ℕ)
    → (member t (unknown_from seen attrs) ≡ true) ↔ (Unknown attrs t × (member t seen ≡ false))
unfolding unknown_from count_type
unknown_from_iff seen [] t = ((λ h. ground arith), (λ h. ground arith))
unknown_from_iff seen (a ∷ rest) t =
    let (f, g) = unknown_from_iff (a.type ∷ seen) rest t in
    let (h, k) = unknown_from_iff seen rest t in
    ((λ e. ground (arith, f, h)), (λ e. ground (arith, g, k)))

-- A type is reported as unknown and comprehension-required exactly when the message holds an
-- attribute of that type, the type is in the comprehension-required range and it is none of the
-- known types.
pub unknown_comprehension_required_iff :
    (m : Message) (t : ℕ)
    → (member t (unknown_comprehension_required m) ≡ true)
      ↔ ((0 < count m t) × (comprehension_required t ≡ true) × (known t ≡ false))
unfolding unknown_comprehension_required count
unknown_comprehension_required_iff m t = (
  (λ h. ((unknown_from_iff [] m.attributes t).0 h).0),
  (λ h. (unknown_from_iff [] m.attributes t).1 (h, refl)),
)
