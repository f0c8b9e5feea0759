-- ===== src/Hook/Queue/Rows.antt =====
-- internal/hook/queue.go: what an update of rows keeps.
use anti_nat.Common.{
  ◌≡◌, inl, inr, refl, sym, ap, ◌∙◌, subst, Bool, true, false, ◌&&◌, List, [], ◌∷◌, ◌++◌, none,
  some, if◌then◌else◌, String, str_eq, Bool-cases, All, Memᴰ, arith,
}
use anti_nat.Hook.Queue.{Answer}
use anti_nat.Hook.Queue.Table.{
  Db, Delivery, DeliveryState, delivered, dropped, pending, in_flight, failed, dlqed, update_where,
  find_row, filter_rows,
}

-- DELIVERED and DROPPED_DUE_TO_DECOMMISSION.
abbrev pub is_final : DeliveryState → Bool
is_final pending = false
is_final in_flight = false
is_final delivered = true
is_final failed = false
is_final dlqed = false
is_final dropped = true

-- A row and what became of it.
pub record Kept (d e : Delivery) : Type 0 where
  pub same_id : d.id ≡ e.id
  pub same_hook : d.hook_id ≡ e.hook_id
  pub same_event_id : d.event_id ≡ e.event_id
  pub final_same : is_final d.state ≡ true → d ≡ e

pub Kept-refl : (d : Delivery) → Kept d d
Kept-refl d = record {
  same_id = refl;
  same_hook = refl;
  same_event_id = refl;
  final_same = λ _. refl;
}

pub Kept-trans : (d e f : Delivery) → Kept d e → Kept e f → Kept d f
Kept-trans d e f p q = record {
  same_id = p.same_id ∙ q.same_id;
  same_hook = p.same_hook ∙ q.same_hook;
  same_event_id = p.same_event_id ∙ q.same_event_id;
  final_same = λ h.
      let s = p.final_same h in
      s ∙ q.final_same (subst (λ (x : Delivery). is_final x.state ≡ true) s h);
}

-- Each row, in its place, is kept; more may follow.
abbrev pub Evolves : List Delivery → List Delivery → Type 0
Evolves [] es = Unit
Evolves (d ∷ ds) [] = ⊥
Evolves (d ∷ ds) (e ∷ es) = Kept d e × Evolves ds es

pub Evolves-refl : (ds : List Delivery) → Evolves ds ds
Evolves-refl [] = tt
Evolves-refl (d ∷ ds) = (Kept-refl d, Evolves-refl ds)

pub Evolves-trans : (ds es fs : List Delivery) → Evolves ds es → Evolves es fs → Evolves ds fs
Evolves-trans [] es fs p q = tt
Evolves-trans (d ∷ ds) [] fs p q = absurd p
Evolves-trans (d ∷ ds) (e ∷ es) [] p q = absurd q
Evolves-trans (d ∷ ds) (e ∷ es) (f ∷ fs) p q =
    (Kept-trans d e f p.0 q.0, Evolves-trans ds es fs p.1 q.1)

pub Evolves-append : (ds es : List Delivery) → Evolves ds (ds ++ es)
Evolves-append [] es = tt
Evolves-append (d ∷ ds) es = (Kept-refl d, Evolves-append ds es)

pub Evolves-update_where :
    (p : Delivery → Bool) (f : Delivery → Delivery) (ds : List Delivery)
    → All (λ d. p d ≡ true → Kept d (f d)) ds
    → Evolves ds (update_where p f ds)
unfolding update_where
Evolves-update_where p f [] h = tt
Evolves-update_where p f (d ∷ ds) h = elim (Bool-cases (p d)) [
  | inl e ↦ rw e (h.0 e, Evolves-update_where p f ds h.1)
  | inr e ↦ rw e (Kept-refl d, Evolves-update_where p f ds h.1)
]

pub Evolves-mem :
    (ds es : List Delivery) (d : Delivery)
    → Evolves ds es
    → Memᴰ d ds
    → (e : Delivery) × Memᴰ e es × Kept d e
Evolves-mem [] es d p m = elim m [ ]
Evolves-mem (x ∷ ds) [] d p m = absurd p
Evolves-mem (x ∷ ds) (e ∷ es) d p (Memᴰ.head q) =
    (e, Memᴰ.head refl, subst (λ (y : Delivery). Kept y e) (sym q) p.0)
Evolves-mem (x ∷ ds) (e ∷ es) d p (Memᴰ.tail m) =
    let (f, n, k) = Evolves-mem ds es d p.1 m in (f, Memᴰ.tail n, k)

pub All-everywhere {κ} :
    (P : Delivery → Type κ) (ds : List Delivery) → ((d : Delivery) → P d) → All P ds
All-everywhere P [] h = tt
All-everywhere P (d ∷ ds) h = (h d, All-everywhere P ds h)

-- No two rows with the same identity.
abbrev pub Identity : Type 0
Identity = String × String × String

abbrev pub identity : Delivery → Identity
identity d = (d.id, d.hook_id, d.event_id)

abbrev pub same_id : Identity → Identity → Bool
same_id a b = str_eq b.0 a.0

abbrev pub same_hook_event : Identity → Identity → Bool
same_hook_event a b = str_eq b.1 a.1 && str_eq b.2 a.2

abbrev pub Unique : (Identity → Identity → Bool) → List Delivery → Type 0
Unique same [] = Unit
Unique same (d ∷ ds) = All (λ e. same (identity e) (identity d) ≡ false) ds × Unique same ds

abbrev KeepsIdentity : (Delivery → Delivery) → Type 0
KeepsIdentity f = (d : Delivery) → identity (f d) ≡ identity d

All-update_where :
    (same : Identity → Bool) (p : Delivery → Bool) (f : Delivery → Delivery) (ds : List Delivery)
    → KeepsIdentity f
    → All (λ e. same (identity e) ≡ false) ds
    → All (λ e. same (identity e) ≡ false) (update_where p f ds)
unfolding update_where
All-update_where same p f [] k h = tt
All-update_where same p f (d ∷ ds) k h = elim (Bool-cases (p d)) [
  | inl e ↦ rw e (ap same (k d) ∙ h.0, All-update_where same p f ds k h.1)
  | inr e ↦ rw e (h.0, All-update_where same p f ds k h.1)
]

pub Unique-update_where :
    (same : Identity → Identity → Bool) (p : Delivery → Bool) (f : Delivery → Delivery)
    (ds : List Delivery)
    → KeepsIdentity f
    → Unique same ds
    → Unique same (update_where p f ds)
unfolding update_where
Unique-update_where same p f [] k h = tt
Unique-update_where same p f (d ∷ ds) k h = elim (Bool-cases (p d)) [
  | inl e ↦ rw e (
    subst (λ (i : Identity). All (λ e. same (identity e) i ≡ false) (update_where p f ds))
        (sym (k d)) (All-update_where (λ i. same i (identity d)) p f ds k h.0),
    Unique-update_where same p f ds k h.1,
  )
  | inr e ↦ rw e (
    All-update_where (λ i. same i (identity d)) p f ds k h.0,
    Unique-update_where same p f ds k h.1,
  )
]

pub Unique-append :
    (same : Identity → Identity → Bool) (ds : List Delivery) (d : Delivery)
    → All (λ e. same (identity d) (identity e) ≡ false) ds
    → Unique same ds
    → Unique same (ds ++ (d ∷ []))
Unique-append same [] d h u = (tt, tt)
Unique-append same (e ∷ ds) d h u = (snoc ds u.0, Unique-append same ds d h.1 u.1)
  where
    snoc :
        (xs : List Delivery)
        → All (λ x. same (identity x) (identity e) ≡ false) xs
        → All (λ x. same (identity x) (identity e) ≡ false) (xs ++ (d ∷ []))
    snoc [] q = (h.0, tt)
    snoc (x ∷ xs) q = (q.0, snoc xs q.1)

pub All-filter_rows {κ} :
    (P : Delivery → Type κ) (p : Delivery → Bool) (ds : List Delivery)
    → All P ds
    → All P (filter_rows p ds)
unfolding filter_rows
All-filter_rows P p [] h = tt
All-filter_rows P p (d ∷ ds) h = elim (Bool-cases (p d)) [
  | inl e ↦ rw e (h.0, All-filter_rows P p ds h.1)
  | inr e ↦ rw e (All-filter_rows P p ds h.1)
]

pub filter_rows-Unique :
    (same : Identity → Identity → Bool) (p : Delivery → Bool) (ds : List Delivery)
    → Unique same ds
    → Unique same (filter_rows p ds)
unfolding filter_rows
filter_rows-Unique same p [] u = tt
filter_rows-Unique same p (d ∷ ds) u = elim (Bool-cases (p d)) [
  | inl e ↦ rw e (All-filter_rows _ p ds u.0, filter_rows-Unique same p ds u.1)
  | inr e ↦ rw e (filter_rows-Unique same p ds u.1)
]

pub mem-filter_rows :
    (p : Delivery → Bool) (ds : List Delivery) (d : Delivery)
    → Memᴰ d ds
    → p d ≡ true
    → Memᴰ d (filter_rows p ds)
unfolding filter_rows
mem-filter_rows p [] d m h = elim m [ ]
mem-filter_rows p (x ∷ ds) d (Memᴰ.head e) h =
    rw (subst (λ (y : Delivery). p y ≡ true) e h) (Memᴰ.head e)
mem-filter_rows p (x ∷ ds) d (Memᴰ.tail m) h = elim (Bool-cases (p x)) [
  | inl e ↦ rw e (Memᴰ.tail (mem-filter_rows p ds d m h))
  | inr e ↦ rw e (mem-filter_rows p ds d m h)
]

-- Where no row is found, no row has the property.
pub find_row-none :
    (p : Delivery → Bool) (ds : List Delivery) → find_row p ds ≡ none → All (λ d. p d ≡ false) ds
unfolding find_row
find_row-none p [] h = tt
find_row-none p (d ∷ ds) h = elim (Bool-cases (p d)) [
  | inl e ↦ absurd (never (rw e at h))
  | inr e ↦ (e, find_row-none p ds (rw e at h))
]
  where
    never : some d ≡ none → ⊥
    never q = ground arith

-- A property of the state that a call leaves, on both branches of a test.
pub either {ℓ} :
    (P : Db → Type ℓ) (b : Bool) (x y : Db × Answer) → P x.0 → P y.0 → P (if b then x else y).0
either P true x y p q = p
either P false x y p q = q
