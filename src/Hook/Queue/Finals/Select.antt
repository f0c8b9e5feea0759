-- ===== src/Hook/Queue/Finals/Select.antt =====
-- internal/hook/queue.go: what the selections of rows find, and the loops over them.
use anti_nat.Common.{
  ℕ, ◌≡◌, inl, inr, refl, sym, ap, ◌∙◌, Bool, true, false, ◌&&◌, List, [], ◌∷◌, Option, none, some,
  ltb, String, str_eq, Bool-cases, All, Memᴰ, subst, str_eq_iff, arith,
}
use anti_nat.Hook.Queue.Table.{
  Delivery, Db, is_waiting, earlier, update_where, filter_rows, has_id, earliest,
}
use anti_nat.Hook.Queue.Claim.{drop_row, drop_each, claim_row, claim_each}
use anti_nat.Hook.Queue.Rows.{
  Evolves, Evolves-refl, Evolves-trans, Identity, identity, same_id, Unique,
}
use anti_nat.Hook.Queue.Finals.Open.{IsOpen, and_right, moved, open_moved, waiting_open}

pub earliest_mem :
    (p : Delivery → Bool) (ds : List Delivery) (t : Delivery)
    → earliest p ds ≡ some t
    → Memᴰ t ds × (p t ≡ true)
unfolding earliest
earliest_mem p [] t h = absurd (ground arith)
earliest_mem p (d ∷ ds) t h = elim (Bool-cases (p d)) [
  | inr e ↦ let r = earliest_mem p ds t (rw e at h) in (Memᴰ.tail r.0, r.1)
  | inl e ↦ chosen e (earliest p ds) (earliest_mem p ds) (rw e at h)
]
  where
    here : p d ≡ true → d ≡ t → Memᴰ t (d ∷ ds) × (p t ≡ true)
    here e q = (Memᴰ.head (sym q), subst (λ (x : Delivery). p x ≡ true) q e)

    some_inj : (x : Delivery) → some x ≡ some t → x ≡ t
    some_inj x q = ground arith

    chosen :
        p d ≡ true
        → (o : Option Delivery) → ((x : Delivery) → o ≡ some x → Memᴰ x ds × (p x ≡ true))
        → some (earlier d o) ≡ some t
        → Memᴰ t (d ∷ ds) × (p t ≡ true)
    chosen e none ih q = here e (ground arith)
    chosen e (some x) ih q = elim (Bool-cases (ltb x.created_at d.created_at)) [
      | inl l ↦
          let r = ih x refl in
          let same : x ≡ t = some_inj x (rw l at q) in
          (
            Memᴰ.tail (subst (λ (y : Delivery). Memᴰ y ds) same r.0),
            subst (λ (y : Delivery). p y ≡ true) same r.1,
          )
      | inr l ↦ here e (some_inj d (rw l at q))
    ]

pub filter_rows_mem :
    (p : Delivery → Bool) (ds : List Delivery) (t : Delivery)
    → Memᴰ t (filter_rows p ds)
    → Memᴰ t ds × (p t ≡ true)
unfolding filter_rows
filter_rows_mem p [] t m = elim m [ ]
filter_rows_mem p (d ∷ ds) t m = elim (Bool-cases (p d)) [
  | inl e ↦ kept e (subst (Memᴰ t) (shape e) m) (filter_rows_mem p ds t)
  | inr e ↦ let r = filter_rows_mem p ds t (subst (Memᴰ t) (skipped e) m) in (Memᴰ.tail r.0, r.1)
]
  where
    shape : p d ≡ true → filter_rows p (d ∷ ds) ≡ d ∷ filter_rows p ds
    shape e = rw e refl

    skipped : p d ≡ false → filter_rows p (d ∷ ds) ≡ filter_rows p ds
    skipped e = rw e refl

    kept :
        p d ≡ true
        → Memᴰ t (d ∷ filter_rows p ds)
        → (Memᴰ t (filter_rows p ds) → Memᴰ t ds × (p t ≡ true))
        → Memᴰ t (d ∷ ds) × (p t ≡ true)
    kept e (Memᴰ.head q) ih = (Memᴰ.head q, subst (λ (x : Delivery). p x ≡ true) (sym q) e)
    kept e (Memᴰ.tail n) ih = let r = ih n in (Memᴰ.tail r.0, r.1)

-- Dropping one row leaves another identifier's row as it was.
pub others_stay_put :
    (id other : String) (f : Delivery → Delivery) (ds : List Delivery)
    → ((d : Delivery) → identity (f d) ≡ identity d)
    → str_eq other id ≡ false
    → IsOpen id ds
    → IsOpen id (update_where (has_id other) f ds)
unfolding update_where
others_stay_put id other f [] same apart o = tt
others_stay_put id other f (d ∷ ds) same apart o = elim (Bool-cases (has_id other d)) [
  | inl e ↦
      rw e ((λ h. absurd (clash e (moved_id h))), others_stay_put id other f ds same apart o.1)
  | inr e ↦ rw e (o.0, others_stay_put id other f ds same apart o.1)
]
  where
    moved_id : has_id id (f d) ≡ true → str_eq d.id id ≡ true
    moved_id h = sym (ap (λ (i : Identity). str_eq i.0 id) (same d)) ∙ h

    clash : str_eq d.id other ≡ true → str_eq d.id id ≡ true → ⊥
    clash p q =
        let a = (str_eq_iff d.id other).0 p in
        let b = (str_eq_iff d.id id).0 q in cc (sym ((str_eq_iff other id).1 (sym a ∙ b)) ∙ apart)

pub drop_each-Evolves :
    (ts : ℕ) (rs : List Delivery) (db : Db)
    → All (λ r. IsOpen r.id db.rows) rs
    → Unique same_id rs
    → Evolves db.rows (drop_each ts rs db).rows
unfolding drop_each
drop_each-Evolves ts [] db o u = Evolves-refl db.rows
drop_each-Evolves ts (r ∷ rs) db o u =
    Evolves-trans db.rows _ _ (open_moved r.id (drop_row ts) db.rows (λ d. refl) o.0)
      (drop_each-Evolves ts rs _ (others rs u.0 o.1) u.1)
  where
    others :
        (xs : List Delivery)
        → All (λ e. same_id (identity e) (identity r) ≡ false) xs
        → All (λ x. IsOpen x.id db.rows) xs
        → All (λ x. IsOpen x.id (update_where (has_id r.id) (drop_row ts) db.rows)) xs
    others [] h q = tt
    others (x ∷ xs) h q =
        (others_stay_put x.id r.id (drop_row ts) db.rows (λ d. refl) h.0 q.0, others xs h.1 q.1)

pub claim_each-Evolves : (ts : ℕ) (rs ds : List Delivery) → Evolves ds (claim_each ts rs ds)
unfolding claim_each
claim_each-Evolves ts [] ds = Evolves-refl ds
claim_each-Evolves ts (r ∷ rs) ds =
    Evolves-trans ds _ _
      (moved (λ d. has_id r.id d && is_waiting d.state) (claim_row ts) ds (λ d. refl)
        (λ d e. waiting_open d.state (and_right (has_id r.id d) _ e)))
      (claim_each-Evolves ts rs _)
