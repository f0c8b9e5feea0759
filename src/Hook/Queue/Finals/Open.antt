-- ===== src/Hook/Queue/Finals/Open.antt =====
-- internal/hook/queue.go: rows that are open may change, without their identity.
use anti_nat.Common.{
  ◌≡◌, refl, sym, ap, ◌∙◌, Bool, true, false, ◌&&◌, List, [], ◌∷◌, String, str_eq, All, Memᴰ, subst,
  str_eq_iff, arith,
}
use anti_nat.Hook.Queue.Table.{
  Delivery, DeliveryState, pending, in_flight, delivered, failed, dlqed, dropped, is_waiting,
  is_active, is_retryable, is_in_flight, update_where, has_id,
}
use anti_nat.Hook.Queue.Rows.{
  Kept, Evolves, Evolves-update_where, is_final, identity, same_id, Unique, All-everywhere,
}

pub and_left : (a b : Bool) → a && b ≡ true → a ≡ true
and_left a b h = ground arith

pub and_right : (a b : Bool) → a && b ≡ true → b ≡ true
and_right a b h = ground arith

pub active_open : (s : DeliveryState) → is_active s ≡ true → is_final s ≡ false
active_open pending h = refl
active_open in_flight h = refl
active_open delivered h = cc
active_open failed h = refl
active_open dlqed h = refl
active_open dropped h = cc

pub waiting_open : (s : DeliveryState) → is_waiting s ≡ true → is_final s ≡ false
waiting_open pending h = refl
waiting_open in_flight h = refl
waiting_open delivered h = cc
waiting_open failed h = refl
waiting_open dlqed h = refl
waiting_open dropped h = cc

pub retryable_open : (s : DeliveryState) → is_retryable s ≡ true → is_final s ≡ false
retryable_open pending h = refl
retryable_open in_flight h = refl
retryable_open delivered h = cc
retryable_open failed h = refl
retryable_open dlqed h = refl
retryable_open dropped h = cc

pub flying_open : (s : DeliveryState) → is_in_flight s ≡ true → is_final s ≡ false
flying_open pending h = refl
flying_open in_flight h = refl
flying_open delivered h = cc
flying_open failed h = refl
flying_open dlqed h = refl
flying_open dropped h = cc

-- A row that is not final may change, but not its identity.
pub open_row_keeps :
    (d e : Delivery) → identity e ≡ identity d → is_final d.state ≡ false → Kept d e
open_row_keeps d e same h = record {
  same_id = sym (ap (λ i. i.0) same);
  same_hook = sym (ap (λ i. i.1) same);
  same_event_id = sym (ap (λ i. i.2) same);
  final_same = λ f. absurd (clash (is_final d.state) f h);
}
  where
    clash : (b : Bool) → b ≡ true → b ≡ false → ⊥
    clash b p q = ground arith

pub moved :
    (p : Delivery → Bool) (f : Delivery → Delivery) (ds : List Delivery)
    → ((d : Delivery) → identity (f d) ≡ identity d)
    → ((d : Delivery) → p d ≡ true → is_final d.state ≡ false)
    → Evolves ds (update_where p f ds)
moved p f ds same opened = Evolves-update_where p f ds (
    All-everywhere (λ d. p d ≡ true → Kept d (f d)) ds
      (λ d e. open_row_keeps d (f d) (same d) (opened d e)))

-- Every row with the identifier may change.
abbrev pub IsOpen : String → List Delivery → Type 0
IsOpen id = All (λ d. has_id id d ≡ true → is_final d.state ≡ false)

pub open_moved :
    (id : String) (f : Delivery → Delivery) (ds : List Delivery)
    → ((d : Delivery) → identity (f d) ≡ identity d)
    → IsOpen id ds
    → Evolves ds (update_where (has_id id) f ds)
open_moved id f ds same o = Evolves-update_where (has_id id) f ds (each ds o)
  where
    each : (xs : List Delivery) → IsOpen id xs → All (λ d. has_id id d ≡ true → Kept d (f d)) xs
    each [] q = tt
    each (x ∷ xs) q = ((λ e. open_row_keeps x (f x) (same x) (q.0 e)), each xs q.1)

-- With unique identifiers, an identifier whose row is open is open.
pub mem_unlike :
    (ds : List Delivery) (t d : Delivery)
    → All (λ e. same_id (identity e) (identity d) ≡ false) ds
    → Memᴰ t ds
    → has_id t.id d ≡ false
mem_unlike [] t d h m = elim m [ ]
mem_unlike (x ∷ ds) t d h (Memᴰ.head q) =
    subst (λ (y : Delivery). str_eq d.id y.id ≡ false) (sym q) h.0
mem_unlike (x ∷ ds) t d h (Memᴰ.tail m) = mem_unlike ds t d h.1 m

pub nobody_else {κ} :
    (P : Delivery → Type κ) (ds : List Delivery) (t : Delivery)
    → All (λ e. same_id (identity e) (identity t) ≡ false) ds
    → All (λ d. has_id t.id d ≡ true → P d) ds
nobody_else P [] t h = tt
nobody_else P (x ∷ ds) t h = ((λ e. absurd (clash x e h.0)), nobody_else P ds t h.1)
  where
    clash : (x : Delivery) → str_eq x.id t.id ≡ true → str_eq t.id x.id ≡ false → ⊥
    clash x p q =
        let same = (str_eq_iff x.id t.id).0 p in
        let r = (str_eq_iff t.id x.id).1 (sym same) in cc (sym r ∙ q)

-- What holds of a row holds of each row with its identifier, since there is no other.
pub holders_only {κ} :
    (P : Delivery → Type κ) (ds : List Delivery) (t : Delivery)
    → Unique same_id ds
    → Memᴰ t ds
    → P t
    → All (λ d. has_id t.id d ≡ true → P d) ds
holders_only P [] t u m h = tt
holders_only P (x ∷ ds) t u (Memᴰ.head q) h = (
  (λ _. subst P q h),
  subst (λ (y : Delivery). All (λ d. has_id y.id d ≡ true → P d) ds) (sym q)
      (nobody_else P ds x u.0),
)
holders_only P (x ∷ ds) t u (Memᴰ.tail m) h =
    ((λ e. absurd (cc (sym e ∙ mem_unlike ds t x u.0 m))), holders_only P ds t u.1 m h)
