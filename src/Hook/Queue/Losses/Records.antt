-- ===== src/Hook/Queue/Losses/Records.antt =====
-- internal/hook/queue.go: the records of lost deliveries, and what updates of rows keep of them.
use anti_nat.Common.{
  ℕ, ◌≡◌, inl, inr, refl, Bool, true, false, ◌&&◌, ◌||◌, List, [], ◌∷◌, String, str_eq, Bool-cases,
  All, arith,
}
use anti_nat.Hook.Queue.Table.{
  Delivery, DeliveryState, pending, in_flight, delivered, failed, dlqed, dropped, Db, Audit,
  coalesced, retried, decommission_marked, dlqed_attempts, dropped_decommission, dropped_event,
  dlqed_no_target, dlqed_full, update_where, has_id,
}
use anti_nat.Hook.Queue.Claim.{drop_row, drop_each, claim_row, claim_each}

-- A record of one event type with the identifier.
abbrev pub records_dlq : String → Audit → Bool
records_dlq id (dlqed_full i h e) = str_eq id i
records_dlq id (dlqed_no_target i h e) = str_eq id i
records_dlq id (dlqed_attempts i) = str_eq id i
records_dlq id (coalesced i h e) = false
records_dlq id (dropped_event h e) = false
records_dlq id (dropped_decommission i h e n) = false
records_dlq id (retried i) = false
records_dlq id (decommission_marked n t k) = false

abbrev pub records_drop : String → Audit → Bool
records_drop id (dropped_decommission i h e n) = str_eq id i
records_drop id (dlqed_full i h e) = false
records_drop id (dlqed_no_target i h e) = false
records_drop id (dlqed_attempts i) = false
records_drop id (coalesced i h e) = false
records_drop id (dropped_event h e) = false
records_drop id (retried i) = false
records_drop id (decommission_marked n t k) = false

unfoldable pub has_record : (Audit → Bool) → List Audit → Bool
has_record p [] = false
has_record p (a ∷ as') = p a || has_record p as'

abbrev pub state_audited : List Audit → String → DeliveryState → Bool
state_audited log id pending = true
state_audited log id in_flight = true
state_audited log id delivered = true
state_audited log id failed = true
state_audited log id dlqed = has_record (records_dlq id) log
state_audited log id dropped = has_record (records_drop id) log

-- A row in state DLQED or DROPPED_DUE_TO_DECOMMISSION has such a record.
abbrev pub row_audited : List Audit → Delivery → Bool
row_audited log d = state_audited log d.id d.state

abbrev pub IsAudited : Db → Type 0
IsAudited db = All (λ d. row_audited db.audit d ≡ true) db.rows

pub or_right : (a b : Bool) → b ≡ true → a || b ≡ true
or_right a b h = ground arith

pub or_left : (a b : Bool) → a ≡ true → a || b ≡ true
or_left a b h = ground arith

pub and_left : (a b : Bool) → a && b ≡ true → a ≡ true
and_left a b h = ground arith

pub has_record_head :
    (p : Audit → Bool) (a : Audit) (log : List Audit) → p a ≡ true → has_record p (a ∷ log) ≡ true
unfolding has_record
has_record_head p a log h = or_left (p a) (has_record p log) h

pub state_audited-cons :
    (a : Audit) (log : List Audit) (id : String) (s : DeliveryState)
    → state_audited log id s ≡ true
    → state_audited (a ∷ log) id s ≡ true
unfolding has_record
state_audited-cons a log id pending h = refl
state_audited-cons a log id in_flight h = refl
state_audited-cons a log id delivered h = refl
state_audited-cons a log id failed h = refl
state_audited-cons a log id dlqed h = or_right (records_dlq id a) _ h
state_audited-cons a log id dropped h = or_right (records_drop id a) _ h

-- One more record, and rows that change where `p` holds.
pub updated :
    (a : Audit) (log : List Audit) (p : Delivery → Bool) (f : Delivery → Delivery)
    (ds : List Delivery)
    → ((d : Delivery)
        → p d ≡ true
        → row_audited (a ∷ log) d ≡ true
        → row_audited (a ∷ log) (f d) ≡ true)
    → All (λ d. row_audited log d ≡ true) ds
    → All (λ d. row_audited (a ∷ log) d ≡ true) (update_where p f ds)
unfolding update_where
updated a log p f [] k h = tt
updated a log p f (d ∷ ds) k h = elim (Bool-cases (p d)) [
  | inl e ↦ rw e (k d e (state_audited-cons a log d.id d.state h.0), updated a log p f ds k h.1)
  | inr e ↦ rw e (state_audited-cons a log d.id d.state h.0, updated a log p f ds k h.1)
]

-- The same without a record.
pub unrecorded :
    (log : List Audit) (p : Delivery → Bool) (f : Delivery → Delivery) (ds : List Delivery)
    → ((d : Delivery) → row_audited log d ≡ true → row_audited log (f d) ≡ true)
    → All (λ d. row_audited log d ≡ true) ds
    → All (λ d. row_audited log d ≡ true) (update_where p f ds)
unfolding update_where
unrecorded log p f [] k h = tt
unrecorded log p f (d ∷ ds) k h = elim (Bool-cases (p d)) [
  | inl e ↦ rw e (k d h.0, unrecorded log p f ds k h.1)
  | inr e ↦ rw e (h.0, unrecorded log p f ds k h.1)
]

pub recorded :
    (a : Audit) (log : List Audit) (ds : List Delivery)
    → All (λ d. row_audited log d ≡ true) ds
    → All (λ d. row_audited (a ∷ log) d ≡ true) ds
recorded a log [] h = tt
recorded a log (d ∷ ds) h = (state_audited-cons a log d.id d.state h.0, recorded a log ds h.1)

pub drop_each-IsAudited :
    (ts : ℕ) (rs : List Delivery) (db : Db) → IsAudited db → IsAudited (drop_each ts rs db)
unfolding drop_each has_record
drop_each-IsAudited ts [] db v = v
drop_each-IsAudited ts (r ∷ rs) db v = drop_each-IsAudited ts rs _ (
    updated (dropped_decommission r.id r.hook_id r.event_id r.node_id) db.audit (has_id r.id)
      (drop_row ts) db.rows (λ d e q. or_left (str_eq d.id r.id) _ e) v)

pub claim_each-audited :
    (log : List Audit) (ts : ℕ) (rs ds : List Delivery)
    → All (λ d. row_audited log d ≡ true) ds
    → All (λ d. row_audited log d ≡ true) (claim_each ts rs ds)
unfolding claim_each
claim_each-audited log ts [] ds v = v
claim_each-audited log ts (r ∷ rs) ds v =
    claim_each-audited log ts rs _ (unrecorded log _ (claim_row ts) ds (λ d q. refl) v)
