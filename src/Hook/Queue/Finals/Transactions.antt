-- ===== src/Hook/Queue/Finals/Transactions.antt =====
-- internal/hook/queue.go: each transaction keeps the rows.
use anti_nat.Common.{
  ℕ, ◌+◌, ◌≡◌, refl, Bool, true, false, not, ◌&&◌, ◌||◌, List, [], ◌∷◌, Option, none, some, leb,
  ltb, String, str_eq, ℤ, pos, negsuc, leb_ℤ, All, Memᴰ, arith,
}
use anti_nat.Hook.Queue.{
  Event, refused, queue_full, done, normalized, same_event, in_backlog, insert_delivery,
  insert_fresh, coalesce_row, coalesce_into, enqueue_full, enqueue_new, enqueue_event, event_kind,
}
use anti_nat.Hook.Queue.Table.{
  Delivery, DeliveryState, pending, in_flight, delivered, failed, dlqed, dropped, QueuePolicy, Db,
  Audit, dropped_event, dlqed_no_target, dlqed_full, update_where, find_row, filter_rows,
  count_rows, has_id, earliest,
}
use anti_nat.Hook.Queue.Claim.{is_stuck, requeue, past_deadline, claimed, claim_due}
use anti_nat.Hook.Queue.Finish.{
  Failing, failing_done, failing_dlq, failing_retry, mark_failed_write,
}
use anti_nat.Hook.Queue.Retry.{
  retryable_row, retry_row, retry_delivery, mark_decommissioned, on_node, arm_row, armed_db,
}
use anti_nat.Hook.Queue.Finish.{in_flight_row}
use anti_nat.Hook.Queue.Rows.{
  Evolves, Evolves-refl, Evolves-trans, Evolves-append, is_final, identity, same_id, Unique,
  filter_rows-Unique, either,
}
use anti_nat.Hook.Queue.Keys.{IsKeyed, IsKeyed-update_where}
use anti_nat.Hook.Queue.Finals.Open.{
  IsOpen, active_open, and_left, and_right, flying_open, holders_only, moved, open_moved,
  retryable_open, waiting_open,
}
use anti_nat.Hook.Queue.Finals.Select.{
  claim_each-Evolves, drop_each-Evolves, earliest_mem, filter_rows_mem,
}

pub third : (a b c : Bool) → a && b && c ≡ true → c ≡ true
third a b c h = ground arith

module _ (base64 : List ℕ → String) (evt : Event) (policy : QueuePolicy) (ts : ℕ) where
  pub insert_fresh-Evolves :
      (db : Db) (state : DeliveryState) (last_error : String) (records : String → List Audit)
      (commits : Bool) (drawn : Option String)
      → Evolves db.rows
          (insert_fresh base64 db evt policy state ts last_error records commits drawn).0.rows
  insert_fresh-Evolves db state last_error records commits none = Evolves-refl db.rows
  insert_fresh-Evolves db state last_error records commits (some id) =
      by_lookup (find_row (has_id id) db.rows)
    where
      by_lookup :
          (o : Option Delivery)
          → Evolves db.rows
              (insert_delivery base64 db evt policy state ts last_error
                (records id)
                commits
                id
                o).0.rows
      by_lookup (some d) = Evolves-refl db.rows
      by_lookup none =
          either (λ (x : Db). Evolves db.rows x.rows) commits _ _ (Evolves-append db.rows _)
            (Evolves-refl db.rows)

  pub coalesced_identity :
      (s : DeliveryState) (d : Delivery) → identity (coalesce_row base64 evt ts s d) ≡ identity d
  coalesced_identity pending d = refl
  coalesced_identity in_flight d = refl
  coalesced_identity delivered d = refl
  coalesced_identity failed d = refl
  coalesced_identity dlqed d = refl
  coalesced_identity dropped d = refl

  pub coalesce_into-Evolves :
      (db : Db) (p : Delivery → Bool) (commits : Bool) (drawn : Option String)
      → Unique same_id db.rows
      → ((d : Delivery) → p d ≡ true → is_final d.state ≡ false)
      → Evolves db.rows
          (coalesce_into base64 db evt policy ts commits drawn (earliest p db.rows)).0.rows
  coalesce_into-Evolves db p commits drawn u opened =
      by_target (earliest p db.rows) (earliest_mem p db.rows)
    where
      by_target :
          (o : Option Delivery)
          → ((t : Delivery) → o ≡ some t → Memᴰ t db.rows × (p t ≡ true))
          → Evolves db.rows (coalesce_into base64 db evt policy ts commits drawn o).0.rows
      by_target none found =
          insert_fresh-Evolves db dlqed "queue coalesce fallback to DLQ"
            (λ id. dlqed_no_target id evt.hook_id evt.event_id ∷ []) commits drawn
      by_target (some t) found =
          let (m, e) = found t refl in
          either (λ (x : Db). Evolves db.rows x.rows) commits _ _
            (open_moved t.id (λ d. coalesce_row base64 evt ts t.state d) db.rows
              (coalesced_identity t.state)
              (holders_only (λ d. is_final d.state ≡ false) db.rows t u m (opened t e)))
            (Evolves-refl db.rows)

  pub enqueue_full-Evolves :
      (db : Db) (commits : Bool) (drawn : Option String)
      → Unique same_id db.rows
      → Evolves db.rows (enqueue_full base64 db evt policy ts commits drawn).0.rows
  unfolding enqueue_full
  enqueue_full-Evolves db commits drawn u =
      either (λ (x : Db). Evolves db.rows x.rows) (str_eq policy.on_full "coalesce") _ _
        (coalesce_into-Evolves db _ commits drawn u (λ d e.
          waiting_open d.state
            (third (str_eq d.hook_id evt.hook_id) (str_eq d.kind (event_kind evt)) _ e)))
        (either (λ (x : Db). Evolves db.rows x.rows) (str_eq policy.on_full "drop") _ _
          (either (λ (x : Db). Evolves db.rows x.rows) commits
            (
              record db { audit = dropped_event evt.hook_id evt.event_id ∷ db.audit },
              refused queue_full,
            )
            _ (Evolves-refl db.rows) (Evolves-refl db.rows))
          (insert_fresh-Evolves db dlqed "queue full (DLQ policy)"
            (λ id. dlqed_full id evt.hook_id evt.event_id ∷ []) commits drawn))

pub enqueue_event-Evolves :
    (base64 : List ℕ → String) (db : Db) (evt : Event) (defined : Bool) (ts : ℕ) (commits : Bool)
    (drawn : Option String)
    → Unique same_id db.rows
    → Evolves db.rows (enqueue_event base64 db evt defined ts commits drawn).0.rows
unfolding enqueue_event
enqueue_event-Evolves base64 db evt defined ts commits drawn u =
    either (λ (x : Db). Evolves db.rows x.rows) (str_eq evt.hook_id "" || str_eq evt.event_id "") _
      _ (Evolves-refl db.rows)
      (either (λ (x : Db). Evolves db.rows x.rows) (not defined) _ _ (Evolves-refl db.rows)
        (new (find_row (same_event evt.hook_id evt.event_id) db.rows)))
  where
    policy : QueuePolicy
    policy = normalized evt.policy

    new :
        (o : Option Delivery)
        → Evolves db.rows (enqueue_new base64 db evt policy ts commits drawn o).0.rows
    new (some d) = Evolves-refl db.rows
    new none =
        either (λ (x : Db). Evolves db.rows x.rows)
          (leb_ℤ policy.max_queue (pos (count_rows (in_backlog evt.hook_id) db.rows))) _ _
          (enqueue_full-Evolves base64 evt policy ts db commits drawn u)
          (insert_fresh-Evolves base64 evt policy ts db pending "" (λ id. []) commits drawn)

pub claim_due-Evolves :
    (id_before : String → String → Bool) (db : Db) (ts : ℕ) (max : ℤ) (commits : Bool)
    → IsKeyed db.rows
    → Evolves db.rows (claim_due id_before db ts max commits).0.rows
unfolding claim_due claimed
claim_due-Evolves id_before db ts (negsuc n) commits v = Evolves-refl db.rows
claim_due-Evolves id_before db ts (pos max) commits v =
    either (λ (x : Db). Evolves db.rows x.rows) (leb max 0) _ _ (Evolves-refl db.rows)
      (either (λ (x : Db). Evolves db.rows x.rows) commits _ _
        (Evolves-trans db.rows requeued _
          (moved (is_stuck ts) (requeue ts) db.rows (λ d. refl)
            (λ d e. flying_open d.state (and_left _ (ltb (d.updated_at + 300) ts) e)))
          (Evolves-trans requeued _ _
            (drop_each-Evolves ts late (record db { rows = requeued }) (opened late (λ t m. m))
              (filter_rows-Unique same_id (past_deadline ts) requeued u.ids))
            (claim_each-Evolves ts _ _)))
        (Evolves-refl db.rows))
  where
    requeued : List Delivery
    requeued = update_where (is_stuck ts) (requeue ts) db.rows

    late : List Delivery
    late = filter_rows (past_deadline ts) requeued

    u : IsKeyed requeued
    u = IsKeyed-update_where (is_stuck ts) (requeue ts) db.rows (λ d. refl) v

    opened :
        (rs : List Delivery)
        → ((t : Delivery) → Memᴰ t rs → Memᴰ t late)
        → All (λ r. IsOpen r.id requeued) rs
    opened [] sub = tt
    opened (r ∷ rs) sub =
        let (m, e) = filter_rows_mem (past_deadline ts) requeued r (sub r (Memᴰ.head refl)) in
        (
          holders_only (λ d. is_final d.state ≡ false) requeued r u.ids m
              (active_open r.state
                (third (ltb 0 r.decommission_deadline) (leb r.decommission_deadline ts) _ e)),
          opened rs (λ t n. sub t (Memᴰ.tail n)),
        )

pub mark_failed_write-Evolves :
    (db : Db) (id message : String) (ts : ℕ) (commits : Bool) (plan : Failing)
    → Evolves db.rows (mark_failed_write db id message ts commits plan).0.rows
unfolding mark_failed_write
mark_failed_write-Evolves db id message ts commits (failing_done a) = Evolves-refl db.rows
mark_failed_write-Evolves db id message ts commits (failing_dlq n) =
    either (λ (x : Db). Evolves db.rows x.rows) commits _ _
      (moved (in_flight_row id) _ db.rows (λ d. refl)
        (λ d e. flying_open d.state (and_right (has_id id d) _ e)))
      (Evolves-refl db.rows)
mark_failed_write-Evolves db id message ts commits (failing_retry n t) =
    either (λ (x : Db). Evolves db.rows x.rows) commits _ _
      (moved (in_flight_row id) _ db.rows (λ d. refl)
        (λ d e. flying_open d.state (and_right (has_id id d) _ e)))
      (Evolves-refl db.rows)

pub retry_delivery-Evolves :
    (db : Db) (id : String) (ts : ℕ) (commits : Bool)
    → Evolves db.rows (retry_delivery db id ts commits).0.rows
unfolding retry_delivery
retry_delivery-Evolves db id ts commits =
    either (λ (x : Db). Evolves db.rows x.rows) _ _ _ (Evolves-refl db.rows)
      (either (λ (x : Db). Evolves db.rows x.rows) commits _ _
        (moved (retryable_row id) (retry_row ts) db.rows (λ d. refl)
          (λ d e. retryable_open d.state (and_right (has_id id d) _ e)))
        (Evolves-refl db.rows))

pub mark_decommissioned-Evolves :
    (db : Db) (node_id : String) (deadline : ℤ) (ts : ℕ) (commits : Bool)
    → Evolves db.rows (mark_decommissioned db node_id deadline ts commits).0.rows
unfolding mark_decommissioned
mark_decommissioned-Evolves db node_id deadline ts commits =
    either (λ (x : Db). Evolves db.rows x.rows) (str_eq node_id "") _ _ (Evolves-refl db.rows)
      (either (λ (x : Db). Evolves db.rows x.rows) (leb_ℤ deadline (pos 0)) _ _
        (Evolves-refl db.rows)
        (either (λ (x : Db). Evolves db.rows x.rows) commits (armed_db db node_id deadline ts, done)
          _
          (moved (on_node node_id) (arm_row deadline ts) db.rows (λ d. refl)
            (λ d e. active_open d.state (and_right (str_eq d.node_id node_id) _ e)))
          (Evolves-refl db.rows)))
