-- ===== src/Hook/Queue/Keys.antt =====
-- internal/hook/queue.go: identifiers, and pairs of a hook and an event, stay unique.
use anti_nat.Common.{
  ℕ, ◌≡◌, inl, inr, refl, Bool, true, false, ◌||◌, List, [], ◌∷◌, Option, none, some, leb, String,
  str_eq, ℤ, pos, negsuc, leb_ℤ, Bool-cases, Option-cases,
}
use anti_nat.Hook.Queue.{
  Event, done, normalized, same_event, in_backlog, insert_delivery, insert_fresh, coalesce_row,
  coalesce_into, enqueue_full, enqueue_new, enqueue_event,
}
use anti_nat.Hook.Queue.Table.{
  Delivery, DeliveryState, pending, in_flight, delivered, failed, dlqed, dropped, QueuePolicy, Db,
  Audit, dlqed_no_target, dlqed_full, update_where, find_row, count_rows, has_id, earliest,
}
use anti_nat.Hook.Queue.Claim.{
  is_stuck, requeue, drop_row, drop_each, claim_row, claim_each, claimed, claim_due,
}
use anti_nat.Hook.Queue.Finish.{
  Failing, failing_done, failing_dlq, failing_retry, mark_delivered, mark_failed_write,
}
use anti_nat.Hook.Queue.Retry.{
  retryable_row, retry_row, retry_delivery, retry_delivery_and_record, mark_decommissioned, on_node,
  arm_row, armed_db,
}
use anti_nat.Hook.Queue.Calls.{
  Call, enqueue_call, claim_call, delivered_call, failed_call, retry_call, retry_record_call,
  decommission_call, delete_call, empty_db, step, run,
}
use anti_nat.Hook.Queue.Rows.{
  identity, same_id, same_hook_event, Unique, Unique-update_where, Unique-append, find_row-none,
  filter_rows-Unique, either,
}
use anti_nat.Hook.Queue.Definitions.{of_other_hook, delete_definition-keeps}

pub record IsKeyed (rows : List Delivery) : Type 0 where
  pub ids : Unique same_id rows
  pub events : Unique same_hook_event rows

pub IsKeyed-update_where :
    (p : Delivery → Bool) (f : Delivery → Delivery) (ds : List Delivery)
    → ((d : Delivery) → identity (f d) ≡ identity d)
    → IsKeyed ds
    → IsKeyed (update_where p f ds)
IsKeyed-update_where p f ds k v = record {
  ids = Unique-update_where same_id p f ds k v.ids;
  events = Unique-update_where same_hook_event p f ds k v.events;
}

module _ (base64 : List ℕ → String) (evt : Event) (policy : QueuePolicy) (ts : ℕ) where
  -- A new row for an event that has none.
  insert_fresh-IsKeyed :
      (db : Db) (state : DeliveryState) (last_error : String) (records : String → List Audit)
      (commits : Bool) (drawn : Option String)
      → find_row (same_event evt.hook_id evt.event_id) db.rows ≡ none
      → IsKeyed db.rows
      → IsKeyed (insert_fresh base64 db evt policy state ts last_error records commits drawn).0.rows
  insert_fresh-IsKeyed db state last_error records commits none fresh v = v
  insert_fresh-IsKeyed db state last_error records commits (some id) fresh v =
      elim (Option-cases (find_row (has_id id) db.rows)) [
        | inl e ↦ rw e (inserted commits e)
        | inr (d, e) ↦ rw e v
      ]
    where
      inserted :
          (c : Bool)
          → find_row (has_id id) db.rows ≡ none
          → IsKeyed
              (insert_delivery base64 db evt policy state ts last_error
                (records id)
                c
                id
                none).0.rows
      inserted true e = record {
        ids = Unique-append same_id db.rows _ (find_row-none (has_id id) db.rows e) v.ids;
        events =
            Unique-append same_hook_event db.rows _
              (find_row-none (same_event evt.hook_id evt.event_id) db.rows fresh) v.events;
      }
      inserted false e = v

  coalesce_row-identity :
      (s : DeliveryState) (d : Delivery) → identity (coalesce_row base64 evt ts s d) ≡ identity d
  coalesce_row-identity pending d = refl
  coalesce_row-identity in_flight d = refl
  coalesce_row-identity delivered d = refl
  coalesce_row-identity failed d = refl
  coalesce_row-identity dlqed d = refl
  coalesce_row-identity dropped d = refl

  enqueue_full-IsKeyed :
      (db : Db) (commits : Bool) (drawn : Option String)
      → find_row (same_event evt.hook_id evt.event_id) db.rows ≡ none
      → IsKeyed db.rows
      → IsKeyed (enqueue_full base64 db evt policy ts commits drawn).0.rows
  unfolding enqueue_full
  enqueue_full-IsKeyed db commits drawn fresh v =
      elim (Bool-cases (str_eq policy.on_full "coalesce")) [
        | inl c ↦ rw c (into (earliest _ db.rows) commits)
        | inr c ↦ elim (Bool-cases (str_eq policy.on_full "drop")) [
          | inl d ↦ rw (c, d) (either (λ (x : Db). IsKeyed x.rows) commits _ _ v v)
          | inr d ↦
              rw (c, d)
                (insert_fresh-IsKeyed db dlqed "queue full (DLQ policy)"
                  (λ id. dlqed_full id evt.hook_id evt.event_id ∷ []) commits drawn fresh v)
        ]
      ]
    where
      into :
          (target : Option Delivery) (c : Bool)
          → IsKeyed (coalesce_into base64 db evt policy ts c drawn target).0.rows
      into none c =
          insert_fresh-IsKeyed db dlqed "queue coalesce fallback to DLQ"
            (λ id. dlqed_no_target id evt.hook_id evt.event_id ∷ []) c drawn fresh v
      into (some t) true =
          IsKeyed-update_where (has_id t.id) _ db.rows (coalesce_row-identity t.state) v
      into (some t) false = v

enqueue_event-IsKeyed :
    (base64 : List ℕ → String) (db : Db) (evt : Event) (defined : Bool) (ts : ℕ) (commits : Bool)
    (drawn : Option String)
    → IsKeyed db.rows
    → IsKeyed (enqueue_event base64 db evt defined ts commits drawn).0.rows
unfolding enqueue_event
enqueue_event-IsKeyed base64 db evt defined ts commits drawn v =
    elim (Bool-cases (str_eq evt.hook_id "" || str_eq evt.event_id "")) [
      | inl e ↦ rw e v
      | inr e ↦ elim (Bool-cases defined) [
        | inl d ↦ rw (e, d) (new (find_row (same_event evt.hook_id evt.event_id) db.rows) refl)
        | inr d ↦ rw (e, d) v
      ]
    ]
  where
    policy : QueuePolicy
    policy = normalized evt.policy

    new :
        (o : Option Delivery)
        → find_row (same_event evt.hook_id evt.event_id) db.rows ≡ o
        → IsKeyed (enqueue_new base64 db evt policy ts commits drawn o).0.rows
    new (some d) e = v
    new none e =
        elim (Bool-cases
          (leb_ℤ policy.max_queue (pos (count_rows (in_backlog evt.hook_id) db.rows)))) [
            | inl full ↦ rw full (enqueue_full-IsKeyed base64 evt policy ts db commits drawn e v)
            | inr room ↦ rw room (
                insert_fresh-IsKeyed base64 evt policy ts db pending "" (λ id. []) commits drawn e
                  v)
          ]

drop_each-IsKeyed :
    (ts : ℕ) (rs : List Delivery) (db : Db) → IsKeyed db.rows → IsKeyed (drop_each ts rs db).rows
unfolding drop_each
drop_each-IsKeyed ts [] db v = v
drop_each-IsKeyed ts (r ∷ rs) db v =
    drop_each-IsKeyed ts rs _
      (IsKeyed-update_where (has_id r.id) (drop_row ts) db.rows (λ d. refl) v)

claim_each-IsKeyed : (ts : ℕ) (rs ds : List Delivery) → IsKeyed ds → IsKeyed (claim_each ts rs ds)
unfolding claim_each
claim_each-IsKeyed ts [] ds v = v
claim_each-IsKeyed ts (r ∷ rs) ds v =
    claim_each-IsKeyed ts rs _ (IsKeyed-update_where _ (claim_row ts) ds (λ d. refl) v)

claim_due-IsKeyed :
    (id_before : String → String → Bool) (db : Db) (ts : ℕ) (max : ℤ) (commits : Bool)
    → IsKeyed db.rows
    → IsKeyed (claim_due id_before db ts max commits).0.rows
unfolding claim_due claimed
claim_due-IsKeyed id_before db ts (negsuc n) commits v = v
claim_due-IsKeyed id_before db ts (pos max) commits v =
    either (λ (x : Db). IsKeyed x.rows) (leb max 0) _ _ v
      (either (λ (x : Db). IsKeyed x.rows) commits _ _
        (claim_each-IsKeyed ts _ _ (
          drop_each-IsKeyed ts _ _
            (IsKeyed-update_where (is_stuck ts) (requeue ts) db.rows (λ d. refl) v)))
        v)

mark_delivered-IsKeyed :
    (db : Db) (id : String) (ts : ℕ) (commits : Bool)
    → IsKeyed db.rows
    → IsKeyed (mark_delivered db id ts commits).0.rows
unfolding mark_delivered
mark_delivered-IsKeyed db id ts true v = IsKeyed-update_where _ _ db.rows (λ d. refl) v
mark_delivered-IsKeyed db id ts false v = v

mark_failed_write-IsKeyed :
    (db : Db) (id message : String) (ts : ℕ) (commits : Bool) (plan : Failing)
    → IsKeyed db.rows
    → IsKeyed (mark_failed_write db id message ts commits plan).0.rows
unfolding mark_failed_write
mark_failed_write-IsKeyed db id message ts commits (failing_done a) v = v
mark_failed_write-IsKeyed db id message ts true (failing_dlq n) v =
    IsKeyed-update_where _ _ db.rows (λ d. refl) v
mark_failed_write-IsKeyed db id message ts false (failing_dlq n) v = v
mark_failed_write-IsKeyed db id message ts true (failing_retry n t) v =
    IsKeyed-update_where _ _ db.rows (λ d. refl) v
mark_failed_write-IsKeyed db id message ts false (failing_retry n t) v = v

retry_delivery-IsKeyed :
    (db : Db) (id : String) (ts : ℕ) (commits : Bool)
    → IsKeyed db.rows
    → IsKeyed (retry_delivery db id ts commits).0.rows
unfolding retry_delivery
retry_delivery-IsKeyed db id ts commits v =
    either (λ (x : Db). IsKeyed x.rows) _ _ _ v
      (either (λ (x : Db). IsKeyed x.rows) commits _ _
        (IsKeyed-update_where (retryable_row id) (retry_row ts) db.rows (λ d. refl) v) v)

retry_delivery_and_record-IsKeyed :
    (db : Db) (id op_id : String) (ts : ℕ) (commits : Bool)
    → IsKeyed db.rows
    → IsKeyed (retry_delivery_and_record db id op_id ts commits).0.rows
unfolding retry_delivery_and_record
retry_delivery_and_record-IsKeyed db id op_id ts commits v =
    either (λ (x : Db). IsKeyed x.rows) _ _ _ v (retry_delivery-IsKeyed db id ts commits v)

mark_decommissioned-IsKeyed :
    (db : Db) (node_id : String) (deadline : ℤ) (ts : ℕ) (commits : Bool)
    → IsKeyed db.rows
    → IsKeyed (mark_decommissioned db node_id deadline ts commits).0.rows
unfolding mark_decommissioned
mark_decommissioned-IsKeyed db node_id deadline ts commits v =
    either (λ (x : Db). IsKeyed x.rows) (str_eq node_id "") _ _ v
      (either (λ (x : Db). IsKeyed x.rows) (leb_ℤ deadline (pos 0)) _ _ v
        (either (λ (x : Db). IsKeyed x.rows) commits (armed_db db node_id deadline ts, done) _
          (IsKeyed-update_where (on_node node_id) (arm_row deadline ts) db.rows (λ d. refl) v) v))

module _ (base64 : List ℕ → String) (id_before : String → String → Bool) where
  pub step-IsKeyed :
      (db : Db) (c : Call) → IsKeyed db.rows → IsKeyed (step base64 id_before db c).rows
  unfolding step
  step-IsKeyed db (enqueue_call evt defined ts commits drawn) v =
      enqueue_event-IsKeyed base64 db evt defined ts commits drawn v
  step-IsKeyed db (claim_call ts max commits) v = claim_due-IsKeyed id_before db ts max commits v
  step-IsKeyed db (delivered_call id ts commits) v = mark_delivered-IsKeyed db id ts commits v
  step-IsKeyed db (failed_call id message ts commits plan) v =
      mark_failed_write-IsKeyed db id message ts commits plan v
  step-IsKeyed db (retry_call id ts commits) v = retry_delivery-IsKeyed db id ts commits v
  step-IsKeyed db (retry_record_call id op_id ts commits) v =
      retry_delivery_and_record-IsKeyed db id op_id ts commits v
  step-IsKeyed db (decommission_call node_id deadline ts commits) v =
      mark_decommissioned-IsKeyed db node_id deadline ts commits v
  step-IsKeyed db (delete_call id expected_rev stored commits) v =
      delete_definition-keeps (λ (x : Db). IsKeyed x.rows) db id expected_rev stored commits v
        (record {
          ids = filter_rows-Unique same_id (of_other_hook id) db.rows v.ids;
          events = filter_rows-Unique same_hook_event (of_other_hook id) db.rows v.events;
        })

  pub run-IsKeyed :
      (db : Db) (calls : List Call) → IsKeyed db.rows → IsKeyed (run base64 id_before db calls).rows
  unfolding run
  run-IsKeyed db [] v = v
  run-IsKeyed db (c ∷ calls) v =
      run-IsKeyed (step base64 id_before db c) calls (step-IsKeyed db c v)

  -- After any calls on an empty database no two deliveries have the same identifier, and no two
  -- have the same hook and event.
  pub no_two_deliveries_alike :
      (calls : List Call)
      → let rows = (run base64 id_before empty_db calls).rows in
        Unique same_id rows × Unique same_hook_event rows
  no_two_deliveries_alike calls =
      let v = run-IsKeyed empty_db calls (record { ids = tt; events = tt }) in (v.ids, v.events)
