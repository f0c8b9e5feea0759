-- ===== src/Hook/Queue.antt =====
-- internal/hook/queue.go: the durable delivery queue. The table hook_deliveries is the list of its
-- rows in the order of insertion, and admin_events the list of its records, newest first. A
-- transaction is one step; `commits` says whether all its statements and its commit succeed, and
-- without that it is rolled back. Timestamps are whole seconds. The base64 codec, the random
-- identifier and the order of identifiers in SQLite are parameters.
pub mod Table
pub mod Claim
pub mod Finish
pub mod Retry
pub mod Definitions
pub mod Calls
pub mod Rows
pub mod Keys
pub mod Losses
pub mod Finals
pub mod Bounds
use anti_nat.Common.{
  ℕ, ◌+◌, ◌-◌, ◌/◌, ◌^◌, Bool, true, false, not, ◌&&◌, ◌||◌, List, [], ◌∷◌, ◌++◌, Option, none,
  some, if◌then◌else◌, ◌==◌, ltb, leb, length, take, String, str_eq, ℤ, pos, negsuc, leb_ℤ, ltb_ℤ,
  add64, pos_part,
}
use anti_nat.Hook.Queue.Table.{
  Delivery, DeliveryState, pending, in_flight, delivered, failed, dlqed, dropped, QueuePolicy, Db,
  Audit, coalesced, dlqed_full, dlqed_no_target, dlqed_attempts, dropped_event,
  dropped_decommission, retried, decommission_marked, is_active, is_retryable, is_waiting,
  update_where, find_row, count_rows, has_id, earliest, claim_order,
}

pub data HookError : Type 0 where
  not_found invalid queue_full cas_conflict db_failed random_failed : HookError

pub data Answer : Type 0 where
  row : Delivery → Answer
  done : Answer
  rows_claimed : List Delivery → Answer
  refused : HookError → Answer

abbrev default_max_queue : ℤ
default_max_queue = pos 100

abbrev default_max_attempts : ℤ
default_max_attempts = pos 8

unfoldable pub normalized : QueuePolicy → QueuePolicy
normalized p = record {
  version = if leb_ℤ p.version (pos 0) then pos 1 else p.version;
  on_full =
      if not (str_eq p.on_full "coalesce")
        && not (str_eq p.on_full "drop")
        && not (str_eq p.on_full "dlq")
      then "dlq"
      else p.on_full;
  max_queue = if leb_ℤ p.max_queue (pos 0) then default_max_queue else p.max_queue;
  max_attempts = if leb_ℤ p.max_attempts (pos 0) then default_max_attempts else p.max_attempts;
}

pub record Event : Type 0 where
  pub hook_id : String
  pub event_id : String
  pub kind : String
  pub node_id : String
  pub payload : String
  pub policy : QueuePolicy
  pub script : List ℕ
  pub secret_id : String

abbrev pub event_kind : Event → String
event_kind evt = if str_eq evt.kind "" then "lifecycle" else evt.kind

abbrev pub same_event : String → String → Delivery → Bool
same_event hook_id event_id d = str_eq d.hook_id hook_id && str_eq d.event_id event_id

abbrev pub in_backlog : String → Delivery → Bool
in_backlog hook_id d = str_eq d.hook_id hook_id && is_active d.state

abbrev pub row_or_missing : Option Delivery → Answer
row_or_missing none = refused not_found
row_or_missing (some d) = row d

abbrev pub get_delivery : String → Db → Answer
get_delivery id db = row_or_missing (find_row (has_id id) db.rows)

module _ (base64 : List ℕ → String) where
  abbrev b64_str : List ℕ → String
  b64_str [] = ""
  b64_str (b ∷ bs) = base64 (b ∷ bs)

  -- The row that insertDelivery writes.
  abbrev pub delivery_for : String → Event → QueuePolicy → DeliveryState → ℕ → String → Delivery
  delivery_for id evt policy state ts last_error = record {
    id = id;
    hook_id = evt.hook_id;
    event_id = evt.event_id;
    kind = event_kind evt;
    state = state;
    attempt_count = 0;
    max_attempts = policy.max_attempts;
    next_attempt_at = ts;
    policy_json = normalized policy;
    payload_json = evt.payload;
    script_b64 = b64_str evt.script;
    secret_id = evt.secret_id;
    last_error = last_error;
    node_id = evt.node_id;
    decommission_deadline = 0;
    created_at = ts;
    updated_at = ts;
  }

  -- insertDelivery with its audit records and the commit; an identifier that is in use violates the
  -- primary key.
  abbrev pub insert_delivery :
      Db
      → Event
      → QueuePolicy
      → DeliveryState
      → ℕ
      → String
      → List Audit
      → Bool
      → String
      → Option Delivery
      → Db × Answer
  insert_delivery db evt policy state ts last_error records commits id (some taken) =
      (db, refused db_failed)
  insert_delivery db evt policy state ts last_error records commits id none =
      let d = delivery_for id evt policy state ts last_error in
      if commits
      then (record { rows = db.rows ++ (d ∷ []); audit = records ++ db.audit }, row d)
      else (db, refused db_failed)

  abbrev pub insert_fresh :
      Db
      → Event
      → QueuePolicy
      → DeliveryState
      → ℕ
      → String
      → (String → List Audit)
      → Bool
      → Option String
      → Db × Answer
  insert_fresh db evt policy state ts last_error records commits none = (db, refused random_failed)
  insert_fresh db evt policy state ts last_error records commits (some id) =
      insert_delivery db evt policy state ts last_error (records id) commits id
        (find_row (has_id id) db.rows)

  -- A FAILED target starts afresh; another keeps its attempts and its time.
  abbrev pub coalesce_row : Event → ℕ → DeliveryState → Delivery → Delivery
  coalesce_row evt ts failed d = record d {
    state = pending;
    attempt_count = 0;
    next_attempt_at = ts;
    payload_json = evt.payload;
    script_b64 = b64_str evt.script;
    secret_id = evt.secret_id;
    updated_at = ts;
  }
  coalesce_row evt ts other d = record d {
    payload_json = evt.payload;
    script_b64 = b64_str evt.script;
    secret_id = evt.secret_id;
    updated_at = ts;
  }

  abbrev pub coalesce_into :
      Db → Event → QueuePolicy → ℕ → Bool → Option String → Option Delivery → Db × Answer
  coalesce_into db evt policy ts commits drawn (some target) =
      let after : Db = record {
        rows = update_where (has_id target.id) (λ d. coalesce_row evt ts target.state d) db.rows;
        audit = coalesced target.id evt.hook_id evt.event_id ∷ db.audit;
      } in
      if commits then (after, get_delivery target.id after) else (db, refused db_failed)
  coalesce_into db evt policy ts commits drawn none =
      insert_fresh db evt policy dlqed ts "queue coalesce fallback to DLQ"
        (λ id. dlqed_no_target id evt.hook_id evt.event_id ∷ []) commits drawn

  unfoldable pub enqueue_full : Db → Event → QueuePolicy → ℕ → Bool → Option String → Db × Answer
  enqueue_full db evt policy ts commits drawn =
      if str_eq policy.on_full "coalesce"
      then coalesce_into db evt policy ts commits drawn (
          earliest
            (λ d.
              str_eq d.hook_id evt.hook_id && str_eq d.kind (event_kind evt) && is_waiting d.state)
            db.rows)
      else if str_eq policy.on_full "drop"
      then if commits
        then (
          record db { audit = dropped_event evt.hook_id evt.event_id ∷ db.audit },
          refused queue_full,
        )
        else (db, refused db_failed)
      else insert_fresh db evt policy dlqed ts "queue full (DLQ policy)"
          (λ id. dlqed_full id evt.hook_id evt.event_id ∷ []) commits drawn

  -- After the duplicate lookup.
  abbrev pub enqueue_new :
      Db → Event → QueuePolicy → ℕ → Bool → Option String → Option Delivery → Db × Answer
  enqueue_new db evt policy ts commits drawn (some existing) = (db, get_delivery existing.id db)
  enqueue_new db evt policy ts commits drawn none =
      if leb_ℤ policy.max_queue (pos (count_rows (in_backlog evt.hook_id) db.rows))
      then enqueue_full db evt policy ts commits drawn
      else insert_fresh db evt policy pending ts "" (λ id. []) commits drawn

  -- `defined` says whether the hook's definition exists; the definitions are not part of the state, so
  -- that it may say so or not at any call.
  unfoldable pub enqueue_event : Db → Event → Bool → ℕ → Bool → Option String → Db × Answer
  enqueue_event db evt defined ts commits drawn =
      if str_eq evt.hook_id "" || str_eq evt.event_id ""
      then (db, refused invalid)
      else if not defined
      then (db, refused not_found)
      else enqueue_new db evt (normalized evt.policy) ts commits drawn
          (find_row (same_event evt.hook_id evt.event_id) db.rows)
