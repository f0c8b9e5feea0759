-- ===== src/Hook/Queue/Finals.antt =====
-- internal/hook/queue.go: no row disappears while its hook is defined, and delivered and dropped rows
-- never change.
pub mod Open
pub mod Select
pub mod Transactions
use anti_nat.Common.{
  ℕ, ◌+◌, ◌≡◌, ◌⊎◌, inl, inr, refl, sym, ap, ◌∙◌, Bool, true, false, not, ◌&&◌, ◌||◌, List, [], ◌∷◌,
  ◌++◌, Option, none, some, if◌then◌else◌, ◌==◌, leb, ltb, String, str_eq, ℤ, pos, negsuc, leb_ℤ,
  Bool-cases, Option-cases, All, Memᴰ, subst, str_eq_self, str_eq_iff, arith,
}
use anti_nat.Hook.Queue.{
  Event, Answer, refused, db_failed, queue_full, done, normalized, same_event, in_backlog,
  delivery_for, insert_delivery, insert_fresh, coalesce_row, coalesce_into, enqueue_full,
  enqueue_new, enqueue_event, event_kind,
}
use anti_nat.Hook.Queue.Table.{
  Delivery, DeliveryState, pending, in_flight, delivered, failed, dlqed, dropped, QueuePolicy, Db,
  Audit, dropped_event, dlqed_no_target, dlqed_full, is_waiting, is_active, is_retryable,
  is_in_flight, earlier, update_where, find_row, filter_rows, count_rows, has_id, earliest,
}
use anti_nat.Hook.Queue.Claim.{
  is_stuck, requeue, past_deadline, drop_row, drop_each, is_due, claim_row, claim_each, claimed,
  claim_due,
}
use anti_nat.Hook.Queue.Finish.{
  Failing, failing_done, failing_dlq, failing_retry, mark_delivered, mark_failed_write,
}
use anti_nat.Hook.Queue.Retry.{
  retryable_row, retry_row, retry_delivery, retry_delivery_and_record, mark_decommissioned, on_node,
  arm_row, armed_db,
}
use anti_nat.Hook.Queue.Calls.{
  Call, enqueue_call, claim_call, delivered_call, failed_call, retry_call, retry_record_call,
  decommission_call, delete_call, empty_db, step, run,
}
use anti_nat.Hook.Queue.Finish.{in_flight_row}
use anti_nat.Hook.Queue.Rows.{
  Kept, Kept-refl, Kept-trans, mem-filter_rows, Evolves, Evolves-refl, Evolves-trans,
  Evolves-append, Evolves-update_where, Evolves-mem, Identity, is_final, identity, same_id, Unique,
  All-everywhere, either,
}
use anti_nat.Hook.Queue.Definitions.{of_other_hook, delete_definition-keeps}
use anti_nat.Hook.Queue.Keys.{IsKeyed, IsKeyed-update_where, step-IsKeyed}
use anti_nat.Hook.Queue.Finals.Open.{
  IsOpen, active_open, nobody_else, and_left, and_right, flying_open, holders_only, mem_unlike,
  moved, open_row_keeps, open_moved, retryable_open, waiting_open,
}
use anti_nat.Hook.Queue.Finals.Transactions.{
  claim_due-Evolves, coalesce_into-Evolves, coalesced_identity, enqueue_event-Evolves,
  enqueue_full-Evolves, insert_fresh-Evolves, mark_decommissioned-Evolves,
  mark_failed_write-Evolves, retry_delivery-Evolves, third,
}

-- The call is a deletion of the hook's definition.
abbrev pub deletes : String → Call → Bool
deletes hook_id (enqueue_call evt defined ts commits drawn) = false
deletes hook_id (claim_call ts max commits) = false
deletes hook_id (delivered_call id ts commits) = false
deletes hook_id (failed_call id message ts commits plan) = false
deletes hook_id (retry_call id ts commits) = false
deletes hook_id (retry_record_call id op_id ts commits) = false
deletes hook_id (decommission_call node_id deadline ts commits) = false
deletes hook_id (delete_call id expected_rev stored commits) = str_eq hook_id id

-- What became of a row in other rows.
abbrev Survives : Delivery → List Delivery → Type 0
Survives d rows = (e : Delivery) × Memᴰ e rows × Kept d e

module _ (base64 : List ℕ → String) (id_before : String → String → Bool) where
  step-Survives :
      (db : Db) (c : Call) (d : Delivery)
      → IsKeyed db.rows
      → Memᴰ d db.rows
      → deletes d.hook_id c ≡ false
      → Survives d (step base64 id_before db c).rows
  unfolding step mark_delivered retry_delivery_and_record
  step-Survives db (enqueue_call evt defined ts commits drawn) d v m h =
      Evolves-mem db.rows _ d (enqueue_event-Evolves base64 db evt defined ts commits drawn v.ids) m
  step-Survives db (claim_call ts max commits) d v m h =
      Evolves-mem db.rows _ d (claim_due-Evolves id_before db ts max commits v) m
  step-Survives db (delivered_call id ts commits) d v m h =
      either (λ (x : Db). Survives d x.rows) commits _ _
        (Evolves-mem db.rows _ d
          (moved (in_flight_row id) _ db.rows (λ x. refl)
            (λ x e. flying_open x.state (and_right (has_id id x) _ e)))
          m)
        (d, m, Kept-refl d)
  step-Survives db (failed_call id message ts commits plan) d v m h =
      Evolves-mem db.rows _ d (mark_failed_write-Evolves db id message ts commits plan) m
  step-Survives db (retry_call id ts commits) d v m h =
      Evolves-mem db.rows _ d (retry_delivery-Evolves db id ts commits) m
  step-Survives db (retry_record_call id op_id ts commits) d v m h =
      either (λ (x : Db). Survives d x.rows) _ _ _ (d, m, Kept-refl d)
        (Evolves-mem db.rows _ d (retry_delivery-Evolves db id ts commits) m)
  step-Survives db (decommission_call node_id deadline ts commits) d v m h =
      Evolves-mem db.rows _ d (mark_decommissioned-Evolves db node_id deadline ts commits) m
  step-Survives db (delete_call id expected_rev stored commits) d v m h =
      delete_definition-keeps (λ (x : Db). Survives d x.rows) db id expected_rev stored commits
        (d, m, Kept-refl d)
        (d, mem-filter_rows (of_other_hook id) db.rows d m (ap not h), Kept-refl d)

  run-Survives :
      (db : Db) (calls : List Call) (d : Delivery)
      → IsKeyed db.rows
      → Memᴰ d db.rows
      → All (λ c. deletes d.hook_id c ≡ false) calls
      → Survives d (run base64 id_before db calls).rows
  unfolding run
  run-Survives db [] d v m h = (d, m, Kept-refl d)
  run-Survives db (c ∷ calls) d v m h =
      let (e, n, k) = step-Survives db c d v m h.0 in
      let (f, l, q) =
        run-Survives (step base64 id_before db c) calls e (step-IsKeyed base64 id_before db c v) n
          (subst (λ (hook : String). All (λ c. deletes hook c ≡ false) calls) k.same_hook h.1) in
      (f, l, Kept-trans d e f k q)

  -- In a database with unique identifiers and unique pairs of hook and event, each row is there
  -- after any calls of which none deletes the definition of its hook, in some state, with the same
  -- identifier, hook and event.
  pub deliveries_are_kept :
      (db : Db) (calls : List Call) (d : Delivery)
      → IsKeyed db.rows
      → Memᴰ d db.rows
      → All (λ c. deletes d.hook_id c ≡ false) calls
      → (e : Delivery) × Memᴰ e (run base64 id_before db calls).rows × (identity e ≡ identity d)
  deliveries_are_kept db calls d v m h =
      let (e, n, k) = run-Survives db calls d v m h in
      (e, n, (λ i. (sym k.same_id i, sym k.same_hook i, sym k.same_event_id i)))

  -- In a database with unique identifiers and unique pairs of hook and event, a row in state
  -- DELIVERED or DROPPED_DUE_TO_DECOMMISSION is there unchanged after any calls of which none
  -- deletes the definition of its hook.
  pub final_deliveries_never_change :
      (db : Db) (calls : List Call) (d : Delivery)
      → IsKeyed db.rows
      → Memᴰ d db.rows
      → All (λ c. deletes d.hook_id c ≡ false) calls
      → is_final d.state ≡ true
      → Memᴰ d (run base64 id_before db calls).rows
  final_deliveries_never_change db calls d v m h f =
      let (e, n, k) = run-Survives db calls d v m h in
      subst (λ (x : Delivery). Memᴰ x (run base64 id_before db calls).rows) (sym (k.final_same f)) n
