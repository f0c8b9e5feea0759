-- ===== src/Hook/Queue/Losses.antt =====
-- internal/hook/queue.go: no delivery is dead-lettered or dropped without its record in admin_events.
pub mod Records
pub mod Enqueue
pub mod Transactions
use anti_nat.Common.{
  ℕ, ◌+◌, ◌≡◌, ◌⊎◌, inl, inr, refl, sym, ap, ◌∙◌, Bool, true, false, not, ◌&&◌, ◌||◌, List, [], ◌∷◌,
  ◌++◌, Option, none, some, if◌then◌else◌, ◌==◌, leb, String, str_eq, ℤ, pos, negsuc, leb_ℤ,
  Bool-cases, Option-cases, All, str_eq_self, arith,
}
use anti_nat.Hook.Queue.{
  Event, Answer, refused, db_failed, queue_full, done, normalized, same_event, in_backlog,
  delivery_for, insert_delivery, insert_fresh, coalesce_row, coalesce_into, enqueue_full,
  enqueue_new, enqueue_event, event_kind,
}
use anti_nat.Hook.Queue.Table.{
  Delivery, DeliveryState, pending, in_flight, delivered, failed, dlqed, dropped, QueuePolicy, Db,
  Audit, coalesced, retried, decommission_marked, dlqed_attempts, dropped_decommission,
  dropped_event, dlqed_no_target, dlqed_full, is_waiting, update_where, find_row, filter_rows,
  count_rows, has_id, earliest,
}
use anti_nat.Hook.Queue.Claim.{
  is_stuck, requeue, past_deadline, drop_row, drop_each, is_due, claim_row, claim_each, claimed,
  claim_due,
}
use anti_nat.Hook.Queue.Finish.{
  Failing, failing_done, failing_dlq, failing_retry, mark_delivered, mark_failed_write,
}
use anti_nat.Hook.Queue.Retry.{
  retryable_row, retry_row, retry_delivery, retry_delivery_and_record, mark_decommissioned, on_node,
  arm_row, armed_db,
}
use anti_nat.Hook.Queue.Calls.{
  Call, enqueue_call, claim_call, delivered_call, failed_call, retry_call, retry_record_call,
  decommission_call, delete_call, empty_db, step, run,
}
use anti_nat.Hook.Queue.Finish.{in_flight_row}
use anti_nat.Hook.Queue.Rows.{either, All-filter_rows}
use anti_nat.Hook.Queue.Definitions.{of_other_hook, delete_definition-keeps}
use anti_nat.Hook.Queue.Losses.Records.{
  IsAudited, and_left, claim_each-audited, drop_each-IsAudited, has_record, has_record_head,
  or_left, or_right, recorded, records_dlq, records_drop, row_audited, state_audited,
  state_audited-cons, unrecorded, updated,
}
use anti_nat.Hook.Queue.Losses.Enqueue.{enqueue_event-IsAudited}
use anti_nat.Hook.Queue.Losses.Transactions.{
  claim_due-IsAudited, mark_decommissioned-IsAudited, mark_failed_write-IsAudited,
  retry_delivery-IsAudited,
}

module _ (base64 : List ℕ → String) (id_before : String → String → Bool) where
  step-IsAudited : (db : Db) (c : Call) → IsAudited db → IsAudited (step base64 id_before db c)
  unfolding step mark_delivered retry_delivery_and_record
  step-IsAudited db (enqueue_call evt defined ts commits drawn) v =
      enqueue_event-IsAudited base64 db evt defined ts commits drawn v
  step-IsAudited db (claim_call ts max commits) v =
      claim_due-IsAudited id_before db ts max commits v
  step-IsAudited db (delivered_call id ts commits) v =
      either IsAudited commits _ _ (unrecorded db.audit _ _ db.rows (λ d q. refl) v) v
  step-IsAudited db (failed_call id message ts commits plan) v =
      mark_failed_write-IsAudited db id message ts commits plan v
  step-IsAudited db (retry_call id ts commits) v = retry_delivery-IsAudited db id ts commits v
  step-IsAudited db (retry_record_call id op_id ts commits) v =
      either IsAudited _ _ _ v (retry_delivery-IsAudited db id ts commits v)
  step-IsAudited db (decommission_call node_id deadline ts commits) v =
      mark_decommissioned-IsAudited db node_id deadline ts commits v
  step-IsAudited db (delete_call id expected_rev stored commits) v =
      delete_definition-keeps IsAudited db id expected_rev stored commits v
        (All-filter_rows _ (of_other_hook id) db.rows v)

  run-IsAudited :
      (db : Db) (calls : List Call) → IsAudited db → IsAudited (run base64 id_before db calls)
  unfolding run
  run-IsAudited db [] v = v
  run-IsAudited db (c ∷ calls) v =
      run-IsAudited (step base64 id_before db c) calls (step-IsAudited db c v)

  -- After any calls on an empty database, whatever fails and however the steps of failure reports
  -- interleave with other calls, each delivery in state DLQED has a record HOOK_DELIVERY_DLQED with
  -- its identifier in admin_events, and each in state DROPPED_DUE_TO_DECOMMISSION a record of that
  -- type.
  pub no_silent_loss :
      (calls : List Call)
      → let db = run base64 id_before empty_db calls in
        All (λ d. row_audited db.audit d ≡ true) db.rows
  no_silent_loss calls = run-IsAudited empty_db calls tt
