-- ===== src/Hook/Queue/Retry.antt =====
-- internal/hook/queue.go, RetryDelivery, RetryDeliveryAndRecord and MarkDecommissioned.
use anti_nat.Common.{
  ℕ, Bool, not, ◌&&◌, ◌||◌, ◌∷◌, Option, none, some, if◌then◌else◌, ◌==◌, String, str_eq, ℤ, pos,
  leb_ℤ, pos_part,
}
use anti_nat.Hook.Queue.{Answer, done, refused, db_failed, not_found, invalid, get_delivery}
use anti_nat.Hook.Queue.Table.{
  Delivery, pending, Db, retried, decommission_marked, is_active, is_retryable, update_where,
  find_row, count_rows, has_id,
}

abbrev pub retryable_row : String → Delivery → Bool
retryable_row id d = has_id id d && is_retryable d.state

abbrev pub retry_row : ℕ → Delivery → Delivery
retry_row ts d = record d {
  state = pending;
  attempt_count = 0;
  next_attempt_at = ts;
  last_error = "";
  updated_at = ts;
}

abbrev not_retried : Option Delivery → Answer
not_retried none = refused not_found
not_retried (some d) = refused invalid

unfoldable pub retry_delivery : Db → String → ℕ → Bool → Db × Answer
retry_delivery db id ts commits =
    let after : Db = record {
      rows = update_where (retryable_row id) (retry_row ts) db.rows;
      audit = retried id ∷ db.audit;
    } in
    if not (count_rows (retryable_row id) db.rows == 1)
    then (db, not_retried (find_row (has_id id) db.rows))
    else if commits
    then (after, get_delivery id after)
    else (db, refused db_failed)

-- api_operations is not a part of the queue's state: its row is written or the whole transaction is
-- rolled back.
unfoldable pub retry_delivery_and_record : Db → String → String → ℕ → Bool → Db × Answer
retry_delivery_and_record db id op_id ts commits =
    let retried = retry_delivery db id ts commits in
    if str_eq id "" || str_eq op_id "" then (db, refused invalid) else retried

abbrev pub on_node : String → Delivery → Bool
on_node node_id d = str_eq d.node_id node_id && is_active d.state

abbrev pub arm_row : ℤ → ℕ → Delivery → Delivery
arm_row deadline ts d = record d { decommission_deadline = pos_part deadline; updated_at = ts }

abbrev pub armed_db : Db → String → ℤ → ℕ → Db
armed_db db node_id deadline ts = record {
  rows = update_where (on_node node_id) (arm_row deadline ts) db.rows;
  audit =
      decommission_marked node_id (pos_part deadline) (count_rows (on_node node_id) db.rows)
      ∷ db.audit;
}

unfoldable pub mark_decommissioned : Db → String → ℤ → ℕ → Bool → Db × Answer
mark_decommissioned db node_id deadline ts commits =
    if str_eq node_id ""
    then (db, refused invalid)
    else if leb_ℤ deadline (pos 0)
    then (db, refused invalid)
    else if commits
    then (armed_db db node_id deadline ts, done)
    else (db, refused db_failed)
