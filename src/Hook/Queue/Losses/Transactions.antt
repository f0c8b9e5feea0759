-- ===== src/Hook/Queue/Losses/Transactions.antt =====
-- internal/hook/queue.go: the other transactions record what they drop or dead-letter.
use anti_nat.Common.{ℕ, refl, Bool, leb, String, str_eq, ℤ, pos, negsuc, leb_ℤ}
use anti_nat.Hook.Queue.{done}
use anti_nat.Hook.Queue.Table.{Db, retried, dlqed_attempts}
use anti_nat.Hook.Queue.Claim.{is_stuck, requeue, claimed, claim_due}
use anti_nat.Hook.Queue.Finish.{
  Failing, failing_done, failing_dlq, failing_retry, mark_failed_write,
}
use anti_nat.Hook.Queue.Retry.{
  retryable_row, retry_row, retry_delivery, mark_decommissioned, on_node, arm_row, armed_db,
}
use anti_nat.Hook.Queue.Finish.{in_flight_row}
use anti_nat.Hook.Queue.Rows.{either}
use anti_nat.Hook.Queue.Losses.Records.{
  IsAudited, and_left, claim_each-audited, drop_each-IsAudited, has_record, or_left, unrecorded,
  updated,
}

pub claim_due-IsAudited :
    (id_before : String → String → Bool) (db : Db) (ts : ℕ) (max : ℤ) (commits : Bool)
    → IsAudited db
    → IsAudited (claim_due id_before db ts max commits).0
unfolding claim_due claimed
claim_due-IsAudited id_before db ts (negsuc n) commits v = v
claim_due-IsAudited id_before db ts (pos max) commits v = either IsAudited (leb max 0) _ _ v (
    either IsAudited commits _ _
      (claim_each-audited _ ts _ _ (
        drop_each-IsAudited ts _ _
          (unrecorded db.audit (is_stuck ts) (requeue ts) db.rows (λ d q. refl) v)))
      v)

pub mark_failed_write-IsAudited :
    (db : Db) (id message : String) (ts : ℕ) (commits : Bool) (plan : Failing)
    → IsAudited db
    → IsAudited (mark_failed_write db id message ts commits plan).0
unfolding mark_failed_write has_record
mark_failed_write-IsAudited db id message ts commits (failing_done a) v = v
mark_failed_write-IsAudited db id message ts commits (failing_dlq n) v =
    either IsAudited commits _ _
      (updated (dlqed_attempts id) db.audit (in_flight_row id) _ db.rows
        (λ d e q. or_left (str_eq d.id id) _ (and_left (str_eq d.id id) _ e)) v)
      v
mark_failed_write-IsAudited db id message ts commits (failing_retry n t) v =
    either IsAudited commits _ _ (unrecorded db.audit _ _ db.rows (λ d q. refl) v) v

pub retry_delivery-IsAudited :
    (db : Db) (id : String) (ts : ℕ) (commits : Bool)
    → IsAudited db
    → IsAudited (retry_delivery db id ts commits).0
unfolding retry_delivery
retry_delivery-IsAudited db id ts commits v = either IsAudited _ _ _ v (
    either IsAudited commits _ _
      (updated (retried id) db.audit (retryable_row id) (retry_row ts) db.rows (λ d e q. refl) v) v)

pub mark_decommissioned-IsAudited :
    (db : Db) (node_id : String) (deadline : ℤ) (ts : ℕ) (commits : Bool)
    → IsAudited db
    → IsAudited (mark_decommissioned db node_id deadline ts commits).0
unfolding mark_decommissioned
mark_decommissioned-IsAudited db node_id deadline ts commits v =
    either IsAudited (str_eq node_id "") _ _ v (
      either IsAudited (leb_ℤ deadline (pos 0)) _ _ v (
        either IsAudited commits (armed_db db node_id deadline ts, done) _
          (updated _ db.audit (on_node node_id) (arm_row deadline ts) db.rows (λ d e q. q) v) v))
