-- ===== src/Hook/Queue/Calls.antt =====
-- internal/hook/queue.go, with DeleteDefinition of internal/hook/crud.go: sequences of transactions on
-- one database. What MarkFailed writes is any
-- decision, so that the sequences include every interleaving of its two steps with other calls.
use anti_nat.Common.{ℕ, Bool, List, [], ◌∷◌, Option, String, ℤ}
use anti_nat.Hook.Queue.{Event, enqueue_event}
use anti_nat.Hook.Queue.Table.{Db}
use anti_nat.Hook.Queue.Claim.{claim_due}
use anti_nat.Hook.Queue.Finish.{Failing, mark_delivered, mark_failed_write}
use anti_nat.Hook.Queue.Retry.{retry_delivery, retry_delivery_and_record, mark_decommissioned}
use anti_nat.Hook.Queue.Definitions.{delete_definition}

pub data Call : Type 0 where
  enqueue_call : Event → Bool → ℕ → Bool → Option String → Call
  claim_call : ℕ → ℤ → Bool → Call
  delivered_call : String → ℕ → Bool → Call
  failed_call : String → String → ℕ → Bool → Failing → Call
  retry_call : String → ℕ → Bool → Call
  retry_record_call : String → String → ℕ → Bool → Call
  decommission_call : String → ℤ → ℕ → Bool → Call
  delete_call : String → ℕ → Option ℕ → Bool → Call

abbrev pub empty_db : Db
empty_db = record { rows = []; audit = [] }

module _ (base64 : List ℕ → String) (id_before : String → String → Bool) where
  unfoldable pub step : Db → Call → Db
  step db (enqueue_call evt defined ts commits drawn) =
      (enqueue_event base64 db evt defined ts commits drawn).0
  step db (claim_call ts max commits) = (claim_due id_before db ts max commits).0
  step db (delivered_call id ts commits) = (mark_delivered db id ts commits).0
  step db (failed_call id message ts commits plan) =
      (mark_failed_write db id message ts commits plan).0
  step db (retry_call id ts commits) = (retry_delivery db id ts commits).0
  step db (retry_record_call id op_id ts commits) =
      (retry_delivery_and_record db id op_id ts commits).0
  step db (decommission_call node_id deadline ts commits) =
      (mark_decommissioned db node_id deadline ts commits).0
  step db (delete_call id expected_rev stored commits) =
      (delete_definition db id expected_rev stored commits).0

  unfoldable pub run : Db → List Call → Db
  run db [] = db
  run db (c ∷ calls) = run (step db c) calls
