-- ===== src/Hook/Queue/Claim.antt =====
-- internal/hook/queue.go, ClaimDue: stuck rows go back, rows of decommissioned nodes are dropped, and
-- due rows are claimed, in one transaction.
use anti_nat.Common.{
  ℕ, ◌+◌, Bool, ◌&&◌, List, [], ◌∷◌, Option, none, some, if◌then◌else◌, ltb, leb, take, String, ℤ,
  pos, negsuc,
}
use anti_nat.Hook.Queue.{Answer, rows_claimed, refused, db_failed}
use anti_nat.Hook.Queue.Table.{
  Delivery, pending, in_flight, dropped, Db, dropped_decommission, is_active, is_waiting,
  is_in_flight, update_where, find_row, filter_rows, has_id, claim_order,
}

abbrev pub in_flight_stuck_seconds : ℕ
in_flight_stuck_seconds = 300

-- `updated_at < ts - inFlightStuckSeconds`.
abbrev pub is_stuck : ℕ → Delivery → Bool
is_stuck ts d = is_in_flight d.state && ltb (d.updated_at + in_flight_stuck_seconds) ts

abbrev pub requeue : ℕ → Delivery → Delivery
requeue ts d = record d { state = pending; next_attempt_at = ts; updated_at = ts }

abbrev pub past_deadline : ℕ → Delivery → Bool
past_deadline ts d =
    ltb 0 d.decommission_deadline && leb d.decommission_deadline ts && is_active d.state

abbrev pub drop_row : ℕ → Delivery → Delivery
drop_row ts d = record d { state = dropped; updated_at = ts }

-- The loop over the rows to drop: an update by identifier and an audit record for each.
unfoldable pub drop_each : ℕ → List Delivery → Db → Db
drop_each ts [] db = db
drop_each ts (r ∷ rs) db = drop_each ts rs (record {
  rows = update_where (has_id r.id) (drop_row ts) db.rows;
  audit = dropped_decommission r.id r.hook_id r.event_id r.node_id ∷ db.audit;
})

abbrev pub is_due : ℕ → Delivery → Bool
is_due ts d = is_waiting d.state && leb d.next_attempt_at ts

abbrev pub claim_row : ℕ → Delivery → Delivery
claim_row ts d = record d { state = in_flight; updated_at = ts }

unfoldable pub claim_each : ℕ → List Delivery → List Delivery → List Delivery
claim_each ts [] rows = rows
claim_each ts (r ∷ rs) rows =
    claim_each ts rs (update_where (λ d. has_id r.id d && is_waiting d.state) (claim_row ts) rows)

abbrev pub cons_row : Option Delivery → Option (List Delivery) → Option (List Delivery)
cons_row (some d) (some ds) = some (d ∷ ds)
cons_row other rest = none

-- The rows as they are read again after the commit.
unfoldable pub reread : List Delivery → List Delivery → Option (List Delivery)
reread [] rows = some []
reread (r ∷ rs) rows = cons_row (find_row (has_id r.id) rows) (reread rs rows)

module _ (id_before : String → String → Bool) where
  -- The state that the transaction commits, and the rows that it selected.
  unfoldable pub claimed : Db → ℕ → ℕ → Db × List Delivery
  claimed db ts max =
      let requeued = update_where (is_stuck ts) (requeue ts) db.rows in
      let swept =
        drop_each ts (filter_rows (past_deadline ts) requeued) (record db { rows = requeued }) in
      let picked = take max (claim_order id_before (filter_rows (is_due ts) swept.rows)) in
      (record swept { rows = claim_each ts picked swept.rows }, picked)

  abbrev answer_claim : Option (List Delivery) → Answer
  answer_claim none = refused db_failed
  answer_claim (some ds) = rows_claimed ds

  unfoldable pub claim_due : Db → ℕ → ℤ → Bool → Db × Answer
  claim_due db ts (negsuc n) commits = (db, rows_claimed [])
  claim_due db ts (pos max) commits =
      let (after, picked) = claimed db ts max in
      if leb max 0
      then (db, rows_claimed [])
      else if commits
      then (after, answer_claim (reread picked after.rows))
      else (db, refused db_failed)
