-- ===== src/Hook/Queue/Finish.antt =====
-- internal/hook/queue.go, MarkDelivered and MarkFailed, with the backoff; and what the dispatcher
-- makes of a response. MarkFailed reads the row and writes it in two steps, between which other
-- calls may run.
use anti_nat.Common.{
  ℕ, ◌+◌, ◌-◌, ◌/◌, ◌^◌, Bool, not, ◌&&◌, ◌||◌, ◌∷◌, Option, none, some, if◌then◌else◌, ltb, leb,
  String, ℤ, pos, negsuc, leb_ℤ, ltb_ℤ, add64, pos_part,
}
use anti_nat.Hook.Queue.{Answer, done, refused, db_failed, not_found}
use anti_nat.Hook.Queue.Table.{
  Delivery, delivered, failed, dlqed, Db, dlqed_attempts, is_in_flight, update_where, find_row,
  has_id,
}

-- `int64(1) << (attempt - 1)`, then the bounds.
abbrev pub clamp_base : ℤ → ℤ
clamp_base base =
    let low = if ltb_ℤ base (pos 1) then pos 1 else base in
    if ltb_ℤ (pos 300) low then pos 300 else low

abbrev pub clamp_attempt : ℤ → ℕ
clamp_attempt (negsuc n) = 1
clamp_attempt (pos n) = if leb n 0 then 1 else if ltb 8 n then 8 else n

abbrev pub jittered : ℤ → Option (ℤ → ℤ) → ℤ
jittered base none = clamp_base base
jittered base (some jitter) = clamp_base (add64 base (jitter (pos (pos_part base / 5))))

unfoldable pub backoff_seconds : ℤ → Option (ℤ → ℤ) → ℤ
backoff_seconds attempt jitter =
    jittered (clamp_base (pos (2 ^ (clamp_attempt attempt - 1)))) jitter

abbrev tolerate : Option Delivery → Answer
tolerate none = refused not_found
tolerate (some d) = done

abbrev pub in_flight_row : String → Delivery → Bool
in_flight_row id d = has_id id d && is_in_flight d.state

unfoldable pub mark_delivered : Db → String → ℕ → Bool → Db × Answer
mark_delivered db id ts commits =
    if commits
    then (
      record db {
        rows =
            update_where (in_flight_row id)
              (λ d. record d { state = delivered; last_error = ""; updated_at = ts }) db.rows;
      },
      tolerate (find_row (has_id id) db.rows),
    )
    else (db, refused db_failed)

-- What MarkFailed has decided on once the row is read.
pub data Failing : Type 0 where
  failing_done : Answer → Failing
  failing_retry : ℕ → ℕ → Failing
  failing_dlq : ℕ → Failing

abbrev decide_failing : ℕ → (ℤ → ℤ) → Option Delivery → Failing
decide_failing ts jitter none = failing_done (refused not_found)
decide_failing ts jitter (some d) =
    let attempt = d.attempt_count + 1 in
    if not (is_in_flight d.state)
    then failing_done done
    else if leb_ℤ d.max_attempts (pos attempt)
    then failing_dlq attempt
    else failing_retry attempt (ts + pos_part (backoff_seconds (pos attempt) (some jitter)))

unfoldable pub mark_failed_read : Db → String → ℕ → (ℤ → ℤ) → Failing
mark_failed_read db id ts jitter = decide_failing ts jitter (find_row (has_id id) db.rows)

unfoldable pub mark_failed_write : Db → String → String → ℕ → Bool → Failing → Db × Answer
mark_failed_write db id message ts commits (failing_done a) = (db, a)
mark_failed_write db id message ts commits (failing_dlq attempt) =
    if commits
    then (
      record {
        rows =
            update_where (in_flight_row id)
              (λ d. record d {
                state = dlqed;
                attempt_count = attempt;
                last_error = message;
                updated_at = ts;
              })
              db.rows;
        audit = dlqed_attempts id ∷ db.audit;
      },
      done,
    )
    else (db, refused db_failed)
mark_failed_write db id message ts commits (failing_retry attempt next) =
    if commits
    then (
      record db {
        rows =
            update_where (in_flight_row id)
              (λ d. record d {
                state = failed;
                attempt_count = attempt;
                next_attempt_at = next;
                last_error = message;
                updated_at = ts;
              })
              db.rows;
      },
      done,
    )
    else (db, refused db_failed)

-- What preparing and sending a delivery came to.
pub data Sent : Type 0 where
  not_prepared not_sent : String → Sent
  no_response : Sent
  responded : ℤ → Sent

-- The message of a failure; without one the delivery is delivered.
unfoldable pub failure_of : (ℤ → String) → Sent → Option String
failure_of status_message (not_prepared scrubbed) = some scrubbed
failure_of status_message (not_sent scrubbed) = some scrubbed
failure_of status_message no_response = some "webhook sender returned no response"
failure_of status_message (responded code) =
    if ltb_ℤ code (pos 200) || leb_ℤ (pos 300) code then some (status_message code) else none

unfoldable pub record_outcome : Db → String → ℕ → Bool → (ℤ → ℤ) → Option String → Db × Answer
record_outcome db id ts commits jitter none = mark_delivered db id ts commits
record_outcome db id ts commits jitter (some message) =
    mark_failed_write db id message ts commits (mark_failed_read db id ts jitter)

unfoldable pub deliver : (ℤ → String) → Db → String → Sent → ℕ → Bool → (ℤ → ℤ) → Db × Answer
deliver status_message db id sent ts commits jitter =
    record_outcome db id ts commits jitter (failure_of status_message sent)
