-- ===== src/Scenarios/Queue.antt =====
-- Concrete cases of the delivery queue.
use anti_nat.Common.{
  ℕ, ◌≤◌, ◌≡◌, max, refl, Bool, true, false, List, [], ◌∷◌, none, some, String, str_eq, ℤ, pos,
  pos_part, All, Memᴰ,
}
use anti_nat.Hook.Queue.{Event, enqueue_event, normalized}
use anti_nat.Hook.Queue.Table.{Delivery, DeliveryState, delivered, failed, QueuePolicy, Db}
use anti_nat.Hook.Queue.Finish.{failing_dlq, backoff_seconds}
use anti_nat.Hook.Queue.Calls.{
  Call, enqueue_call, claim_call, failed_call, retry_call, decommission_call, delete_call, empty_db,
  run,
}
use anti_nat.Hook.Queue.Rows.{Unique, identity, same_id, same_hook_event}
use anti_nat.Hook.Queue.Keys.{IsKeyed, no_two_deliveries_alike}
use anti_nat.Hook.Queue.Losses.{no_silent_loss}
use anti_nat.Hook.Queue.Losses.Records.{row_audited}
use anti_nat.Hook.Queue.Finals.{deletes, deliveries_are_kept, final_deliveries_never_change}
use anti_nat.Hook.Queue.Bounds.{backlog, backoff_in_range, enqueue_backlog_bounded}

abbrev no_base64 : List ℕ → String
no_base64 bytes = "c2NyaXB0"

abbrev as_inserted : String → String → Bool
as_inserted a b = true

abbrev a_policy : QueuePolicy
a_policy = record { version = pos 1; on_full = "dlq"; max_queue = pos 1; max_attempts = pos 1 }

abbrev event_named : String → Event
event_named name = record {
  hook_id = "h";
  event_id = name;
  kind = "";
  node_id = "n";
  payload = "{}";
  policy = a_policy;
  script = [];
  secret_id = "";
}

-- Two events of which the second finds the queue full, a repetition, a failure at the bound, a
-- retry, the drop for a decommissioned node, and the deletion of another hook's definition.
abbrev a_day : List Call
a_day =
    enqueue_call (event_named "a") true 10 true (some "1")
    ∷ enqueue_call (event_named "b") true 11 true (some "2")
    ∷ enqueue_call (event_named "a") true 12 true (some "3")
    ∷ claim_call 13 (pos 5) true
    ∷ failed_call "1" "timeout" 14 true (failing_dlq 1)
    ∷ retry_call "2" 15 true
    ∷ decommission_call "n" (pos 20) 16 true
    ∷ claim_call 30 (pos 5) true
    ∷ delete_call "unused" 3 (some 3) true
    ∷ []

no_two_deliveries_alike_example :
    Unique same_id (run no_base64 as_inserted empty_db a_day).rows
    × Unique same_hook_event (run no_base64 as_inserted empty_db a_day).rows
no_two_deliveries_alike_example = no_two_deliveries_alike no_base64 as_inserted a_day

no_silent_loss_example :
    All
      (λ d. row_audited (run no_base64 as_inserted empty_db a_day).audit d ≡ true)
      (run no_base64 as_inserted empty_db a_day).rows
no_silent_loss_example = no_silent_loss no_base64 as_inserted a_day

abbrev row_in : String → DeliveryState → Delivery
row_in id state = record {
  id = id;
  hook_id = "h";
  event_id = id;
  kind = "lifecycle";
  state = state;
  attempt_count = 0;
  max_attempts = pos 8;
  next_attempt_at = 5;
  policy_json = a_policy;
  payload_json = "{}";
  script_b64 = "";
  secret_id = "";
  last_error = "";
  node_id = "n";
  decommission_deadline = 0;
  created_at = 5;
  updated_at = 5;
}

abbrev two_rows : Db
two_rows = record { rows = row_in "x" delivered ∷ row_in "y" failed ∷ []; audit = [] }

two_rows-IsKeyed : IsKeyed two_rows.rows
unfolding str_eq
two_rows-IsKeyed = record { ids = ((refl, tt), (tt, tt)); events = ((refl, tt), (tt, tt)) }

a_day-spares : All (λ c. deletes "h" c ≡ false) a_day
unfolding str_eq
a_day-spares = (refl, (refl, (refl, (refl, (refl, (refl, (refl, (refl, (refl, tt)))))))))

deliveries_are_kept_example :
    (e : Delivery) × Memᴰ e (run no_base64 as_inserted two_rows a_day).rows
    × (identity e ≡ identity (row_in "y" failed))
deliveries_are_kept_example =
    deliveries_are_kept no_base64 as_inserted two_rows a_day (row_in "y" failed) two_rows-IsKeyed
      (Memᴰ.tail (Memᴰ.head refl)) a_day-spares

final_deliveries_never_change_example :
    Memᴰ (row_in "x" delivered) (run no_base64 as_inserted two_rows a_day).rows
final_deliveries_never_change_example =
    final_deliveries_never_change no_base64 as_inserted two_rows a_day (row_in "x" delivered)
      two_rows-IsKeyed (Memᴰ.head refl) a_day-spares refl

enqueue_backlog_bounded_example :
    backlog "h" (enqueue_event no_base64 two_rows (event_named "c") true 10 true (some "9")).0
    ≤ max (backlog "h" two_rows) (pos_part (normalized a_policy).max_queue)
enqueue_backlog_bounded_example =
    enqueue_backlog_bounded no_base64 two_rows (event_named "c") true 10 true (some "9")
      two_rows-IsKeyed.ids

abbrev full_jitter : ℤ → ℤ
full_jitter top = top

backoff_in_range_example :
    ((n : ℕ) × (backoff_seconds (pos 6) (some full_jitter) ≡ pos n) × (1 ≤ n) × (n ≤ 300))
    × ((m : ℕ) × (backoff_seconds (pos 6) none ≡ pos m) × (1 ≤ m) × (m ≤ 128))
backoff_in_range_example = backoff_in_range (pos 6) (some full_jitter)
