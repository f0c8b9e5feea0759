-- ===== src/Hook/Queue/Losses/Enqueue.antt =====
-- internal/hook/queue.go: enqueueing records what it dead-letters.
use anti_nat.Common.{
  ℕ, ◌≡◌, refl, Bool, true, not, ◌||◌, List, [], ◌∷◌, ◌++◌, Option, none, some, String, str_eq, pos,
  leb_ℤ, All, str_eq_self,
}
use anti_nat.Hook.Queue.{
  Event, refused, queue_full, normalized, same_event, in_backlog, delivery_for, insert_delivery,
  insert_fresh, coalesce_row, coalesce_into, enqueue_full, enqueue_new, enqueue_event,
}
use anti_nat.Hook.Queue.Table.{
  Delivery, DeliveryState, pending, in_flight, delivered, failed, dlqed, dropped, QueuePolicy, Db,
  Audit, coalesced, dropped_event, dlqed_no_target, dlqed_full, find_row, count_rows, has_id,
  earliest,
}
use anti_nat.Hook.Queue.Rows.{either}
use anti_nat.Hook.Queue.Losses.Records.{
  IsAudited, has_record, has_record_head, recorded, records_dlq, row_audited, updated,
}

module _ (base64 : List ℕ → String) (evt : Event) (policy : QueuePolicy) (ts : ℕ) where
  appended :
      (log : List Audit) (ds : List Delivery) (d : Delivery)
      → row_audited log d ≡ true
      → All (λ x. row_audited log x ≡ true) ds
      → All (λ x. row_audited log x ≡ true) (ds ++ (d ∷ []))
  appended log [] d h v = (h, tt)
  appended log (x ∷ ds) d h v = (v.0, appended log ds d h v.1)

  -- A new row that is dead-lettered, with its record.
  insert_lost-IsAudited :
      (db : Db) (last_error : String) (record_of : String → Audit) (commits : Bool)
      (drawn : Option String)
      → ((id : String) → records_dlq id (record_of id) ≡ true)
      → IsAudited db
      → IsAudited
          (insert_fresh base64 db evt policy dlqed ts last_error
            (λ id. record_of id ∷ [])
            commits
            drawn).0
  insert_lost-IsAudited db last_error record_of commits none names v = v
  insert_lost-IsAudited db last_error record_of commits (some id) names v =
      by_lookup (find_row (has_id id) db.rows)
    where
      by_lookup :
          (o : Option Delivery)
          → IsAudited
              (insert_delivery base64 db evt policy dlqed ts last_error
                (record_of id ∷ [])
                commits
                id
                o).0
      by_lookup (some d) = v
      by_lookup none =
          either IsAudited commits _ _
            (appended (record_of id ∷ db.audit) db.rows
              (delivery_for base64 id evt policy dlqed ts last_error)
              (named (record_of id) (names id)) (recorded (record_of id) db.audit db.rows v))
            v
        where
          named :
              (a : Audit)
              → records_dlq id a ≡ true
              → has_record (records_dlq id) (a ∷ db.audit) ≡ true
          named a h = has_record_head (records_dlq id) a db.audit h

  insert_pending-IsAudited :
      (db : Db) (commits : Bool) (drawn : Option String)
      → IsAudited db
      → IsAudited (insert_fresh base64 db evt policy pending ts "" (λ id. []) commits drawn).0
  insert_pending-IsAudited db commits none v = v
  insert_pending-IsAudited db commits (some id) v = by_lookup (find_row (has_id id) db.rows)
    where
      by_lookup :
          (o : Option Delivery)
          → IsAudited (insert_delivery base64 db evt policy pending ts "" [] commits id o).0
      by_lookup (some d) = v
      by_lookup none =
          either IsAudited commits _ _
            (appended db.audit db.rows (delivery_for base64 id evt policy pending ts "") refl v) v

  coalesced_row :
      (log : List Audit) (s : DeliveryState) (d : Delivery)
      → row_audited log d ≡ true
      → row_audited log (coalesce_row base64 evt ts s d) ≡ true
  coalesced_row log pending d h = h
  coalesced_row log in_flight d h = h
  coalesced_row log delivered d h = h
  coalesced_row log failed d h = refl
  coalesced_row log dlqed d h = h
  coalesced_row log dropped d h = h

  enqueue_full-IsAudited :
      (db : Db) (commits : Bool) (drawn : Option String)
      → IsAudited db
      → IsAudited (enqueue_full base64 db evt policy ts commits drawn).0
  unfolding enqueue_full
  enqueue_full-IsAudited db commits drawn v =
      either IsAudited (str_eq policy.on_full "coalesce") _ _ (into (earliest _ db.rows)) (
        either IsAudited (str_eq policy.on_full "drop") _ _
          (either IsAudited commits
            (
              record db { audit = dropped_event evt.hook_id evt.event_id ∷ db.audit },
              refused queue_full,
            )
            _ (recorded (dropped_event evt.hook_id evt.event_id) db.audit db.rows v) v)
          (insert_lost-IsAudited db "queue full (DLQ policy)"
            (λ id. dlqed_full id evt.hook_id evt.event_id) commits drawn str_eq_self v))
    where
      into :
          (o : Option Delivery)
          → IsAudited (coalesce_into base64 db evt policy ts commits drawn o).0
      into none =
          insert_lost-IsAudited db "queue coalesce fallback to DLQ"
            (λ id. dlqed_no_target id evt.hook_id evt.event_id) commits drawn str_eq_self v
      into (some t) =
          either IsAudited commits _ _
            (updated (coalesced t.id evt.hook_id evt.event_id) db.audit (has_id t.id)
              (λ d. coalesce_row base64 evt ts t.state d) db.rows
              (λ d _ h. coalesced_row _ t.state d h) v)
            v

pub enqueue_event-IsAudited :
    (base64 : List ℕ → String) (db : Db) (evt : Event) (defined : Bool) (ts : ℕ) (commits : Bool)
    (drawn : Option String)
    → IsAudited db
    → IsAudited (enqueue_event base64 db evt defined ts commits drawn).0
unfolding enqueue_event
enqueue_event-IsAudited base64 db evt defined ts commits drawn v =
    either IsAudited (str_eq evt.hook_id "" || str_eq evt.event_id "") _ _ v (
      either IsAudited (not defined) _ _ v
        (new (find_row (same_event evt.hook_id evt.event_id) db.rows)))
  where
    policy : QueuePolicy
    policy = normalized evt.policy

    new : (o : Option Delivery) → IsAudited (enqueue_new base64 db evt policy ts commits drawn o).0
    new (some d) = v
    new none =
        either IsAudited
          (leb_ℤ policy.max_queue (pos (count_rows (in_backlog evt.hook_id) db.rows))) _ _
          (enqueue_full-IsAudited base64 evt policy ts db commits drawn v)
          (insert_pending-IsAudited base64 evt policy ts db commits drawn v)
