-- ===== src/Hook/Queue/Bounds.antt =====
-- internal/hook/queue.go: the backlog's bound, and the range of the backoff.
use anti_nat.Common.{
  ℕ, ◌+◌, ◌-◌, ◌/◌, ◌^◌, ◌≤◌, ◌<◌, ◌≡◌, inl, inr, refl, sym, ap, subst, ◌∙◌, max, Bool, true, false,
  not, ◌&&◌, ◌||◌, List, [], ◌∷◌, ◌++◌, Option, none, some, if◌then◌else◌, leb, String, str_eq, ℤ,
  pos, negsuc, leb_ℤ, ltb_ℤ, add64, pos_part, Bool-cases, All, Memᴰ, arith,
}
use anti_nat.Hook.Queue.{
  Event, refused, queue_full, normalized, same_event, in_backlog, delivery_for, insert_delivery,
  insert_fresh, coalesce_row, coalesce_into, enqueue_full, enqueue_new, enqueue_event, event_kind,
}
use anti_nat.Hook.Queue.Table.{
  Delivery, DeliveryState, pending, in_flight, delivered, failed, dlqed, dropped, QueuePolicy, Db,
  Audit, dropped_event, dlqed_no_target, dlqed_full, is_waiting, update_where, find_row, count_rows,
  has_id, earliest,
}
use anti_nat.Hook.Queue.Finish.{backoff_seconds, clamp_base, clamp_attempt, jittered}
use anti_nat.Hook.Queue.Rows.{Unique, same_id, either}
use anti_nat.Hook.Queue.Finals.Open.{holders_only}
use anti_nat.Common.Tables.{holds_below, holds_below-at}
use anti_nat.Hook.Queue.Finals.Select.{earliest_mem}
use anti_nat.Hook.Queue.Finals.Transactions.{third}

clamp_base_range : (base : ℤ) → (n : ℕ) × (clamp_base base ≡ pos n) × (1 ≤ n) × (n ≤ 300)
clamp_base_range (negsuc n) = (1, ground arith, ground arith, ground arith)
clamp_base_range (pos n) = elim (Bool-cases (ltb_ℤ (pos n) (pos 1))) [
  | inl e ↦ (1, rw e refl, ground arith, ground arith)
  | inr e ↦ elim (Bool-cases (ltb_ℤ (pos 300) (pos n))) [
    | inl f ↦ (300, rw (e, f) refl, ground arith, ground arith)
    | inr f ↦ (n, rw (e, f) refl, ground arith, ground arith)
  ]
]

clamp_attempt_range : (attempt : ℤ) → (1 ≤ clamp_attempt attempt) × (clamp_attempt attempt ≤ 8)
clamp_attempt_range (negsuc n) = ground arith
clamp_attempt_range (pos n) = ground arith

power_table : holds_below 8 (λ k. leb 1 (2 ^ k) && leb (2 ^ k) 128) ≡ true
unfolding holds_below
power_table = refl

power_range : (k : ℕ) → k < 8 → (1 ≤ 2 ^ k) × (2 ^ k ≤ 128)
power_range k h = from (2 ^ k) (holds_below-at 8 _ k power_table h)
  where
    from : (n : ℕ) → leb 1 n && leb n 128 ≡ true → (1 ≤ n) × (n ≤ 128)
    from n e = ground arith

clamp_small : (n : ℕ) → 1 ≤ n → n ≤ 128 → clamp_base (pos n) ≡ pos n
clamp_small n l h = ground arith

-- The backoff is at least 1 and at most 300 seconds for every attempt and every jitter, and without
-- jitter at most 128.
pub backoff_in_range :
    (attempt : ℤ) (jitter : Option (ℤ → ℤ))
    → ((n : ℕ) × (backoff_seconds attempt jitter ≡ pos n) × (1 ≤ n) × (n ≤ 300))
      × ((m : ℕ) × (backoff_seconds attempt none ≡ pos m) × (1 ≤ m) × (m ≤ 128))
unfolding backoff_seconds
backoff_in_range attempt jitter = (
  ranged (clamp_base (pos power)) jitter,
  (
    power,
    ap clamp_base (clamp_small power in_range.0 in_range.1)
        ∙ clamp_small power in_range.0 in_range.1,
    in_range.0,
    in_range.1,
  ),
)
  where
    power : ℕ
    power = 2 ^ (clamp_attempt attempt - 1)

    in_range : (1 ≤ power) × (power ≤ 128)
    in_range = power_range (clamp_attempt attempt - 1) (omega (arith, clamp_attempt_range attempt))

    ranged :
        (base : ℤ) (j : Option (ℤ → ℤ)) → (n : ℕ) × (jittered base j ≡ pos n) × (1 ≤ n) × (n ≤ 300)
    ranged base none = clamp_base_range base
    ranged base (some f) = clamp_base_range (add64 base (f (pos (pos_part base / 5))))

-- The backlog of a hook.
abbrev pub backlog : String → Db → ℕ
backlog hook_id db = count_rows (in_backlog hook_id) db.rows

count-append :
    (p : Delivery → Bool) (ds : List Delivery) (d : Delivery)
    → count_rows p (ds ++ (d ∷ [])) ≡ count_rows p ds + (if p d then 1 else 0)
unfolding count_rows
count-append p [] d = omega arith
count-append p (x ∷ ds) d = omega (arith, count-append p ds d)

count-update_where :
    (q p : Delivery → Bool) (f : Delivery → Delivery) (ds : List Delivery)
    → All (λ d. p d ≡ true → q (f d) ≡ q d) ds
    → count_rows q (update_where p f ds) ≡ count_rows q ds
unfolding count_rows update_where
count-update_where q p f [] h = refl
count-update_where q p f (d ∷ ds) h = elim (Bool-cases (p d)) [
  | inl e ↦ rw (e, h.0 e, count-update_where q p f ds h.1) refl
  | inr e ↦ rw (e, count-update_where q p f ds h.1) refl
]

not_counted : (b : Bool) (n : ℕ) → n + (if b && false then 1 else 0) ≡ n
not_counted true n = omega arith
not_counted false n = omega arith

counted : (b : Bool) (n : ℕ) → n + (if b then 1 else 0) ≤ n + 1
counted true n = omega arith
counted false n = omega arith

module _ (base64 : List ℕ → String) (evt : Event) (policy : QueuePolicy) (ts : ℕ) where
  insert_lost-backlog :
      (db : Db) (last_error : String) (records : String → List Audit) (commits : Bool)
      (drawn : Option String)
      → backlog evt.hook_id
          (insert_fresh base64 db evt policy dlqed ts last_error records commits drawn).0
        ≡ backlog evt.hook_id db
  insert_lost-backlog db last_error records commits none = refl
  insert_lost-backlog db last_error records commits (some id) =
      by_lookup (find_row (has_id id) db.rows)
    where
      by_lookup :
          (o : Option Delivery)
          → backlog evt.hook_id
              (insert_delivery base64 db evt policy dlqed ts last_error (records id) commits id o).0
            ≡ backlog evt.hook_id db
      by_lookup (some d) = refl
      by_lookup none =
          either (λ (x : Db). backlog evt.hook_id x ≡ backlog evt.hook_id db) commits _ _
            (count-append (in_backlog evt.hook_id) db.rows
                (delivery_for base64 id evt policy dlqed ts last_error)
              ∙ not_counted (str_eq evt.hook_id evt.hook_id) (backlog evt.hook_id db))
            refl

  insert_pending-backlog :
      (db : Db) (commits : Bool) (drawn : Option String)
      → backlog evt.hook_id
          (insert_fresh base64 db evt policy pending ts "" (λ id. []) commits drawn).0
        ≤ backlog evt.hook_id db + 1
  insert_pending-backlog db commits none = omega arith
  insert_pending-backlog db commits (some id) = by_lookup (find_row (has_id id) db.rows)
    where
      by_lookup :
          (o : Option Delivery)
          → backlog evt.hook_id
              (insert_delivery base64 db evt policy pending ts "" [] commits id o).0
            ≤ backlog evt.hook_id db + 1
      by_lookup (some d) = omega arith
      by_lookup none =
          either (λ (x : Db). backlog evt.hook_id x ≤ backlog evt.hook_id db + 1) commits _ _
            (subst (λ (n : ℕ). n ≤ backlog evt.hook_id db + 1)
              (sym (
                count-append (in_backlog evt.hook_id) db.rows
                  (delivery_for base64 id evt policy pending ts "")))
              (counted (in_backlog evt.hook_id (delivery_for base64 id evt policy pending ts ""))
                (backlog evt.hook_id db)))
            (omega arith)

  coalesced_backlog :
      (s : DeliveryState) (d : Delivery)
      → d.state ≡ s
      → is_waiting s ≡ true
      → in_backlog evt.hook_id (coalesce_row base64 evt ts s d) ≡ in_backlog evt.hook_id d
  coalesced_backlog pending d e h = refl
  coalesced_backlog in_flight d e h = refl
  coalesced_backlog delivered d e h = refl
  coalesced_backlog failed d e h = rw e refl
  coalesced_backlog dlqed d e h = refl
  coalesced_backlog dropped d e h = refl

  coalesce_into-backlog :
      (db : Db) (p : Delivery → Bool) (commits : Bool) (drawn : Option String)
      → Unique same_id db.rows
      → ((d : Delivery) → p d ≡ true → is_waiting d.state ≡ true)
      → backlog evt.hook_id
          (coalesce_into base64 db evt policy ts commits drawn (earliest p db.rows)).0
        ≡ backlog evt.hook_id db
  coalesce_into-backlog db p commits drawn u waits =
      by_target (earliest p db.rows) (earliest_mem p db.rows)
    where
      by_target :
          (o : Option Delivery)
          → ((t : Delivery) → o ≡ some t → Memᴰ t db.rows × (p t ≡ true))
          → backlog evt.hook_id (coalesce_into base64 db evt policy ts commits drawn o).0
            ≡ backlog evt.hook_id db
      by_target none found =
          insert_lost-backlog db "queue coalesce fallback to DLQ"
            (λ id. dlqed_no_target id evt.hook_id evt.event_id ∷ []) commits drawn
      by_target (some t) found =
          let (m, e) = found t refl in
          either (λ (x : Db). backlog evt.hook_id x ≡ backlog evt.hook_id db) commits _ _
            (count-update_where (in_backlog evt.hook_id) (has_id t.id)
              (λ d. coalesce_row base64 evt ts t.state d) db.rows
              (holders_only
                (λ d.
                  in_backlog evt.hook_id (coalesce_row base64 evt ts t.state d)
                  ≡ in_backlog evt.hook_id d)
                db.rows t u m (coalesced_backlog t.state t refl (waits t e))))
            refl

  enqueue_full-backlog :
      (db : Db) (commits : Bool) (drawn : Option String)
      → Unique same_id db.rows
      → backlog evt.hook_id (enqueue_full base64 db evt policy ts commits drawn).0
        ≡ backlog evt.hook_id db
  unfolding enqueue_full
  enqueue_full-backlog db commits drawn u =
      either (λ (x : Db). backlog evt.hook_id x ≡ backlog evt.hook_id db)
        (str_eq policy.on_full "coalesce") _ _
        (coalesce_into-backlog db _ commits drawn u
          (λ d e. third (str_eq d.hook_id evt.hook_id) (str_eq d.kind (event_kind evt)) _ e))
        (either (λ (x : Db). backlog evt.hook_id x ≡ backlog evt.hook_id db)
          (str_eq policy.on_full "drop") _ _
          (either (λ (x : Db). backlog evt.hook_id x ≡ backlog evt.hook_id db) commits
            (
              record db { audit = dropped_event evt.hook_id evt.event_id ∷ db.audit },
              refused queue_full,
            )
            _ refl refl)
          (insert_lost-backlog db "queue full (DLQ policy)"
            (λ id. dlqed_full id evt.hook_id evt.event_id ∷ []) commits drawn))

room_left : (m : ℤ) (n : ℕ) → leb_ℤ m (pos n) ≡ false → n + 1 ≤ pos_part m
room_left (pos k) n h = ground arith
room_left (negsuc k) n h = absurd (ground arith)

-- With unique identifiers, enqueueing an event leaves its hook at most as many deliveries that are
-- pending, in flight or failed as it had, or as the normalized policy allows.
pub enqueue_backlog_bounded :
    (base64 : List ℕ → String) (db : Db) (evt : Event) (defined : Bool) (ts : ℕ) (commits : Bool)
    (drawn : Option String)
    → Unique same_id db.rows
    → backlog evt.hook_id (enqueue_event base64 db evt defined ts commits drawn).0
      ≤ max (backlog evt.hook_id db) (pos_part (normalized evt.policy).max_queue)
unfolding enqueue_event
enqueue_backlog_bounded base64 db evt defined ts commits drawn u =
    either Within (str_eq evt.hook_id "" || str_eq evt.event_id "") _ _ kept (
      either Within (not defined) _ _ kept
        (new (find_row (same_event evt.hook_id evt.event_id) db.rows)))
  where
    policy : QueuePolicy
    policy = normalized evt.policy

    Within : Db → Type 0
    Within x = backlog evt.hook_id x ≤ max (backlog evt.hook_id db) (pos_part policy.max_queue)

    kept : Within db
    kept = omega arith

    fresh :
        (b : Bool)
        → leb_ℤ policy.max_queue (pos (backlog evt.hook_id db)) ≡ b
        → Within
            (if b
              then enqueue_full base64 db evt policy ts commits drawn
              else insert_fresh base64 db evt policy pending ts "" (λ id. []) commits drawn).0
    fresh true e = omega (arith, enqueue_full-backlog base64 evt policy ts db commits drawn u)
    fresh false e = omega (
      arith,
      room_left policy.max_queue (backlog evt.hook_id db) e,
      insert_pending-backlog base64 evt policy ts db commits drawn,
    )

    new : (o : Option Delivery) → Within (enqueue_new base64 db evt policy ts commits drawn o).0
    new (some d) = kept
    new none = fresh _ refl
