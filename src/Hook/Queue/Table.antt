-- ===== src/Hook/Queue/Table.antt =====
-- internal/hook/hook.go and queue.go: the rows of hook_deliveries and of admin_events, and the SQL
-- that the queue runs on them.
use anti_nat.Common.{
  ℕ, ◌+◌, Bool, true, false, ◌&&◌, ◌||◌, List, [], ◌∷◌, Option, none, some, if◌then◌else◌, ltb,
  ◌==◌, String, str_eq, ℤ,
}

pub data DeliveryState : Type 0 where
  pending in_flight delivered failed dlqed dropped : DeliveryState

-- `state IN ('PENDING','IN_FLIGHT','FAILED')`, `state IN ('FAILED','DLQED')`,
-- `state IN ('PENDING','FAILED')`.
abbrev pub is_active : DeliveryState → Bool
is_active pending = true
is_active in_flight = true
is_active delivered = false
is_active failed = true
is_active dlqed = false
is_active dropped = false

abbrev pub is_retryable : DeliveryState → Bool
is_retryable pending = false
is_retryable in_flight = false
is_retryable delivered = false
is_retryable failed = true
is_retryable dlqed = true
is_retryable dropped = false

abbrev pub is_waiting : DeliveryState → Bool
is_waiting pending = true
is_waiting in_flight = false
is_waiting delivered = false
is_waiting failed = true
is_waiting dlqed = false
is_waiting dropped = false

abbrev pub is_in_flight : DeliveryState → Bool
is_in_flight pending = false
is_in_flight in_flight = true
is_in_flight delivered = false
is_in_flight failed = false
is_in_flight dlqed = false
is_in_flight dropped = false

pub record QueuePolicy : Type 0 where
  pub version : ℤ
  pub on_full : String
  pub max_queue : ℤ
  pub max_attempts : ℤ

-- policy_json is the policy that it renders.
pub record Delivery : Type 0 where
  pub id : String
  pub hook_id : String
  pub event_id : String
  pub kind : String
  pub state : DeliveryState
  pub attempt_count : ℕ
  pub max_attempts : ℤ
  pub next_attempt_at : ℕ
  pub policy_json : QueuePolicy
  pub payload_json : String
  pub script_b64 : String
  pub secret_id : String
  pub last_error : String
  pub node_id : String
  pub decommission_deadline : ℕ
  pub created_at : ℕ
  pub updated_at : ℕ

-- The event types of admin_events with what their payloads hold; DLQED has three reasons.
pub data Audit : Type 0 where
  coalesced : String → String → String → Audit
  dlqed_full : String → String → String → Audit
  dlqed_no_target : String → String → String → Audit
  dlqed_attempts : String → Audit
  dropped_event : String → String → Audit
  dropped_decommission : String → String → String → String → Audit
  retried : String → Audit
  decommission_marked : String → ℕ → ℕ → Audit

pub record Db : Type 0 where
  pub rows : List Delivery
  pub audit : List Audit

-- `UPDATE … WHERE p`.
unfoldable pub update_where :
    (Delivery → Bool) → (Delivery → Delivery) → List Delivery → List Delivery
update_where p f [] = []
update_where p f (d ∷ ds) = (if p d then f d else d) ∷ update_where p f ds

-- The first row with a property, and how many there are.
unfoldable pub find_row : (Delivery → Bool) → List Delivery → Option Delivery
find_row p [] = none
find_row p (d ∷ ds) = let rest = find_row p ds in if p d then some d else rest

unfoldable pub count_rows : (Delivery → Bool) → List Delivery → ℕ
count_rows p [] = 0
count_rows p (d ∷ ds) = (if p d then 1 else 0) + count_rows p ds

unfoldable pub filter_rows : (Delivery → Bool) → List Delivery → List Delivery
filter_rows p [] = []
filter_rows p (d ∷ ds) = let rest = filter_rows p ds in if p d then d ∷ rest else rest

abbrev pub has_id : String → Delivery → Bool
has_id id d = str_eq d.id id

-- `ORDER BY created_at LIMIT 1`; of rows created together, the one inserted first.
abbrev pub earlier : Delivery → Option Delivery → Delivery
earlier d none = d
earlier d (some e) = if ltb e.created_at d.created_at then e else d

unfoldable pub earliest : (Delivery → Bool) → List Delivery → Option Delivery
earliest p [] = none
earliest p (d ∷ ds) = let rest = earliest p ds in if p d then some (earlier d rest) else rest

module _ (id_before : String → String → Bool) where
  -- `ORDER BY next_attempt_at, id`.
  abbrev claimed_before : Delivery → Delivery → Bool
  claimed_before d e =
      ltb d.next_attempt_at e.next_attempt_at
      || ((d.next_attempt_at == e.next_attempt_at) && id_before d.id e.id)

  unfoldable pub insert_ordered : Delivery → List Delivery → List Delivery
  insert_ordered d [] = d ∷ []
  insert_ordered d (e ∷ es) =
      let rest = insert_ordered d es in if claimed_before d e then d ∷ e ∷ es else e ∷ rest

  unfoldable pub claim_order : List Delivery → List Delivery
  claim_order [] = []
  claim_order (d ∷ ds) = insert_ordered d (claim_order ds)
