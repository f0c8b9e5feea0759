-- ===== src/Protocol/Domain/Fsm.antt =====
-- internal/protocol/domain.go: the durable control state machines.
pub mod Runs
use anti_nat.Common.{
  String, Bool, true, false, not, ◌&&◌, ◌||◌, List, [], ◌∷◌, Option, none, some, str_eq,
  if◌then◌else◌,
}
use anti_nat.Protocol.Domain.Kinds.{member}

-- The pairs (from, to) that a machine allows.
abbrev pub TransitionTable : Type 0
TransitionTable = List (String × String)

abbrev pub outbox_table : TransitionTable
outbox_table =
    ("PENDING", "CLAIMED")
    ∷ ("CLAIMED", "SENT")
    ∷ ("SENT", "SEMANTIC_ACKED")
    ∷ ("SEMANTIC_ACKED", "RECEIPTED")
    ∷ ("RECEIPTED", "GC")
    ∷ []

abbrev pub inbox_table : TransitionTable
inbox_table =
    ("RECEIVED", "INTENT_PERSISTED")
    ∷ ("INTENT_PERSISTED", "APPLYING")
    ∷ ("APPLYING", "APPLIED")
    ∷ ("APPLYING", "NACKED")
    ∷ []

abbrev pub key_rotation_table : TransitionTable
key_rotation_table =
    ("PREPARED", "ANNOUNCED")
    ∷ ("ANNOUNCED", "ACKED")
    ∷ ("ACKED", "ACTIVE")
    ∷ ("ACTIVE", "RETIRED")
    ∷ []

abbrev pub decommission_table : TransitionTable
decommission_table =
    ("ACTIVE", "DECOMMISSIONING")
    ∷ ("DECOMMISSIONING", "DECOMMISSIONED")
    ∷ ("DECOMMISSIONED", "CLEANUP_ONLY")
    ∷ []

abbrev pub restore_table : TransitionTable
restore_table =
    ("RESTORED", "RECOVERY_QUARANTINE")
    ∷ ("RECOVERY_QUARANTINE", "RECONCILING")
    ∷ ("RECONCILING", "AUTHORIZED")
    ∷ []

abbrev frozen_fsms : List (String × TransitionTable)
frozen_fsms =
    ("outbox", outbox_table)
    ∷ ("inbox", inbox_table)
    ∷ ("key_rotation", key_rotation_table)
    ∷ ("decommission", decommission_table)
    ∷ ("restore", restore_table)
    ∷ []

abbrev frozen_fsm_states : List (String × List String)
frozen_fsm_states =
    ("outbox", "PENDING" ∷ "CLAIMED" ∷ "SENT" ∷ "SEMANTIC_ACKED" ∷ "RECEIPTED" ∷ "GC" ∷ [])
    ∷ ("inbox", "RECEIVED" ∷ "INTENT_PERSISTED" ∷ "APPLYING" ∷ "APPLIED" ∷ "NACKED" ∷ [])
    ∷ ("key_rotation", "PREPARED" ∷ "ANNOUNCED" ∷ "ACKED" ∷ "ACTIVE" ∷ "RETIRED" ∷ [])
    ∷ ("decommission", "ACTIVE" ∷ "DECOMMISSIONING" ∷ "DECOMMISSIONED" ∷ "CLEANUP_ONLY" ∷ [])
    ∷ ("restore", "RESTORED" ∷ "RECOVERY_QUARANTINE" ∷ "RECONCILING" ∷ "AUTHORIZED" ∷ [])
    ∷ []

unfoldable pub find_table : List (String × TransitionTable) → String → Option TransitionTable
find_table [] fsm = none
find_table ((name, t) ∷ rest) fsm = if str_eq name fsm then some t else find_table rest fsm

-- A missing machine has the empty set of states.
unfoldable pub states_of : List (String × List String) → String → List String
states_of [] fsm = []
states_of ((name, vs) ∷ rest) fsm = if str_eq name fsm then vs else states_of rest fsm

unfoldable pub allows : TransitionTable → String → String → Bool
allows [] from to = false
allows ((a, b) ∷ t) from to = (str_eq a from && str_eq b to) || allows t from to

unfoldable pub valid_fsm_state : String → String → Bool
valid_fsm_state fsm state = member (states_of frozen_fsm_states fsm) state

pub data FsmError : Type 0 where
  unknown_fsm no_from_state no_to_state illegal_transition : FsmError

check_transition : Option TransitionTable → String → String → String → Option FsmError
check_transition none fsm from to = some unknown_fsm
check_transition (some table) fsm from to =
    if not (valid_fsm_state fsm from)
    then some no_from_state
    else if not (valid_fsm_state fsm to)
    then some no_to_state
    else if not (allows table from to)
    then some illegal_transition
    else none

unfoldable pub validate_fsm_transition : String → String → String → Option FsmError
unfolding check_transition
validate_fsm_transition fsm from to = check_transition (find_table frozen_fsms fsm) fsm from to
