-- ===== src/Protocol/Domain/Fsm/Runs.antt =====
-- What the validated transitions are, and what holds of every run of them.
use anti_nat.Common.{
  ℕ, suc, ◌≤◌, ◌+◌, String, ◌≡◌, ◌≢◌, ◌↔◌, inl, inr, refl, sym, ap, true, ◌&&◌, List, [], ◌∷◌, Memᴰ,
  none, arith, str_eq, str_eq_iff, Bool-cases, if◌then◌else◌, length, All, All_mem,
}
use anti_nat.Protocol.Domain.Kinds.{member}
use anti_nat.Protocol.Domain.Fsm.{
  TransitionTable, find_table, states_of, allows, valid_fsm_state, validate_fsm_transition,
  outbox_table, inbox_table, key_rotation_table, decommission_table, restore_table,
}

-- The transitions of the state model.
pub data Step : String → String → String → Type 0 where
  outbox_step : {f a b : String} → f ≡ "outbox" → Memᴰ (a, b) outbox_table → Step f a b
  inbox_step : {f a b : String} → f ≡ "inbox" → Memᴰ (a, b) inbox_table → Step f a b
  rotation_step :
      {f a b : String} → f ≡ "key_rotation" → Memᴰ (a, b) key_rotation_table → Step f a b
  decommission_step :
      {f a b : String} → f ≡ "decommission" → Memᴰ (a, b) decommission_table → Step f a b
  restore_step : {f a b : String} → f ≡ "restore" → Memᴰ (a, b) restore_table → Step f a b

allows_sound : (t : TransitionTable) (a b : String) → allows t a b ≡ true → Memᴰ (a, b) t
unfolding allows
allows_sound [] a b h = absurd (ground arith)
allows_sound ((x, y) ∷ t) a b h = elim (Bool-cases (str_eq x a && str_eq y b)) [
  | inl e ↦ Memᴰ.head (ground (arith, str_eq_iff x a, str_eq_iff y b))
  | inr e ↦ Memᴰ.tail (allows_sound t a b (ground arith))
]

allows_complete : (t : TransitionTable) (a b : String) → Memᴰ (a, b) t → allows t a b ≡ true
unfolding allows
allows_complete [] a b m = elim m [ ]
allows_complete ((x, y) ∷ t) a b (Memᴰ.head e) = ground (
  arith,
  str_eq_iff x a,
  str_eq_iff y b,
  ap (λ (p : String × String). p.0) e,
  ap (λ (p : String × String). p.1) e,
)
allows_complete ((x, y) ∷ t) a b (Memᴰ.tail m) = ground (arith, allows_complete t a b m)

-- A transition is validated exactly when it is one of the state model's.
validate_fsm_transition_sound :
    (fsm from to : String) → validate_fsm_transition fsm from to ≡ none → Step fsm from to
unfolding validate_fsm_transition find_table
validate_fsm_transition_sound fsm from to h = elim (Bool-cases (str_eq "outbox" fsm)) [
  | inl e ↦
      outbox_step (ground (arith, str_eq_iff "outbox" fsm))
        (allows_sound outbox_table from to (ground arith))
  | inr e ↦ elim (Bool-cases (str_eq "inbox" fsm)) [
    | inl i ↦
        inbox_step (ground (arith, str_eq_iff "inbox" fsm))
          (allows_sound inbox_table from to (ground arith))
    | inr i ↦ elim (Bool-cases (str_eq "key_rotation" fsm)) [
      | inl k ↦
          rotation_step (ground (arith, str_eq_iff "key_rotation" fsm))
            (allows_sound key_rotation_table from to (ground arith))
      | inr k ↦ elim (Bool-cases (str_eq "decommission" fsm)) [
        | inl d ↦
            decommission_step (ground (arith, str_eq_iff "decommission" fsm))
              (allows_sound decommission_table from to (ground arith))
        | inr d ↦
            restore_step (ground (arith, str_eq_iff "restore" fsm))
              (allows_sound restore_table from to (ground arith))
      ]
    ]
  ]
]

abbrev AllValid : String → TransitionTable → Type 0
AllValid fsm t = All (λ p. validate_fsm_transition fsm p.0 p.1 ≡ none) t

outbox_valid : AllValid "outbox" outbox_table
unfolding validate_fsm_transition find_table valid_fsm_state states_of member allows str_eq
outbox_valid = (refl, (refl, (refl, (refl, (refl, tt)))))

inbox_valid : AllValid "inbox" inbox_table
unfolding validate_fsm_transition find_table valid_fsm_state states_of member allows str_eq
inbox_valid = (refl, (refl, (refl, (refl, tt))))

rotation_valid : AllValid "key_rotation" key_rotation_table
unfolding validate_fsm_transition find_table valid_fsm_state states_of member allows str_eq
rotation_valid = (refl, (refl, (refl, (refl, tt))))

decommission_valid : AllValid "decommission" decommission_table
unfolding validate_fsm_transition find_table valid_fsm_state states_of member allows str_eq
decommission_valid = (refl, (refl, (refl, tt)))

restore_valid : AllValid "restore" restore_table
unfolding validate_fsm_transition find_table valid_fsm_state states_of member allows str_eq
restore_valid = (refl, (refl, (refl, tt)))

step_valid :
    (fsm : String) (name : String) (t : TransitionTable)
    → AllValid name t
    → fsm ≡ name
    → {a b : String} → Memᴰ (a, b) t
    → validate_fsm_transition fsm a b ≡ none
step_valid fsm name t all e {a} {b} m =
    rw e (All_mem (λ (p : String × String). validate_fsm_transition name p.0 p.1 ≡ none) t all m)

validate_fsm_transition_complete :
    {fsm from to : String} → Step fsm from to → validate_fsm_transition fsm from to ≡ none
validate_fsm_transition_complete (outbox_step e m) = step_valid _ _ _ outbox_valid e m
validate_fsm_transition_complete (inbox_step e m) = step_valid _ _ _ inbox_valid e m
validate_fsm_transition_complete (rotation_step e m) = step_valid _ _ _ rotation_valid e m
validate_fsm_transition_complete (decommission_step e m) = step_valid _ _ _ decommission_valid e m
validate_fsm_transition_complete (restore_step e m) = step_valid _ _ _ restore_valid e m

-- A transition is validated exactly when the machine is one of the five and its table holds the
-- transition: no check of the states refuses a listed one.
pub validate_fsm_transition_iff :
    (fsm from to : String) → (validate_fsm_transition fsm from to ≡ none) ↔ Step fsm from to
validate_fsm_transition_iff fsm from to =
    (validate_fsm_transition_sound fsm from to, validate_fsm_transition_complete)

-- The states that a machine goes through after `s`, each by a validated transition.
abbrev pub IsRun : String → String → List String → Type 0
IsRun fsm s [] = Unit
IsRun fsm s (t ∷ ts) = (validate_fsm_transition fsm s t ≡ none) × IsRun fsm t ts

abbrev pub last_of : String → List String → String
last_of s [] = s
last_of s (t ∷ ts) = last_of t ts

-- How far a state is from the start of its machine.
rank_in : List (String × ℕ) → String → ℕ
rank_in [] s = 0
rank_in ((v, n) ∷ vs) s = if str_eq v s then n else rank_in vs s

abbrev depths : List (String × ℕ)
depths =
    ("CLAIMED", 1)
    ∷ ("SENT", 2)
    ∷ ("SEMANTIC_ACKED", 3)
    ∷ ("RECEIPTED", 4)
    ∷ ("GC", 5)
    ∷ ("INTENT_PERSISTED", 1)
    ∷ ("APPLYING", 2)
    ∷ ("APPLIED", 3)
    ∷ ("NACKED", 3)
    ∷ ("ANNOUNCED", 1)
    ∷ ("ACKED", 2)
    ∷ ("ACTIVE", 3)
    ∷ ("RETIRED", 4)
    ∷ ("DECOMMISSIONING", 4)
    ∷ ("DECOMMISSIONED", 5)
    ∷ ("CLEANUP_ONLY", 6)
    ∷ ("RECOVERY_QUARANTINE", 1)
    ∷ ("RECONCILING", 2)
    ∷ ("AUTHORIZED", 3)
    ∷ []

depth : String → ℕ
unfolding rank_in
depth s = rank_in depths s

abbrev Deepens : TransitionTable → Type 0
Deepens t = All (λ p. depth p.1 ≡ suc (depth p.0)) t

outbox-Deepens : Deepens outbox_table
unfolding depth str_eq
outbox-Deepens = (refl, (refl, (refl, (refl, (refl, tt)))))

inbox-Deepens : Deepens inbox_table
unfolding depth str_eq
inbox-Deepens = (refl, (refl, (refl, (refl, tt))))

rotation-Deepens : Deepens key_rotation_table
unfolding depth str_eq
rotation-Deepens = (refl, (refl, (refl, (refl, tt))))

decommission-Deepens : Deepens decommission_table
unfolding depth str_eq
decommission-Deepens = (refl, (refl, (refl, tt)))

restore-Deepens : Deepens restore_table
unfolding depth str_eq
restore-Deepens = (refl, (refl, (refl, tt)))

abbrev Deeper : String × String → Type 0
Deeper p = depth p.1 ≡ suc (depth p.0)

Step-Deeper : {fsm from to : String} → Step fsm from to → Deeper (from, to)
Step-Deeper (outbox_step e m) = All_mem Deeper _ outbox-Deepens m
Step-Deeper (inbox_step e m) = All_mem Deeper _ inbox-Deepens m
Step-Deeper (rotation_step e m) = All_mem Deeper _ rotation-Deepens m
Step-Deeper (decommission_step e m) = All_mem Deeper _ decommission-Deepens m
Step-Deeper (restore_step e m) = All_mem Deeper _ restore-Deepens m

depth-le : (vs : List (String × ℕ)) (s : String) → All (λ p. p.1 ≤ 6) vs → rank_in vs s ≤ 6
unfolding rank_in
depth-le [] s h = omega arith
depth-le ((v, n) ∷ vs) s h = ground (arith, depth-le vs s h.1)

depth_bound : (s : String) → depth s ≤ 6
unfolding depth
depth_bound s = depth-le depths s (omega arith)

run_depth :
    (fsm s : String) (ts : List String)
    → IsRun fsm s ts
    → depth (last_of s ts) ≡ depth s + length ts
run_depth fsm s [] r = omega arith
run_depth fsm s (t ∷ ts) r =
    omega (arith, run_depth fsm t ts r.1, Step-Deeper (validate_fsm_transition_sound fsm s t r.0))

-- A run of at least one validated transition does not end in the state that it starts from, and it
-- has at most six transitions.
pub runs_are_acyclic :
    (fsm s t : String) (ts : List String)
    → IsRun fsm s (t ∷ ts)
    → (length (t ∷ ts) ≤ 6) × (last_of s (t ∷ ts) ≢ s)
runs_are_acyclic fsm s t ts r = (
  omega (arith, run_depth fsm s (t ∷ ts) r, depth_bound (last_of s (t ∷ ts))),
  (λ e. absurd (omega (arith, run_depth fsm s (t ∷ ts) r, ap depth e))),
)

outbox_allows :
    (s t : String) → validate_fsm_transition "outbox" s t ≡ none → allows outbox_table s t ≡ true
unfolding validate_fsm_transition find_table str_eq
outbox_allows s t h = ground arith

gc_follows :
    All (λ p. (if str_eq p.1 "GC" then str_eq p.0 "RECEIPTED" else true) ≡ true) outbox_table
unfolding str_eq
gc_follows = (refl, (refl, (refl, (refl, (refl, tt)))))

before_gc :
    (s t : String) → validate_fsm_transition "outbox" s t ≡ none → t ≡ "GC" → s ≡ "RECEIPTED"
before_gc s t h e = ground (
  arith,
  All_mem
      (λ (p : String × String). (if str_eq p.1 "GC" then str_eq p.0 "RECEIPTED" else true) ≡ true)
      outbox_table gc_follows (allows_sound outbox_table s t (outbox_allows s t h)),
  str_eq_iff t "GC",
  str_eq_iff s "RECEIPTED",
)

-- In every run of validated outbox transitions that reaches GC, RECEIPTED occurs too.
pub collected_after_receipt :
    (s : String) (ts : List String) → IsRun "outbox" s ts → Memᴰ "GC" ts → Memᴰ "RECEIPTED" (s ∷ ts)
collected_after_receipt s [] r m = elim m [ ]
collected_after_receipt s (t ∷ ts) r (Memᴰ.head e) = Memᴰ.head (sym (before_gc s t (r.0) (sym e)))
collected_after_receipt s (t ∷ ts) r (Memᴰ.tail m) = Memᴰ.tail (collected_after_receipt t ts r.1 m)
