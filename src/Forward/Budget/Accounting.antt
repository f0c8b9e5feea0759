-- ===== src/Forward/Budget/Accounting.antt =====
-- The budget against the number of sessions that are open: a counter refined by the three charges.
use anti_nat.Common.{
  ℕ, ◌+◌, ◌*◌, ◌-◌, ◌<◌, ◌≡◌, ◌⊎◌, inl, inr, refl, Bool, true, false, ◌&&◌, ◌||◌, List, [], ◌∷◌,
  Option, none, some, pos, negsuc, arith, if◌then◌else◌, leb, ◌==◌, length, Bool-cases, add64,
}
use anti_nat.Forward.Budget.{
  Budget, Limits, BudgetExceeded, new_budget, reserve, release, pessimistic_buffer,
}

-- The limits of a budget that NewBudget accepts.
pub record Caps : Type 0 where
  pub connections : ℕ
  pub fds : ℕ
  pub buffer : ℕ

-- The budget with the charges of `n` open sessions.
abbrev pub charged : Caps → ℕ → Budget
charged l n = record {
  limits = record {
    max_connections = pos l.connections;
    max_fds = pos l.fds;
    max_buffer_bytes = pos l.buffer;
  };
  connections = pos n;
  fds = pos n;
  buffer_bytes = pos (65536 * n);
}

-- One more session stays within a limit; the limit 0 is none.
abbrev pub below : ℕ → ℕ → Bool
below cap used = (cap == 0) || leb used cap

abbrev pub has_room : Caps → ℕ → Bool
has_room l n =
    below l.connections (n + 1) && below l.fds (n + 1) && below l.buffer (65536 * (n + 1))

-- Below this number of sessions no counter of type int64 wraps.
abbrev max_sessions : ℕ
max_sessions = 140737488355327

abbrev succeeds : Option BudgetExceeded → Bool
succeeds none = true
succeeds (some e) = false

add_one : (n : ℕ) → n < max_sessions → add64 (pos n) (pos 1) ≡ pos (n + 1)
add_one n h = ground arith

add_buffer :
    (n : ℕ) → n < max_sessions → add64 (pos (65536 * n)) pessimistic_buffer ≡ pos (65536 * (n + 1))
add_buffer n h = ground arith

-- With room for it a reservation charges exactly one more session; without, it is refused and
-- charges nothing.
reserve-charged :
    (l : Caps) (n : ℕ)
    → n < max_sessions
    → ((reserve (charged l n)).0 ≡ (if has_room l n then charged l (n + 1) else charged l n))
      × (succeeds (reserve (charged l n)).1 ≡ has_room l n)
unfolding reserve
reserve-charged l n h = rw (add_one n h, add_buffer n h) (ground arith, ground arith)

release-charged : (l : Caps) (n : ℕ) → n < max_sessions → release (charged l n) ≡ charged l (n - 1)
unfolding release
release-charged l n h = ground arith

-- NewBudget accepts exactly the limits that are not negative, and starts with no session.
new_budget-charged :
    (l : Caps)
    → new_budget (record {
      max_connections = pos l.connections;
      max_fds = pos l.fds;
      max_buffer_bytes = pos l.buffer;
    })
      ≡ some (charged l 0)
unfolding new_budget
new_budget-charged l = ground arith

new_budget_negative :
    (l : Limits) (k : ℕ)
    → (l.max_connections ≡ negsuc k) ⊎ (l.max_fds ≡ negsuc k) ⊎ (l.max_buffer_bytes ≡ negsuc k)
    → new_budget l ≡ none
unfolding new_budget
new_budget_negative l k h = ground arith

pub data Call : Type 0 where
  reserves releases : Call

abbrev apply : Budget → Call → Budget
apply b reserves = (reserve b).0
apply b releases = release b

abbrev pub run : Budget → List Call → Budget
run b [] = b
run b (c ∷ cs) = run (apply b c) cs

-- The promise: a counter of open sessions that never passes what the limits have room for.
abbrev pub sessions : Caps → ℕ → List Call → ℕ
sessions l n [] = n
sessions l n (reserves ∷ cs) = sessions l (if has_room l n then n + 1 else n) cs
sessions l n (releases ∷ cs) = sessions l (n - 1) cs

run-charged :
    (l : Caps) (n : ℕ) (cs : List Call)
    → n + length cs < max_sessions
    → run (charged l n) cs ≡ charged l (sessions l n cs)
run-charged l n [] h = refl
run-charged l n (reserves ∷ cs) h = elim (Bool-cases (has_room l n)) [
  | inl e ↦ rw ((reserve-charged l n (omega arith)).0, e) (run-charged l (n + 1) cs (omega arith))
  | inr e ↦ rw ((reserve-charged l n (omega arith)).0, e) (run-charged l n cs (omega arith))
]
run-charged l n (releases ∷ cs) h =
    rw (release-charged l n (omega arith)) (run-charged l (n - 1) cs (omega arith))

abbrev Fits : Caps → ℕ → Type 0
Fits l n = (below l.connections n && below l.fds n && below l.buffer (65536 * n)) ≡ true

Fits-less : (l : Caps) (n : ℕ) → Fits l n → Fits l (n - 1)
Fits-less l n h = ground arith

sessions-Fits : (l : Caps) (n : ℕ) (cs : List Call) → Fits l n → Fits l (sessions l n cs)
sessions-Fits l n [] h = h
sessions-Fits l n (reserves ∷ cs) h = elim (Bool-cases (has_room l n)) [
  | inl e ↦ rw e (sessions-Fits l (n + 1) cs e)
  | inr e ↦ rw e (sessions-Fits l n cs h)
]
sessions-Fits l n (releases ∷ cs) h = sessions-Fits l (n - 1) cs (Fits-less l n h)

-- After any calls, fewer than 2^47 - 1, on a new budget with limits that are not negative the three
-- charges are those of one number of open sessions, the one that the abstract counter holds, and it
-- lies within every limit.
pub budget_refines_counter :
    (l : Caps) (cs : List Call)
    → length cs < max_sessions
    → (run (charged l 0) cs ≡ charged l (sessions l 0 cs))
      × ((below l.connections (sessions l 0 cs)) ≡ true)
      × ((below l.fds (sessions l 0 cs)) ≡ true)
      × ((below l.buffer (65536 * sessions l 0 cs)) ≡ true)
budget_refines_counter l cs h = (
  run-charged l 0 cs (omega arith),
  ground (arith, sessions-Fits l 0 cs (ground arith)),
  ground (arith, sessions-Fits l 0 cs (ground arith)),
  ground (arith, sessions-Fits l 0 cs (ground arith)),
)
