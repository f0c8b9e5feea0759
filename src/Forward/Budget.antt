-- ===== src/Forward/Budget.antt =====
-- internal/forward/budget.go. The mutex makes each method one step; Go's int and int64 are both
-- 64 bits wide.
pub mod Accounting
use anti_nat.Common.{
  ℕ, Bool, true, false, ◌&&◌, ◌||◌, Option, none, some, ℤ, pos, if◌then◌else◌, ltb_ℤ, leb_ℤ, add64,
  sub64,
}

abbrev pub pessimistic_buffer : ℤ
pessimistic_buffer = pos 65536

pub data LimitKind : Type 0 where
  limit_connections limit_fds limit_pessimistic_buffer : LimitKind

pub record BudgetExceeded : Type 0 where
  pub kind : LimitKind
  pub limit : ℤ
  pub current : ℤ

pub record Limits : Type 0 where
  pub max_connections : ℤ
  pub max_fds : ℤ
  pub max_buffer_bytes : ℤ

pub record BudgetSnapshot : Type 0 where
  pub connections : ℤ
  pub fds : ℤ
  pub buffer_bytes : ℤ

pub record Budget : Type 0 where
  pub limits : Limits
  pub connections : ℤ
  pub fds : ℤ
  pub buffer_bytes : ℤ

unfoldable pub new_budget : Limits → Option Budget
new_budget l =
    if ltb_ℤ l.max_connections (pos 0)
      || ltb_ℤ l.max_fds (pos 0)
      || ltb_ℤ l.max_buffer_bytes (pos 0)
    then none
    else some (record { limits = l; connections = pos 0; fds = pos 0; buffer_bytes = pos 0 })

unfoldable pub reserve : Budget → Budget × Option BudgetExceeded
reserve b =
    if ltb_ℤ (pos 0) b.limits.max_connections && leb_ℤ b.limits.max_connections b.connections
    then (
      b,
      some (record {
        kind = limit_connections;
        limit = b.limits.max_connections;
        current = b.connections;
      }),
    )
    else if ltb_ℤ (pos 0) b.limits.max_fds && leb_ℤ b.limits.max_fds b.fds
    then (b, some (record { kind = limit_fds; limit = b.limits.max_fds; current = b.fds }))
    else if ltb_ℤ (pos 0) b.limits.max_buffer_bytes
        && ltb_ℤ b.limits.max_buffer_bytes (add64 b.buffer_bytes pessimistic_buffer)
    then (
      b,
      some (record {
        kind = limit_pessimistic_buffer;
        limit = b.limits.max_buffer_bytes;
        current = b.buffer_bytes;
      }),
    )
    else (
      record b {
        connections = add64 b.connections (pos 1);
        fds = add64 b.fds (pos 1);
        buffer_bytes = add64 b.buffer_bytes pessimistic_buffer;
      },
      none,
    )

decremented : ℤ → ℤ
decremented n = if ltb_ℤ (pos 0) n then sub64 n (pos 1) else n

clamped : ℤ → ℤ
clamped n = if ltb_ℤ n (pos 0) then pos 0 else n

unfoldable pub release : Budget → Budget
unfolding decremented clamped
release b = record b {
  connections = decremented b.connections;
  fds = decremented b.fds;
  buffer_bytes = clamped (sub64 b.buffer_bytes pessimistic_buffer);
}

unfoldable snapshot : Budget → BudgetSnapshot
snapshot b = record { connections = b.connections; fds = b.fds; buffer_bytes = b.buffer_bytes }
