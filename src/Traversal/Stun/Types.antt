-- ===== src/Traversal/Stun/Types.antt =====
-- internal/traversal/stun/message.go: the 14-bit message type, a method and a class interleaved.
use Prim.Native.Nat.{bit_and, bit_or}
use anti_nat.Common.{ℕ, ◌*◌, ◌/◌, ◌<◌, ◌≡◌, refl, Bool, true, ◌&&◌, ◌==◌, arith, u16}
use anti_nat.Common.Tables.{holds_below, holds_below-at}

-- `v & 0x000F | (v >> 1) & 0x0070 | (v >> 2) & 0x0F80` on uint16.
unfoldable pub method : ℕ → ℕ
method t = bit_or (bit_or (bit_and t 0x000F) (bit_and (t / 2) 0x0070)) (bit_and (t / 4) 0x0F80)

-- `(v >> 7) & 0x2 | (v >> 4) & 0x1`.
unfoldable pub class : ℕ → ℕ
class t = bit_or (bit_and (t / 128) 0x2) (bit_and (t / 16) 0x1)

unfoldable pub new_message_type : ℕ → ℕ → ℕ
new_message_type m c =
    bit_or
      (bit_or
        (bit_or (bit_or (bit_and m 0x000F) (u16 (bit_and m 0x0070 * 2)))
          (u16 (bit_and m 0x0F80 * 4)))
        (u16 (bit_and c 0x2 * 128)))
      (u16 (bit_and c 0x1 * 16))

round_trip : ℕ → ℕ → Bool
round_trip c m =
    (method (new_message_type m c) == m)
    && (class (new_message_type m c) == c)
    && (bit_and (new_message_type m c) 0xC000 == 0)

round_trip_table : holds_below 4 (λ c. holds_below 4096 (λ m. round_trip c m)) ≡ true
unfolding holds_below round_trip method class new_message_type
round_trip_table = refl

round_trip_parts :
    (m c : ℕ)
    → round_trip c m ≡ true
    → (method (new_message_type m c) ≡ m)
      × (class (new_message_type m c) ≡ c)
      × (bit_and (new_message_type m c) 0xC000 ≡ 0)
unfolding round_trip
round_trip_parts m c h = ground arith

-- Every 12-bit method and 2-bit class are read back from the type that encodes them, and the type
-- leaves the two top bits of the field clear.
pub message_type_round_trip :
    (m c : ℕ)
    → m < 4096
    → c < 4
    → (method (new_message_type m c) ≡ m)
      × (class (new_message_type m c) ≡ c)
      × (bit_and (new_message_type m c) 0xC000 ≡ 0)
message_type_round_trip m c hm hc =
    round_trip_parts m c (holds_below-at 4096 _ m (holds_below-at 4 _ c round_trip_table hc) hm)
