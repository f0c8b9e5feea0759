-- ===== src/Net/HostPort.antt =====
-- net.SplitHostPort, the IPv4 part of netip.ParseAddr and strconv.Atoi, over the bytes of a text.
use anti_nat.Common.{
  ℕ, zero, suc, ◌+◌, ◌-◌, ◌*◌, Bool, true, false, ◌&&◌, ◌||◌, List, [], ◌∷◌, ◌++◌, Option, none,
  some, ℤ, pos, negsuc, if◌then◌else◌, ◌==◌, leb, ltb, take, drop, slice, length,
}

abbrev pub Text : Type 0
Text = List ℕ

abbrev pub is_empty : Text → Bool
is_empty [] = true
is_empty (c ∷ s) = false

unfoldable index_byte : ℕ → Text → Option ℕ
index_byte b [] = none
index_byte b (c ∷ s) =
    let later = index_byte b s in
    if c == b then some 0 else elim later [ none ↦ none | some i ↦ some (i + 1) ]

last_index_at : Bool → Option ℕ → Option ℕ
last_index_at here (some i) = some (i + 1)
last_index_at true none = some 0
last_index_at false none = none

unfoldable last_index_byte : ℕ → Text → Option ℕ
unfolding last_index_at
last_index_byte b [] = none
last_index_byte b (c ∷ s) = last_index_at (c == b) (last_index_byte b s)

unfoldable has_byte : ℕ → Text → Bool
has_byte b [] = false
has_byte b (c ∷ s) = (c == b) || has_byte b s

-- No `[` may stand at or after `j`, and no `]` at or after `k`.
split_checked : Text → Text → ℕ → ℕ → ℕ → Option (Text × Text)
unfolding has_byte
split_checked s host i j k =
    if has_byte b'[' (drop j s)
    then none
    else if has_byte b']' (drop k s)
    then none
    else some (host, drop (i + 1) s)

split_bracketed : Text → ℕ → Option (Text × Text)
unfolding split_checked index_byte
split_bracketed s i = elim (index_byte b']' s) [
  | none ↦ none
  | some end ↦ if end + 1 == i then split_checked s (slice 1 end s) i 1 (end + 1) else none
]

split_plain : Text → ℕ → Option (Text × Text)
unfolding split_checked
split_plain s i =
    let host = take i s in if has_byte b':' host then none else split_checked s host i 0 0

split_at : Text → ℕ → Option (Text × Text)
unfolding split_bracketed split_plain
split_at [] i = none
split_at (c ∷ s) i = if c == b'[' then split_bracketed (c ∷ s) i else split_plain (c ∷ s) i

unfoldable pub split_host_port : Text → Option (Text × Text)
unfolding split_at last_index_byte
split_host_port s = elim (last_index_byte b':' s) [ none ↦ none | some i ↦ split_at s i ]

abbrev is_digit : ℕ → Bool
is_digit c = leb b'0' c && leb c b'9'

-- The loop of parseIPv4Fields: `at_start` is i == 0, `after_dot` is s[i-1] == '.'.
unfoldable ipv4_fields : Text → Bool → Bool → ℕ → ℕ → List ℕ → Option (List ℕ)
ipv4_fields [] at_start after_dot val dig fields =
    if ltb (length fields) 3 then none else some (fields ++ val ∷ [])
ipv4_fields (c ∷ s) at_start after_dot val dig fields =
    let digit = ipv4_fields s false false (val * 10 + (c - b'0')) (dig + 1) fields in
    let field = ipv4_fields s false true 0 0 (fields ++ val ∷ []) in
    if is_digit c
    then (if (dig == 1) && (val == 0)
        then none
        else if ltb 255 (val * 10 + (c - b'0'))
        then none
        else digit)
    else if c == b'.'
    then (if at_start || is_empty s || after_dot
        then none
        else if length fields == 3
        then none
        else field)
    else none

-- `ip, err := netip.ParseAddr(host); err == nil && ip.Is4()`: the four bytes, if so.
unfoldable pub parse_ipv4 : Text → Option (List ℕ)
unfolding ipv4_fields
parse_ipv4 host = ipv4_fields host true false 0 0 []

unfoldable parse_digits : Text → ℕ → Option ℕ
parse_digits [] n = some n
parse_digits (c ∷ s) n =
    let rest = parse_digits s (n * 10 + (c - b'0')) in if is_digit c then rest else none

abbrev signed_value : Bool → ℕ → Option ℤ
signed_value false n = if ltb n 9223372036854775808 then some (pos n) else none
signed_value true zero = some (pos 0)
signed_value true (suc n) = if ltb n 9223372036854775808 then some (negsuc n) else none

parse_magnitude : Bool → Text → Option ℤ
unfolding parse_digits
parse_magnitude neg [] = none
parse_magnitude neg (c ∷ s) = elim (parse_digits (c ∷ s) 0) [
  | none ↦ none
  | some n ↦ signed_value neg n
]

-- An optional sign, then at least one digit; out of the range of int64 is an error.
unfoldable pub atoi : Text → Option ℤ
unfolding parse_magnitude
atoi [] = none
atoi (c ∷ s) =
    if c == b'-'
    then parse_magnitude true s
    else if c == b'+'
    then parse_magnitude false s
    else parse_magnitude false (c ∷ s)
