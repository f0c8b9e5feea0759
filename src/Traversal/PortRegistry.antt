-- ===== src/Traversal/PortRegistry.antt =====
-- internal/traversal/portregistry.go. A method that holds the mutex throughout is one step; Release
-- drops it while the socket closes, so it is two steps with whatever happens between them. What the
-- operating system answers (the port that was bound, or an error; how the close ended) is an
-- argument. A lease pointer is its number, fresh for each lease.
pub mod Keys
pub mod Ownership
pub mod Lifetime
use anti_nat.Common.{
  ℕ, suc, ◌+◌, String, Bool, true, false, not, ◌&&◌, ◌||◌, List, [], ◌∷◌, Option, none, some,
  str_eq, if◌then◌else◌, ◌==◌, u64, length,
}

pub record TupleKey : Type 0 where
  pub family : String
  pub protocol : String
  pub address : String
  pub port : ℕ  -- uint16

unfoldable pub normalize : TupleKey → TupleKey
normalize k =
    if str_eq k.address "" || str_eq k.address "::" || str_eq k.address "0.0.0.0"
    then record k { address = "0.0.0.0" }
    else k

unfoldable pub overlaps : TupleKey → TupleKey → Bool
overlaps k other =
    if not (str_eq k.family other.family)
      || not (str_eq k.protocol other.protocol)
      || not (k.port == other.port)
    then false
    else if str_eq k.address other.address
        || str_eq k.address "0.0.0.0"
        || str_eq other.address "0.0.0.0"
    then true
    else false

pub record LeaseEntry : Type 0 where
  pub owner : String
  pub generation : ℕ  -- uint64
  pub lease : ℕ

pub record Lease : Type 0 where
  pub actual : TupleKey
  pub owner : String
  pub generation : ℕ  -- uint64
  pub self : ℕ

abbrev pub Entries : Type 0
Entries = List (TupleKey × LeaseEntry)

pub record PortRegistry : Type 0 where
  pub entries : Entries
  pub generation : ℕ  -- uint64
  pub next_lease : ℕ

abbrev pub new_port_registry : PortRegistry
new_port_registry = record { entries = []; generation = 0; next_lease = 0 }

pub data RegistryError : Type 0 where
  tuple_overlap stale_lease unsupported_tuple owner_required listen_failed close_failed :
      RegistryError

pub data Acquired : Type 0 where
  leased : Lease → Acquired
  refused : RegistryError → Acquired

-- Equality of keys, as Go's == on the struct.
unfoldable pub key_eq : TupleKey → TupleKey → Bool
key_eq k j =
    str_eq k.family j.family
    && str_eq k.protocol j.protocol
    && str_eq k.address j.address
    && (k.port == j.port)

unfoldable pub lookup_entry : TupleKey → Entries → Option LeaseEntry
lookup_entry k [] = none
lookup_entry k ((j, e) ∷ m) = if key_eq j k then some e else lookup_entry k m

unfoldable pub delete_entry : TupleKey → Entries → Entries
delete_entry k [] = []
delete_entry k ((j, e) ∷ m) = if key_eq j k then delete_entry k m else (j, e) ∷ delete_entry k m

unfoldable pub insert_entry : TupleKey → LeaseEntry → Entries → Entries
unfolding delete_entry
insert_entry k e m = (k, e) ∷ delete_entry k m

unfoldable pub overlaps_locked : Entries → TupleKey → Bool
overlaps_locked [] candidate = false
overlaps_locked ((existing, e) ∷ m) candidate =
    overlaps existing candidate || overlaps_locked m candidate

unfoldable pub validate_acquire : PortRegistry → String → TupleKey → String → Option RegistryError
validate_acquire r owner key protocol =
    if str_eq owner ""
    then some owner_required
    else if not (str_eq key.family "ipv4") || not (str_eq key.protocol protocol)
    then some unsupported_tuple
    else if not (key.port == 0) && overlaps_locked r.entries (normalize key)
    then some tuple_overlap
    else none

-- The port is resolved: check it against the table, then publish the entry.
publish : PortRegistry → String → TupleKey → PortRegistry × Acquired
publish r owner actual =
    let generation = u64 (r.generation + 1) in
    if overlaps_locked r.entries actual then (r, refused tuple_overlap) else (
      record {
        entries =
            insert_entry actual
              (record { owner = owner; generation = generation; lease = r.next_lease }) r.entries;
        generation = generation;
        next_lease = r.next_lease + 1;
      },
      leased
          (record { actual = actual; owner = owner; generation = generation; self = r.next_lease }),
    )

listened : PortRegistry → String → TupleKey → Option ℕ → PortRegistry × Acquired
unfolding publish
listened r owner key none = (r, refused listen_failed)
listened r owner key (some port) = publish r owner (record key { port = port })

acquire_checked :
    Option RegistryError → PortRegistry → String → TupleKey → Option ℕ → PortRegistry × Acquired
unfolding listened
acquire_checked (some e) r owner key bound = (r, refused e)
acquire_checked none r owner key bound = listened r owner (normalize key) bound

-- Acquire and AcquireUDP, which differ in the protocol alone; `bound` is the port of the new socket.
unfoldable pub acquire :
    PortRegistry → String → String → TupleKey → Option ℕ → PortRegistry × Acquired
unfolding acquire_checked
acquire r protocol owner key bound =
    acquire_checked (validate_acquire r owner key protocol) r owner key bound

abbrev pub owns : Option LeaseEntry → Lease → Bool
owns none l = false
owns (some e) l = str_eq e.owner l.owner && (e.generation == l.generation) && (e.lease == l.self)

-- The first half of a release: the check, with the table untouched.
unfoldable release_check : PortRegistry → Lease → Option RegistryError
release_check r l = if owns (lookup_entry l.actual r.entries) l then none else some stale_lease

pub data CloseResult : Type 0 where
  closed already_closed failed : CloseResult

abbrev close_ok : CloseResult → Bool
close_ok closed = true
close_ok already_closed = true
close_ok failed = false

-- The second half, after the socket was closed, on the table as it then is.
unfoldable pub release_finish :
    PortRegistry → Lease → CloseResult → PortRegistry × Option RegistryError
release_finish r l c =
    if not (close_ok c)
    then (r, some close_failed)
    else if owns (lookup_entry l.actual r.entries) l
    then (record r { entries = delete_entry l.actual r.entries }, none)
    else (r, some stale_lease)

unfoldable pub len : PortRegistry → ℕ
len r = length r.entries

abbrev is_some : Option LeaseEntry → Bool
is_some none = false
is_some (some e) = true

unfoldable has : PortRegistry → TupleKey → Bool
has r k = is_some (lookup_entry (normalize k) r.entries)
