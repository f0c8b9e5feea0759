-- ===== src/Scenarios/Resources.antt =====
-- internal/forward/budget.go and internal/traversal/portregistry.go: cases of the theorems.
use anti_nat.Common.{
  ℕ, ◌*◌, ◌≡◌, ◌≢◌, refl, String, true, false, List, [], ◌∷◌, some, arith, str_eq, str_eq_iff,
}
use anti_nat.Forward.Budget.Accounting.{
  Caps, charged, sessions, below, reserves, releases, Call, run as run_budget,
  budget_refines_counter,
}
use anti_nat.Traversal.PortRegistry.{
  TupleKey, PortRegistry, Lease, leased, lookup_entry, overlaps_locked, acquire, release_finish,
  closed, new_port_registry, normalize, key_eq, validate_acquire, insert_entry,
}
use anti_nat.Traversal.PortRegistry.Keys.{Disjoint}
use anti_nat.Traversal.PortRegistry.Ownership.{Action, acquires, finishes, run, Inv, run-Inv}
use anti_nat.Traversal.PortRegistry.Lifetime.{
  run-Disjoint, lease_persists, reacquire_after_release, entry_of,
}

abbrev caps : Caps
caps = record { connections = 2; fds = 0; buffer = 0 }

abbrev some_calls : List Call
some_calls = reserves ∷ reserves ∷ reserves ∷ releases ∷ []

budget_refines_counter_example :
    (run_budget (charged caps 0) some_calls ≡ charged caps (sessions caps 0 some_calls))
    × (below 2 (sessions caps 0 some_calls) ≡ true)
    × (below 0 (sessions caps 0 some_calls) ≡ true)
    × (below 0 (65536 * sessions caps 0 some_calls) ≡ true)
budget_refines_counter_example = budget_refines_counter caps some_calls (omega arith)

abbrev web : TupleKey
web = record { family = "ipv4"; protocol = "tcp"; address = "0.0.0.0"; port = 80 }

abbrev dns : TupleKey
dns = record { family = "ipv4"; protocol = "udp"; address = "10.0.0.2"; port = 53 }

abbrev web_lease : Lease
web_lease = record { actual = web; owner = "a"; generation = 1; self = 0 }

abbrev dns_lease : Lease
dns_lease = record { actual = dns; owner = "b"; generation = 2; self = 1 }

abbrev actions : List Action
actions =
    acquires "tcp" "a" web (some 80)
    ∷ acquires "udp" "b" dns (some 53)
    ∷ acquires "tcp" "c" (record web { address = "10.0.0.2" }) (some 80)
    ∷ finishes dns_lease closed
    ∷ []

abbrev opened : PortRegistry
opened = run new_port_registry (acquires "tcp" "a" web (some 80) ∷ [])

run-Disjoint_example : Disjoint (run new_port_registry actions).entries
run-Disjoint_example = run-Disjoint actions

opened_entry : lookup_entry web opened.entries ≡ some (entry_of web_lease)
unfolding acquire normalize overlaps_locked lookup_entry key_eq validate_acquire str_eq insert_entry
opened_entry = refl

abbrev later : List Action
later = acquires "udp" "b" dns (some 53) ∷ finishes dns_lease closed ∷ []

other_lease : ◌≢◌ {A = ℕ} 1 0
other_lease e = omega arith

lease_persists_example : lookup_entry web (run opened later).entries ≡ some (entry_of web_lease)
lease_persists_example = lease_persists opened web_lease later (tt, (other_lease, tt)) opened_entry

opened-Inv : Inv opened
opened-Inv =
    run-Inv new_port_registry (acquires "tcp" "a" web (some 80) ∷ [])
      (record { disjoint = tt; issued = tt })

web_is_normal : normalize web ≡ web
unfolding normalize str_eq
web_is_normal = refl

c_is_not_empty : str_eq "c" "" ≡ false
unfolding str_eq
c_is_not_empty = refl

owner_named : ◌≢◌ {A = String} "c" ""
owner_named e = ground (arith, str_eq_iff "c" "", c_is_not_empty)

reacquire_after_release_example :
    (overlaps_locked (release_finish opened web_lease closed).0.entries web ≡ false)
    × ((lease : Lease) × ((acquire
            (release_finish opened web_lease closed).0
            "tcp"
            "c"
            web
            (some 80)).1
          ≡ leased lease)
        × (lease.actual ≡ web)
        × (lease.owner ≡ "c"))
reacquire_after_release_example =
    reacquire_after_release opened web_lease "c" opened-Inv opened_entry owner_named refl
      web_is_normal
