-- ===== src/AlsaMidi/Tests/Ports.antt =====
-- The theorems on the ports of a stream at three ports, two of one address and one of them dead.
use jack_example_tools.Base.{
  ℕ, ◌≤◌, ◌<◌, ◌≡◌, ◌≢◌, ◌⊎◌, refl, arith, true, false, List, [], ◌∷◌, ◌++◌, some, length,
  get_elem?, replicate, length-replicate, set,
}
use jack_example_tools.AlsaMidi.Ports.{
  Addr, Port, is_dead_at, a2j_port_get, a2j_add_ports, a2j_port_setdead, a2j_jack_process_internal,
  find_in, a2j_port_hash,
}
use jack_example_tools.AlsaMidi.Ports.Hash.{newest, get-add_ports, setdead-get}
use jack_example_tools.AlsaMidi.Ports.Walk.{concat, select, alive, process_internal-Walked}

abbrev first : Addr
first = record { client = 20; port = 1 }

abbrev second : Addr
second = record { client = 4; port = 1 }

abbrev ports : List Port
ports =
    record { remote = first; is_dead = false }
    ∷ record { remote = second; is_dead = false }
    ∷ record { remote = first; is_dead = true }
    ∷ []

abbrev no_ports : List (List ℕ)
no_ports = replicate 16 []

get-add_ports_example :
    a2j_port_get ports (a2j_add_ports ports (0 ∷ 1 ∷ 2 ∷ []) no_ports) first
    ≡ newest ports first (0 ∷ 1 ∷ 2 ∷ []) (a2j_port_get ports no_ports first)
get-add_ports_example =
    get-add_ports ports (0 ∷ 1 ∷ 2 ∷ []) no_ports first (length-replicate {A = List ℕ} 16 [])

-- All three ports share the chain of bucket 5.
abbrev hash : List (List ℕ)
hash = set no_ports 5 (2 ∷ 1 ∷ 0 ∷ [])

found : a2j_port_get ports hash second ≡ some 1
unfolding a2j_port_get find_in a2j_port_hash
found = refl

setdead-get_example :
    let ports' = a2j_port_setdead ports hash second in
    (get_elem? ports' 1 ≡ some (record { remote = second; is_dead = true }))
    × ((j : ℕ) → 1 ≢ j → get_elem? ports' j ≡ get_elem? ports j)
    × ((other : Addr) → a2j_port_get ports' hash other ≡ a2j_port_get ports hash other)
setdead-get_example =
    setdead-get ports hash second 1 (record { remote = second; is_dead = false }) found refl

process_internal-Walked_example :
    let dead = is_dead_at ports in
    let old = concat (a2j_add_ports ports (0 ∷ 1 ∷ 2 ∷ []) no_ports) in
    let (hash', s, woken) =
      a2j_jack_process_internal ports 3 (λ i. i) true (0 ∷ 1 ∷ 2 ∷ []) no_ports (9 ∷ []) in
    (s.processed ≡ select (alive dead) old)
    × (select (alive dead) (concat hash') ≡ select (alive dead) old)
    × (s.port_del ++ select dead (concat hash') ≡ 9 ∷ select dead old)
    × (length s.port_del ≤ 3)
    × ((select dead (concat hash') ≡ []) ⊎ (length s.port_del ≡ 3))
    × (true ≡ true → 1 < length s.port_del → woken ≡ true)
process_internal-Walked_example =
    process_internal-Walked ports 3 (λ i. i) true (0 ∷ 1 ∷ 2 ∷ []) no_ports (9 ∷ []) (omega arith)
