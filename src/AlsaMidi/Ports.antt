-- ===== src/AlsaMidi/Ports.antt =====
-- The ports of a stream of the ALSA bridge: the hash of tools/alsa_midi/port_hash.c, the marking of
-- dead ports in port.c, and the round of a JACK cycle over the ports in alsa_midi.c.
pub mod Hash
pub mod Walk
use jack_example_tools.Base.{
  ℕ, suc, ◌+◌, ◌%◌, Bool, true, false, not, ◌&&◌, Option, none, some, List, [], ◌∷◌, ◌++◌, ltb,
  ◌==◌, if◌then◌else◌, length, get_elem?, get_or, set,
}

-- `snd_seq_addr_t`, of two bytes.
pub record Addr : Type 0 where
  pub client : ℕ
  pub port : ℕ

-- What the hash and the cycle use of `struct a2j_port`.
pub record Port : Type 0 where
  pub remote : Addr
  pub is_dead : Bool

-- `PORT_HASH_SIZE`
abbrev pub port_hash_size : ℕ
port_hash_size = 16

unfoldable pub a2j_port_hash : Addr → ℕ
a2j_port_hash addr = (addr.client + addr.port) % port_hash_size

abbrev pub same_addr : Addr → Addr → Bool
same_addr a b = (a.client == b.client) && (a.port == b.port)

-- A pointer to a port is its index in the list `ports` of all ports created. A chain linked by
-- `next` is the list of its pointers, and the hash the list of its chains.
module _ (ports : List Port) where
  -- The walk along a chain. A pointer to no port ends it.
  unfoldable pub find_in : Addr → List ℕ → Option ℕ
  find_in addr [] = none
  find_in addr (i ∷ chain) = elim (get_elem? ports i) [
    | none ↦ none
    | some p ↦ elim (same_addr p.remote addr) [ true ↦ some i | false ↦ find_in addr chain ]
  ]

  unfoldable pub a2j_port_get : List (List ℕ) → Addr → Option ℕ
  a2j_port_get hash addr = find_in addr (get_or hash (a2j_port_hash addr) [])

unfoldable pub a2j_port_insert : List (List ℕ) → ℕ → Port → List (List ℕ)
a2j_port_insert hash i p = let b = a2j_port_hash p.remote in set hash b (i ∷ get_or hash b [])

-- The ports with the one found marked.
unfoldable pub a2j_port_setdead : List Port → List (List ℕ) → Addr → List Port
a2j_port_setdead ports hash addr = elim (a2j_port_get ports hash addr) [
  | none ↦ ports
  | some i ↦ elim (get_elem? ports i) [
    | none ↦ ports
    | some p ↦ set ports i (record p { is_dead = true })
  ]
]

-- `a2j_add_ports`: the queue `new_ports` is emptied into the hash.
unfoldable pub a2j_add_ports : List Port → List ℕ → List (List ℕ) → List (List ℕ)
a2j_add_ports ports [] hash = hash
a2j_add_ports ports (i ∷ new_ports) hash = elim (get_elem? ports i) [
  | none ↦ a2j_add_ports ports new_ports hash
  | some p ↦ a2j_add_ports ports new_ports (a2j_port_insert hash i p)
]

-- What the round over the ports does: the ports whose events were processed, in order, the queue
-- `port_del`, and `nevents`.
pub record Round : Type 0 where
  pub processed : List ℕ
  pub port_del : List ℕ
  pub nevents : ℕ

-- `dead` tells of a pointer whether the port is dead. `capacity` is the number of pointers that the
-- ring buffer `port_del` holds, and `queued` what the processing of a port adds to `nevents`.
module _ (dead : ℕ → Bool) (capacity : ℕ) (queued : ℕ → ℕ) where
  abbrev pub process : Round → ℕ → Round
  process s i = record s { processed = s.processed ++ i ∷ []; nevents = s.nevents + queued i }

  abbrev pub remove : Round → ℕ → Round
  remove s i = record s { port_del = s.port_del ++ i ∷ []; nevents = s.nevents + 1 }

  abbrev pub keep : ℕ → List ℕ × Round → List ℕ × Round
  keep i r = (i ∷ r.0, r.1)

  -- The walk along one chain: what is left of it, and the round so far.
  unfoldable pub walk : List ℕ → Round → List ℕ × Round
  walk [] s = ([], s)
  walk (i ∷ chain) s = elim (dead i) [
    | false ↦ keep i (walk chain (process s i))
    | true ↦ elim (ltb (length s.port_del) capacity) [
      | true ↦ walk chain (remove s i)
      | false ↦ keep i (walk chain s)
    ]
  ]

  unfoldable pub walk_all : List (List ℕ) → Round → List (List ℕ) × Round
  walk_all [] s = ([], s)
  walk_all (chain ∷ hash) s =
      let r = walk chain s in let rest = walk_all hash r.1 in (r.0 ∷ rest.0, rest.1)

abbrev pub is_dead_at : List Port → ℕ → Bool
is_dead_at ports i = elim (get_elem? ports i) [ none ↦ false | some p ↦ p.is_dead ]

-- The new ports are added to the hash, and then all its chains walked. The flag of the result tells
-- whether the output thread is woken.
unfoldable pub a2j_jack_process_internal :
    List Port → ℕ → (ℕ → ℕ) → Bool → List ℕ → List (List ℕ) → List ℕ → List (List ℕ) × Round × Bool
a2j_jack_process_internal ports capacity queued playback new_ports hash port_del =
    let start : Round = record { processed = []; port_del = port_del; nevents = 0 } in
    let hash = a2j_add_ports ports new_ports hash in
    let r = walk_all (is_dead_at ports) capacity queued hash start in
    (r.0, r.1, playback && ltb 0 r.1.nevents)
