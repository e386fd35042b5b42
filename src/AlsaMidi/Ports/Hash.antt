-- ===== src/AlsaMidi/Ports/Hash.antt =====
-- The hash of ports: what is found in it after ports were added, and after one was marked dead.
use jack_example_tools.Base.{
  ℕ, zero, suc, ◌<◌, ◌≡◌, ◌≢◌, inl, inr, refl, sym, ap, ◌∙◌, arith, true, Option, none, some, List,
  [], ◌∷◌, ◌==◌, if◌then◌else◌, Bool-cases, Option-cases, length, length-set, get_elem?, get_or,
  set, get_elem?-set_self, get_elem?-set_ne, lt_of_get_elem?, ==_iff,
}
use jack_example_tools.AlsaMidi.Ports.{
  Addr, Port, same_addr, a2j_port_hash, find_in, a2j_port_get, a2j_port_insert, a2j_port_setdead,
  a2j_add_ports, port_hash_size,
}

get_or-set_self {ℓ} :
    {A : Type ℓ} (xs : List A) (i : ℕ) (v d : A) → i < length xs → get_or (set xs i v) i d ≡ v
get_or-set_self [] i v d h = elim h [ ]
get_or-set_self (x ∷ xs) zero v d h = refl
get_or-set_self (x ∷ xs) (suc i) v d h = get_or-set_self xs i v d (omega arith)

get_or-set_ne {ℓ} :
    {A : Type ℓ} (xs : List A) (i j : ℕ) (v d : A) → i ≢ j → get_or (set xs i v) j d ≡ get_or xs j d
get_or-set_ne [] i j v d h = refl
get_or-set_ne (x ∷ xs) zero zero v d h = absurd (h refl)
get_or-set_ne (x ∷ xs) zero (suc j) v d h = refl
get_or-set_ne (x ∷ xs) (suc i) zero v d h = refl
get_or-set_ne (x ∷ xs) (suc i) (suc j) v d h = get_or-set_ne xs i j v d (λ e. h (ap suc e))

a2j_port_hash_lt : (a : Addr) → a2j_port_hash a < port_hash_size
unfolding a2j_port_hash
a2j_port_hash_lt a = omega arith

same_bucket : (a b : Addr) → same_addr a b ≡ true → a2j_port_hash a ≡ a2j_port_hash b
unfolding a2j_port_hash
same_bucket a b h = ground arith

find_in-head :
    (ports : List Port) (addr : Addr) (i : ℕ) (p : Port) (chain : List ℕ)
    → get_elem? ports i ≡ some p
    → find_in ports addr (i ∷ chain)
      ≡ (if same_addr p.remote addr then some i else find_in ports addr chain)
unfolding find_in
find_in-head ports addr i p chain e = elim (Bool-cases (same_addr p.remote addr)) [
  | inl same ↦ rw (e, find_in) (rw (same, find_in) refl)
  | inr other ↦ rw (e, find_in) (rw (other, find_in) refl)
]

-- An inserted port is found at its address, before any other of this address.
get-insert :
    (ports : List Port) (hash : List (List ℕ)) (addr : Addr) (i : ℕ) (p : Port)
    → length hash ≡ port_hash_size
    → get_elem? ports i ≡ some p
    → a2j_port_get ports (a2j_port_insert hash i p) addr
      ≡ (if same_addr p.remote addr then some i else a2j_port_get ports hash addr)
unfolding a2j_port_get a2j_port_insert
get-insert ports hash addr i p size e =
    let b = a2j_port_hash p.remote in
    let inside : b < length hash = rw size (a2j_port_hash_lt p.remote) in
    elim (Bool-cases (b == a2j_port_hash addr)) [
      | inl same ↦
          let eq : b ≡ a2j_port_hash addr = (==_iff _ _).0 same in
          rw (← eq, get_or-set_self hash b (i ∷ get_or hash b []) [] inside)
            (find_in-head ports addr i p (get_or hash b []) e)
      | inr differ ↦
          let ne : b ≢ a2j_port_hash addr = λ eq. absurd (ground (arith, eq)) in
          elim (Bool-cases (same_addr p.remote addr)) [
            | inl same ↦ absurd (ne (same_bucket p.remote addr same))
            | inr other ↦
                ap (find_in ports addr)
                  (get_or-set_ne hash b (a2j_port_hash addr) (i ∷ get_or hash b []) [] ne)
                ∙ rw other refl
          ]
    ]

-- What a walk finds among ports added one by one: the last of them at the address, else `r`.
abbrev pub newest : List Port → Addr → List ℕ → Option ℕ → Option ℕ
newest ports addr [] r = r
newest ports addr (i ∷ is) r = elim (get_elem? ports i) [
  | none ↦ newest ports addr is r
  | some p ↦ newest ports addr is (if same_addr p.remote addr then some i else r)
]

length-insert :
    (hash : List (List ℕ)) (i : ℕ) (p : Port) → length (a2j_port_insert hash i p) ≡ length hash
unfolding a2j_port_insert
length-insert hash i p =
    length-set hash (a2j_port_hash p.remote) (i ∷ get_or hash (a2j_port_hash p.remote) [])

-- After the queue of new ports is emptied into a hash of 16 chains, the port found at an address is
-- the last one of the queue that has this address; where there is none, it is the port found before.
pub get-add_ports :
    (ports : List Port) (new_ports : List ℕ) (hash : List (List ℕ)) (addr : Addr)
    → length hash ≡ port_hash_size
    → a2j_port_get ports (a2j_add_ports ports new_ports hash) addr
      ≡ newest ports addr new_ports (a2j_port_get ports hash addr)
unfolding a2j_add_ports
get-add_ports ports [] hash addr size = refl
get-add_ports ports (i ∷ is) hash addr size = elim (Option-cases (get_elem? ports i)) [
  | inl e ↦ rw (e, a2j_add_ports, newest) (get-add_ports ports is hash addr size)
  | inr (p, e) ↦
      rw (e, a2j_add_ports, newest)
        (get-add_ports ports is (a2j_port_insert hash i p) addr (length-insert hash i p ∙ size)
          ∙ ap (newest ports addr is) (get-insert ports hash addr i p size e))
]

find_in-gone :
    (ports : List Port) (addr : Addr) (i : ℕ) (chain : List ℕ)
    → get_elem? ports i ≡ none
    → find_in ports addr (i ∷ chain) ≡ none
unfolding find_in
find_in-gone ports addr i chain e = rw (e, find_in) refl

setdead_found :
    (ports : List Port) (hash : List (List ℕ)) (addr : Addr) (i : ℕ) (p : Port)
    → a2j_port_get ports hash addr ≡ some i
    → get_elem? ports i ≡ some p
    → a2j_port_setdead ports hash addr ≡ set ports i (record p { is_dead = true })
unfolding a2j_port_setdead
setdead_found ports hash addr i p found at =
    rw (found, a2j_port_setdead) (rw (at, a2j_port_setdead) refl)

-- Marking a port changes no address.
find_in-marked :
    (ports : List Port) (j : ℕ) (q : Port) (addr : Addr) (chain : List ℕ)
    → get_elem? ports j ≡ some q
    → find_in (set ports j (record q { is_dead = true })) addr chain ≡ find_in ports addr chain
find_in-marked ports j q addr [] e = unfold find_in in refl
find_in-marked ports j q addr (i ∷ chain) e = elim (Bool-cases (i == j)) [
  | inl same ↦
      let eq : i ≡ j = (==_iff i j).0 same in
      let here : get_elem? (set ports j (record q { is_dead = true })) i
          ≡ some (record q { is_dead = true }) =
        rw eq
          (get_elem?-set_self ports j (record q { is_dead = true }) (lt_of_get_elem? ports j e)) in
      let was : get_elem? ports i ≡ some q = rw eq e in
      find_in-head (set ports j (record q { is_dead = true })) addr i (record q { is_dead = true })
        chain here
      ∙ ap (λ t. if same_addr q.remote addr then some i else t)
          (find_in-marked ports j q addr chain e)
      ∙ sym (find_in-head ports addr i q chain was)
  | inr other ↦
      let ne : j ≢ i = λ eq. absurd (ground (arith, eq)) in
      let as_before = get_elem?-set_ne ports (record q { is_dead = true }) ne in
      elim (Option-cases (get_elem? ports i)) [
        | inl gone ↦
            find_in-gone _ addr i chain (as_before ∙ gone)
            ∙ sym (find_in-gone ports addr i chain gone)
        | inr (p, at) ↦
            find_in-head _ addr i p chain (as_before ∙ at)
            ∙ ap (λ t. if same_addr p.remote addr then some i else t)
                (find_in-marked ports j q addr chain e)
            ∙ sym (find_in-head ports addr i p chain at)
      ]
]

-- Marking the port of an address as dead marks this port and no other, and the same ports are found
-- at every address as before.
pub setdead-get :
    (ports : List Port) (hash : List (List ℕ)) (addr : Addr) (i : ℕ) (p : Port)
    → a2j_port_get ports hash addr ≡ some i
    → get_elem? ports i ≡ some p
    → let ports' = a2j_port_setdead ports hash addr in
      (get_elem? ports' i ≡ some (record p { is_dead = true }))
      × ((j : ℕ) → i ≢ j → get_elem? ports' j ≡ get_elem? ports j)
      × ((other : Addr) → a2j_port_get ports' hash other ≡ a2j_port_get ports hash other)
setdead-get ports hash addr i p found at = rw (setdead_found ports hash addr i p found at) (
  get_elem?-set_self ports i (record p { is_dead = true }) (lt_of_get_elem? ports i at),
  λ j ne. get_elem?-set_ne ports (record p { is_dead = true }) ne,
  λ other.
      unfold a2j_port_get in
      find_in-marked ports i p other (get_or hash (a2j_port_hash other) []) at,
)
